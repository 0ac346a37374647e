-- ===== src/Examples/Files.antt =====
-- The first protocol version at concrete inputs: file 7, three bytes, and the receiver on socket 11.
use fmtp_ldm.Prelude.{
  ℕ, ◌+◌, ◌≤◌, ◌<◌, ◌≡◌, refl, false, some, List, [], ◌∷◌, ◌++◌, length, inl, arith,
}
use fmtp_ldm.Prelude.Word.{u32_mod, add32}
use fmtp_ldm.Prelude.Dict.{lookup}
use fmtp_ldm.Prelude.Memory.{byte_at}
use fmtp_ldm.SenderMetadata.Sets.{member}
use fmtp_ldm.Protocol.{Header, fmtp_retrans_data}
use fmtp_ldm.Protocol.FmtpReceiver.{
  ReceiveStatus, FmtpReceiver, new_status, drain, handle_multicast_packet, handle_unicast_packet,
}
use fmtp_ldm.Protocol.FmtpReceiver.Receiving.{Arrival, data_header}
use fmtp_ldm.Protocol.FmtpReceiver.Offsets.{retx_misplaces_next}
use fmtp_ldm.Protocol.FmtpReceiver.Repairing.{Packet}
use fmtp_ldm.Protocol.FmtpSender.{
  MessageMetadata, RetransThread, retrans_loop, do_memory_transfer, FmtpSender, bof_out, eof_out,
  data_outs, send_file, MetadataMap,
}
use fmtp_ldm.Protocol.FmtpSender.Answers.{Answers, retrans_loop_lem}
use fmtp_ldm.Protocol.FmtpSender.Multicasts.{Names, do_memory_transfer_lem}
use fmtp_ldm.Protocol.FmtpSender.Files.{Pieces, send_file_lem}
use fmtp_ldm.Protocol.Serving.{IsReady, serve}
use fmtp_ldm.Protocol.Transfer.{bof_message, multicast_file, TakenOff, file_delivered}

abbrev file : List ℕ
file = 7 ∷ 8 ∷ 9 ∷ []

abbrev idle : FmtpReceiver
idle = record {
  recv_status_map = [];
  retrans_list = [];
  packet_loss_rate = 0;
  stats = record {
    total_recv_packets = 0;
    total_recv_bytes = 0;
    total_retrans_packets = 0;
    total_retrans_bytes = 0;
    num_recved_files = 0;
    num_failed_files = 0;
  };
}

abbrev meta : MessageMetadata
meta = record { msg_length = 3; file = file; unfinished_recvers = 11 ∷ 12 ∷ [] }

abbrev thread : RetransThread
thread = record { retrans_fd_map = []; timeout_set = [] }

-- Only the byte in the middle arrives.
abbrev arrivals : List Arrival
arrivals = record { seq = 1; len = 1; draw = 5 } ∷ []

small : length file < u32_mod
small = omega arith

ready : IsReady 7 file small 11 [] ((7, meta) ∷ []) thread
unfolding lookup member
ready = record { meta = meta; found = refl; bytes = refl; in_time = refl; descriptor = inl refl }

file_delivered_example :
    let (r, requests) =
      drain (multicast_file 7 file small 11 [] (bof_message 7 file small 11 []) idle [] arrivals) in
    (r' : FmtpReceiver) × (map' : MetadataMap) × (t' : RetransThread) × (st : ReceiveStatus)
    × (serve 11 [] requests r ((7, meta) ∷ []) thread ≡ some (r', map', t'))
    × TakenOff 7 file small 11 [] ((7, meta) ∷ []) map'
    × (lookup 7 r'.recv_status_map ≡ some st)
    × (st.file_open ≡ false)
    × (st.content ≡ file)
file_delivered_example =
    file_delivered 7 file small 11 [] (bof_message 7 file small 11 []) idle [] arrivals
      ((7, meta) ∷ []) thread refl (omega arith, omega arith) ready

-- Four bytes have been asked for; the first is repaired, and then the multicast goes on.
abbrev waiting : ReceiveStatus
waiting = record (new_status 8) { current_offset = 4; position = 4 }

abbrev repair : Header
repair = record { session_id = 7; seq_number = 0; data_len = 1; flags = fmtp_retrans_data }

abbrev receiving : FmtpReceiver
receiving = record idle { recv_status_map = (7, waiting) ∷ [] }

retx_misplaces_next_example :
    let r' =
      handle_multicast_packet
        (handle_unicast_packet receiving repair (1 ∷ []))
        (data_header 7 4 2)
        (5 ∷ 6 ∷ [])
        (bof_message 7 file small 11 [])
        0 in
    (st' : ReceiveStatus) × (lookup 7 r'.recv_status_map ≡ some st')
    × ((i : ℕ) → i < 2 → byte_at st'.content (0 + 1 + i) ≡ byte_at (5 ∷ 6 ∷ []) i)
    × ((i : ℕ) → 4 ≤ i → byte_at st'.content i ≡ byte_at waiting.content i)
    × (st'.current_offset ≡ add32 4 2)
    × (r'.retrans_list ≡ [])
unfolding lookup
retx_misplaces_next_example =
    retx_misplaces_next receiving waiting repair (1 ∷ []) (5 ∷ 6 ∷ []) 0
      (bof_message 7 file small 11 []) refl (refl, refl) refl refl (omega arith)

retrans_loop_example :
    (packets : List Packet) × (retrans_loop 3 7 file (4 ∷ []) 2 1 ≡ some packets)
    × Answers 7 file 1 2 packets
retrans_loop_example = retrans_loop_lem 7 file small 3 2 1 (4 ∷ []) (omega arith) (omega arith)

do_memory_transfer_example :
    (packets : List Packet) × (do_memory_transfer 7 file 5 ≡ some packets) × Names file 5 8 packets
do_memory_transfer_example = do_memory_transfer_lem 7 5 file (omega arith)

abbrev sender : FmtpSender
sender = record { cur_session_id = 6; metadata = []; conn_sock_list = 11 ∷ 12 ∷ [] }

send_file_example :
    (s' : FmtpSender) × (packets : List Packet) × (meta : MessageMetadata) × (send_file sender 280
        file
      ≡ some (
        s',
        bof_out
                (record {
                  session_id = s'.cur_session_id;
                  seq_number = 0;
                  data_len = 280;
                  flags = 1;
                })
                3
              ∷ data_outs packets
            ++ eof_out
                (record { session_id = s'.cur_session_id; seq_number = 0; data_len = 0; flags = 2 })
              ∷ [],
      ))
    × (s'.cur_session_id ≡ add32 6 1)
    × (lookup s'.cur_session_id s'.metadata ≡ some meta)
    × (meta.file ≡ file)
    × (meta.unfinished_recvers ≡ 11 ∷ 12 ∷ [])
    × Pieces 0 3 packets
send_file_example = send_file_lem sender 280 file (omega arith)
