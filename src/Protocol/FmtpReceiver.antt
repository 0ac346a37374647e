-- ===== src/Protocol/FmtpReceiver.antt =====
-- protocol/FMTPReceiver.{h,cpp}: the receiving thread on the packets of a file transfer, and the
-- retransmission thread. `SysError` only prints, so after each failed call the code goes on, as here.
-- The two descriptors of a file are `open` and `dup`, so they share one position. Files of different
-- messages are taken to be different files. Not modelled: clocks, statistics of a session, transfers of
-- memory, experiments.
pub mod Receiving
pub mod Repairing
pub mod Offsets
use fmtp_ldm.Prelude.{
  ℕ, ◌+◌, Bool, true, false, Option, none, some, List, [], ◌∷◌, ◌++◌, ltb, leb, ◌==◌, take, length,
  if◌then◌else◌,
}
use fmtp_ldm.Prelude.Word.{add32, sub32}
use fmtp_ldm.Prelude.Dict.{lookup, insert}
use fmtp_ldm.Prelude.Memory.{write_at}
use fmtp_ldm.Protocol.{
  Header, has_flag, fmtp_data, bof_bit, eof_bit, sender_msg_exp_bit, retrans_data_bit,
  retrans_end_bit, retrans_timeout_bit, fmtp_retrans_req, fmtp_retrans_end, RetransRequest,
}

-- `MessageReceiveStatus` without its times; `content` and `position` are those of the open file.
pub record ReceiveStatus : Type 0 where
  pub msg_length : ℕ
  pub current_offset : ℕ
  pub file_open : Bool
  pub retx_file_open : Bool
  pub is_multicast_done : Bool
  pub recv_failed : Bool
  pub content : List ℕ
  pub position : ℕ
  pub multicast_packets : ℕ
  pub multicast_bytes : ℕ
  pub retx_packets : ℕ
  pub retx_bytes : ℕ

-- The counters of `FmtpReceiverStats` that the handlers change.
pub record Stats : Type 0 where
  pub total_recv_packets : ℕ
  pub total_recv_bytes : ℕ
  pub total_retrans_packets : ℕ
  pub total_retrans_bytes : ℕ
  pub num_recved_files : ℕ
  pub num_failed_files : ℕ

pub record FmtpReceiver : Type 0 where
  pub recv_status_map : List (ℕ × ReceiveStatus)
  pub retrans_list : List RetransRequest
  pub packet_loss_rate : ℕ
  pub stats : Stats

abbrev pub request : ℕ → ℕ → ℕ → RetransRequest
request msg_id current_offset received_seq = record {
  msg_id = msg_id;
  seq_num = current_offset;
  data_len = sub32 received_seq current_offset;
}

unfoldable pub add_retx_request : FmtpReceiver → ℕ → ℕ → ℕ → FmtpReceiver
add_retx_request r msg_id current_offset received_seq = record r {
  retrans_list = r.retrans_list ++ request msg_id current_offset received_seq ∷ [];
}

-- `PrepareForFileTransfer`, for a name that can be opened. The read-ahead buffer is never filled: its
-- session stays -1, and no packet is taken from it.
abbrev pub new_status : ℕ → ReceiveStatus
new_status msg_length = record {
  msg_length = msg_length;
  current_offset = 0;
  file_open = true;
  retx_file_open = false;
  is_multicast_done = false;
  recv_failed = false;
  content = [];
  position = 0;
  multicast_packets = 0;
  multicast_bytes = 0;
  retx_packets = 0;
  retx_bytes = 0;
}

unfoldable pub prepare_for_file_transfer : FmtpReceiver → ℕ → ℕ → FmtpReceiver
prepare_for_file_transfer r msg_id msg_length = record r {
  recv_status_map = insert msg_id (new_status msg_length) r.recv_status_map;
  stats = record r.stats { num_recved_files = add32 r.stats.num_recved_files 1 };
}

unfoldable pub handle_eof_message : FmtpReceiver → ℕ → FmtpReceiver
unfolding add_retx_request
handle_eof_message r msg_id = elim (lookup msg_id r.recv_status_map) [
  | none ↦ add_retx_request r msg_id 0 0
  | some status ↦
      let lost = ltb status.current_offset status.msg_length in
      let r' =
        if lost then add_retx_request r msg_id status.current_offset status.msg_length else r in
      let status' : ReceiveStatus = record status {
        is_multicast_done = true;
        current_offset = if lost then status.msg_length else status.current_offset;
      } in
      add_retx_request (record r' { recv_status_map = insert msg_id status' r'.recv_status_map })
        msg_id 0 0
]

-- The write of a data packet: `lseek` only over a gap, otherwise where the file stands.
unfoldable pub write_multicast : ReceiveStatus → Header → List ℕ → ReceiveStatus
write_multicast status header payload =
    let moved =
      if ltb status.current_offset header.seq_number
      then (if status.file_open then header.seq_number else status.position)
      else status.position in
    record status {
      content = if status.file_open then write_at moved payload status.content else status.content;
      position = if status.file_open then moved + length payload else moved;
      current_offset = add32 header.seq_number header.data_len;
      multicast_packets = status.multicast_packets + 1;
      multicast_bytes = status.multicast_bytes + header.data_len;
    }

unfoldable pub count_received : Stats → ℕ → Stats
count_received stats data_len = record stats {
  total_recv_packets = add32 stats.total_recv_packets 1;
  total_recv_bytes = add32 stats.total_recv_bytes data_len;
}

-- The branch of `HandleMulticastPacket` for data. `draw` is `rand() % 1000`.
unfoldable pub handle_data : FmtpReceiver → Header → List ℕ → ℕ → FmtpReceiver
handle_data r header payload draw = elim (lookup header.session_id r.recv_status_map) [
  | none ↦ r
  | some status ↦
      if status.recv_failed
      then r
      else if leb r.packet_loss_rate draw
      then (let r' =
            if ltb status.current_offset header.seq_number
            then add_retx_request r header.session_id status.current_offset header.seq_number
            else r in
          record r' {
            recv_status_map =
                insert header.session_id (write_multicast status header payload) r'.recv_status_map;
            stats = count_received r'.stats header.data_len;
          })
      else r
]

-- What a BOF announces: its `msg_type`, `session_id` and `data_len`.
pub record SenderMessage : Type 0 where
  pub msg_type : ℕ
  pub session_id : ℕ
  pub data_len : ℕ

abbrev pub file_transfer_start : ℕ
file_transfer_start = 5

-- `HandleMulticastPacket`. `payload` is the `data_len` bytes that follow the header, and `msg` is what
-- they say when they are read as a message. A BOF of another type hands the socket to a transfer that
-- is not modelled.
unfoldable pub handle_multicast_packet :
    FmtpReceiver → Header → List ℕ → SenderMessage → ℕ → FmtpReceiver
unfolding has_flag prepare_for_file_transfer handle_eof_message handle_data
handle_multicast_packet r header payload msg draw =
    if has_flag header.flags bof_bit
    then (if msg.msg_type == file_transfer_start
        then prepare_for_file_transfer r msg.session_id msg.data_len
        else r)
    else if has_flag header.flags eof_bit
    then handle_eof_message r header.session_id
    else if header.flags == fmtp_data
    then handle_data r header payload draw
    else r

-- Retransmitted data: `dup` on first use, then `lseek` and `write`.
unfoldable pub write_retx : ReceiveStatus → Header → List ℕ → ReceiveStatus
write_retx status header payload =
    let usable = if status.retx_file_open then true else status.file_open in
    record status {
      retx_file_open = usable;
      content =
          if usable then write_at header.seq_number payload status.content else status.content;
      position = if usable then header.seq_number + length payload else status.position;
      retx_packets = status.retx_packets + 1;
      retx_bytes = status.retx_bytes + header.data_len;
    }

unfoldable pub count_retrans : Stats → ℕ → Stats
count_retrans stats data_len = record stats {
  total_recv_packets = add32 stats.total_recv_packets 1;
  total_recv_bytes = add32 stats.total_recv_bytes data_len;
  total_retrans_packets = add32 stats.total_retrans_packets 1;
  total_retrans_bytes = add32 stats.total_retrans_bytes data_len;
}

unfoldable pub close_files : ReceiveStatus → ReceiveStatus
close_files status = record status { file_open = false; retx_file_open = false }

-- `HandleUnicastPacket`; a message of the experiments is not modelled.
unfoldable pub handle_unicast_packet : FmtpReceiver → Header → List ℕ → FmtpReceiver
unfolding has_flag write_retx count_retrans close_files
handle_unicast_packet r header payload =
    let found = lookup header.session_id r.recv_status_map in
    if has_flag header.flags sender_msg_exp_bit
    then r
    else if has_flag header.flags retrans_data_bit
    then elim found [
      | none ↦ r
      | some status ↦ record r {
        recv_status_map =
            insert header.session_id (write_retx status header payload) r.recv_status_map;
        stats = count_retrans r.stats header.data_len;
      }
    ]
    else if has_flag header.flags retrans_end_bit
    then elim found [
      | none ↦ r
      | some status ↦ record r {
        recv_status_map = insert header.session_id (close_files status) r.recv_status_map;
      }
    ]
    else if has_flag header.flags retrans_timeout_bit
    then elim found [
      | none ↦ r
      | some status ↦ if status.recv_failed then r else record r {
        recv_status_map =
            insert header.session_id (record (close_files status) { recv_failed = true })
              r.recv_status_map;
        stats = record r.stats { num_failed_files = add32 r.stats.num_failed_files 1 };
      }
    ]
    else r

-- What the retransmission thread sends: a header and the request.
unfoldable pub request_packet : RetransRequest → Header × RetransRequest
request_packet req = (
  record {
    session_id = req.msg_id;
    seq_number = 0;
    data_len = 12;
    flags = if req.data_len == 0 then fmtp_retrans_end else fmtp_retrans_req;
  },
  req,
)

unfoldable pub request_packets : List RetransRequest → List (Header × RetransRequest)
unfolding request_packet
request_packets [] = []
request_packets (req ∷ reqs) = request_packet req ∷ request_packets reqs

-- A round of `RunRetransmissionThread`: the list is emptied into the connection.
unfoldable pub drain : FmtpReceiver → FmtpReceiver × List (Header × RetransRequest)
unfolding request_packets
drain r = (record r { retrans_list = [] }, request_packets r.retrans_list)
