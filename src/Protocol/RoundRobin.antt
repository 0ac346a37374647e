-- ===== src/Protocol/RoundRobin.antt =====
-- The round robin retransmission of a file in the first protocol version, protocol/FMTPSender.cpp:
-- `ReceiveRetransRequestsSerialRR` and `DoFileRetransmissionSerialRR`, with the order of requests of
-- protocol/fmtp.cpp. Statistics are not modelled.
pub mod Asked
pub mod Plain
pub mod Collected
pub mod Compared
use fmtp_ldm.Prelude.{
  ℕ, Bool, Option, none, some, List, [], ◌∷◌, ◌++◌, map, ltb, ◌==◌, ◌&&◌, ◌||◌, if◌then◌else◌,
}
use fmtp_ldm.SenderMetadata.Sets.{remove}
use fmtp_ldm.Protocol.FmtpReceiver.Repairing.{Packet}
use fmtp_ldm.Protocol.Memory.{Nack, MissingMap}
use fmtp_ldm.Protocol.Parallel.{read_block, block_packet}

-- `operator<` on `FmtpNackMessage`
unfoldable pub nack_lt : Nack → Nack → Bool
nack_lt l r = ltb l.seq_num r.seq_num || (l.seq_num == r.seq_num && ltb l.data_len r.data_len)

-- The map from a request to the sockets that it came on, in the order of its keys.
abbrev pub RrMap : Type 0
RrMap = List (Nack × List ℕ)

-- `map[nack].push_back(sock)`
unfoldable pub push_sock : Nack → ℕ → RrMap → RrMap
unfolding nack_lt
push_sock nack sock [] = (nack, sock ∷ []) ∷ []
push_sock nack sock ((key, socks) ∷ rest) =
    if nack_lt nack key
    then (nack, sock ∷ []) ∷ (key, socks) ∷ rest
    else if nack_lt key nack
    then (key, socks) ∷ push_sock nack sock rest
    else (key, socks ++ sock ∷ []) ∷ rest

-- The requests of a message.
unfoldable pub push_nacks : ℕ → List Nack → RrMap → RrMap
unfolding push_sock
push_nacks sock [] m = m
push_nacks sock (nack ∷ nacks) m = push_nacks sock nacks (push_sock nack sock m)

-- The loop of `ReceiveRetransRequestsSerialRR`, on what `SelectReceive` returns.
unfoldable pub receive_retrans_requests_serial_rr :
    List (ℕ × Option (List Nack)) → List ℕ → RrMap → Option RrMap
unfolding push_nacks
receive_retrans_requests_serial_rr events [] m = some m
receive_retrans_requests_serial_rr [] (sock ∷ socks) m = none
receive_retrans_requests_serial_rr ((from, none) ∷ events) (sock ∷ socks) m =
    receive_retrans_requests_serial_rr events (remove from (sock ∷ socks)) m
receive_retrans_requests_serial_rr ((from, some []) ∷ events) (sock ∷ socks) m =
    receive_retrans_requests_serial_rr events (remove from (sock ∷ socks)) m
receive_retrans_requests_serial_rr ((from, some (nack ∷ nacks)) ∷ events) (sock ∷ socks) m =
    receive_retrans_requests_serial_rr events (sock ∷ socks) (push_nacks from (nack ∷ nacks) m)

module _ (session : ℕ) (file : List ℕ) (stale_flags : ℕ) where
  -- The packet of one request, to each of its sockets; `buffer` is what `packet_buf` holds after the
  -- header, and is handed on.
  unfoldable pub send_to_socks : Nack → List ℕ → List ℕ → List (ℕ × Packet) × List ℕ
  send_to_socks nack [] buffer = ([], buffer)
  send_to_socks nack (sock ∷ socks) buffer =
      let (outs, last) =
        send_to_socks nack socks (read_block session file stale_flags nack buffer) in
      ((sock, block_packet session file stale_flags nack buffer) ∷ outs, last)

  unfoldable pub send_map : RrMap → List ℕ → List (ℕ × Packet)
  unfolding send_to_socks
  send_map [] buffer = []
  send_map ((nack, socks) ∷ rest) buffer =
      let (outs, last) = send_to_socks nack socks buffer in outs ++ send_map rest last

  unfoldable pub do_file_retransmission_serial_rr :
      List (ℕ × Option (List Nack)) → List ℕ → List ℕ → Option (List (ℕ × Packet))
  unfolding receive_retrans_requests_serial_rr send_map
  do_file_retransmission_serial_rr events sock_list buffer =
      elim (receive_retrans_requests_serial_rr events sock_list []) [
        | none ↦ none
        | some m ↦ some (send_map m buffer)
      ]
