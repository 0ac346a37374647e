-- ===== src/Protocol/Memory.antt =====
-- Transfers of memory in the first protocol version, protocol/FMTPReceiver.cpp and
-- protocol/FMTPSender.cpp: `ReceiveMemoryData`, the messages in which a receiver lists what it lacks,
-- and their collection and answer by the sender. Statistics, clocks and logs are not modelled.
pub mod Losses
pub mod Messages
pub mod Nacks
pub mod Shortest
pub mod Sorting
pub mod Answered
use fmtp_ldm.Prelude.{
  ℕ, zero, suc, ◌+◌, ◌^◌, Bool, true, false, Option, none, some, List, [], ◌∷◌, ◌++◌, ltb, leb,
  ◌==◌, not, ◌||◌, length, if◌then◌else◌,
}
use fmtp_ldm.Prelude.Word.{add32, sub32}
use fmtp_ldm.Prelude.Dict.{lookup, insert, erase}
use fmtp_ldm.Prelude.Memory.{write_at, slice}
use fmtp_ldm.SenderMetadata.Sets.{remove}
use fmtp_ldm.Protocol.{Header, fmtp_data, RetransRequest}
use fmtp_ldm.Protocol.FmtpReceiver.{request_packets}

-- `FmtpNackMessage`
pub record Nack : Type 0 where
  pub seq_num : ℕ
  pub data_len : ℕ

-- What `ReceiveMemoryData` keeps. `retrans_list` is what has been given to the retransmission thread.
pub record MemoryTransfer : Type 0 where
  pub offset : ℕ
  pub mem_data : List ℕ
  pub nack_list : List Nack
  pub retrans_list : List RetransRequest
  pub total_missing_bytes : ℕ

-- `stale_id` is what the `msg_id` of the request for the gap at a place holds, which nothing sets.
module _ (stale_id : ℕ → ℕ) where
  unfoldable pub handle_missing_packets : MemoryTransfer → ℕ → ℕ → MemoryTransfer
  handle_missing_packets t current_offset received_seq =
      let req : RetransRequest = record {
        msg_id = stale_id current_offset;
        seq_num = current_offset;
        data_len = sub32 received_seq current_offset;
      } in
      record t {
        retrans_list = t.retrans_list ++ req ∷ [];
        total_missing_bytes = t.total_missing_bytes + req.data_len;
      }

  -- A packet that is taken: the gap before it, the copy, the new offset.
  unfoldable pub take_packet : MemoryTransfer → Header → List ℕ → MemoryTransfer
  unfolding handle_missing_packets
  take_packet t header payload =
      let t' =
        if ltb t.offset header.seq_number
        then handle_missing_packets t t.offset header.seq_number
        else t in
      record t' {
        mem_data = write_at header.seq_number payload t'.mem_data;
        offset = add32 header.seq_number header.data_len;
      }

  -- A packet during the multicast; `draw` is `rand() % 1000`.
  unfoldable pub multicast_packet : ℕ → ℕ → MemoryTransfer → Header → List ℕ → ℕ → MemoryTransfer
  multicast_packet session_id packet_loss_rate t header payload draw =
      if not (header.session_id == session_id) || ltb header.seq_number t.offset
      then t
      else if leb packet_loss_rate draw
      then take_packet t header payload
      else t

  -- A packet that is still in the socket when the transfer has finished.
  unfoldable pub late_packet : MemoryTransfer → Header → List ℕ → MemoryTransfer
  late_packet t header payload =
      if ltb header.seq_number t.offset then t else take_packet t header payload

  unfoldable pub late_packets : MemoryTransfer → List (Header × List ℕ) → MemoryTransfer
  late_packets t [] = t
  late_packets t ((header, payload) ∷ rest) = late_packets (late_packet t header payload) rest

abbrev pub max_num_nack_req : ℕ
max_num_nack_req = 50

-- The loop of `SendNackMessages`: `msg` are the requests of the message that is being filled.
unfoldable pub nack_loop : List Nack → List Nack → List (List Nack)
nack_loop msg [] = if ltb 0 (length msg) then msg ∷ [] else []
nack_loop msg (nack ∷ nacks) =
    let msg' = msg ++ nack ∷ [] in
    let sent = nack_loop [] nacks in
    let unsent = nack_loop msg' nacks in
    if length msg' == max_num_nack_req then msg' ∷ sent else unsent

-- `SendNackMessages`: the messages, and one without requests at the end.
unfoldable pub send_nack_messages : List Nack → List (List Nack)
unfolding nack_loop
send_nack_messages nacks = nack_loop [] nacks ++ [] ∷ []

-- The loop of `DoMemoryDataRetransmission` of the receiver: one packet for each request; `none` while it
-- waits for a packet that does not come.
unfoldable pub receive_retransmission :
    List ℕ → List Nack → List (Header × List ℕ) → Option (List ℕ)
receive_retransmission mem [] replies = some mem
receive_retransmission mem (nack ∷ nacks) [] = none
receive_retransmission mem (nack ∷ nacks) ((header, payload) ∷ replies) =
    receive_retransmission (write_at header.seq_number payload mem) nacks replies

-- The case MEMORY_TRANSFER_FINISH of `ReceiveMemoryData`: what is left in the socket, the gap at the end,
-- the messages of `SendNackMessages`, the requests that the retransmission thread sends for its list,
-- and the memory when the retransmission has ended.
unfoldable pub finish_transfer :
    (ℕ → ℕ)
    → MemoryTransfer
    → ℕ
    → List (Header × List ℕ)
    → List (Header × List ℕ)
    → List (List Nack) × List (Header × RetransRequest) × Option (List ℕ)
unfolding send_nack_messages request_packets
finish_transfer stale_id t data_len late replies =
    let t₁ = late_packets stale_id t late in
    let t₂ =
      if ltb t₁.offset data_len
      then handle_missing_packets stale_id t₁ t₁.offset data_len
      else t₁ in
    (
      send_nack_messages t₂.nack_list,
      request_packets t₂.retrans_list,
      receive_retransmission t₂.mem_data t₂.nack_list replies,
    )

-- The sender's map from a socket to the requests that came on it.
abbrev pub MissingMap : Type 0
MissingMap = List (ℕ × List Nack)

unfoldable pub nacks_of : ℕ → MissingMap → List Nack
nacks_of sock m = elim (lookup sock m) [ none ↦ [] | some nacks ↦ nacks ]

-- The `push_back` of each request of a message.
unfoldable pub push_all : ℕ → List Nack → MissingMap → MissingMap
push_all sock [] m = m
push_all sock (nack ∷ nacks) m = push_all sock nacks (insert sock (nacks_of sock m ++ nack ∷ []) m)

-- The loop of `ReceiveRetransRequestsSerial` over what `SelectReceive` returns: the socket, and the
-- requests of a message, or `none` for a broken connection. It ends when every socket has ended; `none`
-- is the answer while messages are wanting.
unfoldable pub receive_retrans_requests_serial :
    List (ℕ × Option (List Nack)) → List ℕ → MissingMap → Option MissingMap
receive_retrans_requests_serial events [] m = some m
receive_retrans_requests_serial [] (sock ∷ socks) m = none
receive_retrans_requests_serial ((from, none) ∷ events) (sock ∷ socks) m =
    receive_retrans_requests_serial events (remove from (sock ∷ socks)) m
receive_retrans_requests_serial ((from, some []) ∷ events) (sock ∷ socks) m =
    receive_retrans_requests_serial events (remove from (sock ∷ socks)) m
receive_retrans_requests_serial ((from, some (nack ∷ nacks)) ∷ events) (sock ∷ socks) m =
    receive_retrans_requests_serial events (sock ∷ socks) (push_all from (nack ∷ nacks) m)

-- The answers to the requests of one socket, from the memory that is sent.
unfoldable pub answer_nacks : ℕ → List ℕ → List Nack → List (Header × List ℕ)
answer_nacks session_id content [] = []
answer_nacks session_id content (nack ∷ nacks) =
    (
      record {
        session_id = session_id;
        seq_number = nack.seq_num;
        data_len = nack.data_len;
        flags = fmtp_data;
      },
      slice nack.seq_num nack.data_len content,
    )
    ∷ answer_nacks session_id content nacks

-- One pass of `SortSocketsByShortestJobs` over the sockets that are left, in the order of the map.
unfoldable pub find_shortest : ℕ → ℕ → List (ℕ × ℕ) → ℕ
find_shortest min_sock min_num [] = min_sock
find_shortest min_sock min_num ((sock, num) ∷ rest) =
    let smaller = find_shortest sock num rest in
    let same = find_shortest min_sock min_num rest in if ltb num min_num then smaller else same

abbrev pub int_max : ℕ
int_max = 0x7fffffff

-- The passes, on fuel: `none` if that runs out. `min_sock` is what the pass before has found, or what
-- the variable held.
unfoldable pub sort_loop : ℕ → ℕ → List (ℕ × ℕ) → Option (List ℕ)
sort_loop fuel min_sock [] = some []
sort_loop zero min_sock (entry ∷ entries) = none
sort_loop (suc fuel) min_sock (entry ∷ entries) =
    let found = find_shortest min_sock int_max (entry ∷ entries) in
    elim (sort_loop fuel found (erase found (entry ∷ entries))) [
      | none ↦ none
      | some socks ↦ some (found ∷ socks)
    ]

-- `num_sockets`: how many requests each socket has.
unfoldable pub num_sockets : MissingMap → List (ℕ × ℕ)
num_sockets [] = []
num_sockets ((sock, nacks) ∷ rest) = (sock, length nacks) ∷ num_sockets rest

unfoldable pub sort_sockets_by_shortest_jobs : ℕ → MissingMap → Option (List ℕ)
unfolding sort_loop num_sockets
sort_sockets_by_shortest_jobs min_sock m = sort_loop (length m) min_sock (num_sockets m)
