-- ===== src/Protocol/FileRetrans.antt =====
-- The serial retransmission of a file in the first protocol version, protocol/FMTPSender.{h,cpp}:
-- `DoFileRetransmissionSerial`, with its cache of packets. Statistics and logs are not modelled.
pub mod Cached
pub mod Serial
use fmtp_ldm.Prelude.{
  ℕ, ◌+◌, Option, none, some, List, [], ◌∷◌, ltb, ◌==◌, take, length, if◌then◌else◌,
}
use fmtp_ldm.Prelude.Dict.{lookup, insert}
use fmtp_ldm.Prelude.Memory.{write_at, slice}
use fmtp_ldm.Protocol.{Header}
use fmtp_ldm.Protocol.FmtpReceiver.Repairing.{Packet}
use fmtp_ldm.Protocol.Memory.{
  Nack, MissingMap, nacks_of, receive_retrans_requests_serial, sort_sockets_by_shortest_jobs,
}

abbrev pub buffer_packet_size : ℕ
buffer_packet_size = 5480

-- `retrans_cache_list`, as the number of its buffers and of the packets in the last one, and
-- `packet_map`, from a sequence number to the header and the payload in the place that it points to.
pub record Cache : Type 0 where
  pub num_buffs : ℕ
  pub used : ℕ
  pub packet_map : List (ℕ × Packet)

abbrev pub new_cache : Cache
new_cache = record { num_buffs = 1; used = 0; packet_map = [] }

-- A new buffer when the last one is full; all that is cached is given up when there are too many.
unfoldable pub make_room : ℕ → Cache → Cache
make_room max_num_retrans_buffs c =
    if c.used == buffer_packet_size
    then (let c' : Cache =
          if ltb max_num_retrans_buffs c.num_buffs
          then record { num_buffs = 0; used = c.used; packet_map = [] }
          else c in
        record c' { num_buffs = c'.num_buffs + 1; used = 0 })
    else c

-- `stale_flags` and `stale` are what the memory of a place holds that nothing has been written to. A
-- place has room for one packet: the model is of requests for at most one payload of data, as a longer
-- one would run into the next place.
module _ (max_num_retrans_buffs session : ℕ) (file : List ℕ) (stale_flags : ℕ)
    (stale : List ℕ) where
  abbrev pub place : ℕ → ℕ → Packet
  place seq_num data_len = (
    record { session_id = session; seq_number = seq_num; data_len = data_len; flags = stale_flags },
    write_at 0 (slice seq_num data_len file) stale,
  )

  -- What is sent for a request: the header and `data_len` bytes of a place in the cache.
  unfoldable pub retrans_packet : Cache → Nack → Cache × Packet
  unfolding make_room
  retrans_packet c nack = elim (lookup nack.seq_num c.packet_map) [
    | some (header, payload) ↦ (c, (header, take nack.data_len payload))
    | none ↦
        let c' = make_room max_num_retrans_buffs c in
        let p = place nack.seq_num nack.data_len in
        (
          record c' { used = c'.used + 1; packet_map = insert nack.seq_num p c'.packet_map },
          (p.0, take nack.data_len p.1),
        )
  ]

  -- The requests of one socket.
  unfoldable pub retrans_list : Cache → List Nack → Cache × List Packet
  unfolding retrans_packet
  retrans_list c [] = (c, [])
  retrans_list c (nack ∷ nacks) =
      let (c', p) = retrans_packet c nack in
      let (c'', packets) = retrans_list c' nacks in (c'', p ∷ packets)

  -- The sockets in their order, each with what is sent to it.
  unfoldable pub retrans_socks : Cache → List ℕ → MissingMap → List (ℕ × List Packet)
  unfolding retrans_list
  retrans_socks c [] m = []
  retrans_socks c (sock ∷ socks) m =
      let (c', packets) = retrans_list c (nacks_of sock m) in
      (sock, packets) ∷ retrans_socks c' socks m

  -- `DoFileRetransmissionSerial`: `none` while the requests have not ended. `min_sock` is what the
  -- variable of the sort holds.
  unfoldable pub do_file_retransmission_serial :
      List (ℕ × Option (List Nack)) → List ℕ → ℕ → Option (List (ℕ × List Packet))
  unfolding retrans_socks
  do_file_retransmission_serial events sock_list min_sock =
      elim (receive_retrans_requests_serial events sock_list []) [
        | none ↦ none
        | some m ↦
            if length m == 0 then some [] else elim (sort_sockets_by_shortest_jobs min_sock m) [
              | none ↦ none
              | some socks ↦ some (retrans_socks new_cache socks m)
            ]
      ]
