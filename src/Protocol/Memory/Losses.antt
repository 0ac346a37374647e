-- ===== src/Protocol/Memory/Losses.antt =====
-- A memory transfer keeps its losses.
use fmtp_ldm.Prelude.{
  ℕ, ◌+◌, ◌++◌, Option, ◌≤◌, ◌<◌, ◌≡◌, refl, ◌∙◌, ◌⊎◌, true, false, some, List, [], ◌∷◌, ltb, leb,
  ◌==◌, not, ◌||◌, length, All, Bool-cases, inl, inr, arith,
}
use fmtp_ldm.Prelude.Memory.{write_at, byte_at, byte_at-write_at}
use fmtp_ldm.Protocol.{Header, RetransRequest}
use fmtp_ldm.Prelude.Word.{add32}
use fmtp_ldm.Protocol.FmtpReceiver.{request_packet, request_packets}
use fmtp_ldm.Protocol.Memory.{
  Nack, MemoryTransfer, handle_missing_packets, take_packet, multicast_packet, late_packet,
  late_packets, send_nack_messages, receive_retransmission, finish_transfer,
}

-- A packet of the multicast, with the random draw.
abbrev pub Drawn : Type 0
Drawn = Header × List ℕ × ℕ

unfoldable pub multicast_packets : (ℕ → ℕ) → ℕ → ℕ → MemoryTransfer → List Drawn → MemoryTransfer
multicast_packets stale_id session_id packet_loss_rate t [] = t
multicast_packets stale_id session_id packet_loss_rate t ((header, payload, draw) ∷ rest) =
    multicast_packets stale_id session_id packet_loss_rate
      (multicast_packet stale_id session_id packet_loss_rate t header payload draw) rest

-- The packet has no byte for place `i`.
abbrev pub Misses : ℕ → Header → List ℕ → Type 0
Misses i header payload = (i < header.seq_number) ⊎ (header.seq_number + length payload ≤ i)

missed_byte :
    (i : ℕ) (header : Header) (payload old : List ℕ)
    → Misses i header payload
    → byte_at (write_at header.seq_number payload old) i ≡ byte_at old i
missed_byte i header payload old m = byte_at-write_at header.seq_number payload old i ∙ elim m [
  | inl before ↦ let f : leb header.seq_number i ≡ false = ground arith in rw f refl
  | inr past ↦
      let f : leb header.seq_number i ≡ true = ground arith in
      let g : ltb i (header.seq_number + length payload) ≡ false = ground arith in rw (f, g) refl
]

module _ (stale_id : ℕ → ℕ) (i : ℕ) where
  -- The message of a request is what was left in the variable.
  abbrev pub NamesStale : RetransRequest → Type 0
  NamesStale req = req.msg_id ≡ stale_id req.seq_num

  -- No message of requests is filled, what the thread is given names no message, and byte `i` stays.
  record Unasked (t t' : MemoryTransfer) : Type 0 where
    nacks : t'.nack_list ≡ t.nack_list
    byte : byte_at t'.mem_data i ≡ byte_at t.mem_data i
    thread : All NamesStale t.retrans_list → All NamesStale t'.retrans_list

  Unasked-refl : (t : MemoryTransfer) → Unasked t t
  Unasked-refl t = record { nacks = refl; byte = refl; thread = λ a. a }

  Unasked-trans : (t u v : MemoryTransfer) → Unasked t u → Unasked u v → Unasked t v
  Unasked-trans t u v p q = record {
    nacks = q.nacks ∙ p.nacks;
    byte = q.byte ∙ p.byte;
    thread = λ a. q.thread (p.thread a);
  }

  All-snoc :
      (reqs : List RetransRequest) (req : RetransRequest)
      → All NamesStale reqs
      → NamesStale req
      → All NamesStale (reqs ++ req ∷ [])
  All-snoc [] req a n = (n, tt)
  All-snoc (r ∷ reqs) req (b, a) n = (b, All-snoc reqs req a n)

  missing-Unasked :
      (t : MemoryTransfer) (from to : ℕ) → Unasked t (handle_missing_packets stale_id t from to)
  unfolding handle_missing_packets
  missing-Unasked t from to = record {
    nacks = refl;
    byte = refl;
    thread = λ a. All-snoc t.retrans_list _ a refl;
  }

  write-Unasked :
      (t : MemoryTransfer) (header : Header) (payload : List ℕ) (offset : ℕ)
      → Misses i header payload
      → Unasked t
          (record t { mem_data = write_at header.seq_number payload t.mem_data; offset = offset })
  write-Unasked t header payload offset m = record {
    nacks = refl;
    byte = missed_byte i header payload t.mem_data m;
    thread = λ a. a;
  }

  take-Unasked :
      (t : MemoryTransfer) (header : Header) (payload : List ℕ)
      → Misses i header payload
      → Unasked t (take_packet stale_id t header payload)
  unfolding take_packet
  take-Unasked t header payload m =
      let end = add32 header.seq_number header.data_len in
      elim (Bool-cases (ltb t.offset header.seq_number)) [
        | inl e ↦
            let t' = handle_missing_packets stale_id t t.offset header.seq_number in
            rw (take_packet, e)
              (Unasked-trans t t' _ (missing-Unasked t t.offset header.seq_number)
                (write-Unasked t' header payload end m))
        | inr e ↦ rw (take_packet, e) (write-Unasked t header payload end m)
      ]

  multicast-Unasked :
      (session_id loss : ℕ) (t : MemoryTransfer) (header : Header) (payload : List ℕ) (draw : ℕ)
      → Misses i header payload
      → Unasked t (multicast_packet stale_id session_id loss t header payload draw)
  unfolding multicast_packet
  multicast-Unasked session_id loss t header payload draw m =
      elim (Bool-cases (not (header.session_id == session_id) || ltb header.seq_number t.offset)) [
        | inl skipped ↦ rw (multicast_packet, skipped) (Unasked-refl t)
        | inr new ↦ elim (Bool-cases (leb loss draw)) [
          | inl kept ↦ rw (multicast_packet, new, kept) (take-Unasked t header payload m)
          | inr dropped ↦ rw (multicast_packet, new, dropped) (Unasked-refl t)
        ]
      ]

  multicasts-Unasked :
      (session_id loss : ℕ) (packets : List Drawn) (t : MemoryTransfer)
      → All (λ (p : Drawn). Misses i p.0 p.1) packets
      → Unasked t (multicast_packets stale_id session_id loss t packets)
  unfolding multicast_packets
  multicasts-Unasked session_id loss [] t a = Unasked-refl t
  multicasts-Unasked session_id loss ((header, payload, draw) ∷ rest) t (m, a) =
      let t' = multicast_packet stale_id session_id loss t header payload draw in
      Unasked-trans t t' _ (multicast-Unasked session_id loss t header payload draw m)
        (multicasts-Unasked session_id loss rest t' a)

  late-Unasked :
      (t : MemoryTransfer) (header : Header) (payload : List ℕ)
      → Misses i header payload
      → Unasked t (late_packet stale_id t header payload)
  unfolding late_packet
  late-Unasked t header payload m = elim (Bool-cases (ltb header.seq_number t.offset)) [
    | inl old ↦ rw (late_packet, old) (Unasked-refl t)
    | inr new ↦ rw (late_packet, new) (take-Unasked t header payload m)
  ]

  lates-Unasked :
      (packets : List (Header × List ℕ)) (t : MemoryTransfer)
      → All (λ (p : Header × List ℕ). Misses i p.0 p.1) packets
      → Unasked t (late_packets stale_id t packets)
  unfolding late_packets
  lates-Unasked [] t a = Unasked-refl t
  lates-Unasked ((header, payload) ∷ rest) t (m, a) =
      let t' = late_packet stale_id t header payload in
      Unasked-trans t t' _ (late-Unasked t header payload m) (lates-Unasked rest t' a)

  -- The message that a request of the thread names, in its header and in its body.
  abbrev pub AsksStale : Header × RetransRequest → Type 0
  AsksStale (header, req) =
      (header.session_id ≡ stale_id req.seq_num) × (req.msg_id ≡ stale_id req.seq_num)

  request_packets-AsksStale :
      (reqs : List RetransRequest) → All NamesStale reqs → All AsksStale (request_packets reqs)
  unfolding request_packets request_packet
  request_packets-AsksStale [] a = tt
  request_packets-AsksStale (req ∷ reqs) (n, a) = ((n, n), request_packets-AsksStale reqs a)

  -- What a transfer ends with: `start` is what byte `i` was.
  abbrev pub KeepsLoss :
      ℕ → List (List Nack) × List (Header × RetransRequest) × Option (List ℕ) → Type 0
  KeepsLoss start (nacks, asks, answer) =
      (nacks ≡ [] ∷ [])
      × All AsksStale asks
      × ((mem : List ℕ) × (answer ≡ some mem) × (byte_at mem i ≡ start))

  -- The transfer, once no gap is left.
  ended-KeepsLoss :
      (start : ℕ) (t : MemoryTransfer) (replies : List (Header × List ℕ))
      → t.nack_list ≡ []
      → All NamesStale t.retrans_list
      → byte_at t.mem_data i ≡ start
      → KeepsLoss start (
        send_nack_messages t.nack_list,
        request_packets t.retrans_list,
        receive_retransmission t.mem_data t.nack_list replies,
      )
  unfolding send_nack_messages receive_retransmission
  ended-KeepsLoss start t replies e a same =
      rw e (refl, request_packets-AsksStale t.retrans_list a, (t.mem_data, refl, same))

  finish-KeepsLoss :
      (data_len : ℕ) (t t₁ : MemoryTransfer) (late replies : List (Header × List ℕ))
      → t.nack_list ≡ []
      → t.retrans_list ≡ []
      → Unasked t t₁
      → Unasked t₁ (late_packets stale_id t₁ late)
      → KeepsLoss (byte_at t.mem_data i) (finish_transfer stale_id t₁ data_len late replies)
  unfolding finish_transfer
  finish-KeepsLoss data_len t t₁ late replies e none_yet u v =
      let t₂ = late_packets stale_id t₁ late in
      let w = Unasked-trans t t₁ t₂ u v in
      let stale = w.thread (rw none_yet tt) in
      elim (Bool-cases (ltb t₂.offset data_len)) [
        | inl gap ↦
            let t₃ = handle_missing_packets stale_id t₂ t₂.offset data_len in
            let x = missing-Unasked t₂ t₂.offset data_len in
            rw (finish_transfer, gap)
              (ended-KeepsLoss (byte_at t.mem_data i) t₃ replies (x.nacks ∙ w.nacks ∙ e)
                (x.thread stale) (x.byte ∙ w.byte))
        | inr whole ↦
            rw (finish_transfer, whole)
              (ended-KeepsLoss (byte_at t.mem_data i) t₂ replies (w.nacks ∙ e) stale w.byte)
      ]

-- A memory transfer never repairs a loss. Whatever packets come, before the end message and after it,
-- the messages of requests are only the one that ends them, what the retransmission thread asks for
-- names its message by what was left in a variable that nothing sets, no retransmitted packet is
-- taken, and a byte that no multicast packet has carried stays as it was.
pub memory_loss_stays :
    (stale_id : ℕ → ℕ) (i session_id loss data_len : ℕ) (t : MemoryTransfer) (packets : List Drawn)
    (late replies : List (Header × List ℕ))
    → t.nack_list ≡ []
    → t.retrans_list ≡ []
    → All (λ (p : Drawn). Misses i p.0 p.1) packets
    → All (λ (p : Header × List ℕ). Misses i p.0 p.1) late
    → KeepsLoss stale_id i (byte_at t.mem_data i) (
        finish_transfer stale_id
          (multicast_packets stale_id session_id loss t packets)
          data_len
          late
          replies)
memory_loss_stays stale_id i session_id loss data_len t packets late replies e none_yet a b =
    let t₁ = multicast_packets stale_id session_id loss t packets in
    finish-KeepsLoss stale_id i data_len t t₁ late replies e none_yet
      (multicasts-Unasked stale_id i session_id loss packets t a)
      (lates-Unasked stale_id i late t₁ b)
