-- ===== src/Sender/UdpSerializer/Bop.antt =====
-- `SendBOPMessage` through the serializer: nothing throws, and the packet is that of the model of the
-- sender.
use fmtp_ldm.Prelude.{
  ℕ, ◌+◌, ◌-◌, ◌/◌, ◌%◌, ◌^◌, ◌≤◌, ◌<◌, ◌≡◌, refl, sym, ap, subst, ◌∙◌, true, false, none, some,
  List, [], ◌∷◌, ◌++◌, append-nil, ltb, leb, length, length-append, take-length, arith, inl, inr,
  Bool-cases,
}
use fmtp_ldm.Prelude.Word.{to_u16}
use fmtp_ldm.Prelude.Memory.{write_at}
use fmtp_ldm.FmtpBase.{
  FmtpHeader, be16, be32, be64, encode_header, encode_bop, fmtp_bop, fmtp_data_len, avail_bop_len,
}
use fmtp_ldm.Sender.State.{multicast, header}
use fmtp_ldm.Sender.Multicast.{send_bop_message}
use fmtp_ldm.Sender.UdpSerializer.{flush, reset}
use fmtp_ldm.Sender.UdpSerializer.{
  outside, UdpSerializer, max_fmtp_packet_len, next_buf_seg, add_bytes, Item, uint16, uint32,
  uint64, memory, vet_seg, add, encode_memory, encode, encode_all, bop_items, flush_all, gather,
  send_bop_serialized, Serialized, then_encode,
}
use fmtp_ldm.Sender.UdpSerializer.Refine.{encode_all-Appends, flush_lem}
use fmtp_ldm.Sender.UdpSerializer.Held.{IsSerializer, pending, all_bytes, item_bytes, Appends}

-- What an item takes of the buffer, and of the array of segments.
abbrev pub fixed_len : Item → ℕ
fixed_len (uint16 v) = 2
fixed_len (uint32 v) = 4
fixed_len (uint64 v) = 8
fixed_len (memory bytes) = 0

abbrev pub segments_of : Item → ℕ
segments_of (uint16 v) = 0
segments_of (uint32 v) = 0
segments_of (uint64 v) = 0
segments_of (memory bytes) = 2

abbrev pub total : (Item → ℕ) → List Item → ℕ
total f [] = 0
total f (item ∷ items) = f item + total f items

-- The operation returns, and takes no more than its share.
abbrev Returns : UdpSerializer → ℕ → ℕ → Serialized → Type 0
Returns s len segments (s', none) =
    (s'.next ≤ s.next + len) × (length s'.iovec ≤ length s.iovec + segments)
Returns s len segments (s', some e) = ⊥

next_buf_seg-next : (s : UdpSerializer) → (next_buf_seg s).next ≡ s.next
unfolding next_buf_seg
next_buf_seg-next s = ground arith

next_buf_seg-iovec : (s : UdpSerializer) → length (next_buf_seg s).iovec ≤ length s.iovec + 1
unfolding next_buf_seg
next_buf_seg-iovec s = elim (Bool-cases (ltb s.start s.next)) [
  | inl t ↦ rw t (omega (arith, length-append s.iovec))
  | inr t ↦ rw t (omega arith)
]

module _ (iov_max : ℕ) where
  add-Returns :
      (s : UdpSerializer) (bytes : List ℕ)
      → s.next + length bytes ≤ max_fmtp_packet_len
      → length s.iovec < iov_max
      → Returns s (length bytes) 0 (add iov_max s bytes)
  unfolding add add_bytes vet_seg
  add-Returns s bytes h r =
      let t : leb iov_max (length s.iovec) ≡ false = ground arith in
      let u : ltb max_fmtp_packet_len (s.next + length bytes) ≡ false = ground arith in
      let e : add iov_max s bytes
          ≡ (record s { buf = write_at s.next bytes s.buf; next = s.next + length bytes }, none) =
        rw (add, t, u) refl in
      subst (Returns s (length bytes) 0) (sym e) (omega arith)

  memory-Returns :
      (s : UdpSerializer) (bytes : List ℕ)
      → length s.iovec + 2 ≤ iov_max
      → Returns s 0 2 (encode_memory iov_max s bytes)
  unfolding encode_memory vet_seg
  memory-Returns s [] r = omega arith
  memory-Returns s (b ∷ bs) r =
      let s' = next_buf_seg s in
      let bytes : List ℕ = b ∷ bs in
      let u : ltb 0 (length bytes) ≡ true = ground arith in
      let t : leb iov_max (length s'.iovec) ≡ false = ground (arith, next_buf_seg-iovec s) in
      let e : encode_memory iov_max s bytes
          ≡ (record s' { iovec = s'.iovec ++ outside bytes ∷ [] }, none) =
        rw (u, t) refl in
      subst (Returns s 0 2) (sym e) (
        omega (
          arith,
          next_buf_seg-next s,
          next_buf_seg-iovec s,
          length-append s'.iovec (outside bytes ∷ []),
        ))

  then-Returns :
      (s : UdpSerializer) (m n k l : ℕ) (r : Serialized) (next : UdpSerializer → Serialized)
      → Returns s m k r
      → ((s' : UdpSerializer)
          → s'.next ≤ s.next + m
          → length s'.iovec ≤ length s.iovec + k
          → Returns s' n l (next s'))
      → Returns s (m + n) (k + l) (then_encode r next)
  then-Returns s m n k l (s', some e) next h f = h
  then-Returns s m n k l (s', none) next h f = widen (next s') (f s' h.0 h.1)
    where
      widen : (r : Serialized) → Returns s' n l r → Returns s (m + n) (k + l) r
      widen (s'', some e) g = g
      widen (s'', none) g = omega (arith, h)

  encode-Returns :
      (s : UdpSerializer) (item : Item)
      → s.next + fixed_len item ≤ max_fmtp_packet_len
      → length s.iovec + segments_of item < iov_max
      → Returns s (fixed_len item) (segments_of item) (encode iov_max s item)
  unfolding encode be16 be32
  encode-Returns s (uint16 v) h r = add-Returns s (be16 v) h (omega arith)
  encode-Returns s (uint32 v) h r = add-Returns s (be32 v) h (omega arith)
  encode-Returns s (uint64 v) h r =
      then-Returns s 4 4 0 0 _ _ (add-Returns s (be32 (v / 2 ^ 32)) (omega arith) (omega arith))
        (λ s' n i. add-Returns s' (be32 (v % 2 ^ 32)) (omega arith) (omega arith))
  encode-Returns s (memory bytes) h r = memory-Returns s bytes (omega arith)

  -- Items that fit are encoded.
  pub encode_all-Returns :
      (s : UdpSerializer) (items : List Item)
      → s.next + total fixed_len items ≤ max_fmtp_packet_len
      → length s.iovec + total segments_of items < iov_max
      → Returns s (total fixed_len items) (total segments_of items) (encode_all iov_max s items)
  unfolding encode_all
  encode_all-Returns s [] h r = omega arith
  encode_all-Returns s (item ∷ items) h r =
      then-Returns s (fixed_len item) _ (segments_of item) _ _ _
        (encode-Returns s item (omega arith) (omega arith))
        (λ s' n i. encode_all-Returns s' items (omega arith) (omega arith))

-- As the constructor leaves it, but for the bytes of the buffer.
pub record IsFresh (iov_max : ℕ) (s : UdpSerializer) : Type 0 where
  pub sound : IsSerializer iov_max s
  pub at_start : s.start ≡ 0
  pub at_next : s.next ≡ 0
  pub no_segments : s.iovec ≡ []

flush_all_lem :
    (iov_max m n : ℕ) (bytes : List ℕ) (s : UdpSerializer) (r : Serialized)
    → pending s ≡ []
    → Returns s m n r
    → Appends iov_max s bytes r
    → ((flush_all r true).1 ≡ some bytes)
      × IsFresh iov_max (flush_all r true).0.0
      × ((flush_all r true).0.1 ≡ none)
unfolding flush_all flush reset
flush_all_lem iov_max m n bytes s (s', some e) z h a = absurd h
flush_all_lem iov_max m n bytes s (s', none) z h (w, a) =
    let (v, (sent, empty)) = flush_lem s' true w in
    (
      sent ∙ ap some (rw (a, z) refl),
      record { sound = v; at_start = refl; at_next = refl; no_segments = refl },
      refl,
    )

pending_empty : (s : UdpSerializer) → s.next ≡ 0 → s.iovec ≡ [] → pending s ≡ []
unfolding pending gather
pending_empty s e f = let z : s.next - s.start ≡ 0 = omega arith in rw (f, z) refl

bop_bytes :
    (prodindex prod_size sec nsec : ℕ) (metadata : List ℕ)
    → (h : FmtpHeader) × (payload : List ℕ) × (send_bop_message prodindex prod_size metadata
          (length metadata)
          sec
          nsec
        ≡ multicast h payload)
      × (all_bytes (bop_items prodindex prod_size metadata sec nsec) ≡ encode_header h ++ payload)
unfolding send_bop_message encode_header encode_bop all_bytes item_bytes bop_items be64
bop_bytes prodindex prod_size sec nsec metadata =
    let len = to_u16 (length metadata + (fmtp_data_len - avail_bop_len)) in
    (header prodindex 0 len fmtp_bop, _, refl, rw (take-length metadata, append-nil))

-- On a fresh serializer with room for its segments, `SendBOPMessage` throws nothing and sends, in one
-- packet, the header and the payload of the BOP of `sendProduct`. It leaves the serializer
-- fresh again, with its pointers at the start of the buffer and without segments.
pub send_bop_serialized_lem :
    (iov_max : ℕ) (s : UdpSerializer) (prodindex prod_size sec nsec : ℕ) (metadata : List ℕ)
    → 2 < iov_max
    → IsFresh iov_max s
    → let result = send_bop_serialized iov_max s prodindex prod_size metadata sec nsec true in
      (h : FmtpHeader) × (payload : List ℕ) × (send_bop_message prodindex prod_size metadata
          (length metadata)
          sec
          nsec
        ≡ multicast h payload)
      × (result.1 ≡ some (encode_header h ++ payload))
      × IsFresh iov_max result.0.0
      × (result.0.1 ≡ none)
unfolding send_bop_serialized
send_bop_serialized_lem iov_max s prodindex prod_size sec nsec metadata big v =
    let e = v.at_next in
    let f = v.no_segments in
    let items = bop_items prodindex prod_size metadata sec nsec in
    let (h, payload, message, bytes) = bop_bytes prodindex prod_size sec nsec metadata in
    let len : length s.iovec ≡ 0 = rw f refl in
    let returns : Returns s (total fixed_len items) (total segments_of items)
        (encode_all iov_max s items) =
      unfold bop_items in encode_all-Returns iov_max s items (omega arith) (omega arith) in
    let (sent, fresh, returned) =
      flush_all_lem iov_max _ _ (all_bytes items) s (encode_all iov_max s items)
        (pending_empty s e f) returns (encode_all-Appends s items v.sound) in
    (h, payload, message, sent ∙ ap some bytes, fresh, returned)
