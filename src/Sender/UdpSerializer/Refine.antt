-- ===== src/Sender/UdpSerializer/Refine.antt =====
-- `UdpSerializer` refines a list of bytes: what is encoded is appended, what is flushed is the list.
use fmtp_ldm.Prelude.{
  ℕ, ◌+◌, ◌-◌, ◌/◌, ◌%◌, ◌^◌, ◌≤◌, ◌<◌, ◌≡◌, refl, sym, ap, subst, ◌∙◌, Bool, true, false, none,
  some, List, [], ◌∷◌, ◌++◌, append_assoc, append-nil, ltb, leb, length, length-append, All-append,
  arith, inl, inr, lt-cases, Bool-cases, if◌then◌else◌,
}
use fmtp_ldm.Prelude.Memory.{slice-write_at, length-write_at_inside}
use fmtp_ldm.FmtpBase.{be16, be32, be64}
use fmtp_ldm.Sender.UdpSerializer.{
  in_buf, outside, UdpSerializer, SerialError, Serialized, then_encode, max_fmtp_packet_len, reset,
  gather, next_buf_seg, add_bytes, flush, Item, uint16, uint32, uint64, memory, vet_seg, add,
  encode_memory, encode, encode_all, too_many_segments, would_overflow,
}
use fmtp_ldm.Sender.UdpSerializer.Held.{
  pending, item_bytes, all_bytes, Below, IsSerializer, gather-append, gather-write_at, Below-le,
  added, pending_closed, Appends, Appends-after,
}

module _ {iov_max : ℕ} where
  -- `nextBufSeg` changes no byte, and closes the open segment.
  next_buf_seg_lem :
      (s : UdpSerializer)
      → IsSerializer iov_max s
      → IsSerializer iov_max (next_buf_seg s)
        × ((next_buf_seg s).start ≡ (next_buf_seg s).next)
        × (gather (next_buf_seg s).buf (next_buf_seg s).iovec ≡ pending s)
  unfolding next_buf_seg pending gather
  next_buf_seg_lem s w = elim (lt-cases s.start s.next) [
    | inl (t, l) ↦
        let segment = in_buf s.start (s.next - s.start) in
        rw t (
          record {
            size = w.size;
            order = omega arith;
            inside = w.inside;
            filled =
                All-append (Below s.next) s.iovec (segment ∷ [])
                  (Below-le s.start s.next s.iovec w.order w.filled) (omega arith, tt);
            room = omega (arith, length-append s.iovec (segment ∷ []), w.open_room l);
            open_room = λ h. absurd (omega arith);
          },
          refl,
          rw (gather-append s.buf s.iovec (segment ∷ []), append-nil),
        )
    | inr (t, l) ↦
        let e : s.start ≡ s.next = omega arith in
        let z : s.next - s.start ≡ 0 = omega arith in rw t (w, e, rw (z, append-nil))
  ]

  -- A throw before anything is appended.
  throws :
      (s s' : UdpSerializer) (bytes : List ℕ) (e : SerialError)
      → IsSerializer iov_max s'
      → pending s' ≡ pending s
      → Appends iov_max s bytes (s', some e)
  throws s s' bytes e w same = (w, ([], bytes, same ∙ sym (append-nil (pending s)), refl))

  add_bytes_fits :
      (s : UdpSerializer) (bytes : List ℕ)
      → length s.iovec < iov_max
      → s.next + length bytes ≤ max_fmtp_packet_len
      → IsSerializer iov_max s
      → Appends iov_max s bytes (added s bytes, none)
  unfolding pending added
  add_bytes_fits s bytes r l w =
      let fits : s.next + length bytes ≤ length s.buf = omega (arith, w.size) in
      (
        record {
          size = length-write_at_inside s.next bytes s.buf fits ∙ w.size;
          order = omega (arith, w.order);
          inside = l;
          filled = w.filled;
          room = w.room;
          open_room = λ h. r;
        },
        rw
            (
              gather-write_at s.start s.next bytes s.buf s.iovec w.filled w.order fits,
              slice-write_at s.start (s.next - s.start) s.next (s.next + length bytes - s.start)
                  bytes s.buf (omega (arith, w.order)) (omega (arith, w.order)) fits,
              append_assoc,
            )
            refl,
      )

  add_bytes_lem :
      (s : UdpSerializer) (bytes : List ℕ)
      → length s.iovec < iov_max
      → IsSerializer iov_max s
      → Appends iov_max s bytes (add_bytes s bytes)
  unfolding add_bytes added
  add_bytes_lem s bytes r w = elim (lt-cases max_fmtp_packet_len (s.next + length bytes)) [
    | inl (t, l) ↦
        let e : add_bytes s bytes ≡ (s, some would_overflow) = rw t refl in
        subst (Appends iov_max s bytes) (sym e) (throws s s bytes would_overflow w refl)
    | inr (t, l) ↦
        let e : add_bytes s bytes ≡ (added s bytes, none) = rw t refl in
        subst (Appends iov_max s bytes) (sym e) (add_bytes_fits s bytes r l w)
  ]

  add_lem :
      (s : UdpSerializer) (bytes : List ℕ)
      → IsSerializer iov_max s
      → Appends iov_max s bytes (add iov_max s bytes)
  unfolding add vet_seg
  add_lem s bytes w = elim (Bool-cases (leb iov_max (length s.iovec))) [
    | inl t ↦
        let e : add iov_max s bytes ≡ (s, some too_many_segments) = rw (add, t) refl in
        subst (Appends iov_max s bytes) (sym e) (throws s s bytes too_many_segments w refl)
    | inr t ↦
        let e : add iov_max s bytes ≡ add_bytes s bytes = rw (add, t) refl in
        subst (Appends iov_max s bytes) (sym e) (add_bytes_lem s bytes (ground arith) w)
  ]

  -- A segment of the caller's memory, when no segment is open.
  attach :
      (s : UdpSerializer) (bytes : List ℕ)
      → s.start ≡ s.next
      → length s.iovec < iov_max
      → IsSerializer iov_max s
      → IsSerializer iov_max (record s { iovec = s.iovec ++ outside bytes ∷ [] })
        × (pending (record s { iovec = s.iovec ++ outside bytes ∷ [] })
            ≡ gather s.buf s.iovec ++ bytes)
  unfolding pending gather
  attach s bytes e r w =
      let z : s.next - s.start ≡ 0 = omega arith in
      (
        record {
          size = w.size;
          order = w.order;
          inside = w.inside;
          filled = All-append (Below s.start) s.iovec (outside bytes ∷ []) w.filled (tt, tt);
          room = omega (arith, length-append s.iovec (outside bytes ∷ []));
          open_room = λ h. absurd (omega arith);
        },
        rw (z, gather-append s.buf s.iovec (outside bytes ∷ []))
            (append-nil _ ∙ ap (λ p. gather s.buf s.iovec ++ p) (append-nil bytes)),
      )

  encode_memory_lem :
      (s : UdpSerializer) (bytes : List ℕ)
      → IsSerializer iov_max s
      → Appends iov_max s bytes (encode_memory iov_max s bytes)
  unfolding encode_memory vet_seg
  encode_memory_lem s [] w = (w, sym (append-nil _))
  encode_memory_lem s (b ∷ bs) w =
      let s' = next_buf_seg s in
      let bytes : List ℕ = b ∷ bs in
      let (w', e, same) = next_buf_seg_lem s w in
      let u : ltb 0 (length bytes) ≡ true = ground arith in
      elim (Bool-cases (leb iov_max (length s'.iovec))) [
        | inl t ↦
            let f : encode_memory iov_max s bytes ≡ (s', some too_many_segments) = rw (u, t) refl in
            subst (Appends iov_max s bytes) (sym f)
              (throws s s' bytes too_many_segments w' (pending_closed s' e ∙ same))
        | inr t ↦
            let (v, grown) = attach s' bytes e (ground arith) w' in
            let f : encode_memory iov_max s bytes
                ≡ (record s' { iovec = s'.iovec ++ outside bytes ∷ [] }, none) =
              rw (u, t) refl in
            subst (Appends iov_max s bytes) (sym f) (v, grown ∙ ap (λ p. p ++ bytes) same)
      ]

  -- One after the other.
  Appends-then_encode :
      (s : UdpSerializer) (xs ys : List ℕ) (r : Serialized) (next : UdpSerializer → Serialized)
      → Appends iov_max s xs r
      → ((s' : UdpSerializer) → IsSerializer iov_max s' → Appends iov_max s' ys (next s'))
      → Appends iov_max s (xs ++ ys) (then_encode r next)
  Appends-then_encode s xs ys (s', some _) next (w, (taken, rest, h, e)) k =
      (w, (taken, rest ++ ys, h, sym (append_assoc taken rest ys) ∙ ap (λ z. z ++ ys) e))
  Appends-then_encode s xs ys (s', none) next (w, h) k =
      Appends-after iov_max s s' xs ys (next s') h (k s' w)

  encode_lem :
      (s : UdpSerializer) (item : Item)
      → IsSerializer iov_max s
      → Appends iov_max s (item_bytes item) (encode iov_max s item)
  unfolding encode item_bytes be64
  encode_lem s (uint16 v) w = add_lem s (be16 v) w
  encode_lem s (uint32 v) w = add_lem s (be32 v) w
  encode_lem s (uint64 v) w =
      Appends-then_encode s (be32 (v / 2 ^ 32)) (be32 (v % 2 ^ 32)) _ _ (add_lem s _ w)
        (λ s' w'. add_lem s' (be32 (v % 2 ^ 32)) w')
  encode_lem s (memory bytes) w = encode_memory_lem s bytes w

  -- Whatever is encoded, the serializer stays well formed and holds what it held, followed by the
  -- bytes of the items in network order; when an operation throws, by the first part of them.
  pub encode_all-Appends :
      (s : UdpSerializer) (items : List Item)
      → IsSerializer iov_max s
      → Appends iov_max s (all_bytes items) (encode_all iov_max s items)
  unfolding encode_all all_bytes
  encode_all-Appends s [] w = (w, sym (append-nil _))
  encode_all-Appends s (item ∷ items) w =
      Appends-then_encode s (item_bytes item) (all_bytes items) _ _ (encode_lem s item w)
        (λ s' w'. encode_all-Appends s' items w')

  -- `flush` sends exactly what the serializer holds and leaves it empty, or fails and keeps it.
  pub flush_lem :
      (s : UdpSerializer) (ok : Bool)
      → IsSerializer iov_max s
      → (IsSerializer iov_max (flush s ok).0.0)
        × (if ok
            then ((flush s ok).1 ≡ some (pending s)) × (pending (flush s ok).0.0 ≡ [])
            else ((flush s ok).1 ≡ none) × (pending (flush s ok).0.0 ≡ pending s))
  unfolding flush reset
  flush_lem s true w =
      let (w', e, same) = next_buf_seg_lem s w in
      (
        record {
          size = w'.size;
          order = omega arith;
          inside = omega arith;
          filled = tt;
          room = omega arith;
          open_room = λ h. absurd (omega arith);
        },
        (ap some same, unfold pending gather in refl),
      )
  flush_lem s false w =
      let (w', e, same) = next_buf_seg_lem s w in
      (w', (refl, pending_closed (next_buf_seg s) e ∙ same))
