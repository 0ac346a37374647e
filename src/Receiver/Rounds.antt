-- ===== src/Receiver/Rounds.antt =====
-- A round of the multicast thread keeps the two maps in agreement.
use fmtp_ldm.Prelude.{ℕ, ◌≡◌, refl, Option, some, inl, inr, Bool-cases, Option-cases, ◌==◌, ltb}
use fmtp_ldm.Prelude.Word.{add32, sub32}
use fmtp_ldm.Prelude.Dict.{lookup, insert, is_some}
use fmtp_ldm.FmtpBase.{FmtpHeader, fmtp_bop, fmtp_mem_data, fmtp_eop}
use fmtp_ldm.Receiver.State.{Receiver, ProdTracker, set_eop_status}
use fmtp_ldm.Receiver.Requests.{
  note_index, request_any_missing_data, request_missing_bops_exclusive,
  request_missing_bops_inclusive,
}
use fmtp_ldm.Receiver.Product.{bop_handler}
use fmtp_ldm.Receiver.Multicast.{
  Datagram, check_payload_len, mcast_bop_handler, read_mcast_data, note_packet, tracked_size,
  recv_mem_data, mcast_eop_handler, note_first, dispatch, Peeked, peek_failed, peek_short, peeked,
  mcast_round,
}
use fmtp_ldm.Receiver.Paired.{
  IsPaired, SameMaps, SameMaps-IsPaired, SameMaps-trans, missing_data-SameMaps,
  missing_bops-SameMaps, tracker-Agree, set-Agree,
}
use fmtp_ldm.Receiver.Invariant.{then_do-IsPaired, bop_handler-IsPaired, eop_handler-IsPaired}

note_index-SameMaps : (r : Receiver) (p : ℕ) → SameMaps r (note_index r p)
note_index-SameMaps r p = elim (Bool-cases (ltb 0 (sub32 p r.prodidx_mcast))) [
  | inl t ↦ rw t (record { tracker = refl; segs = refl; up = refl })
  | inr t ↦ rw t (record { tracker = refl; segs = refl; up = refl })
]

exclusive-SameMaps : (r : Receiver) (p : ℕ) → SameMaps r (request_missing_bops_exclusive r p).0
unfolding request_missing_bops_exclusive
exclusive-SameMaps r p =
    SameMaps-trans (note_index-SameMaps r p)
      (missing_bops-SameMaps (note_index r p) r.prodidx_mcast p)

inclusive-SameMaps : (r : Receiver) (p : ℕ) → SameMaps r (request_missing_bops_inclusive r p).0
unfolding request_missing_bops_inclusive
inclusive-SameMaps r p =
    SameMaps-trans (note_index-SameMaps r p)
      (missing_bops-SameMaps (note_index r p) r.prodidx_mcast (add32 p 1))

set_eop-SameMaps : (r : Receiver) (p : ℕ) → SameMaps r (set_eop_status r p)
unfolding set_eop_status
set_eop-SameMaps r p = record { tracker = refl; segs = refl; up = refl }

note_first-SameMaps : (r : Receiver) (p : ℕ) → SameMaps r (note_first r p)
unfolding note_first
note_first-SameMaps r p = elim (Bool-cases r.mcast_hndlr_started) [
  | inl t ↦ rw t (record { tracker = refl; segs = refl; up = refl })
  | inr t ↦ rw t (record { tracker = refl; segs = refl; up = refl })
]

read_mcast_data-IsPaired :
    (r : Receiver) (d : Datagram) → IsPaired r → IsPaired (read_mcast_data r d).0
unfolding read_mcast_data
read_mcast_data-IsPaired r d i = elim (Bool-cases (check_payload_len d.head d.payload)) [
  | inr t ↦ rw t i
  | inl t ↦ rw t (record {
    up = i.up;
    agree = λ k.
        set-Agree (lookup k r.trackermap) r.seg_mng d.head.prodindex k d.head.seqnum
          d.head.payloadlen (i.agree k);
  })
]

-- Another entry for a tracked product, of the same size.
pub retrack-IsPaired :
    (r : Receiver) (p : ℕ) (x y : ProdTracker)
    → lookup p r.trackermap ≡ some y
    → x.prodsize ≡ y.prodsize
    → IsPaired r
    → IsPaired (record r { trackermap = insert p x r.trackermap })
retrack-IsPaired r p x y u e i = record {
  up = i.up;
  agree = λ k. tracker-Agree r.trackermap (lookup k r.seg_mng) p k x y u e (i.agree k);
}

note_packet-IsPaired : (r : Receiver) (h : FmtpHeader) → IsPaired r → IsPaired (note_packet r h)
unfolding note_packet
note_packet-IsPaired r h i = elim (Option-cases (lookup h.prodindex r.trackermap)) [
  | inl u ↦ rw (u, note_packet) i
  | inr (y, u) ↦ rw (u, note_packet) (retrack-IsPaired r h.prodindex _ y u refl i)
]

mcast_bop-IsPaired :
    (r : Receiver) (d : Datagram) (ptr : Option ℕ)
    → IsPaired r
    → IsPaired (mcast_bop_handler r d ptr).0
unfolding mcast_bop_handler
mcast_bop-IsPaired r d ptr i = elim (Bool-cases (check_payload_len d.head d.payload)) [
  | inr t ↦ rw t i
  | inl t ↦ rw t (
      then_do-IsPaired (bop_handler r d.head d.payload ptr) _
        (bop_handler-IsPaired r d.head d.payload ptr i)
        (λ r'. SameMaps-IsPaired (exclusive-SameMaps r' d.head.prodindex)))
]

recv_mem_data-IsPaired : (r : Receiver) (d : Datagram) → IsPaired r → IsPaired (recv_mem_data r d).0
unfolding recv_mem_data
recv_mem_data-IsPaired r d i =
    let size = tracked_size r d.head.prodindex in
    elim (Bool-cases (ltb 0 size)) [
      | inr t ↦ rw t (SameMaps-IsPaired (inclusive-SameMaps r d.head.prodindex) i)
      | inl t ↦ elim (Bool-cases (ltb size (add32 d.head.seqnum d.head.payloadlen))) [
        | inl b ↦ rw (t, b) i
        | inr b ↦
            rw (t, b)
              (then_do-IsPaired (read_mcast_data r d) _ (read_mcast_data-IsPaired r d i) (λ r₁ j.
                then_do-IsPaired (request_any_missing_data r₁ d.head.prodindex d.head.seqnum) _
                  (SameMaps-IsPaired (missing_data-SameMaps r₁ d.head.prodindex d.head.seqnum) j)
                  (λ r₂. note_packet-IsPaired r₂ d.head)))
      ]
    ]

mcast_eop-IsPaired : (r : Receiver) (d : Datagram) → IsPaired r → IsPaired (mcast_eop_handler r d).0
unfolding mcast_eop_handler
mcast_eop-IsPaired r d i = elim (Bool-cases (is_some (lookup d.head.prodindex r.trackermap))) [
  | inl t ↦ rw t (
      eop_handler-IsPaired (set_eop_status r d.head.prodindex) d.head
        (SameMaps-IsPaired (set_eop-SameMaps r d.head.prodindex) i))
  | inr t ↦ rw t (SameMaps-IsPaired (inclusive-SameMaps r d.head.prodindex) i)
]

dispatch-IsPaired :
    (r : Receiver) (d : Datagram) (ptr : Option ℕ) → IsPaired r → IsPaired (dispatch r d ptr).0.0
unfolding dispatch
dispatch-IsPaired r d ptr i = elim (Bool-cases (d.head.flags == fmtp_bop)) [
  | inl t ↦ rw t (mcast_bop-IsPaired r d ptr i)
  | inr t ↦ elim (Bool-cases (d.head.flags == fmtp_mem_data)) [
    | inl u ↦ rw (t, u) (recv_mem_data-IsPaired r d i)
    | inr u ↦ elim (Bool-cases (d.head.flags == fmtp_eop)) [
      | inl v ↦ rw (t, u, v) (mcast_eop-IsPaired r d i)
      | inr v ↦ rw (t, u, v) i
    ]
  ]
]

-- A round of the multicast thread, whatever packet comes and however the round ends, keeps the two
-- maps of the receiver in agreement while the TCP connection is up.
pub mcast_round-IsPaired :
    (r : Receiver) (x : Peeked) (ptr : Option ℕ) → IsPaired r → IsPaired (mcast_round r x ptr).0.0
unfolding mcast_round
mcast_round-IsPaired r peek_failed ptr i = i
mcast_round-IsPaired r peek_short ptr i = i
mcast_round-IsPaired r (peeked d) ptr i =
    dispatch-IsPaired (note_first r d.head.prodindex) d ptr
      (SameMaps-IsPaired (note_first-SameMaps r d.head.prodindex) i)
