-- ===== src/Receiver/Transfer.antt =====
-- A whole product by multicast: BOP, blocks in any order and with losses, EOP.
use fmtp_ldm.Prelude.{
  ℕ, suc, ◌+◌, ◌≤◌, ◌<◌, ◌≡◌, ◌↔◌, refl, sym, ap, ◌∙◌, true, false, none, List, [], ◌∷◌, arith, inl,
  inr, Bool-cases, Option-cases, ◌==◌, length, All,
}
use fmtp_ldm.Prelude.Word.{u32_mod}
use fmtp_ldm.Prelude.Dict.{lookup, erase}
use fmtp_ldm.FmtpBase.{FmtpHeader, fmtp_data_len, fmtp_eop}
use fmtp_ldm.ProdSegMng.{SegMapSet, add_prod, is_complete, get_last_segment}
use fmtp_ldm.ProdSegMng.Aligned.{IsBlock}
use fmtp_ldm.ProdSegMng.Transfer.{arrived, transfer_complete_iff}
use fmtp_ldm.Sender.State.{header}
use fmtp_ldm.Receiver.State.{Receiver, Handled, Action, end_prod, set_eop_status, send_retx_end}
use fmtp_ldm.Receiver.Requests.{next_seqnum, request_any_missing_data, missing_loop}
use fmtp_ldm.Receiver.Product.{finish_product, eop_handler}
use fmtp_ldm.Receiver.Multicast.{
  Datagram, mcast_eop_handler, note_first, dispatch, peeked, mcast_round,
}
use fmtp_ldm.Receiver.Invariant.{eop_handler_complete, del_incomplete}
use fmtp_ldm.Receiver.Receiving.{
  IsReceiving, receive, same-IsReceiving, note_first-IsReceiving, receive-IsReceiving,
}

-- What the end of product `p` makes the receiver do.
abbrev pub finish_actions : ℕ → List Action
finish_actions p = send_retx_end p ∷ end_prod p 0 ∷ []

finish-IsReceiving :
    (r : Receiver) (p size : ℕ) (segs : SegMapSet)
    → IsReceiving r p size segs
    → (finish_product r p).1 ≡ finish_actions p
unfolding finish_product
finish-IsReceiving r p size segs i = rw (i.up, i.found, i.notifier, i.no_retrans) refl

missing_data_quiet : (r : Receiver) (p last : ℕ) → (request_any_missing_data r p last).1 ≡ []
unfolding request_any_missing_data
missing_data_quiet r p last =
    let k = next_seqnum r p in
    elim (Bool-cases (k == last)) [
      | inl t ↦ rw t refl
      | inr t ↦ elim (Option-cases (missing_loop (suc last) p k last)) [
        | inl u ↦ rw (t, u) refl
        | inr (x, u) ↦ rw (t, u) refl
      ]
    ]

eop_handler_quiet :
    (r : Receiver) (h : FmtpHeader)
    → is_complete r.seg_mng h.prodindex ≡ false
    → (eop_handler r h).1 ≡ []
unfolding eop_handler
eop_handler_quiet r h c = elim (Bool-cases (get_last_segment r.seg_mng h.prodindex)) [
  | inl l ↦ rw (del_incomplete r.seg_mng h.prodindex c, l) refl
  | inr l ↦ elim (Option-cases (lookup h.prodindex r.trackermap)) [
    | inl u ↦ rw (del_incomplete r.seg_mng h.prodindex c, l, u) refl
    | inr (t, u) ↦
        rw (del_incomplete r.seg_mng h.prodindex c, l, u)
          (missing_data_quiet r h.prodindex t.prodsize)
  ]
]

-- The datagram of the sender's EOP.
abbrev pub eop_datagram : ℕ → Datagram
eop_datagram p = record { head = header p 0 0 fmtp_eop; payload = [] }

eop_round :
    (r : Receiver) (p size : ℕ) (segs : SegMapSet)
    → IsReceiving r p size segs
    → (r₁ : Receiver) × IsReceiving r₁ p size segs
      × ((mcast_round r (peeked (eop_datagram p)) none).0 ≡ eop_handler r₁ (eop_datagram p).head)
unfolding mcast_round dispatch mcast_eop_handler
eop_round r p size segs i =
    let i₁ = note_first-IsReceiving r p p size segs i in
    let r₁ = set_eop_status (note_first r p) p in
    (
      r₁,
      unfold set_eop_status in same-IsReceiving p size segs refl refl refl refl i₁,
      rw i₁.found refl,
    )

eop-IsReceiving :
    (r : Receiver) (p size : ℕ) (segs : SegMapSet)
    → IsReceiving r p size segs
    → ((mcast_round r (peeked (eop_datagram p)) none).0.1 ≡ finish_actions p)
      ↔ (is_complete segs p ≡ true)
eop-IsReceiving r p size segs i =
    let (r₁, i₁, e) = eop_round r p size segs i in
    elim (Bool-cases (is_complete segs p)) [
      | inl c ↦
          let d : is_complete r₁.seg_mng p ≡ true = ap (λ m. is_complete m p) i₁.segs_eq ∙ c in
          let i₂ : IsReceiving (record r₁ { seg_mng = erase p r₁.seg_mng }) p size
              (erase p r₁.seg_mng) =
            record {
              tracker = i₁.tracker;
              found = i₁.found;
              size_eq = i₁.size_eq;
              no_retrans = i₁.no_retrans;
              segs_eq = refl;
              up = i₁.up;
              notifier = i₁.notifier;
            } in
          (
            λ _. c,
            λ _.
                ap (λ (x : Handled). x.1) (e ∙ eop_handler_complete r₁ (eop_datagram p).head d)
                ∙ finish-IsReceiving _ p size _ i₂,
          )
      | inr c ↦
          let d : is_complete r₁.seg_mng p ≡ false = ap (λ m. is_complete m p) i₁.segs_eq ∙ c in
          let q : (mcast_round r (peeked (eop_datagram p)) none).0.1 ≡ [] =
            ap (λ (x : Handled). x.1) e ∙ eop_handler_quiet r₁ (eop_datagram p).head d in
          (
            λ x. absurd (let y : finish_actions p ≡ [] = sym x ∙ q in cc),
            λ x. absurd (ground arith),
          )
    ]

-- A product whose BOP has come, whose blocks come by multicast in any order, with repetitions and
-- losses, and whose EOP comes then: the application is told its end, and the sender that it is
-- complete, exactly when every block has arrived.
pub mcast_transfer_iff :
    (r : Receiver) (p : ℕ) (product : List ℕ) (ks : List ℕ) (m : SegMapSet)
    → lookup p m ≡ none
    → 0 < length product
    → length product + fmtp_data_len ≤ u32_mod
    → IsReceiving r p (length product) (add_prod m p (length product)).0
    → All (IsBlock (length product)) ks
    → let r' = receive r p product (length product) ks in
      ((mcast_round r' (peeked (eop_datagram p)) none).0.1 ≡ finish_actions p)
      ↔ ((j : ℕ) → IsBlock (length product) j → arrived j ks ≡ true)
mcast_transfer_iff r p product ks m new z small i blocks =
    let size = length product in
    let e =
      eop-IsReceiving _ p size _ (receive-IsReceiving ks r p product size _ i refl small blocks) in
    let c = transfer_complete_iff m p size ks new (z, omega arith) blocks in
    (λ x. c.0 (e.0 x), λ x. e.1 (c.1 x))
