-- ===== src/Receiver/Invariant.antt =====
-- Every handler of the receiver keeps its two maps in agreement.
use fmtp_ldm.Prelude.{
  ℕ, ◌≡◌, refl, true, false, Option, none, some, List, [], arith, inl, inr, Bool-cases,
  Option-cases, if◌then◌else◌,
}
use fmtp_ldm.Prelude.Dict.{lookup, insert, erase}
use fmtp_ldm.FmtpBase.{FmtpHeader, BopMsg, BopResult, parsed, refused, parse_bop}
use fmtp_ldm.ProdSegMng.{SegMap, SegMapSet, del_if_complete, is_complete, get_last_segment}
use fmtp_ldm.ProdSegMng.Lifecycle.{fresh, add_prod-new, add_prod-old}
use fmtp_ldm.Receiver.State.{
  Receiver, ProdTracker, Handled, returned, stuck, threw, bad_bop, then_do,
}
use fmtp_ldm.Receiver.Product.{begin_product, bop_handler, finish_product, eop_handler}
use fmtp_ldm.Receiver.Paired.{
  Agree, IsPaired, SameMaps, SameMaps-IsPaired, missing_data-SameMaps, insert-Agree, erase-Agree,
}

pub then_do-IsPaired :
    (x : Handled) (f : Receiver → Handled)
    → IsPaired x.0
    → ((r : Receiver) → IsPaired r → IsPaired (f r).0)
    → IsPaired (then_do x f).0
then_do-IsPaired (r, out, returned) f p g = g r p
then_do-IsPaired (r, out, stuck) f p g = p
then_do-IsPaired (r, out, threw e) f p g = p

-- The result of `finish_product`, as far as the two maps go.
finish-maps :
    (r : Receiver) (p : ℕ)
    → r.tcp_up ≡ true
    → SameMaps (record r { trackermap = erase p r.trackermap }) (finish_product r p).0
unfolding finish_product
finish-maps r p u = elim (Option-cases (lookup p r.trackermap)) [
  | inl e ↦ rw (u, e) (record { tracker = refl; segs = refl; up = u })
  | inr (t, e) ↦ elim (Bool-cases r.has_notifier) [
    | inl n ↦ rw (u, e, n) (record { tracker = refl; segs = refl; up = u })
    | inr n ↦ rw (u, e, n) (record { tracker = refl; segs = refl; up = u })
  ]
]

pub finish-IsPaired :
    (r : Receiver) (p : ℕ)
    → IsPaired r
    → IsPaired (finish_product (record r { seg_mng = erase p r.seg_mng }) p).0
finish-IsPaired r p h =
    SameMaps-IsPaired (finish-maps (record r { seg_mng = erase p r.seg_mng }) p h.up)
      (record { up = h.up; agree = λ k. erase-Agree r.trackermap r.seg_mng p k (h.agree k) })

begin_product-new :
    (r : Receiver) (p : ℕ) (bop : BopMsg) (ptr : Option ℕ)
    → lookup p r.seg_mng ≡ none
    → lookup p r.trackermap ≡ none
    → (x : ProdTracker) × (x.prodsize ≡ bop.prodsize)
      × SameMaps
          (record r {
            trackermap = insert p x r.trackermap;
            seg_mng = insert p (fresh bop.prodsize) r.seg_mng;
          })
          (begin_product r p bop ptr).0
unfolding begin_product
begin_product-new r p bop ptr u v =
    let x : ProdTracker = record {
      prodsize = bop.prodsize;
      prodptr = if r.has_notifier then ptr else none;
      seqnum = 0;
      paylen = 0;
      num_retrans = 0;
    } in
    (
      x,
      refl,
      rw (add_prod-new r.seg_mng p bop.prodsize u, v)
          (record { tracker = refl; segs = refl; up = refl }),
    )

begin_product-old :
    (r : Receiver) (p : ℕ) (bop : BopMsg) (ptr : Option ℕ) (s : SegMap)
    → lookup p r.seg_mng ≡ some s
    → begin_product r p bop ptr ≡ (r, [], returned)
unfolding begin_product
begin_product-old r p bop ptr s u = rw (add_prod-old r.seg_mng p bop.prodsize u)

tracker-none :
    (r : Receiver) (p : ℕ) → IsPaired r → lookup p r.seg_mng ≡ none → lookup p r.trackermap ≡ none
tracker-none r p h u = elim (Option-cases (lookup p r.trackermap)) [
  | inl v ↦ v
  | inr (x, v) ↦
      let a : Agree (lookup p r.trackermap) (lookup p r.seg_mng) = h.agree p in
      absurd (rw (v, u) at a)
]

pub begin-IsPaired :
    (r : Receiver) (p : ℕ) (bop : BopMsg) (ptr : Option ℕ)
    → IsPaired r
    → IsPaired (begin_product r p bop ptr).0
unfolding fresh
begin-IsPaired r p bop ptr h = elim (Option-cases (lookup p r.seg_mng)) [
  | inl u ↦
      let (x, e, same) = begin_product-new r p bop ptr u (tracker-none r p h u) in
      SameMaps-IsPaired same (record {
        up = h.up;
        agree = λ k. insert-Agree r.trackermap r.seg_mng p k x (fresh bop.prodsize) e (h.agree k);
      })
  | inr (s, u) ↦ rw (begin_product-old r p bop ptr s u) h
]

bop-IsPaired :
    (r : Receiver) (p : ℕ) (x : BopResult) (ptr : Option ℕ)
    → IsPaired r
    → IsPaired
        (elim x as (λ _. Handled) [
          | refused e ↦ (r, [], threw (bad_bop e))
          | parsed bop ↦ begin_product r p bop ptr
        ]).0
bop-IsPaired r p (refused e) ptr i = i
bop-IsPaired r p (parsed bop) ptr i = begin-IsPaired r p bop ptr i

pub bop_handler-IsPaired :
    (r : Receiver) (h : FmtpHeader) (payload : List ℕ) (ptr : Option ℕ)
    → IsPaired r
    → IsPaired (bop_handler r h payload ptr).0
unfolding bop_handler
bop_handler-IsPaired r h payload ptr i =
    bop-IsPaired r h.prodindex (parse_bop h.payloadlen payload) ptr i

pub del_complete :
    (m : SegMapSet) (p : ℕ) → is_complete m p ≡ true → del_if_complete m p ≡ (erase p m, true)
unfolding is_complete del_if_complete
del_complete m p c = ground arith

pub del_incomplete :
    (m : SegMapSet) (p : ℕ) → is_complete m p ≡ false → del_if_complete m p ≡ (m, false)
unfolding is_complete del_if_complete
del_incomplete m p c = ground arith

-- The cases of `EOPHandler`.
pub eop_handler_complete :
    (r : Receiver) (h : FmtpHeader)
    → is_complete r.seg_mng h.prodindex ≡ true
    → eop_handler r h
      ≡ finish_product (record r { seg_mng = erase h.prodindex r.seg_mng }) h.prodindex
unfolding eop_handler
eop_handler_complete r h c = rw (del_complete r.seg_mng h.prodindex c) refl

pub eop_handler_incomplete :
    (r : Receiver) (h : FmtpHeader)
    → is_complete r.seg_mng h.prodindex ≡ false
    → SameMaps r (eop_handler r h).0
unfolding eop_handler
eop_handler_incomplete r h c = elim (Bool-cases (get_last_segment r.seg_mng h.prodindex)) [
  | inl l ↦
      rw (del_incomplete r.seg_mng h.prodindex c, l)
        (record { tracker = refl; segs = refl; up = refl })
  | inr l ↦ elim (Option-cases (lookup h.prodindex r.trackermap)) [
    | inl u ↦
        rw (del_incomplete r.seg_mng h.prodindex c, l, u)
          (record { tracker = refl; segs = refl; up = refl })
    | inr (t, u) ↦
        rw (del_incomplete r.seg_mng h.prodindex c, l, u)
          (missing_data-SameMaps r h.prodindex t.prodsize)
  ]
]

pub eop_handler-IsPaired :
    (r : Receiver) (h : FmtpHeader) → IsPaired r → IsPaired (eop_handler r h).0
eop_handler-IsPaired r h i = elim (Bool-cases (is_complete r.seg_mng h.prodindex)) [
  | inl c ↦ rw (eop_handler_complete r h c) (finish-IsPaired r h.prodindex i)
  | inr c ↦ SameMaps-IsPaired (eop_handler_incomplete r h c) i
]
