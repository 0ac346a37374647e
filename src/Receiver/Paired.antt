-- ===== src/Receiver/Paired.antt =====
-- "By design, a product should exist in both the trackermap and BlockMNG or neither": the two maps of
-- the receiver, through the small methods.
use fmtp_ldm.Prelude.{
  ℕ, suc, ◌≡◌, refl, sym, ap, subst, ◌∙◌, true, Option, none, some, List, inl, inr, eq-cases,
  Bool-cases, Option-cases, ◌==◌, ltb,
}
use fmtp_ldm.Prelude.Word.{add32, sub32}
use fmtp_ldm.Prelude.Dict.{lookup, insert, erase, lookup-insert, lookup-erase}
use fmtp_ldm.ProdSegMng.{SegMap, SegMapSet, add_prod, del_if_complete, rm_prod, set_seg}
use fmtp_ldm.ProdSegMng
use fmtp_ldm.ProdSegMng.Table.{set-known, set-unknown}
use fmtp_ldm.Receiver.State.{Receiver, ProdTracker}
use fmtp_ldm.Receiver.Requests.{
  request_any_missing_data, request_missing_bops, missing_loop, next_seqnum, bops_loop,
}

-- Both know the product, and its size, or neither does.
abbrev pub Agree : Option ProdTracker → Option SegMap → Type 0
Agree none none = Unit {0}
Agree (some t) (some s) = t.prodsize ≡ s.prodsize
Agree none (some s) = ⊥
Agree (some t) none = ⊥

-- The two maps agree, and the TCP connection is up.
pub record IsPaired (r : Receiver) : Type 0 where
  pub up : r.tcp_up ≡ true
  pub agree : (k : ℕ) → Agree (lookup k r.trackermap) (lookup k r.seg_mng)

-- The handler leaves the two maps alone.
pub record SameMaps (r r' : Receiver) : Type 0 where
  pub tracker : r'.trackermap ≡ r.trackermap
  pub segs : r'.seg_mng ≡ r.seg_mng
  pub up : r'.tcp_up ≡ r.tcp_up

pub SameMaps-IsPaired : {r r' : Receiver} → SameMaps r r' → IsPaired r → IsPaired r'
SameMaps-IsPaired {r} {r'} s p = record {
  up = s.up ∙ p.up;
  agree = λ k. rw (s.tracker, s.segs) (p.agree k);
}

pub SameMaps-trans : {r r' r'' : Receiver} → SameMaps r r' → SameMaps r' r'' → SameMaps r r''
SameMaps-trans s t = record {
  tracker = t.tracker ∙ s.tracker;
  segs = t.segs ∙ s.segs;
  up = t.up ∙ s.up;
}

pub missing_data-SameMaps :
    (r : Receiver) (p last : ℕ) → SameMaps r (request_any_missing_data r p last).0
unfolding request_any_missing_data
missing_data-SameMaps r p last =
    let k = next_seqnum r p in
    elim (Bool-cases (k == last)) [
      | inl t ↦ rw t (record { tracker = refl; segs = refl; up = refl })
      | inr t ↦ elim (Option-cases (missing_loop (suc last) p k last)) [
        | inl u ↦ rw (t, u) (record { tracker = refl; segs = refl; up = refl })
        | inr (x, u) ↦ rw (t, u) (record { tracker = refl; segs = refl; up = refl })
      ]
    ]

pub missing_bops-SameMaps : (r : Receiver) (l h : ℕ) → SameMaps r (request_missing_bops r l h).0
unfolding request_missing_bops
missing_bops-SameMaps r l h = elim (Bool-cases (ltb 1 (sub32 h l))) [
  | inr t ↦ rw t (record { tracker = refl; segs = refl; up = refl })
  | inl t ↦ elim (Option-cases (bops_loop (sub32 h l) (add32 l 1) h r.mis_bop_set)) [
    | inl u ↦ rw (t, u) (record { tracker = refl; segs = refl; up = refl })
    | inr (x, u) ↦ rw (t, u) (record { tracker = refl; segs = refl; up = refl })
  ]
]

-- An entry of one map, in both.
pub insert-Agree :
    (t : List (ℕ × ProdTracker)) (m : SegMapSet) (p k : ℕ) (x : ProdTracker) (s : SegMap)
    → x.prodsize ≡ s.prodsize
    → Agree (lookup k t) (lookup k m)
    → Agree (lookup k (insert p x t)) (lookup k (insert p s m))
insert-Agree t m p k x s e a = elim (Bool-cases (p == k)) [
  | inl b ↦ rw (lookup-insert p k x t, lookup-insert p k s m, b) e
  | inr b ↦ rw (lookup-insert p k x t, lookup-insert p k s m, b) a
]

pub erase-Agree :
    (t : List (ℕ × ProdTracker)) (m : SegMapSet) (p k : ℕ)
    → Agree (lookup k t) (lookup k m)
    → Agree (lookup k (erase p t)) (lookup k (erase p m))
erase-Agree t m p k a = elim (Bool-cases (p == k)) [
  | inl b ↦ rw (lookup-erase p k t, lookup-erase p k m, b) tt
  | inr b ↦ rw (lookup-erase p k t, lookup-erase p k m, b) a
]

-- The agreement is on the sizes only.
resized :
    (o : Option SegMap) (x y : ProdTracker)
    → x.prodsize ≡ y.prodsize
    → Agree (some y) o
    → Agree (some x) o
resized none x y e c = c
resized (some s) x y e c = e ∙ c

resized_seg :
    (o : Option ProdTracker) (s s' : SegMap)
    → s'.prodsize ≡ s.prodsize
    → Agree o (some s)
    → Agree o (some s')
resized_seg none s s' e c = c
resized_seg (some t) s s' e c = c ∙ sym e

-- Another entry of the same size in one map.
pub tracker-Agree :
    (t : List (ℕ × ProdTracker)) (o : Option SegMap) (p k : ℕ) (x y : ProdTracker)
    → lookup p t ≡ some y
    → x.prodsize ≡ y.prodsize
    → Agree (lookup k t) o
    → Agree (lookup k (insert p x t)) o
tracker-Agree t o p k x y u e a = elim (eq-cases p k) [
  | inl (b, i) ↦
      let c : Agree (some y) o = subst (λ z. Agree z o) (sym (ap (λ j. lookup j t) i) ∙ u) a in
      rw (lookup-insert p k x t, b) (resized o x y e c)
  | inr (b, i) ↦ rw (lookup-insert p k x t, b) a
]

pub set-Agree :
    (o : Option ProdTracker) (m : SegMapSet) (p k seqnum payloadlen : ℕ)
    → Agree o (lookup k m)
    → Agree o (lookup k (ProdSegMng.set m p seqnum payloadlen).0)
set-Agree o m p k seqnum payloadlen a = elim (Option-cases (lookup p m)) [
  | inl u ↦ rw (set-unknown m p seqnum payloadlen u) a
  | inr (s, u) ↦
      let s' = (set_seg s seqnum payloadlen).0 in
      let same : s'.prodsize ≡ s.prodsize = unfold set_seg in refl in
      elim (eq-cases p k) [
        | inl (b, i) ↦
            let c : Agree o (some s) = subst (Agree o) (sym (ap (λ j. lookup j m) i) ∙ u) a in
            rw (set-known m p seqnum payloadlen s u, lookup-insert p k s' m, b)
              (resized_seg o s s' same c)
        | inr (b, i) ↦ rw (set-known m p seqnum payloadlen s u, lookup-insert p k s' m, b) a
      ]
]
