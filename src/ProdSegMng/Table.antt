-- ===== src/ProdSegMng/Table.antt =====
-- The table of ProdSegMNG.cpp: its invariant, and every public operation seen on the missing bytes.
use mathlib.Core.Option.{some-injective}
use fmtp_ldm.Prelude.{
  ℕ, ◌+◌, ◌≤◌, ◌<◌, ◌≡◌, ◌≢◌, refl, Bool, true, false, not, ◌&&◌, none, some, inl, inr, arith, ◌==◌,
  if◌then◌else◌, Option-cases, Bool-cases, eq-cases, ap, subst,
}
use fmtp_ldm.Prelude.Word.{u32_mod}
use fmtp_ldm.Prelude.Dict.{lookup, insert, erase, lookup-insert, lookup-erase}
use fmtp_ldm.ProdSegMng.Segments.{SeqLenMap, empty}
use fmtp_ldm.ProdSegMng.Gaps.{IsGaps, in_seg, covers}
use fmtp_ldm.ProdSegMng.Set.{removed, kept, set_map-Effect}
use fmtp_ldm.ProdSegMng.{
  SegMap, SegMapSet, SetState, misaligned, duplicate, done, set_map, set_seg, set,
}

-- The gaps lie inside a product that is not empty, and the flag says that there are none.
pub record IsSegMap (s : SegMap) : Type 0 where
  pub gaps : IsGaps 0 s.prodsize s.seqlen_map
  pub small : s.prodsize < u32_mod
  pub flag : s.completed ≡ empty s.seqlen_map

abbrev pub IsTable : SegMapSet → Type 0
IsTable m = (k : ℕ) (s : SegMap) → lookup k m ≡ some s → IsSegMap s

-- Byte `b` of the product has not been received.
unfoldable pub missing : SegMapSet → ℕ → ℕ → Bool
missing m prodindex b = elim (lookup prodindex m) [ none ↦ false | some s ↦ covers s.seqlen_map b ]

-- The segment lies inside the product, if that is tracked.
abbrev pub Fits : SegMapSet → ℕ → ℕ → ℕ → Type 0
Fits m prodindex seqnum payloadlen =
    (s : SegMap) → lookup prodindex m ≡ some s → seqnum + payloadlen ≤ s.prodsize

abbrev pub is_done : SetState → Bool
is_done misaligned = false
is_done duplicate = false
is_done done = true

set_map-empty : (m : SeqLenMap) (k n : ℕ) → empty m ≡ true → (set_map m k n).0 ≡ m
unfolding set_map
set_map-empty m k n t = rw t

-- A completed product stays completed, and no other becomes so while bytes are missing.
set_flag :
    (m : SeqLenMap) (k n : ℕ) (c : Bool)
    → c ≡ empty m
    → (if empty (set_map m k n).0 then true else c) ≡ empty (set_map m k n).0
set_flag m k n c e = elim (Bool-cases (empty m)) [
  | inl t ↦ rw (set_map-empty m k n t, t)
  | inr t ↦ ground arith
]

pub set_seg-IsSegMap :
    (s : SegMap) (k n : ℕ) → IsSegMap s → k + n ≤ s.prodsize → IsSegMap (set_seg s k n).0
unfolding set_seg
set_seg-IsSegMap s k n w fits = record {
  gaps = elim (set_map-Effect s.prodsize k n s.seqlen_map w.gaps w.small fits) [
    | removed e r ↦ r.gaps
    | kept e q ↦ rw q w.gaps
  ];
  small = w.small;
  flag = set_flag s.seqlen_map k n s.completed w.flag;
}

is_done-false : (t : SetState) → t ≢ done → is_done t ≡ false
is_done-false misaligned h = refl
is_done-false duplicate h = refl
is_done-false done h = absurd (h refl)

pub set_seg-covers :
    (s : SegMap) (k n b : ℕ)
    → IsSegMap s
    → k + n ≤ s.prodsize
    → let r = set_seg s k n in
      covers r.0.seqlen_map b ≡ (covers s.seqlen_map b && not (is_done r.1 && in_seg k n b))
unfolding set_seg
set_seg-covers s k n b w fits =
    elim (set_map-Effect s.prodsize k n s.seqlen_map w.gaps w.small fits) [
      | removed e r ↦ rw e (r.cover b)
      | kept e q ↦ rw (q, is_done-false _ e) (ground arith)
    ]

pub set-known :
    (m : SegMapSet) (p k n : ℕ) (s : SegMap)
    → lookup p m ≡ some s
    → set m p k n ≡ (insert p (set_seg s k n).0 m, (set_seg s k n).1)
unfolding set
set-known m p k n s e = rw (e, set)

pub set-unknown : (m : SegMapSet) (p k n : ℕ) → lookup p m ≡ none → set m p k n ≡ (m, misaligned)
unfolding set
set-unknown m p k n e = rw (e, set)

pub insert-IsTable :
    (m : SegMapSet) (p : ℕ) (s : SegMap) → IsTable m → IsSegMap s → IsTable (insert p s m)
insert-IsTable m p s w x q t e = elim (eq-cases p q) [
  | inl (v, _) ↦ subst IsSegMap (some-injective _ _ (rw (lookup-insert p q s m, v) at e)) x
  | inr (v, _) ↦ w q t (rw (lookup-insert p q s m, v) at e)
]

pub erase-IsTable : (m : SegMapSet) (p : ℕ) → IsTable m → IsTable (erase p m)
erase-IsTable m p w q t e = elim (eq-cases p q) [
  | inl (v, _) ↦ absurd (ground (arith, lookup-erase p q m))
  | inr (v, _) ↦ w q t (rw (lookup-erase p q m, v) at e)
]

-- `set` of a segment that lies inside the product keeps the table well formed.
pub set-IsTable : (m : SegMapSet) (p k n : ℕ) → IsTable m → Fits m p k n → IsTable (set m p k n).0
set-IsTable m p k n w fits = elim (Option-cases (lookup p m)) [
  | inl u ↦ rw (set-unknown m p k n u) w
  | inr (s, u) ↦
      rw (set-known m p k n s u)
        (insert-IsTable m p _ w (set_seg-IsSegMap s k n (w p s u) (fits s u)))
]

pub missing-insert :
    (m : SegMapSet) (p q b : ℕ) (s : SegMap)
    → missing (insert p s m) q b ≡ (if p == q then covers s.seqlen_map b else missing m q b)
unfolding missing
missing-insert m p q b s = rw (lookup-insert p q s m, missing) (ground arith)

pub missing-erase :
    (m : SegMapSet) (p q b : ℕ)
    → missing (erase p m) q b ≡ (if p == q then false else missing m q b)
unfolding missing
missing-erase m p q b = rw (lookup-erase p q m, missing) (ground arith)

pub missing-known :
    (m : SegMapSet) (p b : ℕ) (s : SegMap)
    → lookup p m ≡ some s
    → missing m p b ≡ covers s.seqlen_map b
unfolding missing
missing-known m p b s e = rw (e, missing)

-- After `set` of a segment that lies inside the product, the bytes of the segment are no longer
-- missing if it answers 1, and every other byte of every product is as it was.
pub missing-set :
    (m : SegMapSet) (p k n q b : ℕ)
    → IsTable m
    → Fits m p k n
    → missing (set m p k n).0 q b
      ≡ (missing m q b && not ((p == q) && (is_done (set m p k n).1 && in_seg k n b)))
missing-set m p k n q b w fits = elim (Option-cases (lookup p m)) [
  | inl u ↦ rw (set-unknown m p k n u) (ground arith)
  | inr (s, u) ↦ rw (set-known m p k n s u) (
      ground (
        arith,
        missing-insert m p q b (set_seg s k n).0,
        missing-known m p b s u,
        set_seg-covers s k n b (w p s u) (fits s u),
        ap (λ (x : ℕ). missing m x b),
      ))
]
