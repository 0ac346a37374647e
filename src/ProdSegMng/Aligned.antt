-- ===== src/ProdSegMng/Aligned.antt =====
-- Gap lists whose ends lie at block boundaries, and that `ProdSegMNG::set` keeps them so for a block.
use Prim.Native.Nat.{min}
use fmtp_ldm.Prelude.{
  ℕ, ◌+◌, ◌-◌, ◌%◌, ◌<◌, ◌≡◌, refl, true, some, [], ◌∷◌, ◌⊎◌, inl, inr, arith, leb, Option-cases,
  Bool-cases, All, eq-cases, lt-cases, subst,
}
use fmtp_ldm.Prelude.Word.{u32_mod, add32_exact, sub32_exact}
use fmtp_ldm.FmtpBase.{fmtp_data_len}
use fmtp_ldm.ProdSegMng.Segments.{SeqLenMap, Gap, gap, find, put, remove, before, empty}
use fmtp_ldm.ProdSegMng.Gaps.{IsGaps, in_seg, covers, find-bounds}
use fmtp_ldm.ProdSegMng.Removes.{before-bounds}
use fmtp_ldm.ProdSegMng.Outcome.{inside}
use fmtp_ldm.ProdSegMng.{set_at, set_after, set_map}

-- The payload length of the block at `k` of a product of `hi` bytes.
abbrev pub block_len : ℕ → ℕ → ℕ
block_len hi k = min fmtp_data_len (hi - k)

abbrev pub IsBlock : ℕ → ℕ → Type 0
IsBlock hi k = (k < hi) × (k % fmtp_data_len ≡ 0)

abbrev pub AtBlocks : ℕ → Gap → Type 0
AtBlocks hi g =
    (g.start % fmtp_data_len ≡ 0)
    × (((g.start + g.len) % fmtp_data_len ≡ 0) ⊎ (g.start + g.len ≡ hi))

-- Every gap begins and ends at a block boundary.
abbrev pub IsAligned : ℕ → SeqLenMap → Type 0
IsAligned hi = All (AtBlocks hi)

module _ (P : Gap → Type 0) where
  All-put : (k v : ℕ) (m : SeqLenMap) → P (gap k v) → All P m → All P (put k v m)
  unfolding put
  All-put k v [] p a = (p, tt)
  All-put k v (g ∷ gs) p a = elim (lt-cases k g.start) [
    | inl (t, _) ↦ rw t (p, a)
    | inr (t, _) ↦ elim (eq-cases k g.start) [
      | inl (u, _) ↦ rw (t, u) (p, a.1)
      | inr (u, _) ↦ rw (t, u) (a.0, All-put k v gs p a.1)
    ]
  ]

  All-remove : (k : ℕ) (m : SeqLenMap) → All P m → All P (remove k m)
  unfolding remove
  All-remove k [] a = tt
  All-remove k (g ∷ gs) a = elim (eq-cases g.start k) [
    | inl (t, _) ↦ rw t a.1
    | inr (t, _) ↦ rw t (a.0, All-remove k gs a.1)
  ]

  find-All : (k l : ℕ) (m : SeqLenMap) → find k m ≡ some l → All P m → P (gap k l)
  unfolding find
  find-All k l [] e a = absurd (ground arith)
  find-All k l (g ∷ gs) e a = elim (eq-cases g.start k) [
    | inl (t, p) ↦ let q : g ≡ gap k l = ground arith in subst P q a.0
    | inr (t, _) ↦ find-All k l gs (ground arith) a.1
  ]

  before-All : (k : ℕ) (m : SeqLenMap) (g : Gap) → before k m ≡ some g → All P m → P g
  unfolding before
  before-All k [] g e a = absurd (ground arith)
  before-All k (h ∷ hs) g e a = elim (Option-cases (before k hs)) [
    | inl u ↦ let q : h ≡ g = ground arith in subst P q a.0
    | inr (g', u) ↦ before-All k hs g (ground arith) a.1
  ]

pub block_inside :
    (lo hi k : ℕ) (m : SeqLenMap)
    → IsGaps lo hi m
    → IsAligned hi m
    → IsBlock hi k
    → covers m k ≡ true
    → inside m k (block_len hi k) ≡ true
unfolding covers inside
block_inside lo hi k [] w a h e = absurd (ground arith)
block_inside lo hi k (g ∷ gs) w a h e = elim (Bool-cases (in_seg g.start g.len k)) [
  | inl t ↦ ground arith
  | inr t ↦ ground (arith, block_inside (g.start + g.len) hi k gs w.2 a.1 h)
]

-- A block is missing as a whole or not at all.
pub block_uniform :
    (lo hi k b : ℕ) (m : SeqLenMap)
    → IsGaps lo hi m
    → IsAligned hi m
    → IsBlock hi k
    → in_seg k (block_len hi k) b ≡ true
    → covers m b ≡ covers m k
unfolding covers
block_uniform lo hi k b [] w a h e = refl
block_uniform lo hi k b (g ∷ gs) w a h e =
    ground (arith, block_uniform (g.start + g.len) hi k b gs w.2 a.1 h)

set_at-IsAligned :
    (hi k l : ℕ) (m : SeqLenMap)
    → IsGaps 0 hi m
    → hi < u32_mod
    → IsAligned hi m
    → IsBlock hi k
    → find k m ≡ some l
    → IsAligned hi (set_at m k (block_len hi k) l).0
unfolding set_at
set_at-IsAligned hi k l m w small a h e =
    let n = block_len hi k in
    let in_map = find-bounds k l 0 hi m w e in
    let old = find-All (AtBlocks hi) k l m e a in
    elim (lt-cases n l) [
      | inl (t, p) ↦
          rw (add32_exact k n (omega arith), sub32_exact l n (omega arith) (omega arith), t)
            (All-put (AtBlocks hi) (k + n) (l - n) (remove k m) (ground arith)
              (All-remove (AtBlocks hi) k m a))
      | inr (t, p) ↦ elim (eq-cases l n) [
        | inl (u, _) ↦ rw (t, u) (All-remove (AtBlocks hi) k m a)
        | inr (u, _) ↦ rw (t, u) a
      ]
    ]

set_after-IsAligned :
    (hi k : ℕ) (m : SeqLenMap) (g : Gap)
    → IsGaps 0 hi m
    → hi < u32_mod
    → IsAligned hi m
    → IsBlock hi k
    → before k m ≡ some g
    → IsAligned hi (set_after m k (block_len hi k) g).0
unfolding set_after
set_after-IsAligned hi k m g w small a h e =
    let n = block_len hi k in
    let in_map = before-bounds k 0 hi m {g = g} w e in
    let old = before-All (AtBlocks hi) k m g e a in
    let e₁ = add32_exact k n (omega arith) in
    let e₂ = add32_exact g.start g.len (omega arith) in
    let e₃ = sub32_exact k g.start (omega arith) (omega arith) in
    elim (lt-cases (k + n) (g.start + g.len)) [
      | inl (t, p) ↦
          rw
            (
              e₁,
              e₂,
              e₃,
              sub32_exact g.len n (omega arith) (omega arith),
              sub32_exact (g.len - n) (k - g.start) (omega arith) (omega arith),
              t,
            )
            (All-put (AtBlocks hi) (k + n) (g.len - n - (k - g.start)) _ (ground arith)
              (All-put (AtBlocks hi) g.start (k - g.start) m (ground arith) a))
      | inr (t, p) ↦ elim (eq-cases (g.start + g.len) (k + n)) [
        | inl (u, q) ↦
            rw (e₁, e₂, e₃, sub32_exact g.len n (omega arith) (omega arith), t, u)
              (All-put (AtBlocks hi) g.start (g.len - n) m (ground arith) a)
        | inr (u, q) ↦ elim (Bool-cases (leb (g.start + g.len) k)) [
          | inl v ↦ rw (e₁, e₂, t, u, v) a
          | inr v ↦ rw (e₁, e₂, t, u, v) a
        ]
      ]
    ]

pub set_map-IsAligned :
    (hi k : ℕ) (m : SeqLenMap)
    → IsGaps 0 hi m
    → hi < u32_mod
    → IsAligned hi m
    → IsBlock hi k
    → IsAligned hi (set_map m k (block_len hi k)).0
unfolding set_map empty
set_map-IsAligned hi k [] w small a h = tt
set_map-IsAligned hi k (g ∷ gs) w small a h = elim (Option-cases (find k (g ∷ gs))) [
  | inr (l, e) ↦ rw e (set_at-IsAligned hi k l (g ∷ gs) w small a h e)
  | inl e ↦ elim (Option-cases (before k (g ∷ gs))) [
    | inr (x, f) ↦ rw (e, f) (set_after-IsAligned hi k (g ∷ gs) x w small a h f)
    | inl f ↦ rw (e, f) a
  ]
]
