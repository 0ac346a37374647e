-- ===== src/ProdSegMng/Gaps.antt =====
-- Well-formed gap lists, the bytes that they cover, and what `put` and `remove` do to those.
use fmtp_ldm.Prelude.{
  ℕ, ◌+◌, ◌≤◌, ◌<◌, ◌≡◌, refl, Bool, true, false, ◌&&◌, ◌||◌, some, [], ◌∷◌, arith, ltb, leb,
}
use fmtp_ldm.ProdSegMng.Segments.{SeqLenMap, gap, find, put}

-- The gaps are sorted, disjoint, not empty, and lie between `lo` and `hi`.
abbrev pub IsGaps : ℕ → ℕ → SeqLenMap → Type 0
IsGaps lo hi [] = lo ≤ hi
IsGaps lo hi (g ∷ gs) = (lo ≤ g.start) × (0 < g.len) × IsGaps (g.start + g.len) hi gs

-- Byte `b` lies in the segment of `n` bytes from `s` on.
abbrev pub in_seg : ℕ → ℕ → ℕ → Bool
in_seg s n b = leb s b && ltb b (s + n)

-- Byte `b` is missing.
unfoldable pub covers : SeqLenMap → ℕ → Bool
covers [] b = false
covers (g ∷ gs) b = in_seg g.start g.len b || covers gs b

-- All bytes of a segment are missing.
abbrev pub AllMissing : SeqLenMap → ℕ → ℕ → Type 0
AllMissing m s n = (b : ℕ) → s ≤ b → b < s + n → covers m b ≡ true

pub IsGaps-mono : (lo lo' hi : ℕ) (m : SeqLenMap) → lo' ≤ lo → IsGaps lo hi m → IsGaps lo' hi m
IsGaps-mono lo lo' hi [] h w = omega arith
IsGaps-mono lo lo' hi (g ∷ gs) h w = (omega arith, w.1, w.2)

pub IsGaps-bound : (lo hi : ℕ) (m : SeqLenMap) → IsGaps lo hi m → lo ≤ hi
IsGaps-bound lo hi [] w = w
IsGaps-bound lo hi (g ∷ gs) w = omega (arith, IsGaps-bound (g.start + g.len) hi gs w.2)

pub covers_below : (lo hi b : ℕ) (m : SeqLenMap) → IsGaps lo hi m → b < lo → covers m b ≡ false
unfolding covers
covers_below lo hi b [] w h = refl
covers_below lo hi b (g ∷ gs) w h = ground (arith, covers_below (g.start + g.len) hi b gs w.2)

pub covers_above : (lo hi b : ℕ) (m : SeqLenMap) → IsGaps lo hi m → hi ≤ b → covers m b ≡ false
unfolding covers
covers_above lo hi b [] w h = refl
covers_above lo hi b (g ∷ gs) w h =
    ground
      (arith, covers_above (g.start + g.len) hi b gs w.2, IsGaps-bound (g.start + g.len) hi gs w.2)

pub find-bounds :
    (k v lo hi : ℕ) (m : SeqLenMap)
    → IsGaps lo hi m
    → find k m ≡ some v
    → (lo ≤ k) × (0 < v) × (k + v ≤ hi)
unfolding find
find-bounds k v lo hi [] w e = ground arith
find-bounds k v lo hi (g ∷ gs) w e =
    ground
      (arith, find-bounds k v (g.start + g.len) hi gs w.2, IsGaps-bound (g.start + g.len) hi gs w.2)

pub put-low : (k v lo hi : ℕ) (m : SeqLenMap) → IsGaps lo hi m → k < lo → put k v m ≡ gap k v ∷ m
unfolding put
put-low k v lo hi [] w h = refl
put-low k v lo hi (g ∷ gs) w h = ground arith
