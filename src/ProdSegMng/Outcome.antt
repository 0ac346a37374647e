-- ===== src/ProdSegMng/Outcome.antt =====
-- What `ProdSegMNG::set` answers, from the missing bytes alone.
use fmtp_ldm.Prelude.{
  ℕ, ◌+◌, ◌≤◌, ◌<◌, ◌≡◌, refl, Bool, true, false, ◌&&◌, ◌||◌, none, some, [], ◌∷◌, inl, inr, arith,
  ltb, leb, if◌then◌else◌, Option-cases, lt-cases, sym,
}
use fmtp_ldm.Prelude.Word.{u32_mod, add32_exact}
use fmtp_ldm.ProdSegMng.Segments.{SeqLenMap, Gap, find, before, empty}
use fmtp_ldm.ProdSegMng.Gaps.{IsGaps, covers, covers_below, find-bounds}
use fmtp_ldm.ProdSegMng.Removes.{before-bounds}
use fmtp_ldm.ProdSegMng.{SetState, misaligned, duplicate, done, set_at, set_after, set_map}

-- Some entry holds the whole segment.
unfoldable pub inside : SeqLenMap → ℕ → ℕ → Bool
inside [] s n = false
inside (g ∷ gs) s n = (leb g.start s && leb (s + n) (g.start + g.len)) || inside gs s n

-- The answer that the comments of ProdSegMNG.cpp promise: 1 if one entry holds the segment, -1 if
-- its first byte is missing and no entry holds it, 0 if its first byte has been received.
unfoldable pub classify : SeqLenMap → ℕ → ℕ → SetState
unfolding inside covers
classify m s n = if covers m s then (if inside m s n then done else misaligned) else duplicate

inside_below : (lo hi k n : ℕ) (m : SeqLenMap) → IsGaps lo hi m → k < lo → inside m k n ≡ false
unfolding inside
inside_below lo hi k n [] w h = refl
inside_below lo hi k n (g ∷ gs) w h = ground (arith, inside_below (g.start + g.len) hi k n gs w.2)

find-classify :
    (lo hi k l n : ℕ) (m : SeqLenMap)
    → IsGaps lo hi m
    → 0 < n
    → find k m ≡ some l
    → (covers m k ≡ true) × (inside m k n ≡ leb n l)
unfolding find covers inside
find-classify lo hi k l n [] w z e = absurd (ground arith)
find-classify lo hi k l n (g ∷ gs) w z e = ground (
  arith,
  find-classify (g.start + g.len) hi k l n gs w.2 z,
  find-bounds k l (g.start + g.len) hi gs w.2,
  inside_below (g.start + g.len) hi k n gs w.2,
)

none-classify :
    (lo hi k n : ℕ) (m : SeqLenMap)
    → IsGaps lo hi m
    → find k m ≡ none
    → before k m ≡ none
    → (covers m k ≡ false) × (inside m k n ≡ false)
unfolding find before covers inside
none-classify lo hi k n [] w f e = (refl, refl)
none-classify lo hi k n (x ∷ xs) w f e = elim (lt-cases x.start k) [
  | inl (t, p) ↦ elim (Option-cases (before k xs)) [
    | inl u ↦ absurd (ground arith)
    | inr (g, u) ↦ absurd (ground arith)
  ]
  | inr (t, p) ↦ ground (
    arith,
    covers_below (x.start + x.len) hi k xs w.2,
    inside_below (x.start + x.len) hi k n xs w.2,
  )
]

before-classify :
    (lo hi k n : ℕ) (m : SeqLenMap) (g : Gap)
    → IsGaps lo hi m
    → 0 < n
    → find k m ≡ none
    → before k m ≡ some g
    → (covers m k ≡ ltb k (g.start + g.len)) × (inside m k n ≡ leb (k + n) (g.start + g.len))
unfolding find before covers inside
before-classify lo hi k n [] g w z f e = absurd (ground arith)
before-classify lo hi k n (x ∷ xs) g w z f e = elim (Option-cases (before k xs)) [
  | inl u ↦ ground (arith, none-classify (x.start + x.len) hi k n xs w.2)
  | inr (h, u) ↦ ground (
    arith,
    before-classify (x.start + x.len) hi k n xs h w.2 z,
    before-bounds k (x.start + x.len) hi xs {g = h} w.2,
  )
]

set_at-classify :
    (hi k l n : ℕ) (m : SeqLenMap)
    → IsGaps 0 hi m
    → 0 < n
    → find k m ≡ some l
    → (set_at m k n l).1 ≡ classify m k n
unfolding set_at classify
set_at-classify hi k l n m w z e = ground (arith, find-classify 0 hi k l n m w z e)

set_after-classify :
    (hi k n : ℕ) (m : SeqLenMap) (g : Gap)
    → IsGaps 0 hi m
    → hi < u32_mod
    → k + n ≤ hi
    → 0 < n
    → find k m ≡ none
    → before k m ≡ some g
    → (set_after m k n g).1 ≡ classify m k n
unfolding set_after classify
set_after-classify hi k n m g w small fits z f e =
    let in_map = before-bounds k 0 hi m {g = g} w e in
    let e₁ = add32_exact k n (omega arith) in
    let e₂ = add32_exact g.start g.len (omega arith) in
    rw (e₁, e₂) (ground (arith, before-classify 0 hi k n m g w z f e))

-- For a segment inside the product, `set` answers as the comments of the source promise.
pub set_map-classify :
    (hi k n : ℕ) (m : SeqLenMap)
    → IsGaps 0 hi m
    → hi < u32_mod
    → k + n ≤ hi
    → 0 < n
    → (set_map m k n).1 ≡ classify m k n
unfolding set_map empty
set_map-classify hi k n [] w small fits z = unfold classify covers in refl
set_map-classify hi k n (g ∷ gs) w small fits z = elim (Option-cases (find k (g ∷ gs))) [
  | inr (l, e) ↦ rw e (set_at-classify hi k l n (g ∷ gs) w z e)
  | inl e ↦ elim (Option-cases (before k (g ∷ gs))) [
    | inr (h, f) ↦ rw (e, f) (set_after-classify hi k n (g ∷ gs) h w small fits z e f)
    | inl f ↦ rw (e, f) (sym (unfold classify in rw ((none-classify 0 hi k n (g ∷ gs) w e f).0)))
  ]
]
