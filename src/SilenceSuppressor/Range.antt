-- ===== src/SilenceSuppressor/Range.antt =====
-- What the run still waits for, after removals and after `clearrange`.
use fmtp_ldm.Prelude.{
  ℕ, zero, suc, ◌+◌, ◌≤◌, ◌<◌, ◌≡◌, refl, true, false, not, ◌&&◌, some, [], ◌∷◌, ◌==◌, arith, ltb,
  leb, inl, inr, Bool-cases,
}
use fmtp_ldm.SilenceSuppressor.{
  ProdSet, from_range, init, clear_range, query, contains, without, remove,
}

-- In increasing order, from `lo` on.
abbrev pub IsSorted : ℕ → ProdSet → Type 0
IsSorted lo [] = Unit {0}
IsSorted lo (x ∷ xs) = (lo ≤ x) × IsSorted (x + 1) xs

IsSorted-mono : (lo lo' : ℕ) (s : ProdSet) → lo' ≤ lo → IsSorted lo s → IsSorted lo' s
IsSorted-mono lo lo' [] h w = tt
IsSorted-mono lo lo' (x ∷ xs) h w = (omega arith, w.1)

contains_low : (lo k : ℕ) (s : ProdSet) → IsSorted lo s → k < lo → contains s k ≡ false
unfolding contains
contains_low lo k [] w h = refl
contains_low lo k (x ∷ xs) w h = ground (arith, contains_low (x + 1) k xs w.1)

from_range-IsSorted : (lo n : ℕ) → IsSorted lo (from_range lo n)
unfolding from_range
from_range-IsSorted lo zero = tt
from_range-IsSorted lo (suc n) = (omega arith, from_range-IsSorted (lo + 1) n)

contains-from_range : (lo n k : ℕ) → contains (from_range lo n) k ≡ (leb lo k && ltb k (lo + n))
unfolding from_range contains
contains-from_range lo zero k = ground arith
contains-from_range lo (suc n) k = ground (arith, contains-from_range (lo + 1) n k)

without-IsSorted : (lo k : ℕ) (s : ProdSet) → IsSorted lo s → IsSorted lo (without s k)
unfolding without
without-IsSorted lo k [] w = tt
without-IsSorted lo k (x ∷ xs) w = elim (Bool-cases (x == k)) [
  | inl e ↦ rw e (IsSorted-mono (x + 1) lo xs (omega arith) w.1)
  | inr e ↦ rw e (w.0, without-IsSorted (x + 1) k xs w.1)
]

contains-without :
    (lo k j : ℕ) (s : ProdSet)
    → IsSorted lo s
    → contains (without s k) j ≡ (contains s j && not (k == j))
unfolding contains without
contains-without lo k j [] w = refl
contains-without lo k j (x ∷ xs) w =
    ground (arith, contains-without (x + 1) k j xs w.1, contains_low (x + 1) j xs w.1)

-- `remove` takes out the product and no other, and answers whether it was there.
pub contains-remove :
    (lo k j : ℕ) (s : ProdSet)
    → IsSorted lo s
    → ((remove s k).1 ≡ contains s k)
      × (contains (remove s k).0 j ≡ (contains s j && not (k == j)))
      × IsSorted lo (remove s k).0
unfolding remove
contains-remove lo k j s w = (refl, contains-without lo k j s w, without-IsSorted lo k s w)

-- `query` answers the least product that is left.
pub query-least :
    (lo q j : ℕ) (s : ProdSet) → IsSorted lo s → query s ≡ some q → contains s j ≡ true → q ≤ j
unfolding query contains
query-least lo q j [] w e h = absurd (ground arith)
query-least lo q j (x ∷ xs) w e h = ground (arith, contains_low (x + 1) j xs w.1)

-- `clearrange(end)` keeps the products from `end` on, provided that `end` is in the set.
pub contains-clear_range :
    (lo k j : ℕ) (s : ProdSet)
    → IsSorted lo s
    → contains s k ≡ true
    → contains (clear_range s k) j ≡ (contains s j && leb k j)
unfolding clear_range contains
contains-clear_range lo k j [] w h = absurd (ground arith)
contains-clear_range lo k j (x ∷ xs) w h = ground (
  arith,
  contains-clear_range (x + 1) k j xs w.1,
  contains_low (x + 1) k xs w.1,
  contains_low (x + 1) j xs w.1,
)

clear_range_absent : (k : ℕ) (s : ProdSet) → contains s k ≡ false → clear_range s k ≡ []
unfolding clear_range contains
clear_range_absent k [] h = refl
clear_range_absent k (x ∷ xs) h = ground (arith, clear_range_absent k xs)

-- If `end` has been removed from the set, `clearrange(end)` clears the products above it too.
pub clear_range-remove :
    (lo k : ℕ) (s : ProdSet) → IsSorted lo s → clear_range (remove s k).0 k ≡ []
unfolding remove
clear_range-remove lo k s w =
    clear_range_absent k (without s k) (ground (arith, contains-without lo k k s w))

-- The constructor: exactly the products below `prodnum`, in order.
pub contains-init :
    (prodnum k : ℕ) → (contains (init prodnum) k ≡ ltb k prodnum) × IsSorted 0 (init prodnum)
unfolding init
contains-init prodnum k =
    (ground (arith, contains-from_range 0 prodnum k), from_range-IsSorted 0 prodnum)
