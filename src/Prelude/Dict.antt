-- ===== src/Prelude/Dict.antt =====
-- `std::map`, `std::unordered_map` and their sets, keyed by product index, as association lists.
-- The order of the entries is not observed by any operation here.
use Prim.Native.Nat.{ℕ}
use mathlib.Core.Path.{◌≡◌, refl}
use mathlib.Core.Bool.{Bool, true, false}
use mathlib.Core.Option.{Option, none, some}
use mathlib.Core.List.{List, [], ◌∷◌}
use native.Mathlib.Omega.{arith}
use fmtp_ldm.Prelude.Tests.{◌==◌, if◌then◌else◌}

module _ {ℓ} {Val : Type ℓ} where
  -- find(key)
  unfoldable pub lookup : ℕ → List (ℕ × Val) → Option Val
  lookup key [] = none
  lookup key ((other, val) ∷ rest) = if other == key then some val else lookup key rest

  -- map[key] = val
  unfoldable pub insert : ℕ → Val → List (ℕ × Val) → List (ℕ × Val)
  insert key val [] = (key, val) ∷ []
  insert key val ((other, old) ∷ rest) =
      if other == key then (key, val) ∷ rest else (other, old) ∷ insert key val rest

  -- erase(key)
  unfoldable pub erase : ℕ → List (ℕ × Val) → List (ℕ × Val)
  erase key [] = []
  erase key ((other, old) ∷ rest) =
      if other == key then erase key rest else (other, old) ∷ erase key rest

  -- count(key)
  abbrev pub is_some : Option Val → Bool
  is_some none = false
  is_some (some val) = true

  pub lookup-insert :
      (key asked : ℕ) (val : Val) (dict : List (ℕ × Val))
      → lookup asked (insert key val dict) ≡ (if key == asked then some val else lookup asked dict)
  unfolding insert lookup
  lookup-insert key asked val [] = refl
  lookup-insert key asked val ((other, old) ∷ rest) =
      ground (arith, lookup-insert key asked val rest)

  pub lookup-erase :
      (key asked : ℕ) (dict : List (ℕ × Val))
      → lookup asked (erase key dict) ≡ (if key == asked then none else lookup asked dict)
  unfolding erase lookup
  lookup-erase key asked [] = ground arith
  lookup-erase key asked ((other, old) ∷ rest) = ground (arith, lookup-erase key asked rest)

  pub lookup-insert_self :
      (key : ℕ) (val : Val) (dict : List (ℕ × Val)) → lookup key (insert key val dict) ≡ some val
  lookup-insert_self key val dict = ground (arith, lookup-insert key key val dict)

  pub lookup-erase_self : (key : ℕ) (dict : List (ℕ × Val)) → lookup key (erase key dict) ≡ none
  lookup-erase_self key dict = ground (arith, lookup-erase key key dict)
