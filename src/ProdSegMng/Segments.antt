-- ===== src/ProdSegMng/Segments.antt =====
-- `SeqLenMap`, the `std::map<uint32_t, uint32_t>` of ProdSegMNG.h: a list sorted by its keys. An
-- entry is a run of bytes that have not been received.
use fmtp_ldm.Prelude.{
  ℕ, Bool, true, false, Option, none, some, List, [], ◌∷◌, ltb, ◌==◌, if◌then◌else◌,
}

pub record Gap : Type 0 where
  pub start : ℕ
  pub len : ℕ

abbrev pub SeqLenMap : Type 0
SeqLenMap = List Gap

abbrev pub gap : ℕ → ℕ → Gap
gap s n = record { start = s; len = n }

unfoldable pub empty : SeqLenMap → Bool
empty [] = true
empty (g ∷ gs) = false

-- find(k)
unfoldable pub find : ℕ → SeqLenMap → Option ℕ
find k [] = none
find k (g ∷ gs) = if g.start == k then some g.len else find k gs

-- map[k] = v
unfoldable pub put : ℕ → ℕ → SeqLenMap → SeqLenMap
put k v [] = gap k v ∷ []
put k v (g ∷ gs) =
    if ltb k g.start
    then gap k v ∷ g ∷ gs
    else if k == g.start
    then gap k v ∷ gs
    else g ∷ put k v gs

-- erase(k)
unfoldable pub remove : ℕ → SeqLenMap → SeqLenMap
remove k [] = []
remove k (g ∷ gs) = if g.start == k then gs else g ∷ remove k gs

abbrev pub or_first : Option Gap → Gap → Option Gap
or_first none g = some g
or_first (some h) g = some h

-- The entry before `lower_bound(k)`; `none` if that is `begin()`.
unfoldable pub before : ℕ → SeqLenMap → Option Gap
before k [] = none
before k (g ∷ gs) = if ltb g.start k then or_first (before k gs) g else none

-- rbegin()
unfoldable pub rbegin : SeqLenMap → Option Gap
rbegin [] = none
rbegin (g ∷ gs) = or_first (rbegin gs) g
