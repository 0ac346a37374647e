-- ===== src/SilenceSuppressor.antt =====
-- FMTPv3/SilenceSuppressor/SilenceSuppressor.cpp: the products of a run that have not been
-- acknowledged by all receivers. `std::set<uint32_t>` is a list in increasing order.
pub mod Range
use fmtp_ldm.Prelude.{
  ℕ, zero, suc, ◌+◌, Bool, true, false, Option, none, some, List, [], ◌∷◌, ◌==◌, ◌||◌,
  if◌then◌else◌,
}

abbrev pub ProdSet : Type 0
ProdSet = List ℕ

unfoldable pub from_range : ℕ → ℕ → ProdSet
from_range lo zero = []
from_range lo (suc n) = lo ∷ from_range (lo + 1) n

-- The constructor: the products 0 to prodnum - 1.
unfoldable pub init : ℕ → ProdSet
unfolding from_range
init prodnum = from_range 0 prodnum

-- erase(begin(), find(end)), where `find` is `end()` if `end` is not in the set.
unfoldable pub clear_range : ProdSet → ℕ → ProdSet
clear_range [] end_index = []
clear_range (x ∷ xs) end_index = if x == end_index then x ∷ xs else clear_range xs end_index

-- *begin(); `none` stands for the undefined value of an empty set.
unfoldable pub query : ProdSet → Option ℕ
query [] = none
query (x ∷ xs) = some x

unfoldable pub contains : ProdSet → ℕ → Bool
contains [] k = false
contains (x ∷ xs) k = x == k || contains xs k

unfoldable pub without : ProdSet → ℕ → ProdSet
without [] k = []
without (x ∷ xs) k = if x == k then xs else x ∷ without xs k

unfoldable pub remove : ProdSet → ℕ → ProdSet × Bool
unfolding contains without
remove s prodindex = (without s prodindex, contains s prodindex)
