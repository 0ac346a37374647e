-- ===== src/SenderMetadata/Sets.antt =====
-- `std::set<int>` of sockets and `std::list<int>`, as lists.
use fmtp_ldm.Prelude.{
  ℕ, ◌≡◌, refl, Bool, true, false, not, ◌&&◌, ◌||◌, List, [], ◌∷◌, ◌==◌, if◌then◌else◌, arith, ap,
}

unfoldable pub is_empty : List ℕ → Bool
is_empty [] = true
is_empty (x ∷ xs) = false

-- std::find(first, last, k) != last
unfoldable pub member : ℕ → List ℕ → Bool
member k [] = false
member k (x ∷ xs) = x == k || member k xs

-- erase(k)
unfoldable pub remove : ℕ → List ℕ → List ℕ
remove k [] = []
remove k (x ∷ xs) = if x == k then remove k xs else x ∷ remove k xs

-- The loop that erases what `std::find` does not find in `keep`.
unfoldable pub retain : List ℕ → List ℕ → List ℕ
unfolding member
retain keep [] = []
retain keep (x ∷ xs) = if member x keep then x ∷ retain keep xs else retain keep xs

pub member-remove : (k j : ℕ) (xs : List ℕ) → member j (remove k xs) ≡ (member j xs && not (k == j))
unfolding member remove
member-remove k j [] = refl
member-remove k j (x ∷ xs) = ground (arith, member-remove k j xs)

pub member-retain :
    (keep : List ℕ) (j : ℕ) (xs : List ℕ)
    → member j (retain keep xs) ≡ (member j xs && member j keep)
unfolding retain member
member-retain keep j [] = refl
member-retain keep j (x ∷ xs) =
    ground (arith, member-retain keep j xs, ap (λ (y : ℕ). member y keep))
