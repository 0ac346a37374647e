-- ===== src/Protocol/Memory/Shortest.antt =====
-- The pass that finds a socket with the fewest requests, and the map without it.
use mathlib.Core.Option.{some-injective}
use mathlib.Core.List.{Perm}
use mathlib.Core.List.Perm
use fmtp_ldm.Prelude.{
  ℕ, ◌≤◌, ◌<◌, ◌≡◌, refl, ap, subst, ◌⊎◌, inl, inr, none, some, List, [], ◌∷◌, length, All,
  eq-cases, lt-cases, arith,
}
use fmtp_ldm.Prelude.Dict.{lookup, erase}
use fmtp_ldm.Protocol.Memory.{find_shortest}

abbrev pub Entries : Type 0
Entries = List (ℕ × ℕ)

abbrev pub keys {ℓ} : {A : Type ℓ} → List (ℕ × A) → List ℕ
keys [] = []
keys ((key, val) ∷ rest) = key ∷ keys rest

-- No key comes twice, as in a `std::map`.
abbrev pub Distinct {ℓ} : {A : Type ℓ} → List (ℕ × A) → Type ℓ
Distinct [] = Unit
Distinct ((key, val) ∷ rest) = (lookup key rest ≡ none) × Distinct rest

abbrev pub Bounded : ℕ → Entries → Type 0
Bounded b = All (λ (e : ℕ × ℕ). b ≤ e.1)

erase_absent : (k : ℕ) (d : Entries) → lookup k d ≡ none → erase k d ≡ d
unfolding lookup erase
erase_absent k [] h = refl
erase_absent k ((j, n) ∷ d) h = elim (eq-cases j k) [
  | inl (t, e) ↦ let f = rw t at h in cc
  | inr (t, e) ↦ rw t (ap (◌∷◌ (j, n)) (erase_absent k d (rw t at h)))
]

erase_other_absent : (k j : ℕ) (d : Entries) → lookup j d ≡ none → lookup j (erase k d) ≡ none
unfolding lookup erase
erase_other_absent k j [] h = refl
erase_other_absent k j ((i, n) ∷ d) h = elim (eq-cases i j) [
  | inl (t, e) ↦ let f = rw t at h in cc
  | inr (t, e) ↦ elim (eq-cases i k) [
    | inl (u, f) ↦ rw u (erase_other_absent k j d (rw t at h))
    | inr (u, f) ↦ rw (u, lookup, t) (erase_other_absent k j d (rw t at h))
  ]
]

pub erase-Distinct : (k : ℕ) (d : Entries) → Distinct d → Distinct (erase k d)
unfolding erase
erase-Distinct k [] w = tt
erase-Distinct k ((j, n) ∷ d) (h, w) = elim (eq-cases j k) [
  | inl (t, e) ↦ rw t (erase-Distinct k d w)
  | inr (t, e) ↦ rw t (erase_other_absent k j d h, erase-Distinct k d w)
]

pub erase-All : (P : ℕ × ℕ → Type 0) (k : ℕ) (d : Entries) → All P d → All P (erase k d)
unfolding erase
erase-All P k [] a = tt
erase-All P k ((j, n) ∷ d) (h, a) = elim (eq-cases j k) [
  | inl (t, e) ↦ rw t (erase-All P k d a)
  | inr (t, e) ↦ rw t (h, erase-All P k d a)
]

pub lookup-All :
    (P : ℕ × ℕ → Type 0) (k n : ℕ) (d : Entries) → lookup k d ≡ some n → All P d → P (k, n)
unfolding lookup
lookup-All P k n [] h a = cc
lookup-All P k n ((j, m) ∷ d) h (p, a) = elim (eq-cases j k) [
  | inl (t, e) ↦ let f : m ≡ n = some-injective _ _ (rw t at h) in subst P (λ i. (e i, f i)) p
  | inr (t, e) ↦ lookup-All P k n d (rw t at h) a
]

pub perm_erase :
    (k n : ℕ) (d : Entries)
    → lookup k d ≡ some n
    → Distinct d
    → Perm (keys d) (k ∷ keys (erase k d))
unfolding lookup erase
perm_erase k n [] h w = cc
perm_erase k n ((j, m) ∷ d) h (a, w) = elim (eq-cases j k) [
  | inl (t, e) ↦
      rw (t, e, erase_absent k d (subst (λ x. lookup x d ≡ none) e a)) (Perm.refl (k ∷ keys d))
  | inr (t, e) ↦
      rw t (
        Perm.trans (Perm.cons j (perm_erase k n d (rw t at h) w))
          (Perm.swap k j (keys (erase k d))))
]

length-erase_le : (k : ℕ) (d : Entries) → length (erase k d) ≤ length d
unfolding erase
length-erase_le k [] = omega arith
length-erase_le k ((j, m) ∷ d) = elim (eq-cases j k) [
  | inl (t, e) ↦ rw t (omega (arith, length-erase_le k d))
  | inr (t, e) ↦ rw t (omega (arith, length-erase_le k d))
]

pub length-erase : (k n : ℕ) (d : Entries) → lookup k d ≡ some n → length (erase k d) < length d
unfolding lookup erase
length-erase k n [] h = cc
length-erase k n ((j, m) ∷ d) h = elim (eq-cases j k) [
  | inl (t, e) ↦ rw t (omega (arith, length-erase_le k d))
  | inr (t, e) ↦ rw t (omega (arith, length-erase k n d (rw t at h)))
]

-- What a pass finds: the start, when nothing is below it, or the entry with the least number.
abbrev Found : ℕ → ℕ → Entries → ℕ → Type 0
Found min_sock min_num d found =
    ((found ≡ min_sock) × Bounded min_num d)
    ⊎ ((v : ℕ) × (lookup found d ≡ some v) × (v < min_num) × Bounded v d)

-- An entry that is found in the rest is found behind another one.
found_later :
    (sock num found v : ℕ) (d : Entries)
    → lookup sock d ≡ none
    → lookup found d ≡ some v
    → lookup found ((sock, num) ∷ d) ≡ some v
unfolding lookup
found_later sock num found v d a h = elim (eq-cases sock found) [
  | inl (t, e) ↦ let f = subst (λ x. lookup x d ≡ none) e a in cc
  | inr (t, e) ↦ rw t h
]

found_here : (sock num : ℕ) (d : Entries) → lookup sock ((sock, num) ∷ d) ≡ some num
unfolding lookup
found_here sock num d = ground arith

pub find_shortest_lem :
    (d : Entries) (min_sock min_num : ℕ)
    → Distinct d
    → Found min_sock min_num d (find_shortest min_sock min_num d)
unfolding find_shortest
find_shortest_lem [] min_sock min_num w = inl (refl, tt)
find_shortest_lem ((sock, num) ∷ d) min_sock min_num (a, w) = elim (lt-cases num min_num) [
  | inl (t, l) ↦
      rw (find_shortest, t)
        (elim (find_shortest_lem d sock num w) [
          | inl (e, b) ↦ inr (num, rw e (found_here sock num d), l, (omega arith, b))
          | inr (v, h, k, b) ↦
              inr (v, found_later sock num _ v d a h, omega arith, (omega arith, b))
        ])
  | inr (t, l) ↦
      rw (find_shortest, t)
        (elim (find_shortest_lem d min_sock min_num w) [
          | inl (e, b) ↦ inl (e, (l, b))
          | inr (v, h, k, b) ↦ inr (v, found_later sock num _ v d a h, k, (omega arith, b))
        ])
]
