-- ===== src/Protocol/Memory/Sorting.antt =====
-- `SortSocketsByShortestJobs`: every socket once, those with fewer requests first.
use mathlib.Core.List.{Perm}
use mathlib.Core.List.Perm
use fmtp_ldm.Prelude.{
  ℕ, zero, suc, ◌≤◌, ◌<◌, ◌≡◌, ◌≢◌, refl, sym, ap, ◌∙◌, inl, inr, none, some, List, [], ◌∷◌, length,
  All, eq-cases, arith,
}
use fmtp_ldm.Prelude.Dict.{lookup, erase}
use fmtp_ldm.Protocol.Memory.{
  Nack, MissingMap, nacks_of, find_shortest, int_max, sort_loop, num_sockets,
  sort_sockets_by_shortest_jobs,
}
use fmtp_ldm.Protocol.Memory.Shortest.{
  Entries, keys, Distinct, Bounded, erase-Distinct, erase-All, lookup-All, perm_erase, length-erase,
  find_shortest_lem,
}

module _ (requests : ℕ → ℕ) where
  -- By number of requests.
  abbrev pub Ascending : List ℕ → Type 0
  Ascending [] = Unit
  Ascending (sock ∷ socks) = All (λ (s : ℕ). requests sock ≤ requests s) socks × Ascending socks

  -- The sorted sockets of a map.
  record Sorted (d : Entries) (socks : List ℕ) : Type 0 where
    perm : Perm socks (keys d)
    ascending : Ascending socks
    bounded : (b : ℕ) → Bounded b d → All (λ (s : ℕ). b ≤ requests s) socks

  sort_loop_lem :
      (fuel min_sock : ℕ) (d : Entries)
      → length d ≤ fuel
      → Distinct d
      → All (λ (e : ℕ × ℕ). requests e.0 ≡ e.1) d
      → All (λ (e : ℕ × ℕ). e.1 < int_max) d
      → (socks : List ℕ) × (sort_loop fuel min_sock d ≡ some socks) × Sorted d socks
  unfolding sort_loop
  sort_loop_lem zero min_sock [] h w a c =
      ([], refl, record { perm = Perm.refl []; ascending = tt; bounded = λ b k. tt })
  sort_loop_lem (suc fuel) min_sock [] h w a c =
      ([], refl, record { perm = Perm.refl []; ascending = tt; bounded = λ b k. tt })
  sort_loop_lem zero min_sock (entry ∷ d) h w a c = absurd (omega arith)
  sort_loop_lem (suc fuel) min_sock (entry ∷ d) h w a c =
      let entries : Entries = entry ∷ d in
      let found = find_shortest min_sock int_max entries in
      elim (find_shortest_lem entries min_sock int_max w) [
        | inl (e, b) ↦ absurd (omega (arith, b.0, c.0))
        | inr (v, at, small, least) ↦
            let (socks, e, s) =
              sort_loop_lem fuel found (erase found entries)
                (omega (arith, length-erase found v entries at)) (erase-Distinct found entries w)
                (erase-All _ found entries a) (erase-All _ found entries c) in
            let num : requests found ≡ v =
              lookup-All (λ e. requests e.0 ≡ e.1) found v entries at a in
            (
              found ∷ socks,
              rw (sort_loop, e) refl,
              record {
                perm =
                    Perm.trans (Perm.cons found s.perm)
                      (Perm.symm (perm_erase found v entries at w));
                ascending = (
                  s.bounded (requests found) (rw num (erase-All _ found entries least)),
                  s.ascending,
                );
                bounded = λ b k. (
                  omega (arith, num, lookup-All (λ e. b ≤ e.1) found v entries at k),
                  s.bounded b (erase-All _ found entries k),
                );
              },
            )
      ]

length-num_sockets : (m : MissingMap) → length (num_sockets m) ≡ length m
unfolding num_sockets
length-num_sockets [] = refl
length-num_sockets ((sock, nacks) ∷ m) = ap suc (length-num_sockets m)

keys-num_sockets : (m : MissingMap) → keys (num_sockets m) ≡ keys m
unfolding num_sockets
keys-num_sockets [] = refl
keys-num_sockets ((sock, nacks) ∷ m) = ap (◌∷◌ sock) (keys-num_sockets m)

num_sockets-absent : (k : ℕ) (m : MissingMap) → lookup k m ≡ none → lookup k (num_sockets m) ≡ none
unfolding num_sockets lookup
num_sockets-absent k [] h = refl
num_sockets-absent k ((sock, nacks) ∷ m) h = elim (eq-cases sock k) [
  | inl (t, e) ↦ let f = rw t at h in cc
  | inr (t, e) ↦ rw (lookup, t) (num_sockets-absent k m (rw t at h))
]

num_sockets-Distinct : (m : MissingMap) → Distinct m → Distinct (num_sockets m)
unfolding num_sockets
num_sockets-Distinct [] w = tt
num_sockets-Distinct ((sock, nacks) ∷ m) (a, w) =
    (num_sockets-absent sock m a, num_sockets-Distinct m w)

-- How many requests came on a socket.
abbrev pub requests_of : MissingMap → ℕ → ℕ
requests_of m sock = length (nacks_of sock m)

nacks_of-later :
    (k sock : ℕ) (nacks : List Nack) (m : MissingMap)
    → sock ≢ k
    → nacks_of k ((sock, nacks) ∷ m) ≡ nacks_of k m
unfolding nacks_of lookup
nacks_of-later k sock nacks m ne = elim (eq-cases sock k) [
  | inl (t, e) ↦ absurd (ne e)
  | inr (t, e) ↦ rw (nacks_of, lookup, t) refl
]

nacks_of-here :
    (sock : ℕ) (nacks : List Nack) (m : MissingMap) → nacks_of sock ((sock, nacks) ∷ m) ≡ nacks
unfolding nacks_of lookup
nacks_of-here sock nacks m = ground arith

-- A key of the rest is not the first one.
keys_agree :
    (sock : ℕ) (nacks : List Nack) (m : MissingMap) (d : List (ℕ × ℕ))
    → lookup sock d ≡ none
    → All (λ (e : ℕ × ℕ). requests_of m e.0 ≡ e.1) d
    → All (λ (e : ℕ × ℕ). requests_of ((sock, nacks) ∷ m) e.0 ≡ e.1) d
unfolding lookup
keys_agree sock nacks m [] h a = tt
keys_agree sock nacks m ((k, n) ∷ d) h (e, a) = elim (eq-cases k sock) [
  | inl (t, f) ↦ let g = rw t at h in cc
  | inr (t, f) ↦ (
    ap length (nacks_of-later k sock nacks m (λ g. f (sym g))) ∙ e,
    keys_agree sock nacks m d (rw t at h) a,
  )
]

num_sockets-counts :
    (m : MissingMap) → Distinct m → All (λ (e : ℕ × ℕ). requests_of m e.0 ≡ e.1) (num_sockets m)
unfolding num_sockets
num_sockets-counts [] w = tt
num_sockets-counts ((sock, nacks) ∷ m) (a, w) = (
  ap length (nacks_of-here sock nacks m),
  keys_agree sock nacks m (num_sockets m) (num_sockets-absent sock m a) (num_sockets-counts m w),
)

num_sockets-small :
    (m : MissingMap)
    → All (λ (e : ℕ × List Nack). length e.1 < int_max) m
    → All (λ (e : ℕ × ℕ). e.1 < int_max) (num_sockets m)
unfolding num_sockets
num_sockets-small [] a = tt
num_sockets-small ((sock, nacks) ∷ m) (h, a) = (h, num_sockets-small m a)

-- The sort ends with every socket of the map once, those with fewer requests first, whatever the
-- variable for the smallest socket holds at first, if no socket has `INT_MAX` requests.
pub sort_sockets_lem :
    (m : MissingMap) (min_sock : ℕ)
    → Distinct m
    → All (λ (e : ℕ × List Nack). length e.1 < int_max) m
    → (socks : List ℕ) × (sort_sockets_by_shortest_jobs min_sock m ≡ some socks)
      × Perm socks (keys m)
      × Ascending (requests_of m) socks
unfolding sort_sockets_by_shortest_jobs
sort_sockets_lem m min_sock w small =
    let (socks, e, s) =
      sort_loop_lem (requests_of m) (length m) min_sock (num_sockets m)
        (omega (arith, length-num_sockets m)) (num_sockets-Distinct m w) (num_sockets-counts m w)
        (num_sockets-small m small) in
    (socks, e, rw (← keys-num_sockets m) s.perm, s.ascending)
