-- ===== src/ProdSegMng/Set.antt =====
-- `ProdSegMNG::set`: the segment is taken out of the missing bytes, or nothing changes.
use fmtp_ldm.Prelude.{
  ℕ, ◌+◌, ◌-◌, ◌≤◌, ◌<◌, ◌≡◌, ◌≢◌, refl, some, [], ◌∷◌, inl, inr, arith, leb, Option-cases,
  Bool-cases, eq-cases, lt-cases, sym,
}
use fmtp_ldm.Prelude.Word.{u32_mod, add32_exact, sub32_exact}
use fmtp_ldm.ProdSegMng.Segments.{SeqLenMap, Gap, find, before, empty}
use fmtp_ldm.ProdSegMng.Gaps.{IsGaps, find-bounds}
use fmtp_ldm.ProdSegMng.{SetState, misaligned, duplicate, done, set_at, set_after, set_map}
use fmtp_ldm.ProdSegMng.Removes.{
  Removes, Removes-of-eq, cut_head, drop_entry, split_entry, cut_tail, before-bounds,
}

-- What one call does to the map: the segment goes, or nothing changes.
pub data Effect (hi : ℕ) (m : SeqLenMap) (s n : ℕ) (r : SeqLenMap × SetState) : Type 0 where
  removed : r.1 ≡ done → Removes 0 hi m r.0 s n → Effect hi m s n r
  kept : r.1 ≢ done → r.0 ≡ m → Effect hi m s n r

Effect-of-eq :
    {hi s n : ℕ} {m : SeqLenMap} {r r' : SeqLenMap × SetState}
    → r ≡ r'
    → Effect hi m s n r'
    → Effect hi m s n r
Effect-of-eq e x = rw e x

misaligned≢done : misaligned ≢ done
misaligned≢done e = cc

duplicate≢done : duplicate ≢ done
duplicate≢done e = cc

unchanged :
    {hi s n : ℕ} {m : SeqLenMap} {r : SeqLenMap × SetState} {st : SetState}
    → st ≢ done
    → r ≡ (m, st)
    → Effect hi m s n r
unchanged h e = rw e (kept h refl)

set_at-Effect :
    (hi k l n : ℕ) (m : SeqLenMap)
    → IsGaps 0 hi m
    → hi < u32_mod
    → k + n ≤ hi
    → find k m ≡ some l
    → Effect hi m k n (set_at m k n l)
unfolding set_at
set_at-Effect hi k l n m w small fits e =
    let in_map = find-bounds k l 0 hi m w e in
    elim (lt-cases n l) [
      | inl (t, p) ↦
          Effect-of-eq
            (rw (t, add32_exact k n (omega arith), sub32_exact l n (omega arith) (omega arith)))
            (removed refl (cut_head 0 hi k l n m w e p))
      | inr (t, p) ↦ elim (eq-cases l n) [
        | inl (u, q) ↦
            Effect-of-eq (rw (t, u))
              (removed refl (Removes-of-eq refl refl (sym q) (drop_entry 0 hi k l m w e)))
        | inr (u, q) ↦ unchanged misaligned≢done (rw (t, u))
      ]
    ]

set_after-Effect :
    (hi k n : ℕ) (m : SeqLenMap) (g : Gap)
    → IsGaps 0 hi m
    → hi < u32_mod
    → k + n ≤ hi
    → before k m ≡ some g
    → Effect hi m k n (set_after m k n g)
unfolding set_after
set_after-Effect hi k n m g w small fits e =
    let in_map = before-bounds k 0 hi m w e in
    let e₁ = add32_exact k n (omega arith) in
    let e₂ = add32_exact g.start g.len (omega arith) in
    let e₃ = sub32_exact k g.start (omega arith) (omega arith) in
    elim (lt-cases (k + n) (g.start + g.len)) [
      | inl (t, p) ↦
          Effect-of-eq
            (rw (
              e₁,
              e₂,
              e₃,
              t,
              sub32_exact g.len n (omega arith) (omega arith),
              sub32_exact (g.len - n) (k - g.start) (omega arith) (omega arith),
            ))
            (removed refl (split_entry 0 hi k n m g w e p))
      | inr (t, p) ↦ elim (eq-cases (g.start + g.len) (k + n)) [
        | inl (u, q) ↦
            Effect-of-eq (rw (e₁, e₂, t, u, sub32_exact g.len n (omega arith) (omega arith)))
              (removed refl (cut_tail 0 hi k n m g w e (sym q)))
        | inr (u, q) ↦ elim (Bool-cases (leb (g.start + g.len) k)) [
          | inl v ↦ unchanged duplicate≢done (rw (e₁, e₂, t, u, v))
          | inr v ↦ unchanged misaligned≢done (rw (e₁, e₂, t, u, v))
        ]
      ]
    ]

-- A segment inside the product is taken out of the missing bytes, all of which it was, or the map
-- stays.
pub set_map-Effect :
    (hi k n : ℕ) (m : SeqLenMap)
    → IsGaps 0 hi m
    → hi < u32_mod
    → k + n ≤ hi
    → Effect hi m k n (set_map m k n)
unfolding set_map empty
set_map-Effect hi k n [] w small fits = unchanged duplicate≢done refl
set_map-Effect hi k n (g ∷ gs) w small fits = elim (Option-cases (find k (g ∷ gs))) [
  | inr (l, e) ↦ rw e (set_at-Effect hi k l n (g ∷ gs) w small fits e)
  | inl e ↦ elim (Option-cases (before k (g ∷ gs))) [
    | inr (h, f) ↦ rw (e, f) (set_after-Effect hi k n (g ∷ gs) h w small fits f)
    | inl f ↦ rw (e, f) (unchanged duplicate≢done refl)
  ]
]
