-- ===== src/Receiver/Wanted.antt =====
-- The loop of `requestMissingBops`: which indices it takes.
use fmtp_ldm.Prelude.{
  ℕ, zero, suc, ◌<◌, ◌≡◌, ◌≢◌, subst, Bool, true, false, not, ◌&&◌, ◌||◌, some, List, [], ◌∷◌, map,
  arith, inl, inr, eq-cases, Bool-cases, ltb, ◌==◌, if◌then◌else◌,
}
use fmtp_ldm.Prelude.Word.{add32, sub32, u32_mod}
use fmtp_ldm.SenderMetadata.Sets.{member}
use fmtp_ldm.Receiver.State.{missing_bop}
use fmtp_ldm.Receiver.Requests.{add_unrq_bop_in_set, bops_loop}

-- The indices from `i` on that are not in the set: `n` indices are looked at, in `uint32_t`.
unfoldable pub wanted : ℕ → ℕ → List ℕ → List ℕ
wanted zero i set = []
wanted (suc n) i set =
    if member i set then wanted n (add32 i 1) set else i ∷ wanted n (add32 i 1) (i ∷ set)

-- The set after these requests.
unfoldable pub noted : ℕ → ℕ → List ℕ → List ℕ
unfolding add_unrq_bop_in_set
noted zero i set = set
noted (suc n) i set = noted n (add32 i 1) (add_unrq_bop_in_set set i).0

add_unrq-known :
    (set : List ℕ) (i : ℕ) → member i set ≡ true → add_unrq_bop_in_set set i ≡ (set, false)
unfolding add_unrq_bop_in_set
add_unrq-known set i m = rw m

add_unrq-new :
    (set : List ℕ) (i : ℕ) → member i set ≡ false → add_unrq_bop_in_set set i ≡ (i ∷ set, true)
unfolding add_unrq_bop_in_set
add_unrq-new set i m = rw m

step_distance :
    (i j n : ℕ)
    → i < u32_mod
    → j < u32_mod
    → sub32 j i ≡ suc n
    → (add32 i 1 < u32_mod) × (sub32 j (add32 i 1) ≡ n) × (i ≢ j)
unfolding sub32 add32
step_distance i j n a b e = (omega arith, omega arith, omega arith)

pub sub32-zero : (i j : ℕ) → i < u32_mod → j < u32_mod → sub32 j i ≡ 0 → i ≡ j
unfolding sub32
sub32-zero i j a b e = omega arith

pub bops_loop_lem :
    (n fuel i j : ℕ) (set : List ℕ)
    → n < fuel
    → i < u32_mod
    → j < u32_mod
    → sub32 j i ≡ n
    → bops_loop fuel i j set ≡ some (noted n i set, map missing_bop (wanted n i set))
unfolding bops_loop noted wanted
bops_loop_lem n zero i j set h a b e = absurd (omega arith)
bops_loop_lem zero (suc fuel) i j set h a b e =
    let t : (i == j) ≡ true = ground (arith, sub32-zero i j a b e) in rw t
bops_loop_lem (suc n) (suc fuel) i j set h a b e =
    let (c, d, ne) = step_distance i j n a b e in
    let t : (i == j) ≡ false = ground arith in
    elim (Bool-cases (member i set)) [
      | inl m ↦ rw (
        add_unrq-known set i m,
        t,
        m,
        bops_loop_lem n fuel (add32 i 1) j set (omega arith) c b d,
        add_unrq-known set i m,
      )
      | inr m ↦ rw (
        add_unrq-new set i m,
        t,
        m,
        bops_loop_lem n fuel (add32 i 1) j (i ∷ set) (omega arith) c b d,
        add_unrq-new set i m,
      )
    ]

-- `k` lies strictly between the two ends, going up and around in `uint32_t`.
abbrev pub between : ℕ → ℕ → ℕ → Bool
between openleft openright k =
    ltb 0 (sub32 k openleft) && ltb (sub32 k openleft) (sub32 openright openleft)

-- Among the `n` indices from `i` on.
abbrev pub within : ℕ → ℕ → ℕ → Bool
within n i k = ltb (sub32 k i) n

pub within-step :
    (n i k : ℕ)
    → n < u32_mod
    → i < u32_mod
    → k < u32_mod
    → within (suc n) i k ≡ ((i == k) || within n (add32 i 1) k)
      × ((i == k) ≡ true → within n (add32 i 1) k ≡ false)
unfolding sub32 add32
within-step n i k h a b = (ground arith, ground arith)

pub member-wanted :
    (n i k : ℕ) (set : List ℕ)
    → n < u32_mod
    → i < u32_mod
    → k < u32_mod
    → (member k (wanted n i set) ≡ (within n i k && not (member k set)))
      × (member k (noted n i set) ≡ (within n i k || member k set))
unfolding wanted noted member
member-wanted zero i k set h a b = (ground arith, ground arith)
member-wanted (suc n) i k set h a b =
    let (w, v) = within-step n i k (omega arith) a b in
    let c : add32 i 1 < u32_mod = unfold add32 in omega arith in
    elim (Bool-cases (member i set)) [
      | inl m ↦
          let (x, y) = member-wanted n (add32 i 1) k set (omega arith) c b in
          rw (add_unrq-known set i m, m, x, y, w)
            (elim (eq-cases i k) [
              | inl (t, e) ↦
                  let m' : member k set ≡ true = subst (λ z. member z set ≡ true) e m in
                  (ground arith, ground arith)
              | inr (t, e) ↦ (ground arith, ground arith)
            ])
      | inr m ↦
          let (x, y) = member-wanted n (add32 i 1) k (i ∷ set) (omega arith) c b in
          rw (add_unrq-new set i m, m, x, y, w)
            (elim (eq-cases i k) [
              | inl (t, e) ↦
                  let m' : member k set ≡ false = subst (λ z. member z set ≡ false) e m in
                  (ground arith, ground arith)
              | inr (t, e) ↦ (ground arith, ground arith)
            ])
    ]
