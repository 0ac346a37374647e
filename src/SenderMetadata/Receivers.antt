-- ===== src/SenderMetadata/Receivers.antt =====
-- `clearUnfinishedSet`: whom the sender still waits for.
use mathlib.Core.Option.{none-ne-some}
use fmtp_ldm.Prelude.{
  ℕ, ◌≡◌, refl, true, false, not, ◌&&◌, none, some, Option-cases, List, [], ◌∷◌, ◌==◌, arith,
  Bool-cases, inl, inr, ◌↔◌,
}
use fmtp_ldm.Prelude.Dict.{lookup}
use fmtp_ldm.SenderMetadata.Sets.{member, remove, is_empty, member-remove, member-retain}
use fmtp_ldm.SenderMetadata.{RetxMetadata, MetaMap, drop_receivers, clear_unfinished_set}

empty-member : (xs : List ℕ) (k : ℕ) → is_empty xs ≡ true → member k xs ≡ false
unfolding is_empty member
empty-member [] k e = refl
empty-member (x ∷ xs) k e = cc

-- The receivers that are left: all but the one that has finished, if they are still connected.
pub member-drop_receivers :
    (receivers : List ℕ) (sock : ℕ) (sklist : List ℕ) (j : ℕ)
    → member j (drop_receivers receivers sock sklist)
      ≡ (member j receivers && not (sock == j) && member j sklist)
unfolding drop_receivers
member-drop_receivers receivers sock sklist j = ground (
  arith,
  empty-member (remove sock receivers) j,
  member-remove sock j receivers,
  member-retain sklist j (remove sock receivers),
)

nonempty-member : (xs : List ℕ) → is_empty xs ≡ false → (j : ℕ) × (member j xs ≡ true)
unfolding is_empty member
nonempty-member [] e = absurd (ground arith)
nonempty-member (x ∷ xs) e = (x, ground arith)

-- No other connected receiver has the product still to finish.
abbrev pub AllFinished : RetxMetadata → ℕ → List ℕ → Type 0
AllFinished meta sock sklist =
    (j : ℕ) → (member j meta.unfin_receivers && not (sock == j) && member j sklist) ≡ false

drop_receivers-empty :
    (meta : RetxMetadata) (sock : ℕ) (sklist : List ℕ)
    → (is_empty (drop_receivers meta.unfin_receivers sock sklist) ≡ true)
      ↔ AllFinished meta sock sklist
drop_receivers-empty meta sock sklist =
    let rest = drop_receivers meta.unfin_receivers sock sklist in
    (
      λ e j.
          ground (
            arith,
            member-drop_receivers meta.unfin_receivers sock sklist j,
            empty-member rest j e,
          ),
      λ h. elim (Bool-cases (is_empty rest)) [
        | inl e ↦ e
        | inr e ↦
            let (j, i) = nonempty-member rest e in
            absurd (ground (arith, member-drop_receivers meta.unfin_receivers sock sklist j, h j))
      ],
    )

clear_value :
    (m : MetaMap) (p sock : ℕ) (sklist : List ℕ) (meta : RetxMetadata)
    → lookup p m ≡ some meta
    → (clear_unfinished_set m p sock sklist).1 ≡ (
        is_empty (drop_receivers meta.unfin_receivers sock sklist)
        && not (meta.inuse && meta.remove_flag))
unfolding clear_unfinished_set
clear_value m p sock sklist meta e = rw (e, clear_unfinished_set) (ground arith)

clear_absent :
    (m : MetaMap) (p sock : ℕ) (sklist : List ℕ)
    → lookup p m ≡ none
    → (clear_unfinished_set m p sock sklist).1 ≡ false
unfolding clear_unfinished_set
clear_absent m p sock sklist e = rw (e, clear_unfinished_set) refl

-- A receiver's end message removes the product, for the sending application, exactly when the product
-- is there, every other receiver that is still connected has finished, and no earlier call has
-- removed it.
pub clear_unfinished_set_iff :
    (m : MetaMap) (p sock : ℕ) (sklist : List ℕ)
    → ((clear_unfinished_set m p sock sklist).1 ≡ true) ↔ (
        (meta : RetxMetadata) × (lookup p m ≡ some meta)
        × AllFinished meta sock sklist
        × ((meta.inuse && meta.remove_flag) ≡ false))
clear_unfinished_set_iff m p sock sklist = elim (Option-cases (lookup p m)) [
  | inl u ↦ (
    λ h. absurd (let f = rw (clear_absent m p sock sklist u) at h in ground arith),
    λ h. absurd (none-ne-some _ (rw u at h.1)),
  )
  | inr (meta, e) ↦ (
    λ h.
        let g = rw (clear_value m p sock sklist meta e) at h in
        (meta, e, (drop_receivers-empty meta sock sklist).0 (ground arith), ground arith),
    λ (other, f, finished, first).
        rw (clear_value m p sock sklist other f)
          (let done = (drop_receivers-empty other sock sklist).1 finished in ground arith),
  )
]
