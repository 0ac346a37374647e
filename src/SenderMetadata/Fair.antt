-- ===== src/SenderMetadata/Fair.antt =====
-- Each method of `senderMetadata`, seen at the entry of one product.
use fmtp_ldm.Prelude.{
  ℕ, ◌+◌, ◌≤◌, ◌≡◌, refl, Bool, true, false, ◌&&◌, Option, none, some, List, ◌==◌, arith, ap,
  Bool-cases, Option-cases, eq-cases, inl, inr, subst,
}
use fmtp_ldm.Prelude.Dict.{lookup, insert, erase, lookup-insert, lookup-erase}
use fmtp_ldm.SenderMetadata.Sets.{is_empty}
use fmtp_ldm.SenderMetadata.{
  RetxMetadata, MetaMap, drop_receivers, remove_entry, clear_unfinished_set, get_metadata,
  release_metadata, rm_retx_metadata,
}
use fmtp_ldm.SenderMetadata.Calls.{count_true, MarkedInUse, IsMetas, credit}

-- One step on the entry of `p`: what it becomes, and whether it is reported.
pub record Fair (old new : Option RetxMetadata) (report : Bool) : Type 0 where
  pub marked : MarkedInUse new
  pub paid : count_true report + credit new ≤ credit old

Fair-of-eq :
    {old new new' : Option RetxMetadata} {report report' : Bool}
    → new ≡ new'
    → report ≡ report'
    → Fair old new' report'
    → Fair old new report
Fair-of-eq e f h = rw (e, f) h

same-Fair : (old : Option RetxMetadata) → MarkedInUse old → Fair old old false
same-Fair old v = record { marked = v; paid = omega arith }

-- A write or an erasure at `k`, seen at `p`.
pub insert-Fair :
    (m : MetaMap) (k p : ℕ) (meta : RetxMetadata) (report : Bool)
    → IsMetas m
    → Fair (lookup k m) (some meta) report
    → Fair (lookup p m) (lookup p (insert k meta m)) (report && (k == p))
insert-Fair m k p meta report w h = elim (eq-cases k p) [
  | inl (t, e) ↦
      Fair-of-eq (rw (lookup-insert k p meta m, t)) (rw t (ground arith))
        (subst (λ x. Fair (lookup x m) (some meta) report) e h)
  | inr (t, e) ↦
      Fair-of-eq (rw (lookup-insert k p meta m, t)) (rw t (ground arith))
        (same-Fair (lookup p m) (w p))
]

erase-Fair :
    (m : MetaMap) (k p : ℕ) (report : Bool)
    → IsMetas m
    → Fair (lookup k m) none report
    → Fair (lookup p m) (lookup p (erase k m)) (report && (k == p))
erase-Fair m k p report w h = elim (eq-cases k p) [
  | inl (t, e) ↦
      Fair-of-eq (rw (lookup-erase k p m, t)) (rw t (ground arith))
        (subst (λ x. Fair (lookup x m) none report) e h)
  | inr (t, e) ↦
      Fair-of-eq (rw (lookup-erase k p m, t)) (rw t (ground arith)) (same-Fair (lookup p m) (w p))
]

unmarked_credit :
    {old : Option RetxMetadata} (meta : RetxMetadata)
    → (meta.remove_flag ≡ true → meta.inuse ≡ true)
    → meta.inuse ≡ false
    → credit old ≡ credit (some meta)
    → Fair old none true
unmarked_credit meta v a e = record { marked = tt; paid = ground arith }

remove_entry-Fair :
    (m : MetaMap) (k p : ℕ) (meta : RetxMetadata)
    → IsMetas m
    → (meta.remove_flag ≡ true → meta.inuse ≡ true)
    → credit (lookup k m) ≡ credit (some meta)
    → Fair (lookup p m) (lookup p (remove_entry m k meta).0) ((remove_entry m k meta).1 && (k == p))
unfolding remove_entry
remove_entry-Fair m k p meta w v e = elim (Bool-cases meta.inuse) [
  | inl a ↦ elim (Bool-cases meta.remove_flag) [
    | inl b ↦ Fair-of-eq (rw (a, b)) (rw (a, b)) (insert-Fair m k p meta false w (ground arith))
    | inr b ↦
        Fair-of-eq (rw (a, b)) (rw (a, b))
          (insert-Fair m k p (record meta { remove_flag = true }) true w (ground arith))
  ]
  | inr a ↦ Fair-of-eq (rw a) (rw a) (erase-Fair m k p true w (unmarked_credit meta v a e))
]

pub clear-Fair :
    (m : MetaMap) (k p sock : ℕ) (sklist : List ℕ)
    → IsMetas m
    → Fair
        (lookup p m)
        (lookup p (clear_unfinished_set m k sock sklist).0)
        ((clear_unfinished_set m k sock sklist).1 && (k == p))
unfolding clear_unfinished_set
clear-Fair m k p sock sklist w = elim (Option-cases (lookup k m)) [
  | inl u ↦
      Fair-of-eq (rw (u, clear_unfinished_set)) (rw (u, clear_unfinished_set))
        (same-Fair (lookup p m) (w p))
  | inr (meta, u) ↦
      let rest = drop_receivers meta.unfin_receivers sock sklist in
      let v = subst MarkedInUse u (w k) in
      elim (Bool-cases (is_empty rest)) [
        | inl e ↦
            Fair-of-eq (rw (u, clear_unfinished_set, e)) (rw (u, clear_unfinished_set, e))
              (remove_entry-Fair m k p (record meta { unfin_receivers = rest }) w v (ap credit u))
        | inr e ↦ Fair-of-eq (rw (u, clear_unfinished_set, e)) (rw (u, clear_unfinished_set, e)) (
            insert-Fair m k p (record meta { unfin_receivers = rest }) false w
              (rw u (record { marked = v; paid = ground arith })))
      ]
]

pub rm-Fair :
    (m : MetaMap) (k p : ℕ)
    → IsMetas m
    → Fair (lookup p m) (lookup p (rm_retx_metadata m k).0) ((rm_retx_metadata m k).1 && (k == p))
unfolding rm_retx_metadata
rm-Fair m k p w = elim (Option-cases (lookup k m)) [
  | inl u ↦
      Fair-of-eq (rw (u, rm_retx_metadata)) (rw (u, rm_retx_metadata))
        (same-Fair (lookup p m) (w p))
  | inr (meta, u) ↦
      Fair-of-eq (rw (u, rm_retx_metadata)) (rw (u, rm_retx_metadata))
        (remove_entry-Fair m k p meta w (subst MarkedInUse u (w k)) (ap credit u))
]

pub get-Fair :
    (m : MetaMap) (k p : ℕ) → IsMetas m → Fair (lookup p m) (lookup p (get_metadata m k).0) false
unfolding get_metadata
get-Fair m k p w = elim (Option-cases (lookup k m)) [
  | inl u ↦ Fair-of-eq (rw (u, get_metadata)) refl (same-Fair (lookup p m) (w p))
  | inr (meta, u) ↦ Fair-of-eq (rw (u, get_metadata)) refl (
      insert-Fair m k p (record meta { inuse = true }) false w
        (rw u (record { marked = λ _. refl; paid = ground arith })))
]

pub release-Fair :
    (m : MetaMap) (k p : ℕ)
    → IsMetas m
    → Fair (lookup p m) (lookup p (release_metadata m k).0) false
unfolding release_metadata
release-Fair m k p w = elim (Option-cases (lookup k m)) [
  | inl u ↦ Fair-of-eq (rw (u, release_metadata)) refl (same-Fair (lookup p m) (w p))
  | inr (meta, u) ↦ elim (Bool-cases meta.remove_flag) [
    | inl e ↦
        Fair-of-eq (rw (u, release_metadata, e)) refl
          (erase-Fair m k p false w (rw u (record { marked = tt; paid = ground arith })))
    | inr e ↦ Fair-of-eq (rw (u, release_metadata, e)) refl (
        insert-Fair m k p (record meta { inuse = false }) false w
          (rw u (record { marked = λ x. ground arith; paid = ground arith })))
  ]
]
