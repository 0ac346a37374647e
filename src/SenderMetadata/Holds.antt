-- ===== src/SenderMetadata/Holds.antt =====
-- The entry that a call of `getMetadata` has handed out, through the calls of the other methods.
use mathlib.Core.Option.{some-injective}
use fmtp_ldm.Prelude.{
  ℕ, ◌≡◌, ◌≢◌, refl, true, false, Option, some, List, [], ◌∷◌, arith, ap, Bool-cases, Option-cases,
  eq-cases, inl, inr, All, subst, sym, ◌∙◌,
}
use fmtp_ldm.Prelude.Dict.{lookup, insert, lookup-insert, lookup-erase}
use fmtp_ldm.SenderMetadata.Sets.{is_empty}
use fmtp_ldm.SenderMetadata.{
  RetxMetadata, MetaMap, add_retx_metadata, drop_receivers, remove_entry, clear_unfinished_set,
  get_metadata, release_metadata, rm_retx_metadata,
}
use fmtp_ldm.SenderMetadata.Calls.{Call, adds, gets, clears, releases, removes, step}

-- The entry is in use and has the data of `meta`.
pub record Keeps (meta now : RetxMetadata) : Type 0 where
  pub used : now.inuse ≡ true
  pub size : now.prod_length ≡ meta.prod_length
  pub product : now.dataprod ≡ meta.dataprod
  pub meta_size : now.meta_size ≡ meta.meta_size
  pub metadata : now.metadata ≡ meta.metadata

pub record Holds (meta : RetxMetadata) (o : Option RetxMetadata) : Type 0 where
  pub now : RetxMetadata
  pub found : o ≡ some now
  pub keeps : Keeps meta now

-- The call neither releases product `p` nor adds it anew.
abbrev pub Spares : ℕ → Call → Type 0
Spares p (adds meta) = meta.prodindex ≢ p
Spares p (gets k) = Unit {0}
Spares p (clears k sock sklist) = Unit {0}
Spares p (releases k) = k ≢ p
Spares p (removes k) = Unit {0}

abbrev pub run : MetaMap → List Call → MetaMap
run m [] = m
run m (c ∷ cs) = run (step 0 m c).0 cs

pub Holds-of-eq :
    {meta : RetxMetadata} {o o' : Option RetxMetadata} → o ≡ o' → Holds meta o' → Holds meta o
Holds-of-eq e h = rw e h

insert-Holds :
    (m : MetaMap) (k p : ℕ) (meta new : RetxMetadata)
    → Holds meta (lookup p m)
    → (k ≡ p → Holds meta (some new))
    → Holds meta (lookup p (insert k new m))
insert-Holds m k p meta new h f = elim (eq-cases k p) [
  | inl (t, e) ↦ Holds-of-eq (rw (lookup-insert k p new m, t)) (f e)
  | inr (t, e) ↦ Holds-of-eq (rw (lookup-insert k p new m, t)) h
]

-- What the map holds at `k`, if that is the product that is held.
held :
    (m : MetaMap) (k p : ℕ) {meta x : RetxMetadata}
    → Holds meta (lookup p m)
    → lookup k m ≡ some x
    → k ≡ p
    → Keeps meta x
held m k p {meta} h u e =
    subst (Keeps meta) (some-injective _ _ (sym h.found ∙ ap (λ i. lookup i m) (sym e) ∙ u)) h.keeps

-- An entry in use is never erased by a removal.
remove_entry-Holds :
    (m : MetaMap) (k p : ℕ) (meta new : RetxMetadata)
    → Holds meta (lookup p m)
    → (k ≡ p → Keeps meta new)
    → Holds meta (lookup p (remove_entry m k new).0)
unfolding remove_entry
remove_entry-Holds m k p meta new h f = elim (Bool-cases new.inuse) [
  | inl a ↦ elim (Bool-cases new.remove_flag) [
    | inl b ↦
        Holds-of-eq (rw (a, b))
          (insert-Holds m k p meta new h (λ e. record { now = new; found = refl; keeps = f e }))
    | inr b ↦ Holds-of-eq (rw (a, b)) (
        insert-Holds m k p meta _ h (λ e.
          let g = f e in
          record { now = record new { remove_flag = true }; found = refl; keeps = ground arith }))
  ]
  | inr a ↦ elim (eq-cases k p) [
    | inl (t, e) ↦ absurd (let g = f e in ground arith)
    | inr (t, e) ↦ Holds-of-eq (rw (a, lookup-erase k p m, t)) h
  ]
]

get-Holds :
    (m : MetaMap) (k p : ℕ) (meta : RetxMetadata)
    → Holds meta (lookup p m)
    → Holds meta (lookup p (get_metadata m k).0)
unfolding get_metadata
get-Holds m k p meta h = elim (Option-cases (lookup k m)) [
  | inl u ↦ Holds-of-eq (rw (u, get_metadata)) h
  | inr (x, u) ↦ Holds-of-eq (rw (u, get_metadata)) (
      insert-Holds m k p meta _ h (λ e.
        let g = held m k p h u e in
        record { now = record x { inuse = true }; found = refl; keeps = ground arith }))
]

clear-Holds :
    (m : MetaMap) (k p sock : ℕ) (sklist : List ℕ) (meta : RetxMetadata)
    → Holds meta (lookup p m)
    → Holds meta (lookup p (clear_unfinished_set m k sock sklist).0)
unfolding clear_unfinished_set
clear-Holds m k p sock sklist meta h = elim (Option-cases (lookup k m)) [
  | inl u ↦ Holds-of-eq (rw (u, clear_unfinished_set)) h
  | inr (x, u) ↦
      let rest = drop_receivers x.unfin_receivers sock sklist in
      let new : RetxMetadata = record x { unfin_receivers = rest } in
      elim (Bool-cases (is_empty rest)) [
        | inl e ↦
            Holds-of-eq (rw (u, clear_unfinished_set, e))
              (remove_entry-Holds m k p meta new h (λ e. let g = held m k p h u e in ground arith))
        | inr e ↦ Holds-of-eq (rw (u, clear_unfinished_set, e)) (
            insert-Holds m k p meta new h (λ e.
              let g = held m k p h u e in record { now = new; found = refl; keeps = ground arith }))
      ]
]

rm-Holds :
    (m : MetaMap) (k p : ℕ) (meta : RetxMetadata)
    → Holds meta (lookup p m)
    → Holds meta (lookup p (rm_retx_metadata m k).0)
unfolding rm_retx_metadata
rm-Holds m k p meta h = elim (Option-cases (lookup k m)) [
  | inl u ↦ Holds-of-eq (rw (u, rm_retx_metadata)) h
  | inr (x, u) ↦
      Holds-of-eq (rw (u, rm_retx_metadata)) (remove_entry-Holds m k p meta x h (held m k p h u))
]

-- Releasing another product leaves this one alone.
release-Holds :
    (m : MetaMap) (k p : ℕ) (meta : RetxMetadata)
    → Holds meta (lookup p m)
    → k ≢ p
    → Holds meta (lookup p (release_metadata m k).0)
unfolding release_metadata
release-Holds m k p meta h ne = elim (Option-cases (lookup k m)) [
  | inl u ↦ Holds-of-eq (rw (u, release_metadata)) h
  | inr (x, u) ↦ elim (Bool-cases x.remove_flag) [
    | inl e ↦ Holds-of-eq (rw (u, release_metadata, e) (ground (arith, lookup-erase k p m))) h
    | inr e ↦
        Holds-of-eq (rw (u, release_metadata, e))
          (insert-Holds m k p meta (record x { inuse = false }) h (λ i. absurd (ne i)))
  ]
]

call-Holds :
    (m : MetaMap) (p : ℕ) (meta : RetxMetadata) (c : Call)
    → Holds meta (lookup p m)
    → Spares p c
    → Holds meta (lookup p (step 0 m c).0)
unfolding step add_retx_metadata
call-Holds m p meta (adds new) h s = insert-Holds m new.prodindex p meta new h (λ e. absurd (s e))
call-Holds m p meta (gets k) h s = get-Holds m k p meta h
call-Holds m p meta (clears k sock sklist) h s = clear-Holds m k p sock sklist meta h
call-Holds m p meta (releases k) h s = release-Holds m k p meta h s
call-Holds m p meta (removes k) h s = rm-Holds m k p meta h

pub run-Holds :
    (m : MetaMap) (p : ℕ) (cs : List Call) (meta : RetxMetadata)
    → Holds meta (lookup p m)
    → All (Spares p) cs
    → Holds meta (lookup p (run m cs))
run-Holds m p [] meta h s = h
run-Holds m p (c ∷ cs) meta h s =
    run-Holds (step 0 m c).0 p cs meta (call-Holds m p meta c h s.0) s.1
