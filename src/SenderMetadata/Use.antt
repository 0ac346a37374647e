-- ===== src/SenderMetadata/Use.antt =====
-- `getMetadata` hands out an entry "as in exclusive use". What its holder can rely on.
use mathlib.Core.Option.{some-injective}
use fmtp_ldm.Prelude.{
  ℕ, ◌≡◌, ◌≢◌, refl, true, false, none, some, List, arith, Option-cases, inl, inr, All,
}
use fmtp_ldm.Prelude.Dict.{lookup, insert, erase, lookup-insert_self, lookup-erase_self}
use fmtp_ldm.SenderMetadata.{
  RetxMetadata, MetaMap, remove_entry, get_metadata, release_metadata, rm_retx_metadata,
}
use fmtp_ldm.SenderMetadata.Calls.{Call}
use fmtp_ldm.SenderMetadata.Holds.{Holds, Spares, run, Holds-of-eq, run-Holds}

pub get_metadata-known :
    (m : MetaMap) (p : ℕ) (x : RetxMetadata)
    → lookup p m ≡ some x
    → get_metadata m p ≡ (insert p (record x { inuse = true }) m, some (record x { inuse = true }))
unfolding get_metadata
get_metadata-known m p x u = rw (u, get_metadata)

pub get_metadata-unknown : (m : MetaMap) (p : ℕ) → lookup p m ≡ none → get_metadata m p ≡ (m, none)
unfolding get_metadata
get_metadata-unknown m p u = rw (u, get_metadata)

pub release_metadata-known :
    (m : MetaMap) (p : ℕ) (x : RetxMetadata)
    → lookup p m ≡ some x
    → x.remove_flag ≡ false
    → release_metadata m p ≡ (insert p (record x { inuse = false }) m, true)
unfolding release_metadata
release_metadata-known m p x u e = rw (u, release_metadata, e)

rm_retx_metadata-free :
    (m : MetaMap) (p : ℕ) (x : RetxMetadata)
    → lookup p m ≡ some x
    → x.inuse ≡ false
    → rm_retx_metadata m p ≡ (erase p m, true)
unfolding rm_retx_metadata remove_entry
rm_retx_metadata-free m p x u e = rw (u, rm_retx_metadata, e)

get_metadata-first :
    (m : MetaMap) (p : ℕ) (meta : RetxMetadata)
    → (get_metadata m p).1 ≡ some meta
    → Holds meta (lookup p (get_metadata m p).0)
get_metadata-first m p meta e = elim (Option-cases (lookup p m)) [
  | inl u ↦ absurd (ground (arith, get_metadata-unknown m p u))
  | inr (x, u) ↦
      let known = get_metadata-known m p x u in
      let same : record x { inuse = true } ≡ meta = some-injective _ _ (rw known at e) in
      Holds-of-eq (rw (known, lookup-insert_self p (record x { inuse = true }) m) refl)
        (record { now = record x { inuse = true }; found = refl; keeps = ground arith })
]

-- From `getMetadata` on, whatever the other threads and the timer do with this and the other
-- products, the entry stays, in use and with the same data, as long as nobody releases the product
-- or adds it anew.
pub get_metadata-Holds :
    (m : MetaMap) (p : ℕ) (cs : List Call) (meta : RetxMetadata)
    → (get_metadata m p).1 ≡ some meta
    → All (Spares p) cs
    → Holds meta (lookup p (run (get_metadata m p).0 cs))
get_metadata-Holds m p cs meta e s =
    run-Holds (get_metadata m p).0 p cs meta (get_metadata-first m p meta e) s

-- The use is not exclusive: a second thread can get the same product, and when it releases it, the
-- timer's removal deletes the entry that the first thread still works with.
pub second_holder_frees :
    (m : MetaMap) (p : ℕ) (meta : RetxMetadata)
    → lookup p m ≡ some meta
    → meta.remove_flag ≡ false
    → let first = get_metadata m p in
      let second = get_metadata first.0 p in
      let back = release_metadata second.0 p in
      (first.1 ≢ none) × (second.1 ≢ none) × (lookup p (rm_retx_metadata back.0 p).0 ≡ none)
second_holder_frees m p meta e f =
    let used : RetxMetadata = record meta { inuse = true } in
    let free : RetxMetadata = record meta { inuse = false } in
    let m₁ = insert p used m in
    let m₂ = insert p used m₁ in
    let m₃ = insert p free m₂ in
    rw
      (
        get_metadata-known m p meta e,
        get_metadata-known m₁ p used (lookup-insert_self p used m),
        release_metadata-known m₂ p used (lookup-insert_self p used m₁) f,
        rm_retx_metadata-free m₃ p free (lookup-insert_self p free m₂) refl,
      )
      (λ x. cc, λ x. cc, lookup-erase_self p m₃)
