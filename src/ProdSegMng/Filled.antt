-- ===== src/ProdSegMng/Filled.antt =====
-- `set` for a block of a product, and then `delIfComplete`.
use fmtp_ldm.Prelude.{
  ℕ, ◌≡◌, sym, ◌∙◌, true, false, not, ◌&&◌, some, inl, inr, arith, ◌==◌, ◌⊎◌, ap, refl, Bool-cases,
}
use fmtp_ldm.Prelude.Dict.{lookup, insert, erase, lookup-insert, lookup-insert_self}
use fmtp_ldm.ProdSegMng.Segments.{empty}
use fmtp_ldm.ProdSegMng.Gaps.{in_seg, covers}
use fmtp_ldm.ProdSegMng.Aligned.{block_len, IsBlock, block_uniform}
use fmtp_ldm.ProdSegMng.Table.{missing, missing-known, set-known}
use fmtp_ldm.ProdSegMng.Lifecycle.{empty-covers}
use fmtp_ldm.ProdSegMng.Blocks.{IsTracked, tracked-IsGaps, block-IsTracked, block-covers}
use fmtp_ldm.ProdSegMng.Transfer.{first_missing}
use fmtp_ldm.ProdSegMng.{SegMap, SegMapSet, set, set_seg, del_if_complete}

-- From `m` to `m'` the block at `k` of product `p` has been filled: no byte of it is missing, each
-- other block of the product is missing as before, and so is every other product.
abbrev pub Filled : SegMapSet → SegMapSet → ℕ → ℕ → ℕ → Type 0
Filled m m' p size k =
    ((j : ℕ) → IsBlock size j → missing m' p j ≡ (missing m p j && not (k == j)))
    × ((b : ℕ) → in_seg k (block_len size k) b ≡ true → missing m' p b ≡ false)
    × ((q : ℕ) → (p == q) ≡ false → lookup q m' ≡ lookup q m)

insert-Filled :
    (m : SegMapSet) (p size k : ℕ) (s : SegMap)
    → lookup p m ≡ some s
    → IsTracked size s
    → IsBlock size k
    → Filled m (insert p (set_seg s k (block_len size k)).0 m) p size k
insert-Filled m p size k s u t h =
    let s' = (set_seg s k (block_len size k)).0 in
    let m' = insert p s' m in
    let u' : lookup p m' ≡ some s' = lookup-insert_self p s' m in
    let t' = block-IsTracked size k s t h in
    let whole : covers s'.seqlen_map k ≡ false = ground (arith, block-covers size k k s t h h) in
    (
      λ j i.
          missing-known m' p j s' u'
          ∙ block-covers size k j s t h i
          ∙ ap (λ x. x && not (k == j)) (sym (missing-known m p j s u)),
      λ b e.
          missing-known m' p b s' u'
          ∙ block_uniform 0 size k b s'.seqlen_map (tracked-IsGaps size s' t') t'.aligned h e
          ∙ whole,
      λ q other. lookup-insert p q s' m ∙ (rw other refl),
    )

pub set-Filled :
    (m : SegMapSet) (p size k : ℕ) (s : SegMap)
    → lookup p m ≡ some s
    → IsTracked size s
    → IsBlock size k
    → Filled m (set m p k (block_len size k)).0 p size k
set-Filled m p size k s u t h =
    rw (set-known m p k (block_len size k) s u) (insert-Filled m p size k s u t h)

-- `delIfComplete` by what is missing.
abbrev pub Deleted : SegMapSet → ℕ → ℕ → Type 0
Deleted m p size =
    (((b : ℕ) → missing m p b ≡ false) × (del_if_complete m p ≡ (erase p m, true)))
    ⊎ (((j : ℕ) × IsBlock size j × (missing m p j ≡ true)) × (del_if_complete m p ≡ (m, false)))

del_if_complete-Deleted :
    (m : SegMapSet) (p size : ℕ) (s : SegMap)
    → lookup p m ≡ some s
    → IsTracked size s
    → Deleted m p size
unfolding del_if_complete
del_if_complete-Deleted m p size s u t =
    elim (first_missing size s.seqlen_map (tracked-IsGaps size s t) t.aligned) [
      | inl e ↦ inl (
        λ b. missing-known m p b s u ∙ empty-covers s.seqlen_map b e,
        rw (del_if_complete, u, t.valid.flag, e) refl,
      )
      | inr (j, i, c) ↦
          let some_left : empty s.seqlen_map ≡ false = elim (Bool-cases (empty s.seqlen_map)) [
            | inl e ↦ absurd (ground (arith, empty-covers s.seqlen_map j e))
            | inr e ↦ e
          ] in
          inr (
            (j, i, missing-known m p j s u ∙ c),
            rw (del_if_complete, u, t.valid.flag, some_left) refl,
          )
    ]

pub set-Deleted :
    (m : SegMapSet) (p size k : ℕ) (s : SegMap)
    → lookup p m ≡ some s
    → IsTracked size s
    → IsBlock size k
    → Deleted (set m p k (block_len size k)).0 p size
set-Deleted m p size k s u t h =
    let s' = (set_seg s k (block_len size k)).0 in
    rw (set-known m p k (block_len size k) s u) (
      del_if_complete-Deleted (insert p s' m) p size s' (lookup-insert_self p s' m)
        (block-IsTracked size k s t h))
