-- ===== src/ProdSegMng/Transfer.antt =====
-- A whole transfer through the table: `addProd`, then `set` for every block that arrives.
use fmtp_ldm.Prelude.{
  ℕ, ◌+◌, ◌<◌, ◌≡◌, refl, Bool, true, false, not, ◌&&◌, ◌||◌, none, some, List, [], ◌∷◌, ◌⊎◌, ◌↔◌,
  inl, inr, arith, ◌==◌, All, sym, ◌∙◌,
}
use fmtp_ldm.Prelude.Word.{u32_mod}
use fmtp_ldm.Prelude.Dict.{lookup, insert, lookup-insert_self}
use fmtp_ldm.ProdSegMng.Segments.{SeqLenMap, empty}
use fmtp_ldm.ProdSegMng.Gaps.{IsGaps, IsGaps-bound, covers}
use fmtp_ldm.ProdSegMng.Aligned.{block_len, IsBlock, IsAligned}
use fmtp_ldm.ProdSegMng.Table.{set-known}
use fmtp_ldm.ProdSegMng.Lifecycle.{fresh, fresh-IsSegMap, fresh-covers, add_prod-new, empty-covers}
use fmtp_ldm.ProdSegMng.Blocks.{IsTracked, tracked-IsGaps, block-IsTracked, block-covers}
use fmtp_ldm.ProdSegMng.{SegMap, SegMapSet, add_prod, is_complete, set_seg, set}

-- The block at `k` is among those that arrived.
unfoldable pub arrived : ℕ → List ℕ → Bool
arrived k [] = false
arrived k (j ∷ js) = j == k || arrived k js

-- The calls of `set` for the blocks at `ks` of product `p`, in that order.
unfoldable pub deliver : SegMapSet → ℕ → ℕ → List ℕ → SegMapSet
deliver m p size [] = m
deliver m p size (k ∷ ks) = deliver (set m p k (block_len size k)).0 p size ks

deliver_seg : ℕ → SegMap → List ℕ → SegMap
deliver_seg size s [] = s
deliver_seg size s (k ∷ ks) = deliver_seg size (set_seg s k (block_len size k)).0 ks

lookup-deliver :
    (m : SegMapSet) (p size : ℕ) (ks : List ℕ) (s : SegMap)
    → lookup p m ≡ some s
    → lookup p (deliver m p size ks) ≡ some (deliver_seg size s ks)
unfolding deliver deliver_seg
lookup-deliver m p size [] s e = e
lookup-deliver m p size (k ∷ ks) s e = rw (set-known m p k (block_len size k) s e) (
    lookup-deliver (insert p (set_seg s k (block_len size k)).0 m) p size ks
      (set_seg s k (block_len size k)).0 (lookup-insert_self p _ m))

deliver_seg-IsTracked :
    (size : ℕ) (ks : List ℕ) (s : SegMap)
    → IsTracked size s
    → All (IsBlock size) ks
    → IsTracked size (deliver_seg size s ks)
unfolding deliver_seg
deliver_seg-IsTracked size [] s t h = t
deliver_seg-IsTracked size (k ∷ ks) s t h =
    deliver_seg-IsTracked size ks _ (block-IsTracked size k s t h.0) h.1

deliver_seg-covers :
    (size j : ℕ) (ks : List ℕ) (s : SegMap)
    → IsTracked size s
    → All (IsBlock size) ks
    → IsBlock size j
    → covers (deliver_seg size s ks).seqlen_map j ≡ (covers s.seqlen_map j && not (arrived j ks))
unfolding deliver_seg arrived
deliver_seg-covers size j [] s t h i = ground arith
deliver_seg-covers size j (k ∷ ks) s t h i = ground (
  arith,
  deliver_seg-covers size j ks (set_seg s k (block_len size k)).0 (block-IsTracked size k s t h.0)
      h.1 i,
  block-covers size k j s t h.0 i,
)

pub fresh-IsTracked : (size : ℕ) → 0 < size → size < u32_mod → IsTracked size (fresh size)
unfolding fresh
fresh-IsTracked size z h = record {
  size_eq = refl;
  valid = fresh-IsSegMap size z h;
  aligned = ((omega arith, inr (omega arith)), tt);
}

-- A map that is not empty lacks the block at its first byte.
pub first_missing :
    (size : ℕ) (m : SeqLenMap)
    → IsGaps 0 size m
    → IsAligned size m
    → (empty m ≡ true) ⊎ ((j : ℕ) × IsBlock size j × (covers m j ≡ true))
unfolding empty covers
first_missing size [] w a = inl refl
first_missing size (g ∷ gs) w a =
    inr (g.start, (omega (arith, IsGaps-bound (g.start + g.len) size gs w.2), a.0.0), ground arith)

seg_complete_iff :
    (size : ℕ) (ks : List ℕ)
    → (0 < size) × (size < u32_mod)
    → All (IsBlock size) ks
    → ((deliver_seg size (fresh size) ks).completed ≡ true)
      ↔ ((j : ℕ) → IsBlock size j → arrived j ks ≡ true)
seg_complete_iff size ks h blocks =
    let s = deliver_seg size (fresh size) ks in
    let start = fresh-IsTracked size h.0 h.1 in
    let t : IsTracked size s = deliver_seg-IsTracked size ks (fresh size) start blocks in
    (
      λ e j i. ground (
        arith,
        deliver_seg-covers size j ks (fresh size) start blocks i,
        fresh-covers size j,
        empty-covers s.seqlen_map j (sym t.valid.flag ∙ e),
      ),
      λ all.
          t.valid.flag
          ∙ elim (first_missing size s.seqlen_map (tracked-IsGaps size s t) t.aligned) [
            | inl e ↦ e
            | inr (j, i, c) ↦
                absurd (
                  ground (arith, deliver_seg-covers size j ks (fresh size) start blocks i, all j i))
          ],
    )

-- After any deliveries of blocks, in any order and with any repetitions, the product is complete
-- exactly when every block has arrived.
pub transfer_complete_iff :
    (m : SegMapSet) (p size : ℕ) (ks : List ℕ)
    → lookup p m ≡ none
    → (0 < size) × (size < u32_mod)
    → All (IsBlock size) ks
    → (is_complete (deliver (add_prod m p size).0 p size ks) p ≡ true)
      ↔ ((j : ℕ) → IsBlock size j → arrived j ks ≡ true)
unfolding is_complete
transfer_complete_iff m p size ks new h blocks =
    rw
      (
        add_prod-new m p size new,
        is_complete,
        lookup-deliver (insert p (fresh size) m) p size ks (fresh size) (lookup-insert_self p _ m),
      )
      (seg_complete_iff size ks h blocks)
