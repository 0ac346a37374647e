-- ===== src/ProdSegMng/Blocks.antt =====
-- The receiver's bookkeeping over a whole transfer: the blocks that the sender cuts, `FMTP_DATA_LEN`
-- bytes each and the last one shorter, arrive in any order and any number of times.
use fmtp_ldm.Prelude.{
  ℕ, ◌≡◌, refl, not, ◌&&◌, inl, inr, arith, ◌==◌, if◌then◌else◌, Bool-cases, subst, ap, ◌∙◌,
}
use fmtp_ldm.ProdSegMng.Segments.{SeqLenMap}
use fmtp_ldm.ProdSegMng.Gaps.{IsGaps, covers}
use fmtp_ldm.ProdSegMng.Outcome.{classify, set_map-classify}
use fmtp_ldm.ProdSegMng.Aligned.{block_len, IsBlock, IsAligned, block_inside, set_map-IsAligned}
use fmtp_ldm.ProdSegMng.Table.{IsSegMap, set_seg-IsSegMap, set_seg-covers}
use fmtp_ldm.ProdSegMng.{SegMap, duplicate, done, set_seg}

pub record IsTracked (size : ℕ) (s : SegMap) : Type 0 where
  pub size_eq : s.prodsize ≡ size
  pub valid : IsSegMap s
  pub aligned : IsAligned size s.seqlen_map

pub tracked-IsGaps : (size : ℕ) (s : SegMap) → IsTracked size s → IsGaps 0 size s.seqlen_map
tracked-IsGaps size s t = subst (λ x. IsGaps 0 x s.seqlen_map) t.size_eq t.valid.gaps

-- A block is accepted if it is missing and a duplicate otherwise, and then it is not missing.
block_classify :
    (size k : ℕ) (m : SeqLenMap)
    → IsGaps 0 size m
    → IsAligned size m
    → IsBlock size k
    → classify m k (block_len size k) ≡ (if covers m k then done else duplicate)
unfolding classify
block_classify size k m w a h = elim (Bool-cases (covers m k)) [
  | inl e ↦ rw (classify, e, block_inside 0 size k m w a h e) refl
  | inr e ↦ rw (classify, e) refl
]

pub block_state :
    (size k : ℕ) (s : SegMap)
    → IsTracked size s
    → IsBlock size k
    → (set_seg s k (block_len size k)).1 ≡ (if covers s.seqlen_map k then done else duplicate)
unfolding set_seg
block_state size k s t h =
    let w = tracked-IsGaps size s t in
    let n = block_len size k in
    set_map-classify size k n s.seqlen_map w (omega (arith, t.valid.small)) (omega arith)
      (omega arith)
    ∙ block_classify size k s.seqlen_map w t.aligned h

set_seg-prodsize : (s : SegMap) (k n : ℕ) → (set_seg s k n).0.prodsize ≡ s.prodsize
unfolding set_seg
set_seg-prodsize s k n = refl

block-IsAligned :
    (size k : ℕ) (s : SegMap)
    → IsTracked size s
    → IsBlock size k
    → IsAligned size (set_seg s k (block_len size k)).0.seqlen_map
unfolding set_seg
block-IsAligned size k s t h =
    set_map-IsAligned size k s.seqlen_map (tracked-IsGaps size s t) (omega (arith, t.valid.small))
      t.aligned h

pub block-IsTracked :
    (size k : ℕ) (s : SegMap)
    → IsTracked size s
    → IsBlock size k
    → IsTracked size (set_seg s k (block_len size k)).0
block-IsTracked size k s t h =
    let w = tracked-IsGaps size s t in
    record {
      size_eq = set_seg-prodsize s k (block_len size k) ∙ t.size_eq;
      valid = set_seg-IsSegMap s k (block_len size k) t.valid (omega arith);
      aligned = block-IsAligned size k s t h;
    }

pub block-covers :
    (size k j : ℕ) (s : SegMap)
    → IsTracked size s
    → IsBlock size k
    → IsBlock size j
    → covers (set_seg s k (block_len size k)).0.seqlen_map j
      ≡ (covers s.seqlen_map j && not (k == j))
block-covers size k j s t h i =
    let n = block_len size k in
    ground (
      arith,
      set_seg-covers s k n j t.valid (omega arith),
      block_state size k s t h,
      ap (λ (x : ℕ). covers s.seqlen_map x),
    )
