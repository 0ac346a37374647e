-- ===== src/ProdSegMng/Lifecycle.antt =====
-- The life of a product in the table: `addProd`, `delIfComplete`, `isComplete`, `getLastSegment`,
-- `rmProd`.
use fmtp_ldm.Prelude.{
  ℕ, ◌+◌, ◌-◌, ◌≤◌, ◌<◌, ◌≡◌, refl, Bool, true, false, not, ◌&&◌, none, some, [], ◌∷◌, ◌↔◌, inl,
  inr, arith, ltb, ◌==◌, if◌then◌else◌, Option-cases, sym, ◌∙◌,
}
use fmtp_ldm.Prelude.Word.{u32_mod, add32_exact}
use fmtp_ldm.Prelude.Dict.{lookup, insert, erase, is_some}
use fmtp_ldm.ProdSegMng.Segments.{SeqLenMap, Gap, gap, put, empty, rbegin}
use fmtp_ldm.ProdSegMng.Gaps.{IsGaps, covers, IsGaps-bound}
use fmtp_ldm.ProdSegMng.Table.{
  IsSegMap, IsTable, missing, missing-insert, missing-known, insert-IsTable,
}
use fmtp_ldm.ProdSegMng.{
  SegMap, SegMapSet, add_prod, del_if_complete, last_received, get_last_segment, is_complete,
}

-- A new product of `size` bytes.
unfoldable pub fresh : ℕ → SegMap
fresh size = record { seqlen_map = gap 0 size ∷ []; completed = false; prodsize = size }

pub fresh-IsSegMap : (size : ℕ) → 0 < size → size < u32_mod → IsSegMap (fresh size)
unfolding fresh empty
fresh-IsSegMap size p h = record { gaps = (omega arith, p, omega arith); small = h; flag = refl }

pub fresh-covers : (size b : ℕ) → covers (fresh size).seqlen_map b ≡ ltb b size
unfolding fresh covers
fresh-covers size b = ground arith

pub add_prod-new :
    (m : SegMapSet) (p size : ℕ)
    → lookup p m ≡ none
    → add_prod m p size ≡ (insert p (fresh size) m, true)
unfolding add_prod fresh put
add_prod-new m p size e = rw (e, add_prod)

pub add_prod-old :
    (m : SegMapSet) (p size : ℕ) {s : SegMap} → lookup p m ≡ some s → add_prod m p size ≡ (m, false)
unfolding add_prod
add_prod-old m p size e = rw (e, add_prod)

-- A product that is not tracked, and not empty, is added with all its bytes missing; one that is
-- tracked already is left alone, and the answer says which. No other product changes.
pub missing-add_prod :
    (m : SegMapSet) (p size q b : ℕ)
    → IsTable m
    → (0 < size) × (size < u32_mod)
    → IsTable (add_prod m p size).0
      × ((add_prod m p size).1 ≡ not (is_some (lookup p m)))
      × (missing (add_prod m p size).0 q b
          ≡ (if (p == q) && not (is_some (lookup p m)) then ltb b size else missing m q b))
missing-add_prod m p size q b w h = elim (Option-cases (lookup p m)) [
  | inl u ↦
      rw (add_prod-new m p size u, u)
        (
          insert-IsTable m p (fresh size) w (fresh-IsSegMap size h.0 h.1),
          refl,
          ground (arith, missing-insert m p q b (fresh size), fresh-covers size b),
        )
  | inr (s, u) ↦ rw (add_prod-old m p size u, u) (w, refl, ground arith)
]

covers_all-empty :
    (lo hi : ℕ) (m : SeqLenMap) → IsGaps lo hi m → ((b : ℕ) → covers m b ≡ false) → empty m ≡ true
unfolding covers empty
covers_all-empty lo hi [] w h = refl
covers_all-empty lo hi (g ∷ gs) w h = absurd (ground (arith, h g.start))

pub empty-covers : (m : SeqLenMap) (b : ℕ) → empty m ≡ true → covers m b ≡ false
unfolding empty covers
empty-covers [] b e = refl
empty-covers (g ∷ gs) b e = cc

-- A product is complete exactly when it is tracked and no byte of it is missing.
pub is_complete_iff :
    (m : SegMapSet) (p : ℕ)
    → IsTable m
    → (is_complete m p ≡ true) ↔ ((is_some (lookup p m) ≡ true) × ((b : ℕ) → missing m p b ≡ false))
unfolding is_complete
is_complete_iff m p w = elim (Option-cases (lookup p m)) [
  | inl u ↦ rw (u, is_complete) (λ e. cc, λ e. cc)
  | inr (s, u) ↦
      rw (u, is_complete)
        (
          λ e. (
            refl,
            λ b. missing-known m p b s u ∙ empty-covers s.seqlen_map b (sym ((w p s u).flag) ∙ e),
          ),
          λ e.
              (w p s u).flag
              ∙ covers_all-empty 0 s.prodsize s.seqlen_map (w p s u).gaps
                  (λ b. sym (missing-known m p b s u) ∙ e.1 b),
        )
]

-- `delIfComplete` succeeds exactly on a complete product, which it forgets; otherwise it changes
-- nothing.
pub del_if_complete-is_complete :
    (m : SegMapSet) (p : ℕ)
    → (del_if_complete m p).1 ≡ is_complete m p
      × ((del_if_complete m p).0 ≡ (if is_complete m p then erase p m else m))
unfolding del_if_complete is_complete
del_if_complete-is_complete m p = ground arith

last-covers :
    (lo hi : ℕ) (g : Gap) (gs : SeqLenMap)
    → IsGaps lo hi (g ∷ gs)
    → hi < u32_mod
    → (h : Gap) × (rbegin (g ∷ gs) ≡ some h)
      × (h.start + h.len ≤ hi)
      × (covers (g ∷ gs) (hi - 1) ≡ not (ltb (h.start + h.len) hi))
unfolding rbegin covers
last-covers lo hi g [] w small = (g, refl, w.2, ground arith)
last-covers lo hi g (x ∷ xs) w small =
    let (h, e, b, c) = last-covers (g.start + g.len) hi x xs w.2 small in
    let x_fits = IsGaps-bound (x.start + x.len) hi xs w.2.2 in
    (h, ground arith, b, ground (arith, c))

last_received_lem :
    (m : SeqLenMap) (c : Bool) (size : ℕ)
    → IsGaps 0 size m
    → size < u32_mod
    → c ≡ empty m
    → (if c
        then true
        else last_received (record { seqlen_map = m; completed = c; prodsize = size }))
      ≡ not (covers m (size - 1))
unfolding last_received empty
last_received_lem [] c size w small e = rw e (unfold covers in refl)
last_received_lem (g ∷ gs) c size w small e =
    let (h, f, b, v) = last-covers 0 size g gs w small in
    ground (arith, f, v, add32_exact h.start h.len (omega arith))

-- For a tracked product, `getLastSegment` says whether its last byte has been received.
pub get_last_segment_lem :
    (m : SegMapSet) (p : ℕ) (s : SegMap)
    → IsTable m
    → lookup p m ≡ some s
    → get_last_segment m p ≡ not (missing m p (s.prodsize - 1))
unfolding get_last_segment
get_last_segment_lem m p s w u =
    rw (u, get_last_segment, missing-known m p (s.prodsize - 1) s u)
      (last_received_lem s.seqlen_map s.completed s.prodsize (w p s u).gaps (w p s u).small
        (w p s u).flag)
