-- ===== src/ProdSegMng/Removes.antt =====
-- Taking a segment out of a sorted list of gaps: the list surgery of `ProdSegMNG::set`.
use fmtp_ldm.Prelude.{
  ℕ, ◌+◌, ◌-◌, ◌≤◌, ◌<◌, ◌≡◌, refl, true, not, ◌&&◌, some, [], ◌∷◌, inl, inr, arith, Option-cases,
  eq-cases, sym,
}
use fmtp_ldm.ProdSegMng.Segments.{SeqLenMap, Gap, gap, find, put, remove, before}
use fmtp_ldm.ProdSegMng.Gaps.{
  IsGaps, IsGaps-mono, IsGaps-bound, in_seg, covers, covers_below, find-bounds, put-low,
}

-- `m'` is `m` without the bytes of a segment, all of which were missing.
pub record Removes (lo hi : ℕ) (m m' : SeqLenMap) (s n : ℕ) : Type 0 where
  pub gaps : IsGaps lo hi m'
  pub cover : (b : ℕ) → covers m' b ≡ (covers m b && not (in_seg s n b))
  pub was : (b : ℕ) → in_seg s n b ≡ true → covers m b ≡ true

Removes-cons :
    (lo hi : ℕ) (g : Gap) (m m' : SeqLenMap) (s n : ℕ)
    → (lo ≤ g.start) × (0 < g.len)
    → g.start + g.len ≤ s
    → Removes (g.start + g.len) hi m m' s n
    → Removes lo hi (g ∷ m) (g ∷ m') s n
unfolding covers
Removes-cons lo hi g m m' s n w h r = record {
  gaps = (w.0, w.1, r.gaps);
  cover = λ b. ground (arith, r.cover b);
  was = λ b e. ground (arith, r.was b e);
}

pub Removes-of-eq :
    {lo hi s s' n n' : ℕ} {m t t' : SeqLenMap}
    → t ≡ t'
    → s ≡ s'
    → n ≡ n'
    → Removes lo hi m t' s' n'
    → Removes lo hi m t s n
Removes-of-eq e f g r = rw (e, f, g) r

-- A segment at the start of the first entry.
cut_first :
    (lo hi n : ℕ) (g : Gap) (gs : SeqLenMap)
    → IsGaps lo hi (g ∷ gs)
    → n < g.len
    → Removes lo hi (g ∷ gs) (gap (g.start + n) (g.len - n) ∷ gs) g.start n
unfolding covers
cut_first lo hi n g gs w h = record {
  gaps = (
    omega arith,
    omega arith,
    IsGaps-mono (g.start + g.len) (g.start + n + (g.len - n)) hi gs (omega arith) w.2,
  );
  cover = λ b. ground (arith, covers_below (g.start + g.len) hi b gs w.2);
  was = λ b e. ground arith;
}

-- The entry starts with the segment and is longer: its head is cut.
pub cut_head :
    (lo hi k l n : ℕ) (m : SeqLenMap)
    → IsGaps lo hi m
    → find k m ≡ some l
    → n < l
    → Removes lo hi m (put (k + n) (l - n) (remove k m)) k n
unfolding find put remove
cut_head lo hi k l n [] w e h = absurd (ground arith)
cut_head lo hi k l n (g ∷ gs) w e h = elim (eq-cases g.start k) [
  | inl (t, p) ↦
      Removes-of-eq (ground (arith, put-low (k + n) (l - n) (g.start + g.len) hi gs w.2)) (sym p)
        refl (cut_first lo hi n g gs w (ground arith))
  | inr (t, p) ↦
      let e' : find k gs ≡ some l = ground arith in
      let in_tail = find-bounds k l (g.start + g.len) hi gs w.2 e' in
      Removes-of-eq (ground (arith, in_tail)) refl refl (
        Removes-cons lo hi g gs _ k n (w.0, w.1) in_tail.0
          (cut_head (g.start + g.len) hi k l n gs w.2 e' h))
]

drop_first :
    (lo hi : ℕ) (g : Gap) (gs : SeqLenMap)
    → IsGaps lo hi (g ∷ gs)
    → Removes lo hi (g ∷ gs) gs g.start g.len
unfolding covers
drop_first lo hi g gs w = record {
  gaps = IsGaps-mono (g.start + g.len) lo hi gs (omega arith) w.2;
  cover = λ b. ground (arith, covers_below (g.start + g.len) hi b gs w.2);
  was = λ b e. ground arith;
}

-- The entry is the segment: it goes.
pub drop_entry :
    (lo hi k l : ℕ) (m : SeqLenMap)
    → IsGaps lo hi m
    → find k m ≡ some l
    → Removes lo hi m (remove k m) k l
unfolding find remove
drop_entry lo hi k l [] w e = absurd (ground arith)
drop_entry lo hi k l (g ∷ gs) w e = elim (eq-cases g.start k) [
  | inl (t, p) ↦ Removes-of-eq (ground arith) (sym p) (ground arith) (drop_first lo hi g gs w)
  | inr (t, p) ↦
      let e' : find k gs ≡ some l = ground arith in
      let in_tail = find-bounds k l (g.start + g.len) hi gs w.2 e' in
      Removes-of-eq (ground arith) refl refl (
        Removes-cons lo hi g gs _ k l (w.0, w.1) in_tail.0
          (drop_entry (g.start + g.len) hi k l gs w.2 e'))
]

pub before-bounds :
    (k lo hi : ℕ) (m : SeqLenMap) {g : Gap}
    → IsGaps lo hi m
    → before k m ≡ some g
    → (lo ≤ g.start) × (g.start < k) × (0 < g.len) × (g.start + g.len ≤ hi)
unfolding before
before-bounds k lo hi [] w e = absurd (ground arith)
before-bounds k lo hi (h ∷ hs) {g} w e = elim (Option-cases (before k hs)) [
  | inl e' ↦ ground (arith, IsGaps-bound (h.start + h.len) hi hs w.2)
  | inr (g', e') ↦ ground (arith, before-bounds k (h.start + h.len) hi hs {g = g'} w.2 e')
]

-- Two pieces of the first entry stay.
split_first :
    (lo hi k n : ℕ) (g : Gap) (gs : SeqLenMap)
    → IsGaps lo hi (g ∷ gs)
    → g.start < k
    → k + n < g.start + g.len
    → Removes lo hi
        (g ∷ gs)
        (gap g.start (k - g.start) ∷ gap (k + n) (g.len - n - (k - g.start)) ∷ gs)
        k
        n
unfolding covers
split_first lo hi k n g gs w h i = record {
  gaps = (
    omega arith,
    omega arith,
    (omega arith, omega arith, IsGaps-mono (g.start + g.len) _ hi gs (omega arith) w.2),
  );
  cover = λ b. ground (arith, covers_below (g.start + g.len) hi b gs w.2);
  was = λ b e. ground arith;
}

pub split_entry :
    (lo hi k n : ℕ) (m : SeqLenMap) (g : Gap)
    → IsGaps lo hi m
    → before k m ≡ some g
    → k + n < g.start + g.len
    → Removes lo hi m (put (k + n) (g.len - n - (k - g.start)) (put g.start (k - g.start) m)) k n
unfolding before put
split_entry lo hi k n [] g w e h = absurd (ground arith)
split_entry lo hi k n (x ∷ xs) g w e h = elim (Option-cases (before k xs)) [
  | inl e' ↦
      Removes-of-eq
        (ground (arith, put-low (k + n) (g.len - n - (k - g.start)) (g.start + g.len) hi xs)) refl
        refl (split_first lo hi k n x xs w (ground arith) (ground arith))
  | inr (g', e') ↦
      let e'' : before k xs ≡ some g = ground arith in
      let in_tail = before-bounds k (x.start + x.len) hi xs w.2 e'' in
      Removes-of-eq (ground (arith, in_tail)) refl refl (
        Removes-cons lo hi x xs _ k n (w.0, w.1) (omega (arith, in_tail))
          (split_entry (x.start + x.len) hi k n xs g w.2 e'' h))
]

keep_first :
    (lo hi k n : ℕ) (g : Gap) (gs : SeqLenMap)
    → IsGaps lo hi (g ∷ gs)
    → g.start < k
    → k + n ≡ g.start + g.len
    → Removes lo hi (g ∷ gs) (gap g.start (g.len - n) ∷ gs) k n
unfolding covers
keep_first lo hi k n g gs w h i = record {
  gaps = (omega arith, omega arith, IsGaps-mono (g.start + g.len) _ hi gs (omega arith) w.2);
  cover = λ b. ground (arith, covers_below (g.start + g.len) hi b gs w.2);
  was = λ b e. ground arith;
}

pub cut_tail :
    (lo hi k n : ℕ) (m : SeqLenMap) (g : Gap)
    → IsGaps lo hi m
    → before k m ≡ some g
    → k + n ≡ g.start + g.len
    → Removes lo hi m (put g.start (g.len - n) m) k n
unfolding before put
cut_tail lo hi k n [] g w e h = absurd (ground arith)
cut_tail lo hi k n (x ∷ xs) g w e h = elim (Option-cases (before k xs)) [
  | inl e' ↦
      Removes-of-eq (ground arith) refl refl
        (keep_first lo hi k n x xs w (ground arith) (ground arith))
  | inr (g', e') ↦
      let e'' : before k xs ≡ some g = ground arith in
      let in_tail = before-bounds k (x.start + x.len) hi xs w.2 e'' in
      Removes-of-eq (ground (arith, in_tail)) refl refl (
        Removes-cons lo hi x xs _ k n (w.0, w.1) (omega (arith, in_tail))
          (cut_tail (x.start + x.len) hi k n xs g w.2 e'' h))
]
