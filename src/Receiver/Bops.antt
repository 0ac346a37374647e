-- ===== src/Receiver/Bops.antt =====
-- What `requestMissingBops` asks for.
use fmtp_ldm.Prelude.{
  ℕ, ◌≤◌, ◌<◌, ◌≡◌, refl, sym, subst, ◌∙◌, true, false, not, ◌&&◌, ◌||◌, List, [], ◌++◌, map, arith,
  inl, inr, ◌⊎◌, lt-cases, ltb, if◌then◌else◌, append-nil,
}
use fmtp_ldm.Prelude.Word.{add32, sub32, u32_mod}
use fmtp_ldm.SenderMetadata.Sets.{member}
use fmtp_ldm.Receiver.State.{Receiver, missing_bop, returned}
use fmtp_ldm.Receiver.Requests.{request_missing_bops, request_missing_bops_exclusive}
use fmtp_ldm.Receiver.Wanted.{wanted, noted, bops_loop_lem, between, within, member-wanted}

between-within :
    (l h k : ℕ)
    → l < u32_mod
    → h < u32_mod
    → k < u32_mod
    → 1 < sub32 h l
    → (within (sub32 h (add32 l 1)) (add32 l 1) k ≡ between l h k)
      × (sub32 h (add32 l 1) < sub32 h l)
unfolding sub32 add32
between-within l h k a b c z = (ground arith, omega arith)

between-none : (l h k : ℕ) → sub32 h l ≤ 1 → between l h k ≡ false
between-none l h k z = ground arith

-- How many indices lie strictly between the two.
abbrev pub gap_count : ℕ → ℕ → ℕ
gap_count l h = if ltb 1 (sub32 h l) then sub32 h (add32 l 1) else 0

-- The BOPs that the receiver asks for, and the set after that.
abbrev pub asked : Receiver → ℕ → ℕ → List ℕ
asked r l h = wanted (gap_count l h) (add32 l 1) r.mis_bop_set

abbrev pub asked_set : Receiver → ℕ → ℕ → List ℕ
asked_set r l h = noted (gap_count l h) (add32 l 1) r.mis_bop_set

-- `requestMissingBops` ends, and puts these requests into the queue, one for each BOP.
pub asked_lem :
    (r : Receiver) (l h : ℕ)
    → l < u32_mod
    → h < u32_mod
    → request_missing_bops r l h ≡ (
      record r {
        mis_bop_set = asked_set r l h;
        msgqueue = r.msgqueue ++ map missing_bop (asked r l h);
      },
      [],
      returned,
    )
unfolding request_missing_bops
asked_lem r l h a b = elim (lt-cases 1 (sub32 h l)) [
  | inr (t, z) ↦
      let same : r.msgqueue ++ map missing_bop [] ≡ r.msgqueue = append-nil r.msgqueue in
      rw t (unfold wanted noted in rw same refl)
  | inl (t, z) ↦
      let n = sub32 h (add32 l 1) in
      let c : add32 l 1 < u32_mod = unfold add32 in omega arith in
      let e = between-within l h 0 a b (omega arith) z in
      rw (t, bops_loop_lem n (sub32 h l) (add32 l 1) h r.mis_bop_set e.1 c b refl) refl
]

member-asked :
    (r : Receiver) (l h k : ℕ)
    → l < u32_mod
    → h < u32_mod
    → k < u32_mod
    → (member k (asked r l h) ≡ (between l h k && not (member k r.mis_bop_set)))
      × (member k (asked_set r l h) ≡ (between l h k || member k r.mis_bop_set))
member-asked r l h k a b f = elim (lt-cases 1 (sub32 h l)) [
  | inr (t, z) ↦
      let e = between-none l h k (omega arith) in
      rw (t, e) (unfold member wanted noted in (refl, refl))
  | inl (t, z) ↦
      let n = sub32 h (add32 l 1) in
      let i = add32 l 1 in
      let c : i < u32_mod = unfold add32 in omega arith in
      let d : n < u32_mod = unfold sub32 in omega arith in
      let w : within n i k ≡ between l h k = (between-within l h k a b f z).0 in
      rw (t, ← w) (member-wanted n i k r.mis_bop_set d c f)
]

-- `requestMissingBops` ends. It asks for the BOPs strictly between the two indices, in `uint32_t`,
-- that have not been asked for yet, and notes that it has; nothing else changes.
pub request_missing_bops_lem :
    (r : Receiver) (l h k : ℕ)
    → l < u32_mod
    → h < u32_mod
    → k < u32_mod
    → (request_missing_bops r l h ≡ (
      record r {
        mis_bop_set = asked_set r l h;
        msgqueue = r.msgqueue ++ map missing_bop (asked r l h);
      },
      [],
      returned,
    ))
      × (member k (asked r l h) ≡ (between l h k && not (member k r.mis_bop_set)))
      × (member k (asked_set r l h) ≡ (between l h k || member k r.mis_bop_set))
request_missing_bops_lem r l h k a b c =
    let (x, y) = member-asked r l h k a b c in (asked_lem r l h a b, x, y)

wraps :
    (last old k : ℕ)
    → old < last
    → last < u32_mod
    → k < u32_mod
    → (k < old) ⊎ (last < k)
    → (between last old k ≡ true) × (ltb 0 (sub32 old last) ≡ true)
unfolding sub32
wraps last old k a b c (inl l) = (ground arith, ground arith)
wraps last old k a b c (inr l) = (ground arith, ground arith)

exclusive-moved :
    (r : Receiver) (p : ℕ)
    → ltb 0 (sub32 p r.prodidx_mcast) ≡ true
    → request_missing_bops_exclusive r p
      ≡ request_missing_bops (record r { prodidx_mcast = p }) r.prodidx_mcast p
unfolding request_missing_bops_exclusive
exclusive-moved r p t =
    subst
      (λ b.
        request_missing_bops (if b then record r { prodidx_mcast = p } else r) r.prodidx_mcast p
        ≡ request_missing_bops (record r { prodidx_mcast = p }) r.prodidx_mcast p)
      (sym t) refl

-- A multicast BOP whose index is below that of the last one, as when packets are reordered, makes the
-- receiver ask for the BOP of every product outside the range between the two that it has not asked
-- for yet, and go back to the old index.
pub bops_of_old_index :
    (r : Receiver) (old k : ℕ)
    → old < r.prodidx_mcast
    → r.prodidx_mcast < u32_mod
    → k < u32_mod
    → (k < old) ⊎ (r.prodidx_mcast < k)
    → member k r.mis_bop_set ≡ false
    → let r' = (request_missing_bops_exclusive r old).0 in
      let ks = asked r r.prodidx_mcast old in
      (r'.prodidx_mcast ≡ old)
      × (r'.msgqueue ≡ r.msgqueue ++ map missing_bop ks)
      × (member k ks ≡ true)
bops_of_old_index r old k a b c o m =
    let t : ltb 0 (sub32 old r.prodidx_mcast) ≡ true = unfold sub32 in ground arith in
    let r₁ : Receiver = record r { prodidx_mcast = old } in
    let w = wraps r.prodidx_mcast old k a b c o in
    let e : member k (asked r r.prodidx_mcast old) ≡ true =
      (member-asked r r.prodidx_mcast old k b (omega arith) c).0 ∙ (rw (w.0, m) refl) in
    rw (exclusive-moved r old t, asked_lem r₁ r.prodidx_mcast old b (omega arith)) (refl, refl, e)
