-- ===== src/SenderMetadata/Once.antt =====
-- A finished product is reported to the sending application at most once.
use fmtp_ldm.Prelude.{
  ℕ, ◌+◌, ◌≤◌, ◌≡◌, refl, false, List, [], ◌∷◌, ◌==◌, arith, Bool-cases, inl, inr, All, subst,
}
use fmtp_ldm.Prelude.Dict.{lookup, lookup-insert}
use fmtp_ldm.SenderMetadata.{RetxMetadata, MetaMap, add_retx_metadata}
use fmtp_ldm.SenderMetadata.Calls.{
  Call, adds, gets, clears, releases, removes, step, count_true, reported, adds_of, MarkedInUse,
  IsMetas, IsNew, credit,
}
use fmtp_ldm.SenderMetadata.Fair.{clear-Fair, rm-Fair, get-Fair, release-Fair}

add-step :
    (m : MetaMap) (meta : RetxMetadata) (p : ℕ)
    → IsMetas m
    → (meta.inuse ≡ false) × (meta.remove_flag ≡ false)
    → MarkedInUse (lookup p (add_retx_metadata m meta))
      × (credit (lookup p (add_retx_metadata m meta))
          ≤ credit (lookup p m) + count_true (meta.prodindex == p))
unfolding add_retx_metadata
add-step m meta p w n =
    rw (lookup-insert meta.prodindex p meta m) (elim (Bool-cases (meta.prodindex == p)) [
      | inl e ↦ rw e (λ x. ground arith, ground arith)
      | inr e ↦ rw e (w p, ground arith)
    ])

-- What one call can report is paid for by the entry or by an addition.
call-step :
    (p : ℕ) (m : MetaMap) (c : Call)
    → IsMetas m
    → IsNew c
    → MarkedInUse (lookup p (step p m c).0)
      × (count_true (step p m c).1 + credit (lookup p (step p m c).0)
          ≤ credit (lookup p m) + adds_of p (c ∷ []))
unfolding step
call-step p m (adds meta) w n = let h = add-step m meta p w n in (h.0, omega (arith, h.1))
call-step p m (gets k) w n = let h = get-Fair m k p w in (h.marked, omega (arith, h.paid))
call-step p m (clears k sock sklist) w n =
    let h = clear-Fair m k p sock sklist w in (h.marked, omega (arith, h.paid))
call-step p m (releases k) w n = let h = release-Fair m k p w in (h.marked, omega (arith, h.paid))
call-step p m (removes k) w n = let h = rm-Fair m k p w in (h.marked, omega (arith, h.paid))

-- The map after a call does not depend on the product that is watched.
step-map : (p q : ℕ) (m : MetaMap) (c : Call) → (step p m c).0 ≡ (step q m c).0
unfolding step
step-map p q m (adds meta) = refl
step-map p q m (gets k) = refl
step-map p q m (clears k sock sklist) = refl
step-map p q m (releases k) = refl
step-map p q m (removes k) = refl

step-IsMetas : (p : ℕ) (m : MetaMap) (c : Call) → IsMetas m → IsNew c → IsMetas (step p m c).0
step-IsMetas p m c w n q =
    subst (λ x. MarkedInUse (lookup q x)) (step-map q p m c) (call-step q m c w n).0

adds_of-cons :
    (p : ℕ) (c : Call) (cs : List Call) → adds_of p (c ∷ cs) ≡ adds_of p (c ∷ []) + adds_of p cs
adds_of-cons p (adds meta) cs = omega arith
adds_of-cons p _ cs = omega arith

-- From a map whose marked entries are in use, however the calls of the retransmission threads and of
-- the timer are interleaved, a product is reported as removed at most once for the entry that is
-- there and once for each time that it is added.
pub reported-le :
    (p : ℕ) (m : MetaMap) (cs : List Call)
    → IsMetas m
    → All IsNew cs
    → reported p m cs ≤ credit (lookup p m) + adds_of p cs
unfolding reported
reported-le p m [] w n = omega arith
reported-le p m (c ∷ cs) w n = omega (
  arith,
  (call-step p m c w n.0).1,
  reported-le p (step p m c).0 cs (step-IsMetas p m c w n.0) n.1,
  adds_of-cons p c cs,
)
