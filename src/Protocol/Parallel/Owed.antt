-- ===== src/Protocol/Parallel/Owed.antt =====
-- What the sockets of the parallel retransmission are still to get.
use fmtp_ldm.Prelude.{
  ℕ, ◌+◌, ◌≤◌, ◌≡◌, refl, sym, ap, ◌∙◌, true, false, List, [], ◌∷◌, ◌++◌, map, append-nil, ◌==◌,
  All, inl, inr, Bool-cases, arith, if◌then◌else◌,
}
use fmtp_ldm.Protocol.FmtpReceiver.Repairing.{Packet}
use fmtp_ldm.Protocol.Memory.{Nack, MissingMap, nacks_of}
use fmtp_ldm.Protocol.Parallel.{Worker, ready, serving, exited}
use fmtp_ldm.Protocol.Parallel.Leaving.{HasEnded}

-- How often a socket is in a list.
unfoldable pub occurs : ℕ → List ℕ → ℕ
occurs sock [] = 0
occurs sock (s ∷ socks) = (if s == sock then 1 else 0) + occurs sock socks

unfoldable pub holds : ℕ → List Worker → ℕ
holds sock [] = 0
holds sock (ready buf ∷ ws) = holds sock ws
holds sock (exited ∷ ws) = holds sock ws
holds sock (serving s nacks buf ∷ ws) = (if s == sock then 1 else 0) + holds sock ws

-- `packet` is the packet of a request.
module _ (packet : Nack → Packet) (m : MissingMap) where
  -- What a socket is still to get: from the list, and from the threads.
  unfoldable pub listed : ℕ → List ℕ → List Packet
  listed sock [] = []
  listed sock (s ∷ socks) =
      if s == sock then map packet (nacks_of sock m) ++ listed sock socks else listed sock socks

  unfoldable pub owed : ℕ → List Worker → List ℕ → List Packet
  unfolding listed
  owed sock [] socks = listed sock socks
  owed sock (ready buf ∷ ws) socks = owed sock ws socks
  owed sock (exited ∷ ws) socks = owed sock ws socks
  owed sock (serving s nacks buf ∷ ws) socks =
      if s == sock then map packet nacks ++ owed sock ws socks else owed sock ws socks

  listed_free : (sock : ℕ) (socks : List ℕ) → occurs sock socks ≡ 0 → listed sock socks ≡ []
  unfolding listed occurs
  listed_free sock [] e = refl
  listed_free sock (s ∷ socks) e = elim (Bool-cases (s == sock)) [
    | inl t ↦ absurd (let f = rw t at e in omega (arith, f))
    | inr t ↦ rw t (listed_free sock socks (let f = rw t at e in omega (arith, f)))
  ]

  pub owed_free :
      (sock : ℕ) (ws : List Worker) (socks : List ℕ)
      → holds sock ws + occurs sock socks ≡ 0
      → owed sock ws socks ≡ []
  unfolding owed holds
  owed_free sock [] socks e = listed_free sock socks (omega arith)
  owed_free sock (ready buf ∷ ws) socks e = owed_free sock ws socks e
  owed_free sock (exited ∷ ws) socks e = owed_free sock ws socks e
  owed_free sock (serving s nacks buf ∷ ws) socks e = elim (Bool-cases (s == sock)) [
    | inl t ↦ absurd (let f = rw t at e in omega (arith, f))
    | inr t ↦ rw t (owed_free sock ws socks (let f = rw t at e in omega (arith, f)))
  ]

  -- A socket that one thread takes is the next that the other threads do not have.
  pub owed_taken :
      (sock : ℕ) (ws : List Worker) (socks : List ℕ)
      → holds sock ws ≡ 0
      → owed sock ws socks ≡ listed sock socks
  unfolding owed holds
  owed_taken sock [] socks e = refl
  owed_taken sock (ready buf ∷ ws) socks e = owed_taken sock ws socks e
  owed_taken sock (exited ∷ ws) socks e = owed_taken sock ws socks e
  owed_taken sock (serving s nacks buf ∷ ws) socks e = elim (Bool-cases (s == sock)) [
    | inl t ↦ absurd (let f = rw t at e in omega (arith, f))
    | inr t ↦ rw t (owed_taken sock ws socks (let f = rw t at e in omega (arith, f)))
  ]

  pub owed_other :
      (sock s : ℕ) (ws : List Worker) (socks : List ℕ)
      → (s == sock) ≡ false
      → owed sock ws (s ∷ socks) ≡ owed sock ws socks
  unfolding owed listed
  owed_other sock s [] socks e = rw e refl
  owed_other sock s (ready buf ∷ ws) socks e = owed_other sock s ws socks e
  owed_other sock s (exited ∷ ws) socks e = owed_other sock s ws socks e
  owed_other sock s (serving k nacks buf ∷ ws) socks e = rw (owed_other sock s ws socks e) refl

  pub owed_next :
      (sock : ℕ) (ws : List Worker) (socks : List ℕ)
      → holds sock ws ≡ 0
      → owed sock ws (sock ∷ socks) ≡ map packet (nacks_of sock m) ++ owed sock ws socks
  unfolding listed
  owed_next sock ws socks e =
      let t : (sock == sock) ≡ true = ground arith in
      owed_taken sock ws (sock ∷ socks) e ∙ rw (t, owed_taken sock ws socks e) refl

  -- The threads that do not hold a socket which nobody else can take send nothing to it.
  pub owed_behind :
      (sock : ℕ) (ws ws' : List Worker) (socks socks' : List ℕ) (packets out : List Packet)
      → holds sock ws + occurs sock socks ≡ 0
      → holds sock ws' + occurs sock socks' ≡ 0
      → out ++ owed sock ws' socks' ≡ owed sock ws socks
      → out ++ (packets ++ owed sock ws' socks') ≡ packets ++ owed sock ws socks
  owed_behind sock ws ws' socks socks' packets out z z' e =
      let f = owed_free sock ws socks z in
      let g = owed_free sock ws' socks' z' in
      let nothing : out ≡ [] = sym (append-nil out) ∙ (rw (g, f) at e) in rw (f, g, nothing) refl

  pub ended_owes :
      (sock : ℕ) (ws : List Worker) (socks : List ℕ)
      → All HasEnded ws
      → socks ≡ []
      → owed sock ws socks ≡ []
  unfolding owed listed
  ended_owes sock [] socks a e = ap (listed sock) e
  ended_owes sock (ready buf ∷ ws) socks (b, a) e = absurd b
  ended_owes sock (serving s nacks buf ∷ ws) socks (b, a) e = absurd b
  ended_owes sock (exited ∷ ws) socks (b, a) e = ended_owes sock ws socks a e

  pub listed_once :
      (sock : ℕ) (socks : List ℕ)
      → occurs sock socks ≤ 1
      → listed sock socks ≡ (if occurs sock socks == 0 then [] else map packet (nacks_of sock m))
  unfolding listed occurs
  listed_once sock [] h = refl
  listed_once sock (s ∷ socks) h = elim (Bool-cases (s == sock)) [
    | inl t ↦
        let f : occurs sock socks ≡ 0 = (let g = rw t at h in omega (arith, g)) in
        rw (t, listed_free sock socks f, f) (append-nil (map packet (nacks_of sock m)))
    | inr t ↦
        let z : 0 + occurs sock socks ≡ occurs sock socks = omega arith in
        rw (t, z) (listed_once sock socks (let g = rw t at h in omega (arith, g)))
  ]
