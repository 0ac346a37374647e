-- ===== src/Protocol/Parallel/Ending.antt =====
-- The threads of the parallel retransmission end.
use fmtp_ldm.Prelude.{
  ℕ, zero, suc, ◌+◌, ◌≤◌, ◌≡◌, refl, ◌⊎◌, inl, inr, Bool, true, false, List, [], ◌∷◌, length, All,
  arith,
}
use fmtp_ldm.Protocol.Memory.{MissingMap, nacks_of}
use fmtp_ldm.Protocol.Parallel.{Worker, ready, serving, exited, Pool, start, act, act_at, step, run}
use fmtp_ldm.Protocol.Parallel.Leaving.{HasEnded}

-- The thread at a place of the list has not ended.
unfoldable pub can_go : ℕ → List Worker → Bool
can_go n [] = false
can_go zero (ready buf ∷ ws) = true
can_go zero (serving sock nacks buf ∷ ws) = true
can_go zero (exited ∷ ws) = false
can_go (suc n) (w ∷ ws) = can_go n ws

module _ (session : ℕ) (file : List ℕ) (stale_flags : ℕ) (m : MissingMap) where
  -- How many steps are left: to take each socket, send its packets and let it go, and to end.
  unfoldable listed_work : List ℕ → ℕ
  listed_work [] = 0
  listed_work (sock ∷ socks) = 2 + length (nacks_of sock m) + listed_work socks

  unfoldable pub work : List Worker → List ℕ → ℕ
  unfolding listed_work
  work [] socks = listed_work socks
  work (ready buf ∷ ws) socks = 1 + work ws socks
  work (serving sock nacks buf ∷ ws) socks = 2 + length nacks + work ws socks
  work (exited ∷ ws) socks = work ws socks

  -- Each step of a schedule is one of a thread that has not ended.
  abbrev pub AllGo : List ℕ → Pool → Type 0
  AllGo [] p = Unit
  AllGo (n ∷ schedule) p =
      (can_go n p.workers ≡ true) × AllGo schedule (step session file stale_flags m n p)

  work-listed :
      (sock : ℕ) (ws : List Worker) (socks : List ℕ)
      → work ws (sock ∷ socks) ≡ 2 + length (nacks_of sock m) + work ws socks
  unfolding work listed_work
  work-listed sock [] socks = refl
  work-listed sock (ready buf ∷ ws) socks = omega (arith, work-listed sock ws socks)
  work-listed sock (serving s nacks buf ∷ ws) socks = omega (arith, work-listed sock ws socks)
  work-listed sock (exited ∷ ws) socks = work-listed sock ws socks

  act_at-work :
      (n : ℕ) (ws : List Worker) (socks : List ℕ)
      → can_go n ws ≡ true
      → suc (
          work
            (act_at session file stale_flags m n ws socks).0
            (act_at session file stale_flags m n ws socks).1)
        ≡ work ws socks
  unfolding can_go act_at act work
  act_at-work n [] socks h = absurd cc
  act_at-work zero (ready buf ∷ ws) [] h = omega arith
  act_at-work zero (ready buf ∷ ws) (s ∷ socks) h = omega (arith, work-listed s ws socks)
  act_at-work zero (serving s [] buf ∷ ws) socks h = omega arith
  act_at-work zero (serving s (nack ∷ nacks) buf ∷ ws) socks h = omega arith
  act_at-work zero (exited ∷ ws) socks h = absurd cc
  act_at-work (suc n) (ready buf ∷ ws) socks h = omega (arith, act_at-work n ws socks h)
  act_at-work (suc n) (serving s nacks buf ∷ ws) socks h = omega (arith, act_at-work n ws socks h)
  act_at-work (suc n) (exited ∷ ws) socks h = act_at-work n ws socks h

  run-work :
      (schedule : List ℕ) (p : Pool)
      → AllGo schedule p
      → length schedule
          + work
              (run session file stale_flags m schedule p).workers
              (run session file stale_flags m schedule p).retrans_sock_list
        ≡ work p.workers p.retrans_sock_list
  unfolding run step
  run-work [] p a = omega arith
  run-work (n ∷ schedule) p (h, a) = omega (
    arith,
    act_at-work n p.workers p.retrans_sock_list h,
    run-work schedule (step session file stale_flags m n p) a,
  )

some_can_go : (ws : List Worker) → All HasEnded ws ⊎ ((n : ℕ) × (can_go n ws ≡ true))
unfolding can_go
some_can_go [] = inl tt
some_can_go (ready buf ∷ ws) = inr (0, refl)
some_can_go (serving s nacks buf ∷ ws) = inr (0, refl)
some_can_go (exited ∷ ws) = elim (some_can_go ws) [
  | inl a ↦ inl (tt, a)
  | inr (n, h) ↦ inr (suc n, h)
]

-- The threads end, whatever the schedule. Each step of a thread that has not ended takes one of a number
-- of steps that is known at the start, and as long as not all threads have ended there is one that can
-- go on.
pub parallel_ends :
    (session : ℕ) (file : List ℕ) (stale_flags : ℕ) (m : MissingMap) (buffers : ℕ → List ℕ)
    (socks : List ℕ) (num_retrans_threads : ℕ) (schedule : List ℕ)
    → AllGo session file stale_flags m schedule (start buffers socks num_retrans_threads)
    → let first = start buffers socks num_retrans_threads in
      let end = run session file stale_flags m schedule first in
      (length schedule ≤ work session file stale_flags m first.workers socks)
      × (All HasEnded end.workers ⊎ ((n : ℕ) × (can_go n end.workers ≡ true)))
parallel_ends session file flags m buffers socks n schedule a =
    let first = start buffers socks n in
    let end = run session file flags m schedule first in
    (omega (arith, run-work session file flags m schedule first a), some_can_go end.workers)
