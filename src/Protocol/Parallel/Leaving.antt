-- ===== src/Protocol/Parallel/Leaving.antt =====
-- The threads end only when no socket is left.
use fmtp_ldm.Prelude.{ℕ, zero, suc, ◌<◌, ◌≡◌, refl, ap, ◌∙◌, List, [], ◌∷◌, All, inl, inr, ◌⊎◌}
use fmtp_ldm.Protocol.FmtpReceiver.Repairing.{Packet}
use fmtp_ldm.Protocol.Memory.{MissingMap}
use fmtp_ldm.Protocol.Parallel.{
  Worker, ready, serving, exited, Pool, ready_workers, act, act_at, step, run,
}

abbrev pub HasEnded : Worker → Type 0
HasEnded (ready buf) = ⊥
HasEnded (serving sock nacks buf) = ⊥
HasEnded exited = Unit

-- A thread has not ended.
unfoldable pub HasOpen : List Worker → Type 0
HasOpen [] = ⊥
HasOpen (ready buf ∷ ws) = Unit
HasOpen (serving sock nacks buf ∷ ws) = Unit
HasOpen (exited ∷ ws) = HasOpen ws

module _ (session : ℕ) (file : List ℕ) (stale_flags : ℕ) (m : MissingMap) where
  -- All threads end only when the list is empty.
  unfoldable pub LeavesNone : List Worker × List ℕ × List (ℕ × Packet) → Type 0
  LeavesNone (ws, socks, out) = (socks ≡ []) ⊎ HasOpen ws

  act_at-empty : (n : ℕ) (ws : List Worker) → (act_at session file stale_flags m n ws []).1 ≡ []
  unfolding act_at act
  act_at-empty n [] = refl
  act_at-empty zero (ready buf ∷ ws) = refl
  act_at-empty zero (serving s [] buf ∷ ws) = refl
  act_at-empty zero (serving s (nack ∷ nacks) buf ∷ ws) = refl
  act_at-empty zero (exited ∷ ws) = refl
  act_at-empty (suc n) (w ∷ ws) = act_at-empty n ws

  act_at-LeavesNone :
      (n : ℕ) (ws : List Worker) (socks : List ℕ)
      → HasOpen ws
      → LeavesNone (act_at session file stale_flags m n ws socks)
  unfolding HasOpen LeavesNone act_at act
  act_at-LeavesNone n [] socks h = absurd h
  act_at-LeavesNone zero (ready buf ∷ ws) [] h = inl refl
  act_at-LeavesNone zero (ready buf ∷ ws) (s ∷ socks) h = inr tt
  act_at-LeavesNone zero (serving s [] buf ∷ ws) socks h = inr tt
  act_at-LeavesNone zero (serving s (nack ∷ nacks) buf ∷ ws) socks h = inr tt
  act_at-LeavesNone zero (exited ∷ ws) socks h = inr h
  act_at-LeavesNone (suc n) (ready buf ∷ ws) socks h = inr tt
  act_at-LeavesNone (suc n) (serving s nacks buf ∷ ws) socks h = inr tt
  act_at-LeavesNone (suc n) (exited ∷ ws) socks h = act_at-LeavesNone n ws socks h

  pub run-LeavesNone :
      (schedule : List ℕ) (p : Pool)
      → LeavesNone (p.workers, p.retrans_sock_list, [])
      → LeavesNone (
        (run session file stale_flags m schedule p).workers,
        (run session file stale_flags m schedule p).retrans_sock_list,
        [],
      )
  unfolding run step LeavesNone
  run-LeavesNone [] p h = h
  run-LeavesNone (n ∷ schedule) p (inl e) =
      run-LeavesNone schedule (step session file stale_flags m n p) (
        inl (
          ap (λ x. (act_at session file stale_flags m n p.workers x).1) e
          ∙ act_at-empty n p.workers))
  run-LeavesNone (n ∷ schedule) p (inr h) =
      run-LeavesNone schedule (step session file stale_flags m n p)
        (act_at-LeavesNone n p.workers p.retrans_sock_list h)

  pub ended_closed : (ws : List Worker) → All HasEnded ws → HasOpen ws → ⊥
  unfolding HasOpen
  ended_closed [] a h = h
  ended_closed (ready buf ∷ ws) (e, a) h = e
  ended_closed (serving s nacks buf ∷ ws) (e, a) h = e
  ended_closed (exited ∷ ws) (e, a) h = ended_closed ws a h

  pub ready_workers-HasOpen :
      (buffers : ℕ → List ℕ) (n : ℕ) → 0 < n → HasOpen (ready_workers buffers n)
  unfolding HasOpen ready_workers
  ready_workers-HasOpen buffers zero h = elim h [ ]
  ready_workers-HasOpen buffers (suc n) h = tt
