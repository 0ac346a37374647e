-- ===== src/Protocol/Parallel/Interleaved.antt =====
-- Whatever the schedule, each socket is served by one thread, in order.
use fmtp_ldm.Prelude.{
  ℕ, zero, suc, ◌+◌, ◌≤◌, ◌<◌, ◌≡◌, refl, sym, ap, ◌∙◌, List, [], ◌∷◌, ◌++◌, map, append_assoc,
  append-nil, ◌==◌, All, inl, inr, eq-cases, Bool-cases, arith, if◌then◌else◌,
}
use fmtp_ldm.Protocol.FmtpReceiver.Repairing.{Packet}
use fmtp_ldm.Protocol.Memory.{Nack, MissingMap, nacks_of}
use fmtp_ldm.Protocol.Parallel.{
  Worker, ready, serving, exited, Pool, ready_workers, start, act, act_at, step, run,
}
use fmtp_ldm.Prelude.Memory.{slice}
use fmtp_ldm.Protocol.Parallel.Packets.{InFile, asked_packet, block_packet-InFile}
use fmtp_ldm.Protocol.Parallel.Owed.{
  occurs, holds, owed, owed_next, owed_other, owed_behind, owed_taken, ended_owes, listed_once,
}
use fmtp_ldm.Protocol.Parallel.Leaving.{
  HasEnded, LeavesNone, run-LeavesNone, ended_closed, ready_workers-HasOpen,
}

-- What has been sent to a socket.
unfoldable pub sent_to : ℕ → List (ℕ × Packet) → List Packet
sent_to sock [] = []
sent_to sock ((to, packet) ∷ rest) =
    if to == sock then packet ∷ sent_to sock rest else sent_to sock rest

pub sent_to-append :
    (sock : ℕ) (xs ys : List (ℕ × Packet))
    → sent_to sock (xs ++ ys) ≡ sent_to sock xs ++ sent_to sock ys
unfolding sent_to
sent_to-append sock [] ys = refl
sent_to-append sock ((to, packet) ∷ xs) ys = elim (Bool-cases (to == sock)) [
  | inl t ↦ rw (t, sent_to-append sock xs ys) refl
  | inr t ↦ rw (t, sent_to-append sock xs ys) refl
]

module _ (session : ℕ) (file : List ℕ) (stale_flags : ℕ) (m : MissingMap) where
  abbrev packet : Nack → Packet
  packet = asked_packet session file stale_flags

  -- Every request lies in the file.
  abbrev pub AllInFile : Type 0
  AllInFile = (sock : ℕ) → All (InFile file) (nacks_of sock m)

  -- The requests that the threads have taken lie in the file.
  unfoldable AsksIn : List Worker → Type 0
  AsksIn [] = Unit
  AsksIn (ready buf ∷ ws) = AsksIn ws
  AsksIn (exited ∷ ws) = AsksIn ws
  AsksIn (serving s nacks buf ∷ ws) = All (InFile file) nacks × AsksIn ws

  act_at-AsksIn :
      (n : ℕ) (ws : List Worker) (socks : List ℕ)
      → AllInFile
      → AsksIn ws
      → AsksIn (act_at session file stale_flags m n ws socks).0
  unfolding AsksIn act_at act
  act_at-AsksIn n [] socks all i = tt
  act_at-AsksIn zero (ready buf ∷ ws) [] all i = i
  act_at-AsksIn zero (ready buf ∷ ws) (s ∷ socks) all i = (all s, i)
  act_at-AsksIn zero (serving s [] buf ∷ ws) socks all (here, i) = i
  act_at-AsksIn zero (serving s (nack ∷ nacks) buf ∷ ws) socks all (here, i) = (here.1, i)
  act_at-AsksIn zero (exited ∷ ws) socks all i = i
  act_at-AsksIn (suc n) (ready buf ∷ ws) socks all i = act_at-AsksIn n ws socks all i
  act_at-AsksIn (suc n) (exited ∷ ws) socks all i = act_at-AsksIn n ws socks all i
  act_at-AsksIn (suc n) (serving s nacks buf ∷ ws) socks all (here, i) =
      (here, act_at-AsksIn n ws socks all i)

  -- A step of one thread: no socket is in more hands, and what is sent is no longer owed.
  Kept : ℕ → List Worker → List ℕ → List Worker × List ℕ × List (ℕ × Packet) → Type 0
  Kept sock ws socks (ws', socks', out) =
      (holds sock ws' + occurs sock socks' ≤ holds sock ws + occurs sock socks)
      × (holds sock ws + occurs sock socks ≤ 1
          → sent_to sock out ++ owed packet m sock ws' socks' ≡ owed packet m sock ws socks)

  act_at-Kept :
      (sock n : ℕ) (ws : List Worker) (socks : List ℕ)
      → AsksIn ws
      → Kept sock ws socks (act_at session file stale_flags m n ws socks)
  unfolding Kept act_at act sent_to owed holds occurs AsksIn
  act_at-Kept sock n [] socks i = (omega arith, λ h. refl)
  act_at-Kept sock zero (ready buf ∷ ws) [] i = (omega arith, λ h. refl)
  act_at-Kept sock zero (ready buf ∷ ws) (s ∷ socks) i = elim (eq-cases s sock) [
    | inl (t, e) ↦ rw t (
      omega arith,
      λ h.
          ap (λ k. map packet (nacks_of k m) ++ owed packet m sock ws socks) e
          ∙ sym (owed_next packet m sock ws socks (omega arith))
          ∙ ap (λ k. owed packet m sock ws (k ∷ socks)) (sym e),
    )
    | inr (t, e) ↦ rw t (omega arith, λ h. sym (owed_other packet m sock s ws socks t))
  ]
  act_at-Kept sock zero (serving s [] buf ∷ ws) socks i = elim (Bool-cases (s == sock)) [
    | inl t ↦ rw t (omega arith, λ h. refl)
    | inr t ↦ rw t (omega arith, λ h. refl)
  ]
  act_at-Kept sock zero (serving s (nack ∷ nacks) buf ∷ ws) socks ((i, more), rest) =
      elim (Bool-cases (s == sock)) [
        | inl t ↦ rw t (
          omega arith,
          λ h.
              ap (λ x. x ∷ (map packet nacks ++ owed packet m sock ws socks))
                (block_packet-InFile session file stale_flags nack buf i),
        )
        | inr t ↦ rw t (omega arith, λ h. refl)
      ]
  act_at-Kept sock zero (exited ∷ ws) socks i = (omega arith, λ h. refl)
  act_at-Kept sock (suc n) (ready buf ∷ ws) socks i = act_at-Kept sock n ws socks i
  act_at-Kept sock (suc n) (exited ∷ ws) socks i = act_at-Kept sock n ws socks i
  act_at-Kept sock (suc n) (serving s nacks buf ∷ ws) socks (here, i) =
      let (le, same) = act_at-Kept sock n ws socks i in
      let (ws', socks', out) = act_at session file stale_flags m n ws socks in
      elim (Bool-cases (s == sock)) [
        | inl t ↦ rw t (
          omega (arith, le),
          λ h.
              owed_behind packet m sock ws ws' socks socks' (map packet nacks) (sent_to sock out)
                (omega arith) (omega (arith, le)) (same (omega arith)),
        )
        | inr t ↦ rw t (omega (arith, le), λ h. same (omega arith))
      ]

  -- What a socket has got and is to get stays the same over a run.
  run-Kept :
      (sock : ℕ) (schedule : List ℕ) (p : Pool)
      → AllInFile
      → AsksIn p.workers
      → holds sock p.workers + occurs sock p.retrans_sock_list ≤ 1
      → sent_to sock (run session file stale_flags m schedule p).sent
          ++ owed packet m sock
              (run session file stale_flags m schedule p).workers
              (run session file stale_flags m schedule p).retrans_sock_list
        ≡ sent_to sock p.sent ++ owed packet m sock p.workers p.retrans_sock_list
  unfolding run step Kept
  run-Kept sock [] p all i h = refl
  run-Kept sock (n ∷ schedule) p all i h =
      let (le, same) = act_at-Kept sock n p.workers p.retrans_sock_list i in
      let (ws, socks, out) = act_at session file stale_flags m n p.workers p.retrans_sock_list in
      run-Kept sock schedule (step session file stale_flags m n p) all
        (act_at-AsksIn n p.workers p.retrans_sock_list all i) (omega (arith, le))
      ∙ ap (λ x. x ++ owed packet m sock ws socks) (sent_to-append sock p.sent out)
      ∙ append_assoc (sent_to sock p.sent) (sent_to sock out) (owed packet m sock ws socks)
      ∙ ap (λ x. sent_to sock p.sent ++ x) (same h)

  ready_workers-holds :
      (buffers : ℕ → List ℕ) (sock n : ℕ) → holds sock (ready_workers buffers n) ≡ 0
  unfolding holds ready_workers
  ready_workers-holds buffers sock zero = refl
  ready_workers-holds buffers sock (suc n) = ready_workers-holds buffers sock n

  ready_workers-AsksIn : (buffers : ℕ → List ℕ) (n : ℕ) → AsksIn (ready_workers buffers n)
  unfolding AsksIn ready_workers
  ready_workers-AsksIn buffers zero = tt
  ready_workers-AsksIn buffers (suc n) = ready_workers-AsksIn buffers n

-- Whatever the order in which the threads go on, and whatever their buffers hold at first, when all of
-- them have ended, each socket of the list has got exactly the blocks that were asked for on it, in the
-- order of the requests: the header of the request with its bytes of the file. A socket that is not in
-- the list has got nothing. The requests lie in the file, no socket is in the list twice, and there is
-- a thread.
pub parallel_lem :
    (session : ℕ) (file : List ℕ) (stale_flags : ℕ) (m : MissingMap) (buffers : ℕ → List ℕ)
    (socks : List ℕ) (num_retrans_threads : ℕ) (schedule : List ℕ) (sock : ℕ)
    → AllInFile session file stale_flags m
    → 0 < num_retrans_threads
    → occurs sock socks ≤ 1
    → let end = run session file stale_flags m schedule (start buffers socks num_retrans_threads) in
      All HasEnded end.workers
      → sent_to sock end.sent ≡ (
          if occurs sock socks == 0
          then []
          else map
              (λ nack. (
                record {
                  session_id = session;
                  seq_number = nack.seq_num;
                  data_len = nack.data_len;
                  flags = stale_flags;
                },
                slice nack.seq_num nack.data_len file,
              ))
              (nacks_of sock m))
unfolding LeavesNone sent_to
parallel_lem session file flags m buffers socks n schedule sock all threads once ended =
    let first = start buffers socks n in
    let end = run session file flags m schedule first in
    let none : holds sock first.workers ≡ 0 =
      ready_workers-holds session file flags m buffers sock n in
    let empty : end.retrans_sock_list ≡ [] =
      elim (run-LeavesNone session file flags m schedule first
        (inr (ready_workers-HasOpen session file flags m buffers n threads))) [
          | inl e ↦ e
          | inr h ↦ absurd (ended_closed session file flags m end.workers ended h)
        ] in
    sym (append-nil (sent_to sock end.sent))
    ∙ ap (λ x. sent_to sock end.sent ++ x)
        (sym (
          ended_owes (asked_packet session file flags) m sock end.workers end.retrans_sock_list
            ended empty))
    ∙ run-Kept session file flags m sock schedule first all
        (ready_workers-AsksIn session file flags m buffers n) (omega arith)
    ∙ owed_taken (asked_packet session file flags) m sock first.workers socks none
    ∙ listed_once (asked_packet session file flags) m sock socks once
