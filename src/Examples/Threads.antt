-- ===== src/Examples/Threads.antt =====
-- The parallel retransmission at concrete inputs: two threads, socket 11 with one request.
use fmtp_ldm.Prelude.{
  ℕ, ◌≤◌, ◌≡◌, ◌⊎◌, refl, true, List, [], ◌∷◌, map, All, ◌==◌, arith, if◌then◌else◌, inl, inr,
  Bool-cases,
}
use fmtp_ldm.Prelude.Memory.{slice}
use fmtp_ldm.Prelude.Dict.{lookup}
use fmtp_ldm.Protocol.Memory.{MissingMap, nacks_of}
use fmtp_ldm.Protocol.Parallel.{start, ready_workers, act, act_at, step, run}
use fmtp_ldm.Protocol.Parallel.Interleaved.{AllInFile, sent_to, parallel_lem}
use fmtp_ldm.Protocol.Parallel.Owed.{occurs}
use fmtp_ldm.Protocol.Parallel.Leaving.{HasEnded}
use fmtp_ldm.Protocol.Parallel.Ending.{can_go, work, AllGo, parallel_ends}

abbrev content : List ℕ
content = 7 ∷ 8 ∷ []

abbrev wanted : MissingMap
wanted = (11, record { seq_num = 0; data_len = 2 } ∷ []) ∷ []

-- The first thread takes the socket, the second ends, the first serves and ends.
abbrev order : List ℕ
order = 0 ∷ 1 ∷ 0 ∷ 0 ∷ 0 ∷ []

all_ended : All HasEnded (run 1 content 0 wanted order (start (λ n. []) (11 ∷ []) 2)).workers
unfolding run step act_at act nacks_of lookup ready_workers
all_ended = (tt, (tt, tt))

once : occurs 11 (11 ∷ []) ≤ 1
unfolding occurs
once = omega arith

all_in_file : AllInFile 1 content 0 wanted
unfolding nacks_of lookup
all_in_file sock = elim (Bool-cases (11 == sock)) [
  | inl t ↦ rw (nacks_of, t) ((omega arith, omega arith), tt)
  | inr t ↦ rw (nacks_of, t) tt
]

parallel_example : sent_to 11 (run 1 content 0 wanted order (start (λ n. []) (11 ∷ []) 2)).sent ≡ (
    if occurs 11 (11 ∷ []) == 0
    then []
    else map
        (λ nack. (
          record { session_id = 1; seq_number = nack.seq_num; data_len = nack.data_len; flags = 0 },
          slice nack.seq_num nack.data_len content,
        ))
        (nacks_of 11 wanted))
parallel_example =
    parallel_lem 1 content 0 wanted (λ n. []) (11 ∷ []) 2 order 11 all_in_file (omega arith) once
      all_ended

all_go : AllGo 1 content 0 wanted order (start (λ n. []) (11 ∷ []) 2)
unfolding run step act_at act nacks_of lookup ready_workers can_go
all_go = (refl, (refl, (refl, (refl, (refl, tt)))))

parallel_ends_example :
    (5 ≤ work 1 content 0 wanted (start (λ n. []) (11 ∷ []) 2).workers (11 ∷ []))
    × (All HasEnded (run 1 content 0 wanted order (start (λ n. []) (11 ∷ []) 2)).workers
        ⊎ ((n : ℕ) × (can_go n (run 1 content 0 wanted order (start (λ n. []) (11 ∷ []) 2)).workers
              ≡ true)))
parallel_ends_example = parallel_ends 1 content 0 wanted (λ n. []) (11 ∷ []) 2 order all_go
