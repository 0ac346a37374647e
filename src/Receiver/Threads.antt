-- ===== src/Receiver/Threads.antt =====
-- The other threads: one round of `retxRequester` and of `timerThread`, and how the threads end.
use fmtp_ldm.Prelude.{none, some, List, [], ◌∷◌, ◌++◌, if◌then◌else◌}
use fmtp_ldm.Receiver.State.{
  Receiver, shutdown, timer_for, timer_shutdown, Action, sends, returned, stuck, threw, Handled,
  push_request, request_header, req_eop_if_miss, clear_eop_status, task_exit,
}

-- How a thread goes on.
pub data Next : Type 0 where
  waits goes_on ends : Next

-- One round of `retxRequester`. A request is sent before it is taken out of the queue, and is left
-- there if `sendall` throws, which ends the thread. The message for shutdown stays.
unfoldable pub requester_round : Receiver → Receiver × List Action × Next
unfolding request_header task_exit
requester_round r = elim r.msgqueue [
  | [] ↦ (r, [], waits)
  | request ∷ rest ↦ elim (request_header request) [
    | none ↦ (r, [], ends)
    | some h ↦
        if r.tcp_up
        then (record r { msgqueue = rest }, sends h ∷ [], goes_on)
        else (task_exit r, [], ends)
  ]
]

-- One round of `timerThread`, when the time of the first entry is over or the thread has been woken.
unfoldable pub timer_round : Receiver → Receiver × Next
unfolding req_eop_if_miss clear_eop_status
timer_round r = elim r.timer_param_q [
  | [] ↦ (r, waits)
  | timer_shutdown ∷ rest ↦ (r, ends)
  | timer_for prodindex size ∷ rest ↦ (
    clear_eop_status (req_eop_if_miss (record r { timer_param_q = rest }) prodindex).0 prodindex,
    goes_on,
  )
]

-- `stopJoinRetxRequester` and `stopJoinTimerThread`: the messages that end the two threads.
unfoldable pub stop_requester : Receiver → Receiver
unfolding push_request
stop_requester r = push_request r shutdown

unfoldable pub stop_timer : Receiver → Receiver
stop_timer r = record r { timer_param_q = r.timer_param_q ++ timer_shutdown ∷ [] }

-- An exception that leaves a thread is stored.
unfoldable pub thread_result : Handled → Receiver
unfolding task_exit
thread_result (r, out, returned) = r
thread_result (r, out, stuck) = r
thread_result (r, out, threw e) = task_exit r
