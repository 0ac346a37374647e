-- ===== src/ProdIndexDelayQueue.antt =====
-- FMTPv3/sender/ProdIndexDelayQueue.{h,cpp}: product indexes that become visible at a time. The
-- priority queue is a list by increasing time; of elements with one time it serves the one that was
-- pushed first, which is one of the choices that `std::priority_queue` may make. Time is in ticks of
-- the system clock, an argument of each call.
pub mod Order
use fmtp_ldm.Prelude.{
  ℕ, ◌+◌, Bool, true, false, Option, none, some, List, [], ◌∷◌, ltb, if◌then◌else◌, length,
}

pub record Element : Type 0 where
  pub index : ℕ
  pub when : ℕ

pub record Queue : Type 0 where
  pub pri_q : List Element
  pub disabled : Bool

-- `this->when > that.when`
unfoldable pub is_later_than : Element → Element → Bool
is_later_than this that = ltb that.when this.when

unfoldable pub is_lower_priority : Element → Element → Bool
unfolding is_later_than
is_lower_priority a b = is_later_than a b

unfoldable pub push_pri : Element → List Element → List Element
unfolding is_lower_priority
push_pri e [] = e ∷ []
push_pri e (x ∷ xs) = if is_lower_priority x e then e ∷ x ∷ xs else x ∷ push_pri e xs

unfoldable pub new : Queue
new = record { pri_q = []; disabled = false }

-- `none` is the exception of `throwIfDisabled`. `delay` is `seconds` in ticks of the clock.
unfoldable pub push : Queue → ℕ → ℕ → ℕ → Option Queue
unfolding push_pri
push q now index delay =
    if q.disabled
    then none
    else some (record q { pri_q = push_pri (record { index = index; when = now + delay }) q.pri_q })

-- What a thread in `pop` does at time `now`: it throws, waits for a push, waits until a time, or
-- returns with an index.
pub data Pop : Type 0 where
  throws : Pop
  waits : Pop
  waits_until : ℕ → Pop
  pops : ℕ → Queue → Pop

-- The wait of `getEarliestTime`, and the loop test of `pop`.
unfoldable pub pop : Queue → ℕ → Pop
pop q now = if q.disabled then throws else elim q.pri_q [
  | [] ↦ waits
  | e ∷ rest ↦
      if ltb now e.when then waits_until e.when else pops e.index (record q { pri_q = rest })
]

-- `none` stands for the undefined behaviour on an empty queue.
unfoldable pub get : Queue → Option (ℕ × Queue)
get q = elim q.pri_q [ [] ↦ none | e ∷ rest ↦ some (e.index, record q { pri_q = rest }) ]

unfoldable pub size : Queue → ℕ
size q = length q.pri_q

unfoldable pub disable : Queue → Queue
disable q = record q { disabled = true }
