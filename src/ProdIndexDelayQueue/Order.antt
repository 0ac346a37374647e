-- ===== src/ProdIndexDelayQueue/Order.antt =====
-- The queue serves by time, and loses nothing.
use mathlib.Core.List.{Perm, perm_middle}
use mathlib.Core.List.Perm
use fmtp_ldm.Prelude.{
  ℕ, ◌+◌, ◌≤◌, ◌<◌, ◌≡◌, ◌⊎◌, refl, sym, Bool, false, Option, none, some, List, [], ◌∷◌, ◌++◌,
  append-nil, lt-cases, arith, All, subst, ap, Bool-cases, inl, inr,
}
use fmtp_ldm.ProdIndexDelayQueue.{
  Element, Queue, is_lower_priority, push_pri, new, push, waits, waits_until, pops, pop,
}

abbrev pub IsByTime : ℕ → List Element → Type 0
IsByTime t [] = Unit {0}
IsByTime t (e ∷ es) = (t ≤ e.when) × IsByTime e.when es

IsByTime-mono : (t t' : ℕ) (es : List Element) → t' ≤ t → IsByTime t es → IsByTime t' es
IsByTime-mono t t' [] h w = tt
IsByTime-mono t t' (e ∷ es) h w = (omega arith, w.1)

push_pri-IsByTime :
    (t : ℕ) (e : Element) (es : List Element)
    → t ≤ e.when
    → IsByTime t es
    → IsByTime t (push_pri e es)
unfolding push_pri
push_pri-IsByTime t e [] h w = (h, tt)
push_pri-IsByTime t e (x ∷ xs) h w = elim (Bool-cases (is_lower_priority x e)) [
  | inl l ↦ rw l (h, (ground arith, w.1))
  | inr l ↦ rw l (w.0, push_pri-IsByTime x.when e xs (ground arith) w.1)
]

push_pri-perm : (e : Element) (es : List Element) → Perm (push_pri e es) (e ∷ es)
unfolding push_pri
push_pri-perm e [] = Perm.refl (e ∷ [])
push_pri-perm e (x ∷ xs) = elim (Bool-cases (is_lower_priority x e)) [
  | inl l ↦ rw l (Perm.refl (e ∷ x ∷ xs))
  | inr l ↦ rw l (Perm.trans (Perm.cons x (push_pri-perm e xs)) (Perm.swap e x xs))
]

-- A push into a queue that is not disabled succeeds, keeps the queue in order of time and adds its
-- element, nothing else.
pub push-perm :
    (q : Queue) (now index delay : ℕ)
    → q.disabled ≡ false
    → IsByTime 0 q.pri_q
    → (r : Queue) × (push q now index delay ≡ some r)
      × IsByTime 0 r.pri_q
      × Perm r.pri_q (record { index = index; when = now + delay } ∷ q.pri_q)
      × (r.disabled ≡ false)
unfolding push
push-perm q now index delay d w =
    let new : Element = record { index = index; when = now + delay } in
    (
      record { pri_q = push_pri new q.pri_q; disabled = false },
      rw d refl,
      push_pri-IsByTime 0 new q.pri_q (omega arith) w,
      push_pri-perm new q.pri_q,
      refl,
    )

All-later : (t : ℕ) (es : List Element) → IsByTime t es → All (λ e. t ≤ e.when) es
All-later t [] w = tt
All-later t (e ∷ es) w = (w.0, All-later t es (IsByTime-mono e.when t es w.0 w.1))

-- Pushes, each with its time, index and delay; `none` is an exception of one of them.
unfoldable pub push_each : Queue → List (ℕ × ℕ × ℕ) → Option Queue
push_each q [] = some q
push_each q ((now, index, delay) ∷ pushes) = elim (push q now index delay) [
  | none ↦ none
  | some r ↦ push_each r pushes
]

-- What has been pushed.
abbrev pub pushed : List (ℕ × ℕ × ℕ) → List Element
pushed [] = []
pushed ((now, index, delay) ∷ pushes) = record { index = index; when = now + delay } ∷ pushed pushes

push_each_lem :
    (pushes : List (ℕ × ℕ × ℕ)) (q : Queue)
    → q.disabled ≡ false
    → IsByTime 0 q.pri_q
    → (r : Queue) × (push_each q pushes ≡ some r)
      × IsByTime 0 r.pri_q
      × Perm r.pri_q (pushed pushes ++ q.pri_q)
      × (r.disabled ≡ false)
unfolding push_each
push_each_lem [] q d w = (q, refl, w, Perm.refl q.pri_q, d)
push_each_lem ((now, index, delay) ∷ pushes) q d w =
    let (q', e, w', p, d') = push-perm q now index delay d w in
    let (r, f, v, k, z) = push_each_lem pushes q' d' w' in
    (
      r,
      rw (push_each, e, f) refl,
      v,
      Perm.trans k
          (Perm.trans (Perm.append_left (pushed pushes) p) (perm_middle (pushed pushes) q.pri_q)),
      z,
    )

-- Element `e` is one of `es`, `rest` are the others, and none is due before it.
abbrev pub IsEarliest : Element → List Element → List Element → Type 0
IsEarliest e rest es = Perm (e ∷ rest) es × All (λ (x : Element). e.when ≤ x.when) rest

-- What a pop does with a queue that holds `es`.
abbrev pub PopServes : Queue → ℕ → List Element → Type 0
PopServes q now es =
    ((pop q now ≡ waits) × Perm [] es)
    ⊎ ((e : Element) × (rest : List Element) × IsEarliest e rest es
        × (((pop q now ≡ waits_until e.when) × (now < e.when))
            ⊎ ((pop q now ≡ pops e.index (record q { pri_q = rest })) × (e.when ≤ now))))

pop-PopServes :
    (queued : List Element) (now : ℕ) (es : List Element)
    → IsByTime 0 queued
    → Perm queued es
    → PopServes (record { pri_q = queued; disabled = false }) now es
unfolding pop
pop-PopServes [] now es w p = inl (refl, p)
pop-PopServes (e ∷ rest) now es w p = inr (
  e,
  rest,
  (p, All-later e.when rest w.1),
  elim (lt-cases now e.when) [ inl (t, l) ↦ inl (rw t refl, l) | inr (t, l) ↦ inr (rw t refl, l) ],
)

queue_eta : (q : Queue) → q.disabled ≡ false → q ≡ record { pri_q = q.pri_q; disabled = false }
queue_eta q d = ap (λ (x : Bool). let y : Queue = record { pri_q = q.pri_q; disabled = x } in y) d

-- After any pushes into a new queue, whatever their times and delays, a pop waits for a push if there
-- was none. Otherwise it is about an element whose time is the earliest of all that were pushed: it
-- waits until that time, or, if that has come, returns the element's index and leaves the others.
pub pop-earliest :
    (pushes : List (ℕ × ℕ × ℕ)) (now : ℕ)
    → (q : Queue) × (push_each new pushes ≡ some q) × PopServes q now (pushed pushes)
unfolding new
pop-earliest pushes now =
    let (q, e, w, p, d) = push_each_lem pushes new refl tt in
    (
      q,
      e,
      subst (λ x. PopServes x now (pushed pushes)) (sym (queue_eta q d))
          (pop-PopServes q.pri_q now (pushed pushes) w
            (subst (Perm q.pri_q) (append-nil (pushed pushes)) p)),
    )
