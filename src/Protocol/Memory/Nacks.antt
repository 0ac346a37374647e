-- ===== src/Protocol/Memory/Nacks.antt =====
-- The messages in which receivers list what they lack, written by the receivers and collected by the
-- sender.
use mathlib.Core.Option.{some-injective}
use mathlib.Core.List.{map-append}
use fmtp_ldm.Prelude.{
  ℕ, ◌≡◌, refl, sym, ap, subst, ◌∙◌, ◌⊎◌, inl, inr, Bool, true, false, not, ◌&&◌, Option, none,
  some, List, [], ◌∷◌, ◌++◌, map, append_assoc, append-nil, length, ◌==◌, All, eq-cases, arith,
}
use fmtp_ldm.Prelude.Dict.{lookup}
use fmtp_ldm.SenderMetadata.Sets.{member, remove, member-remove}
use fmtp_ldm.Protocol.Memory.{
  Nack, nack_loop, send_nack_messages, MissingMap, nacks_of, push_all,
  receive_retrans_requests_serial,
}
use fmtp_ldm.Protocol.Memory.Messages.{
  Event, messages_of, joined, IsMessage, nack_messages, nacks_of-push_all, silent, ended,
  ended-ne-nil,
}

listens :
    (sock from : ℕ) (socks : List ℕ)
    → (from == sock) ≡ false
    → member sock socks ≡ true
    → member sock (remove from socks) ≡ true
listens sock from socks t h = member-remove from sock socks ∙ rw (t, h) refl

-- The message that comes next.
IsMessage-cases :
    (sock : ℕ) (message : Option (List Nack)) (rest : List (Option (List Nack)))
    (msgs : List (List Nack)) (m : MissingMap)
    → message ∷ rest ≡ ended msgs
    → All IsMessage msgs
    → ((message ≡ some []) × (rest ≡ []) × (msgs ≡ []))
      ⊎ ((msg : List Nack) × (more : List (List Nack)) × (message ≡ some msg)
          × IsMessage msg
          × (msgs ≡ msg ∷ more)
          × (rest ≡ ended more)
          × All IsMessage more)
IsMessage-cases sock message rest [] m e a = inl (cc, cc, refl)
IsMessage-cases sock message rest (msg ∷ more) m e (w, a) = inr (msg, more, cc, w, refl, cc, a)

collected :
    (sock : ℕ) (events : List Event) (socks : List ℕ) (msgs : List (List Nack)) (m m' : MissingMap)
    → member sock socks ≡ true
    → messages_of sock events ≡ ended msgs
    → All IsMessage msgs
    → receive_retrans_requests_serial events socks m ≡ some m'
    → nacks_of sock m' ≡ nacks_of sock m ++ joined msgs
unfolding messages_of receive_retrans_requests_serial member
collected sock [] socks msgs m m' l q a e = absurd (ended-ne-nil msgs (sym q))
collected sock (event ∷ events) [] msgs m m' l q a e = cc
collected sock ((from, none) ∷ events) (s ∷ socks) msgs m m' l q a e = elim (eq-cases from sock) [
  | inr (t, f) ↦
      collected sock events (remove from (s ∷ socks)) msgs m m' (listens sock from (s ∷ socks) t l)
        (rw t at q) a e
  | inl (t, f) ↦ elim (IsMessage-cases sock none _ msgs m (rw t at q) a) [
    | inl (x, y, z) ↦ cc
    | inr (msg, more, x, w, z, y, b) ↦ cc
  ]
]
collected sock ((from, some []) ∷ events) (s ∷ socks) msgs m m' l q a e =
    elim (eq-cases from sock) [
      | inr (t, f) ↦
          collected sock events (remove from (s ∷ socks)) msgs m m'
            (listens sock from (s ∷ socks) t l) (rw t at q) a e
      | inl (t, f) ↦ elim (IsMessage-cases sock (some []) _ msgs m (rw t at q) a) [
        | inl (x, y, z) ↦
            silent sock events (remove from (s ∷ socks)) m m' y e
            ∙ rw z (sym (append-nil (nacks_of sock m)))
        | inr (msg, more, x, w, z, y, b) ↦
            let empty : length msg ≡ 0 = ap length (some-injective _ _ (sym x)) in
            absurd (omega (arith, empty, w))
      ]
    ]
collected sock ((from, some (nack ∷ nacks)) ∷ events) (s ∷ socks) msgs m m' l q a e =
    elim (eq-cases from sock) [
      | inr (t, f) ↦
          collected sock events (s ∷ socks) msgs (push_all from (nack ∷ nacks) m) m' l (rw t at q) a
            e
          ∙ ap (λ x. x ++ joined msgs) (nacks_of-push_all sock from (nack ∷ nacks) m ∙ rw t refl)
      | inl (t, f) ↦ elim (IsMessage-cases sock (some (nack ∷ nacks)) _ msgs m (rw t at q) a) [
        | inl (x, y, z) ↦ cc
        | inr (msg, more, x, w, z, y, b) ↦
            let same : msg ≡ nack ∷ nacks = some-injective _ _ (sym x) in
            collected sock events (s ∷ socks) more (push_all from (nack ∷ nacks) m) m' l y b e
            ∙ ap (λ k. k ++ joined more) (nacks_of-push_all sock from (nack ∷ nacks) m ∙ rw t refl)
            ∙ append_assoc (nacks_of sock m) (nack ∷ nacks) (joined more)
            ∙ rw (z, same) refl
      ]
    ]

-- A socket whose messages end.
abbrev EndsIn : List (Option (List Nack)) → Type 0
EndsIn [] = ⊥
EndsIn (none ∷ rest) = Unit
EndsIn (some [] ∷ rest) = Unit
EndsIn (some (nack ∷ nacks) ∷ rest) = EndsIn rest

EndsIn-ended : (msgs : List (List Nack)) → All IsMessage msgs → EndsIn (ended msgs)
EndsIn-ended [] a = tt
EndsIn-ended ([] ∷ msgs) (w, a) = tt
EndsIn-ended ((nack ∷ nacks) ∷ msgs) (w, a) = EndsIn-ended msgs a

not_removed : (b : Bool) → (b && not true) ≡ true → ⊥
not_removed true e = cc
not_removed false e = cc

left : (b : Bool) → (b && not false) ≡ true → b ≡ true
left true e = refl
left false e = cc

-- The sockets that are left, after a message that ends one.
still_end :
    (from : ℕ) (message : Option (List Nack)) (events : List Event) (socks : List ℕ)
    → ((sock : ℕ) → member sock socks ≡ true → EndsIn (messages_of sock ((from, message) ∷ events)))
    → (sock : ℕ) → member sock (remove from socks) ≡ true
    → EndsIn (messages_of sock events)
unfolding messages_of
still_end from message events socks h sock l = elim (eq-cases from sock) [
  | inl (t, f) ↦ absurd (not_removed (member sock socks) (rw (member-remove, t) at l))
  | inr (t, f) ↦ rw t at (h sock (left (member sock socks) (rw (member-remove, t) at l)))
]

listened : (s : ℕ) (socks : List ℕ) → member s (s ∷ socks) ≡ true
unfolding member
listened s socks = ground arith

later_ends :
    (sock from : ℕ) (nack : Nack) (nacks : List Nack) (events : List Event)
    → EndsIn (messages_of sock ((from, some (nack ∷ nacks)) ∷ events))
    → EndsIn (messages_of sock events)
unfolding messages_of
later_ends sock from nack nacks events h = elim (eq-cases from sock) [
  | inl (t, f) ↦ rw t at h
  | inr (t, f) ↦ rw t at h
]

-- The loop of the sender ends when the messages of every socket do.
collection_ends :
    (events : List Event) (socks : List ℕ) (m : MissingMap)
    → ((sock : ℕ) → member sock socks ≡ true → EndsIn (messages_of sock events))
    → (m' : MissingMap) × (receive_retrans_requests_serial events socks m ≡ some m')
unfolding receive_retrans_requests_serial
collection_ends [] [] m h = (m, refl)
collection_ends (event ∷ events) [] m h = (m, refl)
collection_ends [] (s ∷ socks) m h = absurd (unfold messages_of in h s (listened s socks))
collection_ends ((from, none) ∷ events) (s ∷ socks) m h =
    collection_ends events (remove from (s ∷ socks)) m (still_end from none events (s ∷ socks) h)
collection_ends ((from, some []) ∷ events) (s ∷ socks) m h =
    collection_ends events (remove from (s ∷ socks)) m
      (still_end from (some []) events (s ∷ socks) h)
collection_ends ((from, some (nack ∷ nacks)) ∷ events) (s ∷ socks) m h =
    collection_ends events (s ∷ socks) (push_all from (nack ∷ nacks) m)
      (λ sock l. later_ends sock from nack nacks events (h sock l))

-- Every receiver's requests reach the sender: when each socket that the sender listens to carries the
-- messages of `SendNackMessages` for some list, interleaved in any way with those of the others, the
-- loop of the sender ends, and it has collected exactly that list for the socket, in order.
pub collected-send_nack_messages :
    (lists : ℕ → List Nack) (events : List Event) (socks : List ℕ)
    → ((sock : ℕ)
        → member sock socks ≡ true
        → messages_of sock events ≡ map some (send_nack_messages (lists sock)))
    → (m : MissingMap) × (receive_retrans_requests_serial events socks [] ≡ some m)
      × ((sock : ℕ) → member sock socks ≡ true → nacks_of sock m ≡ lists sock)
unfolding send_nack_messages lookup
collected-send_nack_messages lists events socks h =
    let on : (sock : ℕ)
        → member sock socks ≡ true
        → messages_of sock events ≡ ended (nack_loop [] (lists sock)) =
      λ sock l. h sock l ∙ map-append some (nack_loop [] (lists sock)) ([] ∷ []) in
    let (m, e) = collection_ends events socks [] (λ sock l.
      subst EndsIn (sym (on sock l))
        (EndsIn-ended (nack_loop [] (lists sock)) (nack_messages (lists sock)).1)) in
    (
      m,
      e,
      λ sock l.
          collected sock events socks (nack_loop [] (lists sock)) [] m l (on sock l)
            (nack_messages (lists sock)).1 e
          ∙ unfold nacks_of in (nack_messages (lists sock)).0,
    )
