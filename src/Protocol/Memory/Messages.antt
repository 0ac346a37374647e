-- ===== src/Protocol/Memory/Messages.antt =====
-- The messages that carry requests, and the map that they are collected in.
use fmtp_ldm.Prelude.{
  ℕ, ◌≤◌, ◌<◌, ◌≡◌, ◌≢◌, refl, ap, ◌∙◌, inl, inr, true, Option, none, some, List, [], ◌∷◌, ◌++◌,
  map, append_assoc, append-nil, length, length-append, ltb, ◌==◌, All, eq-cases, arith,
  if◌then◌else◌,
}
use fmtp_ldm.Prelude.Dict.{insert, lookup-insert}
use fmtp_ldm.SenderMetadata.Sets.{remove}
use fmtp_ldm.Protocol.Memory.{
  Nack, max_num_nack_req, nack_loop, MissingMap, nacks_of, push_all,
  receive_retrans_requests_serial,
}

-- What `SelectReceive` returns: a socket, and the requests of a message.
abbrev pub Event : Type 0
Event = ℕ × Option (List Nack)

-- The messages on one socket.
unfoldable pub messages_of : ℕ → List Event → List (Option (List Nack))
messages_of sock [] = []
messages_of sock ((from, message) ∷ events) =
    if from == sock then message ∷ messages_of sock events else messages_of sock events

abbrev pub joined : List (List Nack) → List Nack
joined [] = []
joined (message ∷ messages) = message ++ joined messages

-- A message with requests in it, no more than the array holds.
abbrev pub IsMessage : List Nack → Type 0
IsMessage message = (0 < length message) × (length message ≤ max_num_nack_req)

nack_loop_lem :
    (nacks msg : List Nack)
    → length msg < max_num_nack_req
    → (joined (nack_loop msg nacks) ≡ msg ++ nacks) × All IsMessage (nack_loop msg nacks)
unfolding nack_loop
nack_loop_lem [] [] h = (refl, tt)
nack_loop_lem [] (nack ∷ msg) h =
    let t : ltb 0 (length (nack ∷ msg)) ≡ true = ground arith in
    rw (nack_loop, t) (refl, ((omega arith, omega arith), tt))
nack_loop_lem (nack ∷ nacks) msg h =
    let msg' : List Nack = msg ++ nack ∷ [] in
    let n = length-append msg (nack ∷ []) in
    elim (eq-cases (length msg') max_num_nack_req) [
      | inl (t, e) ↦
          let (same, all) = nack_loop_lem nacks [] (omega arith) in
          rw t (
            ap (λ x. msg' ++ x) same ∙ append_assoc msg (nack ∷ []) nacks,
            ((omega (arith, n), omega (arith, e)), all),
          )
      | inr (t, e) ↦
          let (same, all) = nack_loop_lem nacks msg' (omega (arith, n, e)) in
          rw t (same ∙ append_assoc msg (nack ∷ []) nacks, all)
    ]

-- The messages of `SendNackMessages` carry the requests in order.
pub nack_messages :
    (nacks : List Nack) → (joined (nack_loop [] nacks) ≡ nacks) × All IsMessage (nack_loop [] nacks)
nack_messages nacks = nack_loop_lem nacks [] (omega arith)

pub nacks_of-insert :
    (sock from : ℕ) (nacks : List Nack) (m : MissingMap)
    → nacks_of sock (insert from nacks m) ≡ (if from == sock then nacks else nacks_of sock m)
unfolding nacks_of
nacks_of-insert sock from nacks m = elim (eq-cases from sock) [
  | inl (t, e) ↦ rw (nacks_of, lookup-insert from sock nacks m, t) refl
  | inr (t, e) ↦ rw (nacks_of, lookup-insert from sock nacks m, t) refl
]

pub nacks_of-push_all :
    (sock from : ℕ) (nacks : List Nack) (m : MissingMap)
    → nacks_of sock (push_all from nacks m)
      ≡ (if from == sock then nacks_of sock m ++ nacks else nacks_of sock m)
unfolding push_all
nacks_of-push_all sock from [] m = elim (eq-cases from sock) [
  | inl (t, e) ↦ rw (t, append-nil) refl
  | inr (t, e) ↦ rw t refl
]
nacks_of-push_all sock from (nack ∷ nacks) m =
    let v = nacks_of from m ++ nack ∷ [] in
    let ih = nacks_of-push_all sock from nacks (insert from v m) in
    let here = nacks_of-insert sock from v m in
    elim (eq-cases from sock) [
      | inl (t, e) ↦
          ih
          ∙ rw (t, here, t)
              (append_assoc (nacks_of from m) (nack ∷ []) nacks
                ∙ ap (λ k. nacks_of k m ++ nack ∷ nacks) e)
      | inr (t, e) ↦ ih ∙ rw (t, here, t) refl
    ]

-- A socket on which nothing comes gets no more requests.
pub silent :
    (sock : ℕ) (events : List Event) (socks : List ℕ) (m m' : MissingMap)
    → messages_of sock events ≡ []
    → receive_retrans_requests_serial events socks m ≡ some m'
    → nacks_of sock m' ≡ nacks_of sock m
unfolding messages_of receive_retrans_requests_serial
silent sock [] [] m m' quiet e = cc
silent sock (event ∷ events) [] m m' quiet e = cc
silent sock [] (s ∷ socks) m m' quiet e = cc
silent sock ((from, none) ∷ events) (s ∷ socks) m m' quiet e = elim (eq-cases from sock) [
  | inl (t, f) ↦ let h = rw t at quiet in cc
  | inr (t, f) ↦ silent sock events (remove from (s ∷ socks)) m m' (rw t at quiet) e
]
silent sock ((from, some []) ∷ events) (s ∷ socks) m m' quiet e = elim (eq-cases from sock) [
  | inl (t, f) ↦ let h = rw t at quiet in cc
  | inr (t, f) ↦ silent sock events (remove from (s ∷ socks)) m m' (rw t at quiet) e
]
silent sock ((from, some (nack ∷ nacks)) ∷ events) (s ∷ socks) m m' quiet e =
    elim (eq-cases from sock) [
      | inl (t, f) ↦ let h = rw t at quiet in cc
      | inr (t, f) ↦
          silent sock events (s ∷ socks) (push_all from (nack ∷ nacks) m) m' (rw t at quiet) e
          ∙ nacks_of-push_all sock from (nack ∷ nacks) m
          ∙ rw t refl
    ]

-- The messages on a socket that is listened to: those with requests, and then the one that ends them.
abbrev pub ended : List (List Nack) → List (Option (List Nack))
ended msgs = map some msgs ++ some [] ∷ []

pub ended-ne-nil : (msgs : List (List Nack)) → ended msgs ≢ []
ended-ne-nil [] e = cc
ended-ne-nil (msg ∷ msgs) e = cc
