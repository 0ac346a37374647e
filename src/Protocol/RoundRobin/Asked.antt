-- ===== src/Protocol/RoundRobin/Asked.antt =====
-- What holds of every request that comes holds of every request that has been collected.
use mathlib.Core.Option.{some-injective}
use fmtp_ldm.Prelude.{
  ℕ, ◌≡◌, sym, subst, Option, none, some, List, [], ◌∷◌, ◌++◌, All, refl, inl, inr, eq-cases,
  Bool-cases, ◌∙◌,
}
use fmtp_ldm.Prelude.Dict.{insert}
use fmtp_ldm.SenderMetadata.Sets.{remove}
use fmtp_ldm.Protocol.Memory.{Nack, MissingMap, nacks_of, push_all, receive_retrans_requests_serial}
use fmtp_ldm.Protocol.Memory.Messages.{nacks_of-insert}
use fmtp_ldm.Protocol.RoundRobin.{
  nack_lt, RrMap, push_sock, push_nacks, receive_retrans_requests_serial_rr,
}

module _ (P : Nack → Type 0) where
  -- It holds of the requests of every message.
  abbrev pub AsksAll : List (ℕ × Option (List Nack)) → Type 0
  AsksAll [] = Unit
  AsksAll ((from, none) ∷ events) = AsksAll events
  AsksAll ((from, some nacks) ∷ events) = All P nacks × AsksAll events

  AllKeys : RrMap → Type 0
  AllKeys m = All (λ (e : Nack × List ℕ). P e.0) m

  push_sock-AllKeys :
      (nack : Nack) (sock : ℕ) (m : RrMap) → P nack → AllKeys m → AllKeys (push_sock nack sock m)
  unfolding push_sock AllKeys
  push_sock-AllKeys nack sock [] p a = (p, tt)
  push_sock-AllKeys nack sock ((key, socks) ∷ rest) p (k, a) =
      elim (Bool-cases (nack_lt nack key)) [
        | inl t ↦ rw t (p, (k, a))
        | inr t ↦ elim (Bool-cases (nack_lt key nack)) [
          | inl u ↦ rw (t, u) (k, push_sock-AllKeys nack sock rest p a)
          | inr u ↦ rw (t, u) (k, a)
        ]
      ]

  push_nacks-AllKeys :
      (sock : ℕ) (nacks : List Nack) (m : RrMap)
      → All P nacks
      → AllKeys m
      → AllKeys (push_nacks sock nacks m)
  unfolding push_nacks
  push_nacks-AllKeys sock [] m p a = a
  push_nacks-AllKeys sock (nack ∷ nacks) m (p, ps) a =
      push_nacks-AllKeys sock nacks (push_sock nack sock m) ps (push_sock-AllKeys nack sock m p a)

  pub rr-AllKeys :
      (events : List (ℕ × Option (List Nack))) (socks : List ℕ) (m m' : RrMap)
      → AsksAll events
      → All (λ (e : Nack × List ℕ). P e.0) m
      → receive_retrans_requests_serial_rr events socks m ≡ some m'
      → All (λ (e : Nack × List ℕ). P e.0) m'
  unfolding receive_retrans_requests_serial_rr AllKeys
  rr-AllKeys [] [] m m' q a e = subst AllKeys (some-injective m m' e) a
  rr-AllKeys (event ∷ events) [] m m' q a e = subst AllKeys (some-injective m m' e) a
  rr-AllKeys [] (sock ∷ socks) m m' q a e = absurd cc
  rr-AllKeys ((from, none) ∷ events) (sock ∷ socks) m m' q a e =
      rr-AllKeys events (remove from (sock ∷ socks)) m m' q a e
  rr-AllKeys ((from, some []) ∷ events) (sock ∷ socks) m m' (u, q) a e =
      rr-AllKeys events (remove from (sock ∷ socks)) m m' q a e
  rr-AllKeys ((from, some (nack ∷ nacks)) ∷ events) (sock ∷ socks) m m' (u, q) a e =
      rr-AllKeys events (sock ∷ socks) (push_nacks from (nack ∷ nacks) m) m' q
        (push_nacks-AllKeys from (nack ∷ nacks) m u a) e

  AllOf : MissingMap → Type 0
  AllOf m = (sock : ℕ) → All P (nacks_of sock m)

  All-snoc : (xs : List Nack) (x : Nack) → All P xs → P x → All P (xs ++ x ∷ [])
  All-snoc [] x a p = (p, tt)
  All-snoc (y ∷ ys) x (b, a) p = (b, All-snoc ys x a p)

  push_all-AllOf :
      (from : ℕ) (nacks : List Nack) (m : MissingMap)
      → All P nacks
      → AllOf m
      → AllOf (push_all from nacks m)
  unfolding push_all AllOf
  push_all-AllOf from [] m p a = a
  push_all-AllOf from (nack ∷ nacks) m (p, ps) a =
      let here = nacks_of from m ++ nack ∷ [] in
      push_all-AllOf from nacks (insert from here m) ps (λ sock. elim (eq-cases from sock) [
        | inl (t, e) ↦
            subst (All P) (sym (nacks_of-insert sock from here m ∙ rw t refl))
              (All-snoc (nacks_of from m) nack (a from) p)
        | inr (t, e) ↦ subst (All P) (sym (nacks_of-insert sock from here m ∙ rw t refl)) (a sock)
      ])

  pub serial-AllOf :
      (events : List (ℕ × Option (List Nack))) (socks : List ℕ) (m m' : MissingMap)
      → AsksAll events
      → ((sock : ℕ) → All P (nacks_of sock m))
      → receive_retrans_requests_serial events socks m ≡ some m'
      → ((sock : ℕ) → All P (nacks_of sock m'))
  unfolding receive_retrans_requests_serial AllOf
  serial-AllOf [] [] m m' q a e = subst AllOf (some-injective m m' e) a
  serial-AllOf (event ∷ events) [] m m' q a e = subst AllOf (some-injective m m' e) a
  serial-AllOf [] (sock ∷ socks) m m' q a e = absurd cc
  serial-AllOf ((from, none) ∷ events) (sock ∷ socks) m m' q a e =
      serial-AllOf events (remove from (sock ∷ socks)) m m' q a e
  serial-AllOf ((from, some []) ∷ events) (sock ∷ socks) m m' (u, q) a e =
      serial-AllOf events (remove from (sock ∷ socks)) m m' q a e
  serial-AllOf ((from, some (nack ∷ nacks)) ∷ events) (sock ∷ socks) m m' (u, q) a e =
      serial-AllOf events (sock ∷ socks) (push_all from (nack ∷ nacks) m) m' q
        (push_all-AllOf from (nack ∷ nacks) m u a) e
