-- ===== src/Protocol/RoundRobin/Collected.antt =====
-- The map of the round robin scheme has, for each socket, what the serial scheme collects for it.
use mathlib.Core.Option.{some-injective}
use mathlib.Core.List.{Perm, map-append, perm_middle}
use mathlib.Core.List.Perm
use fmtp_ldm.Prelude.{
  ℕ, ◌≡◌, refl, sym, ap, subst, ◌∙◌, false, Option, none, some, List, [], ◌∷◌, ◌++◌, map,
  append_assoc, append-nil, ◌==◌, inl, inr, eq-cases, Bool-cases, arith, if◌then◌else◌,
}
use fmtp_ldm.Prelude.Dict.{lookup, insert}
use fmtp_ldm.SenderMetadata.Sets.{remove}
use fmtp_ldm.Protocol.FmtpReceiver.Repairing.{Packet}
use fmtp_ldm.Protocol.Memory.{Nack, MissingMap, nacks_of, push_all, receive_retrans_requests_serial}
use fmtp_ldm.Protocol.Parallel.Packets.{asked_packet}
use fmtp_ldm.Protocol.RoundRobin.Plain.{plain_to_socks, plain_map}
use fmtp_ldm.Protocol.Parallel.Interleaved.{sent_to, sent_to-append}
use fmtp_ldm.Protocol.Memory.Messages.{nacks_of-insert}
use fmtp_ldm.Protocol.RoundRobin.{
  nack_lt, RrMap, push_sock, push_nacks, receive_retrans_requests_serial_rr,
}

module _ (session : ℕ) (file : List ℕ) (stale_flags : ℕ) where
  abbrev packet : Nack → Packet
  packet = asked_packet session file stale_flags

  -- What is added for one request.
  unfoldable added : ℕ → ℕ → Nack → List Packet
  added sock from nack = if from == sock then packet nack ∷ [] else []

  same_packet : (l r : Nack) → nack_lt l r ≡ false → nack_lt r l ≡ false → packet l ≡ packet r
  unfolding nack_lt
  same_packet l r h k =
      let e : l.seq_num ≡ r.seq_num = ground arith in
      let f : l.data_len ≡ r.data_len = ground arith in rw (e, f) refl

  plain_to_socks-snoc :
      (sock from : ℕ) (nack : Nack) (socks : List ℕ)
      → sent_to sock (plain_to_socks session file stale_flags nack (socks ++ from ∷ []))
        ≡ sent_to sock (plain_to_socks session file stale_flags nack socks) ++ added sock from nack
  unfolding plain_to_socks sent_to added
  plain_to_socks-snoc sock from nack [] = refl
  plain_to_socks-snoc sock from nack (s ∷ socks) = elim (Bool-cases (s == sock)) [
    | inl t ↦ rw (t, plain_to_socks-snoc sock from nack socks) refl
    | inr t ↦ rw (t, plain_to_socks-snoc sock from nack socks) refl
  ]

  added_front :
      (sock from : ℕ) (nack : Nack) (xs ys : List Packet)
      → Perm (xs ++ (added sock from nack ++ ys)) (added sock from nack ++ (xs ++ ys))
  unfolding added
  added_front sock from nack xs ys = elim (Bool-cases (from == sock)) [
    | inl t ↦ rw t (perm_middle xs ys)
    | inr t ↦ rw t (Perm.refl (xs ++ ys))
  ]

  added_same :
      (sock from : ℕ) (l r : Nack) → packet l ≡ packet r → added sock from l ≡ added sock from r
  unfolding added
  added_same sock from l r e = ap (λ (p : Packet). if from == sock then p ∷ [] else []) e

  sent_to_front :
      (sock from : ℕ) (nack : Nack) (rest : List (ℕ × Packet))
      → sent_to sock ((from, packet nack) ∷ rest) ≡ added sock from nack ++ sent_to sock rest
  unfolding sent_to added
  sent_to_front sock from nack rest = elim (Bool-cases (from == sock)) [
    | inl t ↦ rw t refl
    | inr t ↦ rw t refl
  ]

  abbrev out : ℕ → RrMap → List Packet
  out sock m = sent_to sock (plain_map session file stale_flags m)

  out-cons :
      (sock : ℕ) (nack : Nack) (socks : List ℕ) (rest : RrMap)
      → out sock ((nack, socks) ∷ rest)
        ≡ sent_to sock (plain_to_socks session file stale_flags nack socks) ++ out sock rest
  unfolding plain_map
  out-cons sock nack socks rest =
      sent_to-append sock (plain_to_socks session file stale_flags nack socks)
        (plain_map session file stale_flags rest)

  out-single :
      (sock from : ℕ) (nack : Nack) (rest : RrMap)
      → out sock ((nack, from ∷ []) ∷ rest) ≡ added sock from nack ++ out sock rest
  unfolding plain_map plain_to_socks
  out-single sock from nack rest =
      sent_to_front sock from nack (plain_map session file stale_flags rest)

  -- One request more: its socket gets one packet more.
  push_sock-out :
      (sock from : ℕ) (nack : Nack) (m : RrMap)
      → Perm (out sock (push_sock nack from m)) (added sock from nack ++ out sock m)
  unfolding push_sock
  push_sock-out sock from nack [] =
      subst (λ x. Perm x (added sock from nack ++ out sock [])) (sym (out-single sock from nack []))
        (Perm.refl _)
  push_sock-out sock from nack ((key, socks) ∷ rest) = elim (Bool-cases (nack_lt nack key)) [
    | inl t ↦ rw t (
        subst (λ x. Perm x (added sock from nack ++ out sock ((key, socks) ∷ rest)))
          (sym (out-single sock from nack ((key, socks) ∷ rest))) (Perm.refl _))
    | inr t ↦ elim (Bool-cases (nack_lt key nack)) [
      | inl u ↦ rw (t, u) (later sock from nack key socks rest (push_sock-out sock from nack rest))
      | inr u ↦ rw (t, u) (here sock from nack key socks rest (same_packet key nack u t))
    ]
  ]
    where
      later :
          (sock from : ℕ) (nack key : Nack) (socks : List ℕ) (rest : RrMap)
          → Perm (out sock (push_sock nack from rest)) (added sock from nack ++ out sock rest)
          → Perm
              (out sock ((key, socks) ∷ push_sock nack from rest))
              (added sock from nack ++ out sock ((key, socks) ∷ rest))
      later sock from nack key socks rest p =
          rw (out-cons sock key socks (push_sock nack from rest), out-cons sock key socks rest)
            (Perm.trans (Perm.append_left _ p) (added_front sock from nack _ (out sock rest)))

      here :
          (sock from : ℕ) (nack key : Nack) (socks : List ℕ) (rest : RrMap)
          → packet key ≡ packet nack
          → Perm
              (out sock ((key, socks ++ from ∷ []) ∷ rest))
              (added sock from nack ++ out sock ((key, socks) ∷ rest))
      here sock from nack key socks rest e =
          rw
            (
              out-cons sock key (socks ++ from ∷ []) rest,
              out-cons sock key socks rest,
              plain_to_socks-snoc sock from key socks,
              append_assoc,
            )
            (subst
              (λ (x : List Packet).
                Perm
                  (sent_to sock (plain_to_socks session file stale_flags key socks)
                    ++ (x ++ out sock rest))
                  (added sock from nack
                    ++ (sent_to sock (plain_to_socks session file stale_flags key socks)
                        ++ out sock rest)))
              (sym (added_same sock from key nack e))
              (added_front sock from nack _ (out sock rest)))

  -- A map of the round robin scheme gives a socket what one of the serial scheme has for it.
  Matches : ℕ → MissingMap → RrMap → Type 0
  Matches sock m rr = Perm (out sock rr) (map packet (nacks_of sock m))

  added_last :
      (sock from : ℕ) (nack : Nack) (m : MissingMap)
      → Perm
          (added sock from nack ++ map packet (nacks_of sock m))
          (map packet (nacks_of sock (insert from (nacks_of from m ++ nack ∷ []) m)))
  unfolding added
  added_last sock from nack m = elim (eq-cases from sock) [
    | inl (t, e) ↦
        let f : nacks_of sock (insert from (nacks_of from m ++ nack ∷ []) m)
            ≡ nacks_of sock m ++ nack ∷ [] =
          nacks_of-insert sock from (nacks_of from m ++ nack ∷ []) m
          ∙ rw t (ap (λ k. nacks_of k m ++ nack ∷ []) e) in
        rw (t, f, map-append packet (nacks_of sock m) (nack ∷ []))
          (Perm.symm (
            subst (λ x. Perm (map packet (nacks_of sock m) ++ packet nack ∷ []) (packet nack ∷ x))
              (append-nil (map packet (nacks_of sock m)))
              (perm_middle (map packet (nacks_of sock m)) [])))
    | inr (t, e) ↦
        let f : nacks_of sock (insert from (nacks_of from m ++ nack ∷ []) m) ≡ nacks_of sock m =
          nacks_of-insert sock from (nacks_of from m ++ nack ∷ []) m ∙ rw t refl in
        rw (t, f) (Perm.refl (map packet (nacks_of sock m)))
  ]

  push-Matches :
      (sock from : ℕ) (nacks : List Nack) (m : MissingMap) (rr : RrMap)
      → Matches sock m rr
      → Matches sock (push_all from nacks m) (push_nacks from nacks rr)
  unfolding Matches push_all push_nacks
  push-Matches sock from [] m rr p = p
  push-Matches sock from (nack ∷ nacks) m rr p =
      push-Matches sock from nacks _ (push_sock nack from rr) (
        Perm.trans (push_sock-out sock from nack rr)
          (Perm.trans (Perm.append_left (added sock from nack) p) (added_last sock from nack m)))

  received-Matches :
      (events : List (ℕ × Option (List Nack))) (socks : List ℕ) (m m' : MissingMap) (rr : RrMap)
      → receive_retrans_requests_serial events socks m ≡ some m'
      → ((sock : ℕ) → Matches sock m rr)
      → (rr' : RrMap) × (receive_retrans_requests_serial_rr events socks rr ≡ some rr')
        × ((sock : ℕ) → Matches sock m' rr')
  unfolding receive_retrans_requests_serial receive_retrans_requests_serial_rr
  received-Matches [] [] m m' rr e p =
      (rr, refl, subst (λ x. (sock : ℕ) → Matches sock x rr) (some-injective m m' e) p)
  received-Matches (event ∷ events) [] m m' rr e p =
      (rr, refl, subst (λ x. (sock : ℕ) → Matches sock x rr) (some-injective m m' e) p)
  received-Matches [] (s ∷ socks) m m' rr e p = absurd cc
  received-Matches ((from, none) ∷ events) (s ∷ socks) m m' rr e p =
      received-Matches events (remove from (s ∷ socks)) m m' rr e p
  received-Matches ((from, some []) ∷ events) (s ∷ socks) m m' rr e p =
      received-Matches events (remove from (s ∷ socks)) m m' rr e p
  received-Matches ((from, some (nack ∷ nacks)) ∷ events) (s ∷ socks) m m' rr e p =
      received-Matches events (s ∷ socks) (push_all from (nack ∷ nacks) m) m'
        (push_nacks from (nack ∷ nacks) rr) e
        (λ sock. push-Matches sock from (nack ∷ nacks) m rr (p sock))

  -- When the requests that come end for the serial scheme, they end for the round robin scheme, with as
  -- many packets for each socket as it has requests, in another order.
  pub collected_rr :
      (events : List (ℕ × Option (List Nack))) (socks : List ℕ) (m : MissingMap)
      → receive_retrans_requests_serial events socks [] ≡ some m
      → (rr : RrMap) × (receive_retrans_requests_serial_rr events socks [] ≡ some rr)
        × ((sock : ℕ)
            → Perm
                (sent_to sock (plain_map session file stale_flags rr))
                (map (asked_packet session file stale_flags) (nacks_of sock m)))
  unfolding Matches
  collected_rr events socks m e =
      received-Matches events socks [] m [] e
        (λ sock. unfold plain_map sent_to nacks_of lookup in Perm.refl [])
