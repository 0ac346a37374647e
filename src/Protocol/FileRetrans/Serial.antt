-- ===== src/Protocol/FileRetrans/Serial.antt =====
-- `DoFileRetransmissionSerial` as a whole.
use mathlib.Core.Option.{some-injective}
use mathlib.Core.List.{Perm}
use mathlib.Core.List.Perm
use fmtp_ldm.Prelude.{
  ℕ, suc, ◌≡◌, ◌<◌, refl, sym, ap, subst, ◌∙◌, false, Option, none, some, List, [], ◌∷◌, map, ◌==◌,
  length, All, inl, inr, eq-cases, arith,
}
use fmtp_ldm.Prelude.Dict.{lookup, insert, lookup-insert}
use fmtp_ldm.SenderMetadata.Sets.{remove}
use fmtp_ldm.Protocol.Memory.{
  Nack, int_max, MissingMap, nacks_of, push_all, receive_retrans_requests_serial,
}
use fmtp_ldm.Protocol.Memory.Sorting.{requests_of, Ascending, sort_sockets_lem}
use fmtp_ldm.Protocol.Memory.Shortest.{keys, Distinct}
use fmtp_ldm.Protocol.FileRetrans.{new_cache, do_file_retransmission_serial}
use fmtp_ldm.Protocol.FileRetrans.Cached.{AsksBlock, fresh, retrans_socks_lem, new_cache-IsCache}

insert-Distinct :
    (k : ℕ) (nacks : List Nack) (m : MissingMap) → Distinct m → Distinct (insert k nacks m)
unfolding insert
insert-Distinct k nacks [] w = (unfold lookup in refl, tt)
insert-Distinct k nacks ((j, old) ∷ m) (a, w) = elim (eq-cases j k) [
  | inl (t, e) ↦ rw t (ap (λ x. lookup x m) (sym e) ∙ a, w)
  | inr (t, e) ↦ rw t (ground (arith, lookup-insert k j nacks m, a), insert-Distinct k nacks m w)
]

push_all-Distinct :
    (sock : ℕ) (nacks : List Nack) (m : MissingMap) → Distinct m → Distinct (push_all sock nacks m)
unfolding push_all
push_all-Distinct sock [] m w = w
push_all-Distinct sock (nack ∷ nacks) m w =
    push_all-Distinct sock nacks _ (insert-Distinct sock _ m w)

received-Distinct :
    (events : List (ℕ × Option (List Nack))) (socks : List ℕ) (m m' : MissingMap)
    → Distinct m
    → receive_retrans_requests_serial events socks m ≡ some m'
    → Distinct m'
unfolding receive_retrans_requests_serial
received-Distinct [] [] m m' w e = subst Distinct (some-injective m m' e) w
received-Distinct (event ∷ events) [] m m' w e = subst Distinct (some-injective m m' e) w
received-Distinct [] (sock ∷ socks) m m' w e = absurd cc
received-Distinct ((from, none) ∷ events) (sock ∷ socks) m m' w e =
    received-Distinct events (remove from (sock ∷ socks)) m m' w e
received-Distinct ((from, some []) ∷ events) (sock ∷ socks) m m' w e =
    received-Distinct events (remove from (sock ∷ socks)) m m' w e
received-Distinct ((from, some (nack ∷ nacks)) ∷ events) (sock ∷ socks) m m' w e =
    received-Distinct events (sock ∷ socks) (push_all from (nack ∷ nacks) m) m'
      (push_all-Distinct from (nack ∷ nacks) m w) e

-- The retransmission of a file to all receivers, from the requests that have come. When the requests
-- are for blocks of the file of at most one payload, of one length at each place, and no socket has `INT_MAX` of them, every socket that has requests is
-- served once, those with fewer requests first, and gets the blocks it has asked for, in the order of
-- its requests, as if there were no cache.
pub do_file_retransmission_serial_lem :
    (max_num_retrans_buffs session : ℕ) (file : List ℕ) (stale_flags : ℕ) (stale : List ℕ)
    (block_len : ℕ → ℕ) (events : List (ℕ × Option (List Nack))) (sock_list : List ℕ) (min_sock : ℕ)
    (m : MissingMap)
    → receive_retrans_requests_serial events sock_list [] ≡ some m
    → All (λ (e : ℕ × List Nack). length e.1 < int_max) m
    → ((sock : ℕ)
        → All
            (AsksBlock max_num_retrans_buffs session file stale_flags stale block_len)
            (nacks_of sock m))
    → (socks : List ℕ) × (do_file_retransmission_serial max_num_retrans_buffs session file
          stale_flags stale events sock_list min_sock
        ≡ some (
            map
              (λ sock. (
                sock,
                map
                    (fresh max_num_retrans_buffs session file stale_flags stale block_len)
                    (nacks_of sock m),
              ))
              socks))
      × Perm socks (keys m)
      × Ascending (requests_of m) socks
unfolding do_file_retransmission_serial
do_file_retransmission_serial_lem buffs session file flags stale block_len events sock_list min_sock
      [] e small a =
    ([], rw (do_file_retransmission_serial, e) refl, Perm.refl [], tt)
do_file_retransmission_serial_lem buffs session file flags stale block_len events sock_list min_sock
      (entry ∷ m) e small a =
    let w = received-Distinct events sock_list [] (entry ∷ m) tt e in
    let (socks, f, p, o) = sort_sockets_lem (entry ∷ m) min_sock w small in
    let served =
      retrans_socks_lem buffs session file flags stale block_len (entry ∷ m) socks new_cache
        (new_cache-IsCache buffs session file flags stale block_len) a in
    let t : (suc (length m) == 0) ≡ false = ground arith in
    (socks, rw (do_file_retransmission_serial, e, t, f, served) refl, p, o)
