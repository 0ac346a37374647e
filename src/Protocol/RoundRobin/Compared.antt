-- ===== src/Protocol/RoundRobin/Compared.antt =====
-- The round robin scheme sends each socket what the serial scheme sends it.
use mathlib.Core.Bool.{Bool-set}
use mathlib.Core.Logic.Or
use mathlib.Core.List.{Perm, Mem, mem-cons, not-mem-nil, mem-cons_self, mem-cons_of_mem}
use mathlib.Core.List.Perm
use fmtp_ldm.Prelude.{
  ℕ, ◌<◌, ◌≡◌, refl, sym, ap, subst, ◌∙◌, true, false, Option, none, some, List, [], ◌∷◌, map,
  length, All, inl, inr, eq-cases, Bool-cases, arith, if◌then◌else◌,
}
use fmtp_ldm.Prelude.Dict.{lookup}
use fmtp_ldm.SenderMetadata.Sets.{member}
use fmtp_ldm.Protocol.FmtpReceiver.Repairing.{Packet}
use fmtp_ldm.Protocol.Memory.{Nack, int_max, MissingMap, nacks_of, receive_retrans_requests_serial}
use fmtp_ldm.Protocol.Memory.Shortest.{keys}
use fmtp_ldm.Protocol.FileRetrans.{do_file_retransmission_serial}
use fmtp_ldm.Protocol.FileRetrans.Cached.{AsksBlock, fresh}
use fmtp_ldm.Protocol.FileRetrans.Serial.{do_file_retransmission_serial_lem}
use fmtp_ldm.Protocol.Parallel.Interleaved.{sent_to}
use fmtp_ldm.Protocol.Parallel.Packets.{InFile}
use fmtp_ldm.Protocol.RoundRobin.{RrMap, send_map, do_file_retransmission_serial_rr}
use fmtp_ldm.Protocol.RoundRobin.Asked.{AsksAll, rr-AllKeys, serial-AllOf}
use fmtp_ldm.Protocol.RoundRobin.Collected.{collected_rr}
use fmtp_ldm.Protocol.RoundRobin.Plain.{send_map-plain}

member-Mem : (k : ℕ) (xs : List ℕ) → member k xs ≡ true → Mem k xs
unfolding member
member-Mem k [] e = absurd cc
member-Mem k (x ∷ xs) e = elim (eq-cases x k) [
  | inl (t, same) ↦ subst (λ y. Mem k (y ∷ xs)) (sym same) mem-cons_self
  | inr (t, differ) ↦ mem-cons_of_mem x (member-Mem k xs (rw t at e))
]

Mem-member : (k : ℕ) (xs : List ℕ) → Mem k xs → member k xs ≡ true
unfolding member
Mem-member k [] m = absurd (not-mem-nil m)
Mem-member k (x ∷ xs) m =
    Or.elim (Bool-set _ _) (mem-cons.0 m) (λ e. ground arith)
      (λ n. let f = Mem-member k xs n in ground arith)

lookup_absent : (sock : ℕ) (m : MissingMap) → member sock (keys m) ≡ false → lookup sock m ≡ none
unfolding member lookup
lookup_absent sock [] e = refl
lookup_absent sock ((k, nacks) ∷ m) e = elim (eq-cases k sock) [
  | inl (t, same) ↦ absurd (let f = rw t at e in cc)
  | inr (t, differ) ↦ rw t (lookup_absent sock m (rw t at e))
]

keys_absent : (sock : ℕ) (m : MissingMap) → member sock (keys m) ≡ false → nacks_of sock m ≡ []
unfolding nacks_of
keys_absent sock m e = rw (nacks_of, lookup_absent sock m e) refl

abbrev pub found_packets : Option (List Packet) → List Packet
found_packets none = []
found_packets (some packets) = packets

-- What is sent to a socket, of what the serial scheme sends to each.
abbrev pub served_to : ℕ → List (ℕ × List Packet) → List Packet
served_to sock served = found_packets (lookup sock served)

lookup-map :
    (sock : ℕ) (f : ℕ → List Packet) (socks : List ℕ)
    → lookup sock (map (λ s. (s, f s)) socks) ≡ (if member sock socks then some (f sock) else none)
unfolding member lookup
lookup-map sock f [] = refl
lookup-map sock f (s ∷ socks) = elim (eq-cases s sock) [
  | inl (t, same) ↦ rw (lookup, t) (ap (λ k. some (f k)) same)
  | inr (t, differ) ↦ rw (lookup, t) (lookup-map sock f socks)
]

served_to-map :
    (sock : ℕ) (f : ℕ → List Packet) (socks : List ℕ)
    → served_to sock (map (λ s. (s, f s)) socks) ≡ (if member sock socks then f sock else [])
served_to-map sock f socks = elim (Bool-cases (member sock socks)) [
  | inl t ↦ rw (lookup-map sock f socks, t) refl
  | inr t ↦ rw (lookup-map sock f socks, t) refl
]

-- The sockets that are served are those that have requests.
served_to-nacks :
    (sock : ℕ) (f : Nack → Packet) (m : MissingMap) (socks : List ℕ)
    → Perm socks (keys m)
    → served_to sock (map (λ s. (s, map f (nacks_of s m))) socks) ≡ map f (nacks_of sock m)
served_to-nacks sock f m socks p =
    served_to-map sock (λ s. map f (nacks_of s m)) socks ∙ elim (Bool-cases (member sock socks)) [
      | inl t ↦ rw t refl
      | inr t ↦
          let absent : member sock (keys m) ≡ false = elim (Bool-cases (member sock (keys m))) [
            | inl u ↦
                let v = Mem-member sock socks ((Perm.mem_iff p).1 (member-Mem sock (keys m) u)) in
                absurd (ground arith)
            | inr u ↦ u
          ] in
          rw (t, keys_absent sock m absent) refl
    ]

none_asked : (P : Nack → Type 0) (sock : ℕ) → All P (nacks_of sock [])
unfolding nacks_of lookup
none_asked P sock = tt

keys-InFile :
    (file : List ℕ) (P : Nack → Type 0) (rr : RrMap)
    → ((nack : Nack) → P nack → InFile file nack)
    → All (λ (e : Nack × List ℕ). P e.0) rr
    → All (λ (e : Nack × List ℕ). InFile file e.0) rr
keys-InFile file P [] h a = tt
keys-InFile file P (entry ∷ rr) h (b, a) = (h entry.0 b, keys-InFile file P rr h a)

-- The round robin scheme sends each socket the same packets as the serial scheme, in another order: from
-- the same requests, when they end, both end, and what the one sends to a socket is a permutation of
-- what the other sends to it, whatever their buffers hold at first. The requests are for blocks of the
-- file of at most one payload, of one length at each place, no socket has `INT_MAX` of them, and the
-- flags of the headers, which nothing sets, are the same.
pub do_file_retransmission_serial_rr_lem :
    (max_num_retrans_buffs session : ℕ) (file : List ℕ) (stale_flags : ℕ) (stale : List ℕ)
    (block_len : ℕ → ℕ) (events : List (ℕ × Option (List Nack))) (sock_list : List ℕ) (min_sock : ℕ)
    (buffer : List ℕ) (m : MissingMap)
    → receive_retrans_requests_serial events sock_list [] ≡ some m
    → All (λ (e : ℕ × List Nack). length e.1 < int_max) m
    → AsksAll (AsksBlock max_num_retrans_buffs session file stale_flags stale block_len) events
    → (served : List (ℕ × List Packet)) × (outs : List (ℕ × Packet))
      × (do_file_retransmission_serial max_num_retrans_buffs session file stale_flags stale events
            sock_list min_sock
          ≡ some served)
      × (do_file_retransmission_serial_rr session file stale_flags events sock_list buffer
          ≡ some outs)
      × ((sock : ℕ) → Perm (sent_to sock outs) (served_to sock served))
unfolding do_file_retransmission_serial_rr
do_file_retransmission_serial_rr_lem buffs session file flags stale block_len events sock_list
      min_sock buffer m e small asks =
    let Asks = AsksBlock buffs session file flags stale block_len in
    let f = fresh buffs session file flags stale block_len in
    let (rr, c, perms) = collected_rr session file flags events sock_list m e in
    let each = serial-AllOf Asks events sock_list [] m asks (none_asked Asks) e in
    let (socks, serial, p, o) =
      do_file_retransmission_serial_lem buffs session file flags stale block_len events sock_list
        min_sock m e small each in
    let plain = send_map-plain session file flags rr buffer (
      keys-InFile file Asks rr (λ nack b. b.1)
        (rr-AllKeys Asks events sock_list [] rr asks tt c)) in
    (
      map (λ s. (s, map f (nacks_of s m))) socks,
      send_map session file flags rr buffer,
      serial,
      rw (do_file_retransmission_serial_rr, c) refl,
      λ sock. rw (plain, served_to-nacks sock f m socks p) (perms sock),
    )
