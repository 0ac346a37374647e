-- ===== src/Protocol/FileRetrans/Cached.antt =====
-- The cache of the serial retransmission is not seen from outside.
use mathlib.Core.Option.{some-injective}
use fmtp_ldm.Prelude.{
  ℕ, ◌+◌, ◌≡◌, refl, sym, ap, subst, ◌∙◌, Option, none, some, List, [], ◌∷◌, map, ltb, ◌==◌, take,
  All, inl, inr, eq-cases, Bool-cases,
}
use fmtp_ldm.Prelude.Dict.{lookup, insert, lookup-insert}
use fmtp_ldm.Prelude.Memory.{slice}
use fmtp_ldm.Protocol.Content.{length-slice}
use fmtp_ldm.Protocol.FmtpReceiver.Repairing.{Packet}
use fmtp_ldm.Protocol.FmtpSender.Answers.{take-write_at}
use fmtp_ldm.Protocol.Memory.{Nack, MissingMap, nacks_of}
use fmtp_ldm.Protocol.Parallel.Packets.{InFile}
use fmtp_ldm.Protocol.FileRetrans.{
  buffer_packet_size, Cache, new_cache, make_room, place, retrans_packet, retrans_list,
  retrans_socks,
}

module _ (max_num_retrans_buffs session : ℕ) (file : List ℕ) (stale_flags : ℕ) (stale : List ℕ)
    (block_len : ℕ → ℕ) where
  -- A request for a block that lies in the file and fits a place of the cache; the blocks are the same
  -- for all receivers.
  abbrev pub AsksBlock : Nack → Type 0
  AsksBlock nack = (nack.data_len ≡ block_len nack.seq_num) × InFile file nack

  -- The packet without a cache: the header, and the bytes of the file.
  abbrev pub fresh : Nack → Packet
  fresh nack = (
    record {
      session_id = session;
      seq_number = nack.seq_num;
      data_len = nack.data_len;
      flags = stale_flags;
    },
    slice nack.seq_num nack.data_len file,
  )

  abbrev Holds : ℕ → Packet → Type 0
  Holds seq_num p =
      (p.0 ≡ record {
        session_id = session;
        seq_number = seq_num;
        data_len = block_len seq_num;
        flags = stale_flags;
      })
      × (take (block_len seq_num) p.1 ≡ slice seq_num (block_len seq_num) file)

  -- Every place that the map points to holds the block of its sequence number.
  pub IsCache : Cache → Type 0
  IsCache c = (seq_num : ℕ) (p : Packet) → lookup seq_num c.packet_map ≡ some p → Holds seq_num p

  make_room-IsCache : (c : Cache) → IsCache c → IsCache (make_room max_num_retrans_buffs c)
  unfolding IsCache make_room lookup
  make_room-IsCache c w = elim (Bool-cases (c.used == buffer_packet_size)) [
    | inr t ↦ rw t w
    | inl t ↦ elim (Bool-cases (ltb max_num_retrans_buffs c.num_buffs)) [
      | inl u ↦ rw (t, u) (λ seq_num p e. absurd cc)
      | inr u ↦ rw (t, u) w
    ]
  ]

  place-Holds :
      (nack : Nack)
      → AsksBlock nack
      → Holds nack.seq_num
          (place max_num_retrans_buffs session file stale_flags stale nack.seq_num nack.data_len)
  place-Holds nack (e, (inside, short)) = (
    ap
        (λ n. record {
          session_id = session;
          seq_number = nack.seq_num;
          data_len = n;
          flags = stale_flags;
        })
        e,
    rw (← e) (
        take-write_at (slice nack.seq_num nack.data_len file) stale nack.data_len
          (length-slice nack.seq_num nack.data_len file inside)),
  )

  insert-IsCache :
      (c : Cache) (seq_num used : ℕ) (p : Packet)
      → IsCache c
      → Holds seq_num p
      → IsCache (record c { used = used; packet_map = insert seq_num p c.packet_map })
  unfolding IsCache
  insert-IsCache c seq_num used p w h other q e = elim (eq-cases seq_num other) [
    | inl (t, same) ↦
        let f : some p ≡ some q =
          sym (lookup-insert seq_num other p c.packet_map ∙ rw t refl) ∙ e in
        subst (λ x. Holds other x) (some-injective p q f) (subst (λ n. Holds n p) same h)
    | inr (t, differ) ↦ w other q (sym (lookup-insert seq_num other p c.packet_map ∙ rw t refl) ∙ e)
  ]

  Holds-fresh :
      (nack : Nack) (p : Packet)
      → Holds nack.seq_num p
      → nack.data_len ≡ block_len nack.seq_num
      → (p.0, take nack.data_len p.1) ≡ fresh nack
  Holds-fresh nack (header, payload) (e, f) g = rw (g, e, f) refl

  -- One request: the packet is the fresh one, whether it was cached or not.
  AnswersFresh : Nack → Cache × Packet → Type 0
  AnswersFresh nack (c, p) = IsCache c × (p ≡ fresh nack)

  retrans_packet-AnswersFresh :
      (c : Cache) (nack : Nack)
      → IsCache c
      → AsksBlock nack
      → AnswersFresh nack
          (retrans_packet max_num_retrans_buffs session file stale_flags stale c nack)
  unfolding AnswersFresh retrans_packet IsCache
  retrans_packet-AnswersFresh c nack w a = go (lookup nack.seq_num c.packet_map) refl
    where
      go :
          (found : Option Packet)
          → lookup nack.seq_num c.packet_map ≡ found
          → AnswersFresh nack
              (retrans_packet max_num_retrans_buffs session file stale_flags stale c nack)
      go (some (header, payload)) e =
          let h = w nack.seq_num (header, payload) e in
          rw (retrans_packet, e) (w, Holds-fresh nack (header, payload) h a.0)
      go none e =
          let c' = make_room max_num_retrans_buffs c in
          let p =
            place max_num_retrans_buffs session file stale_flags stale nack.seq_num nack.data_len in
          let h = place-Holds nack a in
          rw (retrans_packet, e)
            (
              insert-IsCache c' nack.seq_num (c'.used + 1) p (make_room-IsCache c w) h,
              Holds-fresh nack p h a.0,
            )

  -- The requests of a socket.
  AllFresh : List Nack → Cache × List Packet → Type 0
  AllFresh nacks (c, packets) = IsCache c × (packets ≡ map fresh nacks)

  retrans_list-AllFresh :
      (nacks : List Nack) (c : Cache)
      → IsCache c
      → All AsksBlock nacks
      → AllFresh nacks (retrans_list max_num_retrans_buffs session file stale_flags stale c nacks)
  unfolding AllFresh AnswersFresh retrans_list
  retrans_list-AllFresh [] c w a = (w, refl)
  retrans_list-AllFresh (nack ∷ nacks) c w (b, a) =
      let (w', e) = retrans_packet-AnswersFresh c nack w b in
      let (w'', f) = retrans_list-AllFresh nacks _ w' a in (w'', rw (e, f) refl)

  -- Whatever the number of buffers that are kept, each socket gets, in the order of its requests, the
  -- packets that reading the file anew for each would give.
  pub retrans_socks_lem :
      (m : MissingMap) (socks : List ℕ) (c : Cache)
      → IsCache c
      → ((sock : ℕ) → All AsksBlock (nacks_of sock m))
      → retrans_socks max_num_retrans_buffs session file stale_flags stale c socks m
        ≡ map (λ sock. (sock, map fresh (nacks_of sock m))) socks
  unfolding retrans_socks AllFresh
  retrans_socks_lem m [] c w a = refl
  retrans_socks_lem m (sock ∷ socks) c w a =
      let (w', e) = retrans_list-AllFresh (nacks_of sock m) c w (a sock) in
      rw (e, retrans_socks_lem m socks _ w' a) refl

  pub new_cache-IsCache : IsCache new_cache
  unfolding IsCache lookup
  new_cache-IsCache seq_num p e = absurd cc
