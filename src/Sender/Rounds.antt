-- ===== src/Sender/Rounds.antt =====
-- Rounds of the sender's retransmission threads and of its timer thread.
use Prim.Native.Nat.{min}
use fmtp_ldm.Prelude.{
  ℕ, ◌+◌, ◌-◌, ◌<◌, map, ◌≤◌, ◌≡◌, refl, ◌∙◌, Bool, true, false, Option, none, some, List, [], ◌∷◌,
  arith, ◌⊎◌, inl, inr, Bool-cases, ◌==◌, if◌then◌else◌,
}
use fmtp_ldm.Prelude.Word.{u32_mod, to_u16}
use fmtp_ldm.Prelude.Dict.{lookup}
use fmtp_ldm.FmtpBase.{
  FmtpHeader, fmtp_retx_req, fmtp_retx_end, fmtp_bop_req, fmtp_eop_req, fmtp_data_len,
  avail_bop_len, fmtp_retx_bop, fmtp_retx_eop, encode_bop,
}
use fmtp_ldm.SenderMetadata.Sets.{remove}
use fmtp_ldm.SenderMetadata.{RetxMetadata, MetaMap, get_metadata, release_metadata}
use fmtp_ldm.SenderMetadata.Use.{get_metadata-unknown}
use fmtp_ldm.Sender.State.{Sender, Output, unicast, header, transmit}
use fmtp_ldm.Sender.Segments.{starts, rounds}
use fmtp_ldm.Sender.Product.{IsPrefix}
use fmtp_ldm.Sender.Unicast.{
  rej_retx_req, handle_retx_req, handle_bop_req, handle_eop_req, handle, retx_round, thread_ends,
}
use fmtp_ldm.Sender.Answers.{aligned_start, upto, retx_packet, retransmit-some}

-- A request that asks for data, a BOP or an EOP.
abbrev pub IsRequest : FmtpHeader → Type 0
IsRequest h = (h.flags ≡ fmtp_retx_req) ⊎ (h.flags ≡ fmtp_bop_req) ⊎ (h.flags ≡ fmtp_eop_req)

bop_tests :
    (f : ℕ)
    → f ≡ fmtp_bop_req
    → ((f == fmtp_retx_req) ≡ false) × ((f == fmtp_retx_end) ≡ false) × ((f == fmtp_bop_req) ≡ true)
bop_tests f e = rw e (refl, refl, refl)

eop_tests :
    (f : ℕ)
    → f ≡ fmtp_eop_req
    → ((f == fmtp_retx_req) ≡ false)
      × ((f == fmtp_retx_end) ≡ false)
      × ((f == fmtp_bop_req) ≡ false)
      × ((f == fmtp_eop_req) ≡ true)
eop_tests f e = rw e (refl, refl, refl, refl)

-- A request does not change the sender.
handle-request :
    (fuel : ℕ) (s : Sender) (h : FmtpHeader) (meta : Option RetxMetadata) (sock : ℕ)
    → u32_mod ≤ fuel
    → IsRequest h
    → (out : List Output) × (handle fuel s h meta sock ≡ some (s, out))
      × (meta ≡ none → out ≡ rej_retx_req h.prodindex sock ∷ [])
unfolding handle handle_retx_req handle_bop_req handle_eop_req
handle-request fuel s h none sock enough (inl e) =
    let t : (h.flags == fmtp_retx_req) ≡ true = ground arith in (_, rw t refl, λ _. refl)
handle-request fuel s h none sock enough (inr (inl e)) =
    let (t, u, v) = bop_tests h.flags e in (_, rw (t, u, v) refl, λ _. refl)
handle-request fuel s h none sock enough (inr (inr e)) =
    let (t, u, v, w) = eop_tests h.flags e in (_, rw (t, u, v, w) refl, λ _. refl)
handle-request fuel s h (some meta) sock enough (inl e) =
    let t : (h.flags == fmtp_retx_req) ≡ true = ground arith in
    let (out, f) = retransmit-some fuel meta h sock enough in
    (out, rw (t, f) refl, λ x. absurd (cc))
handle-request fuel s h (some meta) sock enough (inr (inl e)) =
    let (t, u, v) = bop_tests h.flags e in
    (handle_bop_req h (some meta) sock, rw (t, u, v) refl, λ x. absurd (cc))
handle-request fuel s h (some meta) sock enough (inr (inr e)) =
    let (t, u, v, w) = eop_tests h.flags e in
    (handle_eop_req h (some meta) sock, rw (t, u, v, w) refl, λ x. absurd (cc))

-- The steps of a round, from those of its parts.
retx_round-steps :
    (fuel : ℕ) (s : Sender) (sock : ℕ) (h : FmtpHeader) (ok : ℕ → Bool) {m : MetaMap}
    {meta : Option RetxMetadata} {s₁ : Sender} {packets : List Output}
    → get_metadata s.send_meta h.prodindex ≡ (m, meta)
    → handle fuel (record s { send_meta = m }) h meta sock ≡ some (s₁, packets)
    → let (out, all) = transmit ok 0 packets in
      retx_round fuel s sock h ok
      ≡ some (
          if all
          then (record s₁ { send_meta = (release_metadata s₁.send_meta h.prodindex).0 }, out, true)
          else (thread_ends s₁ sock, out, false))
unfolding retx_round
retx_round-steps fuel s sock h ok {packets = packets} e f =
    elim (Bool-cases (transmit ok 0 packets).1) [
      | inl t ↦ rw (e, retx_round, f, t) refl
      | inr t ↦ rw (e, retx_round, f, t) refl
    ]

release_metadata-unknown :
    (m : MetaMap) (p : ℕ) → lookup p m ≡ none → release_metadata m p ≡ (m, false)
unfolding release_metadata
release_metadata-unknown m p u = rw (u, release_metadata)

-- A request for a product that the sender does not have any more is answered by a rejection, and the
-- sender does not change.
pub unknown_product_rejected :
    (fuel : ℕ) (s : Sender) (sock : ℕ) (h : FmtpHeader) (ok : ℕ → Bool)
    → u32_mod ≤ fuel
    → IsRequest h
    → lookup h.prodindex s.send_meta ≡ none
    → ok 0 ≡ true
    → retx_round fuel s sock h ok ≡ some (s, rej_retx_req h.prodindex sock ∷ [], true)
unknown_product_rejected fuel s sock h ok enough r u t =
    let (out, e, f) = handle-request fuel s h none sock enough r in
    let sent : transmit ok 0 out ≡ (rej_retx_req h.prodindex sock ∷ [], true) =
      rw (f refl) (unfold transmit in rw t refl) in
    retx_round-steps fuel s sock h ok (get_metadata-unknown s.send_meta h.prodindex u) e
    ∙ rw (sent, release_metadata-unknown s.send_meta h.prodindex u) refl

-- `packets` is the answer to a request: for data, whose range begins inside the product, the blocks
-- that meet it, cut at the end of the range or of the product; for a BOP or an EOP, that packet.
abbrev pub IsAnswer : RetxMetadata → FmtpHeader → ℕ → List Output → Type 0
IsAnswer meta h sock packets =
    let out = min meta.prod_length (h.seqnum + h.payloadlen) in
    let start = aligned_start h in
    ((h.flags ≡ fmtp_retx_req)
      × (0 < h.payloadlen)
      × (h.seqnum ≤ meta.prod_length)
      × (h.seqnum + h.payloadlen < u32_mod)
      × (packets
          ≡ map (λ k. retx_packet meta h.prodindex sock (upto out k) k)
              (starts (rounds (out - start)) start)))
    ⊎ ((h.flags ≡ fmtp_bop_req)
        × (packets
            ≡ unicast sock
                (header h.prodindex 0 (to_u16 (meta.meta_size + (fmtp_data_len - avail_bop_len)))
                  fmtp_retx_bop)
                (encode_bop meta.start_sec meta.start_nsec meta.prod_length meta.metadata
                  meta.meta_size)
              ∷ []))
    ⊎ ((h.flags ≡ fmtp_eop_req)
        × (packets ≡ unicast sock (header h.prodindex 0 0 fmtp_retx_eop) [] ∷ []))

-- A round that answers: everything is sent and the entry is released, or a packet fails and the entry
-- stays in use.
abbrev pub AnswersRound :
    Sender
    → ℕ
    → ℕ
    → RetxMetadata
    → (ℕ → Bool)
    → List Output
    → Option (Sender × List Output × Bool)
    → Type 0
AnswersRound s sock p meta ok packets round =
    (s' : Sender) × (out : List Output) × (((round ≡ some (s', out, true))
        × (out ≡ packets)
        × (lookup p s'.send_meta ≡ some (record meta { inuse = false })))
      ⊎ ((round ≡ some (s', out, false))
          × ((j : ℕ) × (ok j ≡ false))
          × IsPrefix out packets
          × (lookup p s'.send_meta ≡ some (record meta { inuse = true }))
          × (s'.conn_sock_list ≡ remove sock s.conn_sock_list)))
