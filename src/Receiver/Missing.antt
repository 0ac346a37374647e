-- ===== src/Receiver/Missing.antt =====
-- What `requestAnyMissingData` asks for.
use fmtp_ldm.Prelude.{
  ℕ, zero, suc, ◌+◌, ◌-◌, ◌≤◌, ◌<◌, ◌≡◌, ◌⊎◌, refl, sym, ◌∙◌, none, some, [], ◌++◌, map, arith, inl,
  inr, lt-cases, eq-cases, append-nil, subst,
}
use fmtp_ldm.Prelude.Word.{add32_exact, u32_mod}
use fmtp_ldm.Prelude.Dict.{lookup}
use fmtp_ldm.FmtpBase.{fmtp_data_len}
use fmtp_ldm.Sender.Segments.{starts, rounds}
use fmtp_ldm.Receiver.State.{Receiver, ProdTracker, Request, missing_data, returned}
use fmtp_ldm.Receiver.Requests.{missing_loop, next_seqnum, request_any_missing_data}

-- The request for the block at `k`.
abbrev pub block_request : ℕ → ℕ → Request
block_request p k = missing_data p k fmtp_data_len

missing_loop_lem :
    (fuel p k last : ℕ)
    → (last - k) < fuel
    → last + fmtp_data_len ≤ u32_mod
    → missing_loop fuel p k last ≡ some (map (block_request p) (starts (rounds (last - k)) k))
unfolding missing_loop starts
missing_loop_lem zero p k last h small = absurd (omega arith)
missing_loop_lem (suc fuel) p k last h small = elim (lt-cases k last) [
  | inr (t, z) ↦ let q : rounds (last - k) ≡ 0 = omega arith in rw (t, q)
  | inl (t, z) ↦
      let q : rounds (last - k) ≡ suc (rounds (last - (k + fmtp_data_len))) = omega arith in
      elim (lt-cases (k + fmtp_data_len) u32_mod) [
        | inl (u, l) ↦
            rw
              (
                t,
                q,
                add32_exact k fmtp_data_len l,
                missing_loop_lem fuel p (k + fmtp_data_len) last (omega arith) small,
              )
              refl
        | inr (u, l) ↦ absurd (omega arith)
      ]
]

pub request_from_next :
    (r : Receiver) (p last : ℕ)
    → last + fmtp_data_len ≤ u32_mod
    → let k = next_seqnum r p in
      request_any_missing_data r p last ≡ (
        record r { msgqueue = r.msgqueue ++ map (block_request p) (starts (rounds (last - k)) k) },
        [],
        returned,
      )
unfolding request_any_missing_data
request_from_next r p last small =
    let k = next_seqnum r p in
    elim (eq-cases k last) [
      | inl (t, e) ↦
          let q : rounds (last - k) ≡ 0 = omega arith in
          let none_left : r.msgqueue ++ map (block_request p) (starts 0 k) ≡ r.msgqueue =
            unfold starts in append-nil r.msgqueue in
          rw (t, q, none_left)
      | inr (t, e) ↦ rw (t, missing_loop_lem (suc last) p k last (omega arith) small)
    ]

-- The byte at `k` is the first after the last packet of the product that came by multicast; 0 when the
-- product is not tracked.
abbrev pub FollowsLast : Receiver → ℕ → ℕ → Type 0
FollowsLast r p k =
    ((lookup p r.trackermap ≡ none) × (k ≡ 0))
    ⊎ ((t : ProdTracker) × (lookup p r.trackermap ≡ some t)
        × (k ≡ t.seqnum + t.paylen)
        × (k < u32_mod))

next_seqnum-FollowsLast : (r : Receiver) (p k : ℕ) → FollowsLast r p k → next_seqnum r p ≡ k
unfolding next_seqnum
next_seqnum-FollowsLast r p k (inl (u, e)) = rw (next_seqnum, u) (sym e)
next_seqnum-FollowsLast r p k (inr (t, u, e, small)) =
    rw (next_seqnum, u) (add32_exact t.seqnum t.paylen (omega arith) ∙ sym e)

-- The queue gets a request for each block between the end of the last packet of the product that came
-- by multicast and the most recent byte, in order, and nothing else changes; when the product is not
-- tracked, from its first byte on. The loop ends if the last request does not reach the end of the
-- range of `uint32_t`.
pub request_any_missing_data_lem :
    (r : Receiver) (p k last : ℕ)
    → FollowsLast r p k
    → last + fmtp_data_len ≤ u32_mod
    → request_any_missing_data r p last ≡ (
      record r { msgqueue = r.msgqueue ++ map (block_request p) (starts (rounds (last - k)) k) },
      [],
      returned,
    )
request_any_missing_data_lem r p k last follows small =
    subst
      (λ n. request_any_missing_data r p last ≡ (
        record r { msgqueue = r.msgqueue ++ map (block_request p) (starts (rounds (last - n)) n) },
        [],
        returned,
      ))
      (next_seqnum-FollowsLast r p k follows) (request_from_next r p last small)
