-- ===== src/Protocol/Memory/Answered.antt =====
-- The answers to a receiver's list repair its memory.
use fmtp_ldm.Prelude.{ℕ, ◌+◌, ◌≤◌, ◌<◌, ◌≡◌, ◌⊎◌, refl, inl, inr, some, List, [], ◌∷◌, length, All}
use fmtp_ldm.Prelude.Memory.{write_at, slice}
use fmtp_ldm.Protocol.Content.{Has, write_at-Has, write_at-Has_piece, length-write_at_piece}
use fmtp_ldm.Protocol.Memory.{Nack, receive_retransmission, answer_nacks}

-- A request of the list asks for byte `i`.
abbrev pub Asks : List Nack → ℕ → Type 0
Asks [] i = ⊥
Asks (nack ∷ nacks) i = ((nack.seq_num ≤ i) × (i < nack.seq_num + nack.data_len)) ⊎ Asks nacks i

-- When the sender answers a receiver's requests, all of which lie inside the content, the receiver gets
-- one packet for each and ends: it then has every byte that it had or asked for, and its memory is no
-- longer than the content.
pub answer_nacks-repair :
    (session_id : ℕ) (content : List ℕ) (nacks : List Nack) (mem : List ℕ)
    → All (λ (n : Nack). n.seq_num + n.data_len ≤ length content) nacks
    → length mem ≤ length content
    → (mem' : List ℕ) × (receive_retransmission mem nacks (answer_nacks session_id content nacks)
        ≡ some mem')
      × (length mem' ≤ length content)
      × ((i : ℕ) → Has mem content i ⊎ Asks nacks i → Has mem' content i)
unfolding receive_retransmission answer_nacks
answer_nacks-repair session_id content [] mem a h =
    (mem, refl, h, λ i k. elim k [ inl has ↦ has | inr none_asked ↦ absurd none_asked ])
answer_nacks-repair session_id content (nack ∷ nacks) mem (inside, a) h =
    let p = nack.seq_num in
    let n = nack.data_len in
    let (mem', e, l, has) =
      answer_nacks-repair session_id content nacks (write_at p (slice p n content) mem) a
        (length-write_at_piece mem content p n inside h) in
    (
      mem',
      e,
      l,
      λ i k. has i (elim k [
        | inl there ↦ inl (write_at-Has mem content p n inside i there)
        | inr asks ↦ elim asks [
          | inl here ↦ inl (write_at-Has_piece mem content p n inside i here.0 here.1)
          | inr later ↦ inr later
        ]
      ]),
    )
