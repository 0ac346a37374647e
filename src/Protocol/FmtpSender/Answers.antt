-- ===== src/Protocol/FmtpSender/Answers.antt =====
-- A retransmission thread answers a request with exactly the bytes that are asked for.
use fmtp_ldm.Prelude.{
  ℕ, zero, suc, ◌+◌, ◌-◌, ◌%◌, ◌≤◌, ◌<◌, ◌≡◌, refl, ap, inl, inr, true, some, List, [], ◌∷◌, take,
  length, ltb, lt-cases, All, arith, if◌then◌else◌,
}
use fmtp_ldm.Prelude.Word.{u32_mod}
use fmtp_ldm.Prelude.Memory.{write_at, slice}
use fmtp_ldm.Protocol.{fmtp_data_len, fmtp_retrans_data}
use fmtp_ldm.Protocol.Content.{length-slice}
use fmtp_ldm.Protocol.FmtpReceiver.Repairing.{Packet, IsPiece, Carried}
use fmtp_ldm.Protocol.FmtpSender.{retrans_loop}

pub take-write_at : (bs old : List ℕ) (n : ℕ) → length bs ≡ n → take n (write_at 0 bs old) ≡ bs
unfolding write_at
take-write_at [] old zero e = refl
take-write_at [] old (suc n) e = absurd (omega arith)
take-write_at (b ∷ bs) old zero e = absurd (omega arith)
take-write_at (b ∷ bs) [] (suc n) e = ap (◌∷◌ b) (take-write_at bs [] n (omega arith))
take-write_at (b ∷ bs) (x ∷ old) (suc n) e = ap (◌∷◌ b) (take-write_at bs old n (omega arith))

-- Packets that carry the `n` bytes from `pos` on, each a piece of the file of at most one payload.
pub record Answers (id : ℕ) (file : List ℕ) (pos n : ℕ) (packets : List Packet) : Type 0 where
  pub pieces : All (IsPiece id file) packets
  pub short : All (λ (p : Packet). p.0.data_len ≤ fmtp_data_len) packets
  pub complete : (i : ℕ) → pos ≤ i → i < pos + n → Carried packets i
  pub exact : (i : ℕ) → Carried packets i → (pos ≤ i) × (i < pos + n)

module _ (id : ℕ) (file : List ℕ) (small : length file < u32_mod) where
  abbrev piece : ℕ → ℕ → Packet
  piece pos m = (
    record { session_id = id; seq_number = pos; data_len = m; flags = fmtp_retrans_data },
    slice pos m file,
  )

  Answers-cons :
      (pos n m : ℕ) (packets : List Packet)
      → (m ≤ n) × (m ≤ fmtp_data_len)
      → pos + n ≤ length file
      → Answers id file (pos + m) (n - m) packets
      → Answers id file pos n (piece pos m ∷ packets)
  Answers-cons pos n m packets h k a = record {
    pieces = ((refl, refl, omega arith, refl), a.pieces);
    short = (h.1, a.short);
    complete = λ i l u. elim (lt-cases i (pos + m)) [
      | inl (t, here) ↦ inl (l, here)
      | inr (t, later) ↦ inr (a.complete i later (omega arith))
    ];
    exact = λ i c. elim c [
      | inl here ↦ omega arith
      | inr later ↦ let b = a.exact i later in omega (arith, b)
    ];
  }

  -- One packet of `m` bytes, and the rest.
  retrans_loop-step :
      (fuel n pos m : ℕ) (stale : List ℕ) {packets : List Packet}
      → 0 < n
      → (if ltb fmtp_data_len n then fmtp_data_len else n) ≡ m
      → (m ≤ n) × (m ≤ fmtp_data_len)
      → pos + n ≤ length file
      → retrans_loop fuel id file (write_at 0 (slice pos m file) stale) (n - m) (pos + m)
        ≡ some packets
      → retrans_loop (suc fuel) id file stale n pos ≡ some (piece pos m ∷ packets)
  unfolding retrans_loop
  retrans_loop-step fuel n pos m stale pos_n e h k ih =
      let t : ltb 0 n ≡ true = ground arith in
      let p : pos % u32_mod ≡ pos = omega arith in
      let w = take-write_at (slice pos m file) stale m (length-slice pos m file (omega arith)) in
      rw (t, e, ih, e, w, p) refl

  -- For a range that lies in the file the loop ends, and its packets carry the bytes that are asked for
  -- and no others.
  pub retrans_loop_lem :
      (fuel n pos : ℕ) (stale : List ℕ)
      → n < fuel
      → pos + n ≤ length file
      → (packets : List Packet) × (retrans_loop fuel id file stale n pos ≡ some packets)
        × Answers id file pos n packets
  unfolding retrans_loop
  retrans_loop_lem zero n pos stale h k = elim h [ ]
  retrans_loop_lem (suc fuel) n pos stale h k = elim (lt-cases 0 n) [
    | inr (t, z) ↦ (
      [],
      rw t refl,
      record {
        pieces = tt;
        short = tt;
        complete = λ i l u. absurd (omega arith);
        exact = λ i c. absurd c;
      },
    )
    | inl (t, z) ↦ elim (lt-cases fmtp_data_len n) [
      | inl (u, l) ↦
          let m = fmtp_data_len in
          let (packets, e, a) =
            retrans_loop_lem fuel (n - m) (pos + m) (write_at 0 (slice pos m file) stale)
              (omega arith) (omega arith) in
          (
            piece pos m ∷ packets,
            retrans_loop-step fuel n pos m stale z (rw u) (omega arith) k e,
            Answers-cons pos n m packets (omega arith) k a,
          )
      | inr (u, l) ↦
          let (packets, e, a) =
            retrans_loop_lem fuel (n - n) (pos + n) (write_at 0 (slice pos n file) stale)
              (omega arith) (omega arith) in
          (
            piece pos n ∷ packets,
            retrans_loop-step fuel n pos n stale z (rw u) (omega arith) k e,
            Answers-cons pos n n packets (omega arith) k a,
          )
    ]
  ]
