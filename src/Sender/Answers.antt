-- ===== src/Sender/Answers.antt =====
-- What the sender answers to a request for data.
use Prim.Native.Nat.{min}
use fmtp_ldm.Prelude.{
  ℕ, zero, suc, ◌+◌, ◌-◌, ◌*◌, ◌/◌, ◌≤◌, ◌<◌, ◌≡◌, refl, sym, subst, ◌∙◌, true, false, some, List,
  [], ◌∷◌, map, take, drop, ltb, ◌==◌, if◌then◌else◌, arith, inl, inr, lt-cases, eq-cases,
}
use fmtp_ldm.Prelude.Word.{to_u16_exact, add32, sub32, to_u16, add32_exact, sub32_exact, u32_mod}
use fmtp_ldm.FmtpBase.{FmtpHeader, fmtp_data_len, fmtp_retx_data}
use fmtp_ldm.SenderMetadata.{RetxMetadata}
use fmtp_ldm.ProdSegMng.Aligned.{block_len, IsBlock}
use fmtp_ldm.Sender.State.{Output, unicast, header}
use fmtp_ldm.Sender.Segments.{starts, rounds}
use fmtp_ldm.Sender.Unicast.{retransmit_loop, retransmit_out, retransmit}

-- The packet that answers for `n` bytes from `k` on.
abbrev pub retx_packet : RetxMetadata → ℕ → ℕ → ℕ → ℕ → Output
retx_packet meta p sock n k =
    unicast sock (header p k n fmtp_retx_data) (take n (drop k meta.dataprod))

-- The payload length of the packet at `k` where the data is sent up to `out`.
abbrev pub upto : ℕ → ℕ → ℕ
upto out k = min fmtp_data_len (out - k)

-- One round with `m` bytes, and the rest.
retransmit_loop-step :
    (fuel : ℕ) (meta : RetxMetadata) (p sock start out r m : ℕ)
    → (r == 0) ≡ false
    → (if ltb r fmtp_data_len then to_u16 r else fmtp_data_len) ≡ m
    → upto out start ≡ m
    → m ≤ r
    → start + m < u32_mod
    → r < u32_mod
    → rounds r ≡ suc (rounds (r - m))
    → starts (rounds (r - m)) (start + m) ≡ starts (rounds (r - m)) (start + fmtp_data_len)
    → retransmit_loop fuel meta p sock (start + m) (r - m) m
      ≡ some
          (map (λ k. retx_packet meta p sock (upto out k) k) (starts (rounds (r - m)) (start + m)))
    → retransmit_loop (suc fuel) meta p sock start r fmtp_data_len
      ≡ some (map (λ k. retx_packet meta p sock (upto out k) k) (starts (rounds r) start))
unfolding retransmit_loop starts
retransmit_loop-step fuel meta p sock start out r m z e b le small small' q st ih =
    rw (z, e, add32_exact start m small, sub32_exact r m le small', ih, q, b, st, e)

starts-zero : (m k l : ℕ) → m ≡ 0 → starts m k ≡ starts m l
unfolding starts
starts-zero m k l e = rw e

-- The loop of `retransmit` ends if the fuel exceeds the bytes to send, and then has sent the blocks
-- from `start` to `out`.
retransmit_loop_lem :
    (fuel : ℕ) (meta : RetxMetadata) (p sock start out r n : ℕ)
    → r < fuel
    → start + r ≡ out
    → out < u32_mod
    → (0 < r → n ≡ fmtp_data_len)
    → retransmit_loop fuel meta p sock start r n
      ≡ some (map (λ k. retx_packet meta p sock (upto out k) k) (starts (rounds r) start))
unfolding retransmit_loop starts
retransmit_loop_lem zero meta p sock start out r n h e small c = elim h [ ]
retransmit_loop_lem (suc fuel) meta p sock start out r n h e small c = elim (eq-cases r 0) [
  | inl (t, z) ↦ let q : rounds r ≡ 0 = omega arith in rw (t, q)
  | inr (t, z) ↦
      let c' : n ≡ fmtp_data_len = c (omega arith) in
      elim (lt-cases r fmtp_data_len) [
        | inl (u, l) ↦
            subst
              (λ x.
                retransmit_loop (suc fuel) meta p sock start r x
                ≡ some
                    (map (λ k. retx_packet meta p sock (upto out k) k) (starts (rounds r) start)))
              (sym c')
              (retransmit_loop-step fuel meta p sock start out r r t
                (rw u (to_u16_exact r (omega arith))) (omega arith) (omega arith) (omega arith)
                (omega arith) (omega arith) (starts-zero _ _ _ (omega arith))
                (retransmit_loop_lem fuel meta p sock (start + r) out (r - r) r (omega arith)
                  (omega arith) small (λ x. absurd (omega arith))))
        | inr (u, l) ↦
            subst
              (λ x.
                retransmit_loop (suc fuel) meta p sock start r x
                ≡ some
                    (map (λ k. retx_packet meta p sock (upto out k) k) (starts (rounds r) start)))
              (sym c')
              (retransmit_loop-step fuel meta p sock start out r fmtp_data_len t (rw u)
                (omega arith) (omega arith) (omega arith) (omega arith) (omega arith) refl
                (retransmit_loop_lem fuel meta p sock (start + fmtp_data_len) out
                  (r - fmtp_data_len) fmtp_data_len (omega arith) (omega arith) small (λ x. refl)))
      ]
]

-- Where the request begins, at a block boundary.
abbrev pub aligned_start : FmtpHeader → ℕ
aligned_start h = h.seqnum / fmtp_data_len * fmtp_data_len

-- A request whose range begins inside the product is answered by the blocks that meet it, from the
-- block of its first byte on; the last one is cut at the end of the range or of the product.
pub retransmit_lem :
    (fuel : ℕ) (meta : RetxMetadata) (h : FmtpHeader) (sock : ℕ)
    → 0 < h.payloadlen
    → h.seqnum ≤ meta.prod_length
    → h.seqnum + h.payloadlen < u32_mod
    → meta.prod_length < u32_mod
    → meta.prod_length < fuel
    → let out = min meta.prod_length (h.seqnum + h.payloadlen) in
      retransmit fuel meta h sock
      ≡ some (
          map
            (λ k. retx_packet meta h.prodindex sock (upto out k) k)
            (starts (rounds (out - aligned_start h)) (aligned_start h)))
unfolding retransmit
retransmit_lem fuel meta h sock z inside small size enough =
    let z' : ltb 0 h.payloadlen ≡ true = ground arith in
    let out = min meta.prod_length (h.seqnum + h.payloadlen) in
    rw
      (
        z',
        add32_exact h.seqnum h.payloadlen small,
        sub32_exact out (aligned_start h) (omega arith) (omega arith),
      )
      (retransmit_loop_lem fuel meta h.prodindex sock (aligned_start h) out (out - aligned_start h)
        fmtp_data_len (omega arith) (omega arith) (omega arith) (λ x. refl))

-- A receiver's request for a block is answered by exactly that block, with the payload length and the
-- bytes of the multicast packet.
pub retransmit-block :
    (fuel : ℕ) (meta : RetxMetadata) (h : FmtpHeader) (sock : ℕ)
    → IsBlock meta.prod_length h.seqnum
    → h.payloadlen ≡ fmtp_data_len
    → h.seqnum + fmtp_data_len < u32_mod
    → meta.prod_length < u32_mod
    → meta.prod_length < fuel
    → retransmit fuel meta h sock
      ≡ some (retx_packet meta h.prodindex sock (block_len meta.prod_length h.seqnum) h.seqnum ∷ [])
retransmit-block fuel meta h sock b e small size enough =
    let out = min meta.prod_length (h.seqnum + h.payloadlen) in
    let a : aligned_start h ≡ h.seqnum = omega arith in
    let r : rounds (out - aligned_start h) ≡ 1 = omega arith in
    let u : upto out h.seqnum ≡ block_len meta.prod_length h.seqnum = omega arith in
    retransmit_lem fuel meta h sock (omega arith) (omega arith) (omega arith) size enough
    ∙ (unfold starts in rw (r, a, u) refl)

-- The loop ends, wherever it starts.
retransmit_loop-some :
    (fuel : ℕ) (meta : RetxMetadata) (p sock start r n : ℕ)
    → r < fuel
    → r < u32_mod
    → (0 < r → n ≡ fmtp_data_len)
    → (packets : List Output) × (retransmit_loop fuel meta p sock start r n ≡ some packets)
unfolding retransmit_loop
retransmit_loop-some zero meta p sock start r n h small c = absurd (omega arith)
retransmit_loop-some (suc fuel) meta p sock start r n h small c = elim (eq-cases r 0) [
  | inl (t, z) ↦ ([], rw t refl)
  | inr (t, z) ↦
      let n₁ = if ltb r n then to_u16 r else fmtp_data_len in
      let c' : n ≡ fmtp_data_len = c (omega arith) in
      let m : (0 < n₁) × (n₁ ≤ r) × (0 < r - n₁ → n₁ ≡ fmtp_data_len) = elim (lt-cases r n) [
        | inl (u, l) ↦
            rw (u, to_u16_exact r (omega arith))
              (omega arith, omega arith, λ x. absurd (omega arith))
        | inr (u, l) ↦ rw u (omega arith, omega arith, λ x. refl)
      ] in
      let (rest, e) =
        retransmit_loop-some fuel meta p sock (add32 start n₁) (r - n₁) n₁ (omega arith)
          (omega arith) m.2 in
      (retx_packet meta p sock n₁ start ∷ rest, rw (t, sub32_exact r n₁ m.1 small, e) refl)
]

-- Every request is answered: the loop of `retransmit` ends, whatever range is asked for.
pub retransmit-some :
    (fuel : ℕ) (meta : RetxMetadata) (h : FmtpHeader) (sock : ℕ)
    → u32_mod ≤ fuel
    → (packets : List Output) × (retransmit fuel meta h sock ≡ some packets)
unfolding retransmit
retransmit-some fuel meta h sock enough = elim (lt-cases 0 h.payloadlen) [
  | inl (t, z) ↦
      let r = sub32 (retransmit_out meta h) (aligned_start h) in
      let l : r < u32_mod = unfold sub32 in omega arith in
      rw t (
        retransmit_loop-some fuel meta h.prodindex sock (aligned_start h) r fmtp_data_len
          (omega arith) l (λ x. refl))
  | inr (t, z) ↦ ([], rw t refl)
]
