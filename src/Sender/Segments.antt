-- ===== src/Sender/Segments.antt =====
-- `sendData` cuts a product into its blocks: every byte once, in order.
use fmtp_ldm.Prelude.{
  ℕ, zero, suc, ◌+◌, ◌-◌, ◌*◌, ◌/◌, ◌%◌, ◌≤◌, ◌<◌, ◌≡◌, ◌≢◌, refl, sym, ap, ◌∙◌, true, some, List,
  [], ◌∷◌, ◌++◌, map, take, drop, drop-drop, take-append-drop, length, ltb, ◌==◌, if◌then◌else◌,
  arith, All, inl, inr, lt-cases, Bool-cases, drop-length,
}
use fmtp_ldm.Prelude.Word.{add32_exact, u32_mod}
use fmtp_ldm.FmtpBase.{fmtp_data_len, fmtp_mem_data}
use fmtp_ldm.ProdSegMng.Aligned.{block_len, IsBlock}
use fmtp_ldm.ProdSegMng.Transfer.{arrived}
use fmtp_ldm.Sender.State.{Output, multicast, unicast, notify_of_eop, notify_waiters, header}
use fmtp_ldm.Sender.Multicast.{send_loop, send_data}

-- The first bytes of `n` blocks from `k` on.
unfoldable pub starts : ℕ → ℕ → List ℕ
starts zero k = []
starts (suc n) k = k ∷ starts n (k + fmtp_data_len)

-- How many blocks `r` bytes take.
abbrev pub rounds : ℕ → ℕ
rounds r = (r + 1447) / 1448

-- The first bytes of the blocks of a product.
unfoldable pub blocks : ℕ → List ℕ
blocks size = starts (rounds size) 0

-- The packet of the block at `k`.
abbrev pub data_packet : ℕ → List ℕ → ℕ → ℕ → Output
data_packet p product size k =
    multicast (header p k (block_len size k) fmtp_mem_data)
      (take (block_len size k) (drop k product))

-- One round with `n` bytes, and the rest.
send_loop-step :
    (fuel p size k r n : ℕ) (product : List ℕ)
    → 0 < r
    → (if ltb r fmtp_data_len then r else fmtp_data_len) ≡ n
    → block_len size k ≡ n
    → k + n < u32_mod
    → rounds r ≡ suc (rounds (r - n))
    → starts (rounds (r - n)) (k + n) ≡ starts (rounds (r - n)) (k + fmtp_data_len)
    → send_loop fuel p (drop (k + n) product) (r - n) (k + n)
      ≡ some (map (data_packet p product size) (starts (rounds (r - n)) (k + n)))
    → send_loop (suc fuel) p (drop k product) r k
      ≡ some (map (data_packet p product size) (starts (rounds r) k))
unfolding send_loop starts
send_loop-step fuel p size k r n product z e b small q st ih =
    let t : ltb 0 r ≡ true = ground arith in
    rw (t, e, drop-drop n k product, add32_exact k n small, ih, q, b, st, e)

starts-zero : (m k l : ℕ) → m ≡ 0 → starts m k ≡ starts m l
unfolding starts
starts-zero m k l e = rw e

send_loop_lem :
    (fuel p size k r : ℕ) (product : List ℕ)
    → r < fuel
    → k + r ≡ size
    → size < u32_mod
    → send_loop fuel p (drop k product) r k
      ≡ some (map (data_packet p product size) (starts (rounds r) k))
unfolding send_loop starts
send_loop_lem zero p size k r product h e small = elim h [ ]
send_loop_lem (suc fuel) p size k r product h e small = elim (lt-cases 0 r) [
  | inr (t, z) ↦ let q : rounds r ≡ 0 = omega arith in rw (t, q)
  | inl (t, z) ↦ elim (lt-cases r fmtp_data_len) [
    | inl (u, l) ↦
        send_loop-step fuel p size k r r product z (rw u) (omega arith) (omega arith) (omega arith)
          (starts-zero _ _ _ (omega arith))
          (send_loop_lem fuel p size (k + r) (r - r) product (omega arith) (omega arith) small)
    | inr (u, l) ↦
        send_loop-step fuel p size k r fmtp_data_len product z (rw u) (omega arith) (omega arith)
          (omega arith) refl
          (send_loop_lem fuel p size (k + fmtp_data_len) (r - fmtp_data_len) product (omega arith)
            (omega arith) small)
  ]
]

-- `sendData` sends the packets of the blocks of the product, in order.
pub send_data_lem :
    (p size : ℕ) (product : List ℕ)
    → size < u32_mod
    → send_data p product size ≡ some (map (data_packet p product size) (blocks size))
unfolding send_data blocks
send_data_lem p size product small =
    send_loop_lem (suc size) p size 0 size product (omega arith) (omega arith) small

starts-IsBlock :
    (n size k : ℕ)
    → k % fmtp_data_len ≡ 0
    → k + fmtp_data_len * n < size + fmtp_data_len
    → All (IsBlock size) (starts n k)
unfolding starts
starts-IsBlock zero size k e h = tt
starts-IsBlock (suc n) size k e h =
    ((omega arith, e), starts-IsBlock n size (k + fmtp_data_len) (omega arith) (omega arith))

arrived-starts :
    (n k j : ℕ)
    → k % fmtp_data_len ≡ 0
    → j % fmtp_data_len ≡ 0
    → k ≤ j
    → j < k + fmtp_data_len * n
    → arrived j (starts n k) ≡ true
unfolding starts arrived
arrived-starts zero k j e f g h = absurd (omega arith)
arrived-starts (suc n) k j e f g h = elim (Bool-cases (k == j)) [
  | inl t ↦ rw t refl
  | inr t ↦
      let ne : k ≢ j = ground arith in
      rw t (arrived-starts n (k + fmtp_data_len) j (omega arith) f (omega arith) (omega arith))
]

-- What `sendData` sends are blocks, and all of them.
pub blocks_lem :
    (size : ℕ)
    → All (IsBlock size) (blocks size) × ((j : ℕ) → IsBlock size j → arrived j (blocks size) ≡ true)
unfolding blocks
blocks_lem size = (
  starts-IsBlock (rounds size) size 0 (omega arith) (omega arith),
  λ j h. arrived-starts (rounds size) 0 j (omega arith) h.1 (omega arith) (omega arith),
)

-- The payloads of the packets, one after the other.
pub payloads : List Output → List ℕ
payloads [] = []
payloads (multicast h payload ∷ os) = payload ++ payloads os
payloads (unicast sock h payload ∷ os) = payload ++ payloads os
payloads (notify_of_eop p ∷ os) = payloads os
payloads (notify_waiters p ∷ os) = payloads os

next_block :
    (size k : ℕ) (product : List ℕ)
    → length product ≡ size
    → drop (k + fmtp_data_len) product ≡ drop (k + block_len size k) product
next_block size k product g = elim (lt-cases (size - k) fmtp_data_len) [
  | inl (t, l) ↦
      drop-length (k + fmtp_data_len) product (omega arith)
      ∙ sym (drop-length (k + block_len size k) product (omega arith))
  | inr (t, l) ↦
      let m : fmtp_data_len ≡ block_len size k = omega arith in ap (λ x. drop (k + x) product) m
]

payloads-starts :
    (n p size k r : ℕ) (product : List ℕ)
    → rounds r ≡ n
    → size - k ≡ r
    → length product ≡ size
    → payloads (map (data_packet p product size) (starts n k)) ≡ drop k product
unfolding starts payloads
payloads-starts zero p size k r product e f g = sym (drop-length k product (omega arith))
payloads-starts (suc n) p size k r product e f g =
    let m = block_len size k in
    rw
      (
        payloads-starts n p size (k + fmtp_data_len) (r - fmtp_data_len) product (omega arith)
            (omega arith) g,
        next_block size k product g,
        ← drop-drop m k product,
      )
      (take-append-drop m (drop k product))

-- The packets of `sendData` carry every byte of the product exactly once, in order.
pub payloads-send_data :
    (p : ℕ) (product : List ℕ)
    → length product < u32_mod
    → (packets : List Output) × (send_data p product (length product) ≡ some packets)
      × (payloads packets ≡ product)
payloads-send_data p product small =
    let size = length product in
    (
      map (data_packet p product size) (blocks size),
      send_data_lem p size product small,
      unfold blocks in payloads-starts (rounds size) p size 0 size product refl (omega arith) refl,
    )
