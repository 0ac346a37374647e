-- ===== src/Receiver/Repair.antt =====
-- A block that was lost: the receiver's request, the sender's answer, and what the receiver does with
-- it.
use mathlib.Core.Option.{some-injective}
use fmtp_ldm.Prelude.{
  ℕ, ◌+◌, ◌≤◌, ◌≡◌, refl, subst, true, false, none, some, List, [], ◌∷◌, arith, inl, inr,
  Option-cases, ◌==◌, ltb, ◌⊎◌, ◌++◌, sym, append-nil, take, drop, length,
}
use fmtp_ldm.Prelude.Word.{add32, add32_exact, u32_mod}
use fmtp_ldm.Prelude.Dict.{lookup, insert, erase, lookup-insert_self}
use fmtp_ldm.FmtpBase.{FmtpHeader, fmtp_data_len, fmtp_retx_data, fmtp_retx_req, fmtp_retx_end}
use fmtp_ldm.ProdSegMng
use fmtp_ldm.ProdSegMng.{SegMap, SegMapSet}
use fmtp_ldm.ProdSegMng.Table.{missing}
use fmtp_ldm.ProdSegMng.Blocks.{IsTracked}
use fmtp_ldm.ProdSegMng.Filled.{Filled, set-Filled, set-Deleted}
use fmtp_ldm.ProdSegMng.Aligned.{block_len, IsBlock}
use fmtp_ldm.SenderMetadata.{RetxMetadata}
use fmtp_ldm.Sender.State.{unicast, header}
use fmtp_ldm.Sender.Unicast.{retransmit}
use fmtp_ldm.Sender.Answers.{retransmit-block}
use fmtp_ldm.Receiver.State.{
  Receiver, ProdTracker, Action, sends, end_prod, Handled, returned, then_do, request_header,
  send_retx_end,
}
use fmtp_ldm.Receiver.Product.{finish_product}
use fmtp_ldm.Receiver.Multicast.{store_payload}
use fmtp_ldm.Receiver.Unicast.{count_retrans, take_block, retx_data, retx_round}
use fmtp_ldm.Receiver.Missing.{block_request}
use fmtp_ldm.Receiver.Delivery.{block_store, payload_len, retake, tracked_size-known}

-- The header of the answer for the block at `k`.
abbrev pub answer_header : ℕ → ℕ → ℕ → FmtpHeader
answer_header p size k = header p k (block_len size k) fmtp_retx_data

abbrev pub answer_bytes : List ℕ → ℕ → ℕ → List ℕ
answer_bytes product size k = take (block_len size k) (drop k product)

stored-answer :
    (r : Receiver) (p : ℕ) (product : List ℕ) (size k : ℕ) (t : ProdTracker)
    → lookup p r.trackermap ≡ some t
    → length product ≡ size
    → IsBlock size k
    → store_payload (count_retrans r p) (answer_header p size k) (answer_bytes product size k)
      ≡ block_store t.prodptr product size k
unfolding store_payload count_retrans
stored-answer r p product size k t u l b =
    let whole =
      retake (block_len size k) (answer_bytes product size k) (payload_len product size k l b) in
    let t' : ProdTracker = record t { num_retrans = add32 t.num_retrans 1 } in
    elim (Option-cases t.prodptr) [
      | inl e ↦ rw (u, count_retrans, lookup-insert_self p t' r.trackermap, store_payload, e) refl
      | inr (address, e) ↦
          rw (u, count_retrans, lookup-insert_self p t' r.trackermap, store_payload, e, whole) refl
    ]

-- The answer is taken: the block goes to its place, and the segment map is told.
retx_round-block :
    (r : Receiver) (p : ℕ) (product : List ℕ) (size k : ℕ) (t : ProdTracker)
    → lookup p r.trackermap ≡ some t
    → t.prodsize ≡ size
    → length product ≡ size
    → size + fmtp_data_len ≤ u32_mod
    → IsBlock size k
    → retx_round r (some (answer_header p size k)) (some (answer_bytes product size k)) none
      ≡ then_do
          (count_retrans r p, block_store t.prodptr product size k, returned)
          (λ r₁. take_block r₁ (answer_header p size k))
unfolding retx_round retx_data
retx_round-block r p product size k t u e l small b =
    let not_empty : (block_len size k == 0) ≡ false = ground arith in
    let positive : ltb 0 size ≡ true = ground arith in
    let inside : ltb size (add32 k (block_len size k)) ≡ false =
      ground (arith, add32_exact k (block_len size k) (omega arith)) in
    rw
      (
        not_empty,
        tracked_size-known r p t u,
        e,
        positive,
        inside,
        stored-answer r p product size k t u l b,
      )
      refl

-- What the receiver does with the block at `k`, `stored` being its store: the block is filled in the
-- segment map and the repair is counted. If no byte of the product is missing then, the product is
-- no longer tracked, and the sender and the application are told its end; if a block is, nothing else
-- happens.
abbrev pub TakesBlock : Receiver → ℕ → ℕ → ℕ → ProdTracker → List Action → Handled → Type 0
TakesBlock r p size k t stored result =
    let repairs = add32 t.num_retrans 1 in
    let counted = insert p (record t { num_retrans = repairs }) r.trackermap in
    (segs : SegMapSet) × Filled r.seg_mng segs p size k
    × ((((b : ℕ) → missing segs p b ≡ false)
          × (result ≡ (
            record r { seg_mng = erase p segs; trackermap = erase p counted },
            stored ++ sends (header p 0 0 fmtp_retx_end) ∷ end_prod p repairs ∷ [],
            returned,
          )))
        ⊎ (((j : ℕ) × IsBlock size j × (missing segs p j ≡ true))
            × (result ≡ (record r { seg_mng = segs; trackermap = counted }, stored, returned))))

count_retrans-known :
    (r : Receiver) (p : ℕ) (t : ProdTracker)
    → lookup p r.trackermap ≡ some t
    → count_retrans r p ≡ record r {
      trackermap = insert p (record t { num_retrans = add32 t.num_retrans 1 }) r.trackermap;
    }
unfolding count_retrans
count_retrans-known r p t u = rw (count_retrans, u) refl

finish_product-known :
    (r : Receiver) (p : ℕ) (t : ProdTracker)
    → lookup p r.trackermap ≡ some t
    → r.tcp_up ≡ true
    → r.has_notifier ≡ true
    → finish_product r p ≡ (
      record r { trackermap = erase p r.trackermap },
      sends (header p 0 0 fmtp_retx_end) ∷ end_prod p t.num_retrans ∷ [],
      returned,
    )
unfolding finish_product send_retx_end
finish_product-known r p t u up n = rw (finish_product, u, up) (rw n refl)

take_block-TakesBlock :
    (r : Receiver) (p size k : ℕ) (t : ProdTracker) (s : SegMap) (stored : List Action)
    → lookup p r.trackermap ≡ some t
    → lookup p r.seg_mng ≡ some s
    → IsTracked size s
    → IsBlock size k
    → r.tcp_up ≡ true
    → r.has_notifier ≡ true
    → TakesBlock r p size k t stored (
        then_do
          (count_retrans r p, stored, returned)
          (λ r₁. take_block r₁ (answer_header p size k)))
unfolding take_block
take_block-TakesBlock r p size k t s stored u v w h up n =
    let t' : ProdTracker = record t { num_retrans = add32 t.num_retrans 1 } in
    let found = lookup-insert_self p t' r.trackermap in
    let segs = (ProdSegMng.set r.seg_mng p k (block_len size k)).0 in
    let r₁ : Receiver = record r {
      seg_mng = erase p segs;
      trackermap = insert p t' r.trackermap;
    } in
    rw (count_retrans-known r p t u) (
      segs,
      set-Filled r.seg_mng p size k s v w h,
      elim (set-Deleted r.seg_mng p size k s v w h) [
        | inl (all, d) ↦ inl (all, rw (d, finish_product-known r₁ p t' found up n) refl)
        | inr (left, d) ↦ inr (left, rw (d, append-nil stored) refl)
      ],
    )

-- A lost block is repaired: the header that the receiver sends for it makes the sender answer with
-- one packet, and that packet makes the receiver store the bytes of the block at their place and
-- fill the block in the segment map. If no byte of the product is missing then, the product ends:
-- it is no longer tracked, and the sender and the application are told; otherwise nothing else
-- happens. The connection is up, there is a notifier, and what is missing of the product begins and
-- ends at blocks.
pub lost_block_repaired :
    (r : Receiver) (p : ℕ) (k sock : ℕ) (t : ProdTracker) (s : SegMap) (meta : RetxMetadata)
    (h : FmtpHeader)
    → lookup p r.trackermap ≡ some t
    → lookup p r.seg_mng ≡ some s
    → IsTracked meta.prod_length s
    → r.tcp_up ≡ true
    → r.has_notifier ≡ true
    → t.prodsize ≡ meta.prod_length
    → length meta.dataprod ≡ meta.prod_length
    → meta.prod_length + fmtp_data_len ≤ u32_mod
    → IsBlock meta.prod_length k
    → request_header (block_request p k) ≡ some h
    → (h' : FmtpHeader) × (bytes : List ℕ) × (retransmit u32_mod meta h sock
        ≡ some (unicast sock h' bytes ∷ []))
      × TakesBlock r p meta.prod_length k t
          (block_store t.prodptr meta.dataprod meta.prod_length k)
          (retx_round r (some h') (some bytes) none)
unfolding request_header
lost_block_repaired r p k sock t s meta h u v w up n e l small b f =
    let request : FmtpHeader = header p k fmtp_data_len fmtp_retx_req in
    let same : request ≡ h = some-injective _ _ f in
    let size = meta.prod_length in
    let stored = block_store t.prodptr meta.dataprod size k in
    (
      answer_header p size k,
      answer_bytes meta.dataprod size k,
      subst
          (λ x.
            retransmit u32_mod meta x sock
            ≡ some (unicast sock (answer_header p size k) (answer_bytes meta.dataprod size k) ∷ []))
          same
          (retransmit-block u32_mod meta request sock b refl (omega arith) (omega arith)
            (omega arith)),
      subst (TakesBlock r p size k t stored)
          (sym (retx_round-block r p meta.dataprod size k t u e l small b))
          (take_block-TakesBlock r p size k t s stored u v w b up n),
    )
