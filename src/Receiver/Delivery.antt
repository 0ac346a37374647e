-- ===== src/Receiver/Delivery.antt =====
-- The blocks of a tracked product come by multicast: what `recvMemData` does with each.
use fmtp_ldm.Prelude.{
  ℕ, ◌+◌, ◌-◌, ◌≤◌, ◌≡◌, refl, ap, subst, ◌∙◌, true, false, Option, none, some, List, [], ◌∷◌, ◌++◌,
  arith, inl, inr, Option-cases, ltb, map, take, drop, length, length-take, length-drop, append-nil,
  take-length,
}
use fmtp_ldm.Prelude.Word.{add32, add32_exact, u32_mod}
use fmtp_ldm.Prelude.Dict.{lookup}
use fmtp_ldm.FmtpBase.{fmtp_data_len, fmtp_mem_data}
use fmtp_ldm.ProdSegMng
use fmtp_ldm.ProdSegMng.{SegMapSet}
use fmtp_ldm.ProdSegMng.Aligned.{block_len, IsBlock}
use fmtp_ldm.Sender.State.{header}
use fmtp_ldm.Sender.Segments.{starts, rounds}
use fmtp_ldm.Receiver.State.{Receiver, ProdTracker, Action, stores, returned}
use fmtp_ldm.Receiver.Requests.{next_seqnum, request_any_missing_data}
use fmtp_ldm.Receiver.Multicast.{
  Datagram, check_payload_len, store_payload, read_mcast_data, note_packet, tracked_size,
  recv_mem_data,
}
use fmtp_ldm.Receiver.Missing.{block_request, request_from_next}

-- The datagram of the sender's packet for the block at `k`.
abbrev pub datagram : ℕ → List ℕ → ℕ → ℕ → Datagram
datagram p product size k = record {
  head = header p k (block_len size k) fmtp_mem_data;
  payload = take (block_len size k) (drop k product);
}

-- The block goes to its place in the memory of the application.
abbrev pub block_store : Option ℕ → List ℕ → ℕ → ℕ → List Action
block_store none product size k = []
block_store (some address) product size k =
    stores (address + k) (take (block_len size k) (drop k product)) ∷ []

pub payload_len :
    (product : List ℕ) (size k : ℕ)
    → length product ≡ size
    → IsBlock size k
    → length (take (block_len size k) (drop k product)) ≡ block_len size k
payload_len product size k e b =
    omega (arith, length-take (block_len size k) (drop k product), length-drop k product)

block_check :
    (p : ℕ) (product : List ℕ) (size k : ℕ)
    → length product ≡ size
    → IsBlock size k
    → check_payload_len (datagram p product size k).head (datagram p product size k).payload ≡ true
unfolding check_payload_len
block_check p product size k e b = ground (arith, payload_len product size k e b)

pub retake : (n : ℕ) (xs : List ℕ) → length xs ≡ n → take n xs ≡ xs
retake n xs e = subst (λ m. take m xs ≡ xs) e (take-length xs)

block_stored :
    (r : Receiver) (p : ℕ) (product : List ℕ) (size k : ℕ) (t : ProdTracker)
    → lookup p r.trackermap ≡ some t
    → length product ≡ size
    → IsBlock size k
    → store_payload r (datagram p product size k).head (datagram p product size k).payload
      ≡ block_store t.prodptr product size k
unfolding store_payload
block_stored r p product size k t u l b =
    let whole =
      retake (block_len size k) (take (block_len size k) (drop k product))
        (payload_len product size k l b) in
    elim (Option-cases t.prodptr) [
      | inl e ↦ rw (u, store_payload, e) refl
      | inr (address, e) ↦ rw (u, store_payload, e, whole) refl
    ]

read_mcast_data-block :
    (r : Receiver) (p : ℕ) (product : List ℕ) (size k : ℕ) (t : ProdTracker)
    → lookup p r.trackermap ≡ some t
    → length product ≡ size
    → IsBlock size k
    → read_mcast_data r (datagram p product size k) ≡ (
      record r { seg_mng = (ProdSegMng.set r.seg_mng p k (block_len size k)).0 },
      block_store t.prodptr product size k,
      returned,
    )
unfolding read_mcast_data
read_mcast_data-block r p product size k t u l b =
    rw (block_check p product size k l b, block_stored r p product size k t u l b) refl

pub tracked_size-known :
    (r : Receiver) (p : ℕ) (t : ProdTracker)
    → lookup p r.trackermap ≡ some t
    → tracked_size r p ≡ t.prodsize
unfolding tracked_size
tracked_size-known r p t u = rw (u, tracked_size) refl

-- The steps of `recvMemData`, once the packet has passed its checks.
recv_mem_data-steps :
    (r : Receiver) (d : Datagram) {size : ℕ} {r₁ r₂ : Receiver} {out : List Action}
    → tracked_size r d.head.prodindex ≡ size
    → ltb 0 size ≡ true
    → ltb size (add32 d.head.seqnum d.head.payloadlen) ≡ false
    → read_mcast_data r d ≡ (r₁, out, returned)
    → request_any_missing_data r₁ d.head.prodindex d.head.seqnum ≡ (r₂, [], returned)
    → recv_mem_data r d ≡ (note_packet r₂ d.head, out, returned)
unfolding recv_mem_data
recv_mem_data-steps r d {r₂ = r₂} {out = out} a b c e f =
    rw (a, b, c, e, f) (ap (λ o. (note_packet r₂ d.head, o, returned)) (append-nil out))

-- A block of a tracked product is stored at its place, its bytes are no longer missing, the blocks
-- between the last packet and this one are requested, in order, and this packet becomes the last one.
pub recv_mem_data-block :
    (r : Receiver) (p : ℕ) (product : List ℕ) (size k : ℕ) (t : ProdTracker)
    → lookup p r.trackermap ≡ some t
    → t.prodsize ≡ size
    → length product ≡ size
    → size + fmtp_data_len ≤ u32_mod
    → IsBlock size k
    → let d = datagram p product size k in
      let segs = (ProdSegMng.set r.seg_mng p k (block_len size k)).0 in
      let next = next_seqnum r p in
      let requests = map (block_request p) (starts (rounds (k - next)) next) in
      recv_mem_data r d ≡ (
        note_packet (record r { seg_mng = segs; msgqueue = r.msgqueue ++ requests }) d.head,
        block_store t.prodptr product size k,
        returned,
      )
recv_mem_data-block r p product size k t u e l small b =
    let d = datagram p product size k in
    let segs = (ProdSegMng.set r.seg_mng p k (block_len size k)).0 in
    let r₁ : Receiver = record r { seg_mng = segs } in
    let positive : ltb 0 size ≡ true = ground arith in
    let inside : ltb size (add32 k (block_len size k)) ≡ false =
      ground (arith, add32_exact k (block_len size k) (omega arith)) in
    recv_mem_data-steps r d (tracked_size-known r p t u ∙ e) positive inside
      (read_mcast_data-block r p product size k t u l b) (request_from_next r₁ p k (omega arith))
    ∙ (unfold next_seqnum in refl)
