-- ===== src/Receiver/Unicast.antt =====
-- The retransmission thread: one round of `retxHandler` and the handlers that it calls.
use fmtp_ldm.Prelude.{
  ℕ, Bool, true, false, ◌&&◌, ◌||◌, Option, none, some, List, [], ◌∷◌, if◌then◌else◌, ltb, ◌==◌,
}
use fmtp_ldm.Prelude.Word.{add32}
use fmtp_ldm.Prelude.Dict.{lookup, insert, erase, is_some}
use fmtp_ldm.FmtpBase.{FmtpHeader, fmtp_retx_bop, fmtp_retx_data, fmtp_retx_eop, fmtp_retx_rej}
use fmtp_ldm.ProdSegMng
use fmtp_ldm.ProdSegMng.{SegMapSet}
use fmtp_ldm.SenderMetadata.Sets.{member, remove}
use fmtp_ldm.Receiver.State.{
  Receiver, missed_prod, notify_waiters, returned, threw, out_of_boundary, no_product,
  end_of_stream, Handled, then_do, push_request, missing_eop, stop,
}
use fmtp_ldm.Receiver.Requests.{request_any_missing_data}
use fmtp_ldm.Receiver.Product.{bop_handler, eop_handler, finish_product}
use fmtp_ldm.Receiver.Multicast.{store_payload, tracked_size}

-- `rmMisBOPinSet`
unfoldable pub rm_mis_bop_in_set : Receiver → ℕ → Receiver × Bool
rm_mis_bop_in_set r prodindex =
    (record r { mis_bop_set = remove prodindex r.mis_bop_set }, member prodindex r.mis_bop_set)

-- What `retxHandler` does after a BOP: the critical section under `antiracemtx`.
unfoldable pub request_rest : Receiver → ℕ → Handled
request_rest r prodindex = elim (lookup prodindex r.trackermap) [
  | none ↦ (r, [], threw no_product)
  | some tracker ↦
      if tracker.prodsize == 0
      then (r, [], threw no_product)
      else if tracker.seqnum == 0
      then then_do
          (if r.prodidx_mcast == prodindex
            then (r, [], returned)
            else request_any_missing_data r prodindex tracker.prodsize)
          (λ r'. (push_request r' (missing_eop prodindex), [], returned))
      else (r, [], returned)
]

unfoldable pub retx_bop : Receiver → FmtpHeader → List ℕ → Option ℕ → Handled
unfolding bop_handler rm_mis_bop_in_set request_rest
retx_bop r h payload prodptr =
    then_do (bop_handler r h payload prodptr)
      (λ r'. request_rest (rm_mis_bop_in_set r' h.prodindex).0 h.prodindex)

-- `++tracker.numRetrans`
unfoldable pub count_retrans : Receiver → ℕ → Receiver
count_retrans r prodindex = elim (lookup prodindex r.trackermap) [
  | none ↦ r
  | some tracker ↦ record r {
    trackermap =
        insert prodindex (record tracker { num_retrans = add32 tracker.num_retrans 1 })
          r.trackermap;
  }
]

-- After `set`, by what `delIfComplete` answers.
abbrev pub block_cases : Receiver → ℕ → SegMapSet × Bool → Handled
block_cases r prodindex (segs, true) = finish_product (record r { seg_mng = segs }) prodindex
block_cases r prodindex (segs, false) = (record r { seg_mng = segs }, [], returned)

-- The payload has been read: `set`, and then the end of the product if it is complete.
unfoldable pub take_block : Receiver → FmtpHeader → Handled
take_block r h =
    let segs = (ProdSegMng.set r.seg_mng h.prodindex h.seqnum h.payloadlen).0 in
    block_cases r h.prodindex (ProdSegMng.del_if_complete segs h.prodindex)

-- `payload` is `none` where the stream ends before the whole payload has come.
unfoldable pub retx_data : Receiver → FmtpHeader → Option (List ℕ) → Handled
unfolding tracked_size count_retrans take_block store_payload
retx_data r h payload =
    let prodsize = tracked_size r h.prodindex in
    let r' = count_retrans r h.prodindex in
    if ltb 0 prodsize && ltb prodsize (add32 h.seqnum h.payloadlen)
    then (r', [], threw out_of_boundary)
    else elim payload [
      | none ↦ (r', [], threw end_of_stream)
      | some bytes ↦
          if ltb 0 prodsize
          then then_do (r', store_payload r' h bytes, returned) (λ r₁. take_block r₁ h)
          else (r', [], returned)
    ]

unfoldable pub retx_eop_handler : Receiver → FmtpHeader → Handled
unfolding eop_handler
retx_eop_handler r h =
    if is_some (lookup h.prodindex r.trackermap) then eop_handler r h else (r, [], returned)

-- The sender does not have the product any more.
unfoldable pub retx_rej : Receiver → ℕ → Handled
unfolding rm_mis_bop_in_set
retx_rej r prodindex =
    let (r₁, had_bop) = rm_mis_bop_in_set r prodindex in
    let (segs, removed) = ProdSegMng.rm_prod r₁.seg_mng prodindex in
    let r₂ : Receiver = record r₁ { seg_mng = segs } in
    let r₃ : Receiver = record r₂ { trackermap = erase prodindex r.trackermap } in
    if removed || had_bop
    then (if r.has_notifier
        then (r₃, missed_prod prodindex ∷ [], returned)
        else (record r₃ { notifyprodidx = prodindex }, notify_waiters prodindex ∷ [], returned))
    else (r₂, [], returned)

-- One round of `retxHandler`. The header is `none` at the end of the stream. `recvData` answers 0 to
-- a request for no bytes, which is taken for the end of the stream.
unfoldable pub retx_round : Receiver → Option FmtpHeader → Option (List ℕ) → Option ℕ → Handled
unfolding stop retx_bop retx_data retx_eop_handler retx_rej
retx_round r none payload prodptr = (stop r, [], threw end_of_stream)
retx_round r (some h) payload prodptr =
    let read = if h.payloadlen == 0 then none else payload in
    if h.flags == fmtp_retx_bop
    then elim read [ none ↦ (r, [], threw end_of_stream) | some bytes ↦ retx_bop r h bytes prodptr ]
    else if h.flags == fmtp_retx_data
    then retx_data r h read
    else if h.flags == fmtp_retx_eop
    then retx_eop_handler r h
    else if h.flags == fmtp_retx_rej
    then retx_rej r h.prodindex
    else (r, [], returned)
