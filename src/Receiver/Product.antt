-- ===== src/Receiver/Product.antt =====
-- A product in the receiver: `BOPHandler` begins it, `EOPHandler` ends it or asks for the rest.
use fmtp_ldm.Prelude.{
  ℕ, Bool, true, false, not, ◌&&◌, Option, none, some, List, [], ◌∷◌, ◌++◌, if◌then◌else◌,
}
use fmtp_ldm.Prelude.Dict.{lookup, insert, erase, is_some}
use fmtp_ldm.FmtpBase.{FmtpHeader, BopMsg, parsed, refused, parse_bop}
use fmtp_ldm.ProdSegMng.{SegMapSet, add_prod, del_if_complete, get_last_segment}
use fmtp_ldm.Receiver.State.{
  Receiver, ProdTracker, start_prod, end_prod, notify_waiters, returned, threw, bad_bop,
  send_failed, Handled, timer_for, init_eop_status, send_retx_end,
}
use fmtp_ldm.Receiver.Requests.{request_any_missing_data}

-- A BOP that has been parsed. `prodptr` is what the application's `startProd` answers; without a
-- notifier it stays null.
unfoldable pub begin_product : Receiver → ℕ → BopMsg → Option ℕ → Handled
unfolding init_eop_status
begin_product r prodindex bop prodptr =
    let (segs, insertion) = add_prod r.seg_mng prodindex bop.prodsize in
    let r₁ : Receiver = record r { seg_mng = segs } in
    let in_tracker = is_some (lookup prodindex r.trackermap) in
    let tracker : ProdTracker = record {
      prodsize = bop.prodsize;
      prodptr = if r.has_notifier then prodptr else none;
      seqnum = 0;
      paylen = 0;
      num_retrans = 0;
    } in
    let r₂ : Receiver =
      init_eop_status (record r₁ { trackermap = insert prodindex tracker r.trackermap })
        prodindex in
    let told =
      start_prod bop.start_hi bop.start_lo bop.start_nsec prodindex bop.prodsize bop.metadata in
    if insertion && not in_tracker
    then (
      record r₂ { timer_param_q = r.timer_param_q ++ timer_for prodindex bop.prodsize ∷ [] },
      if r.has_notifier then told ∷ [] else [],
      returned,
    )
    else (r₁, [], returned)

unfoldable pub bop_handler : Receiver → FmtpHeader → List ℕ → Option ℕ → Handled
unfolding begin_product
bop_handler r h payload prodptr = elim (parse_bop h.payloadlen payload) [
  | refused e ↦ (r, [], threw (bad_bop e))
  | parsed bop ↦ begin_product r h.prodindex bop prodptr
]

-- A product that is complete, in `EOPHandler` and in `retxHandler`: the sender and the application are
-- told, and it is no longer tracked. `sendall` throws if the connection is broken.
unfoldable pub finish_product : Receiver → ℕ → Handled
finish_product r prodindex =
    let r' : Receiver = record r { trackermap = erase prodindex r.trackermap } in
    if r.tcp_up
    then elim (lookup prodindex r.trackermap) [
      | none ↦ (r', send_retx_end prodindex ∷ [], returned)
      | some tracker ↦
          if r.has_notifier
          then (r', send_retx_end prodindex ∷ end_prod prodindex tracker.num_retrans ∷ [], returned)
          else (
            record r' { notifyprodidx = prodindex },
            send_retx_end prodindex ∷ notify_waiters prodindex ∷ [],
            returned,
          )
    ]
    else (r, [], threw send_failed)

-- `EOPHandler`, by what `delIfComplete` answers.
abbrev pub eop_cases : Receiver → FmtpHeader → SegMapSet × Bool → Handled
eop_cases r h (segs, true) = finish_product (record r { seg_mng = segs }) h.prodindex
eop_cases r h (segs, false) =
    if get_last_segment r.seg_mng h.prodindex
    then (r, [], returned)
    else elim (lookup h.prodindex r.trackermap) [
      | none ↦ (r, [], returned)
      | some tracker ↦ request_any_missing_data r h.prodindex tracker.prodsize
    ]

unfoldable pub eop_handler : Receiver → FmtpHeader → Handled
eop_handler r h = eop_cases r h (del_if_complete r.seg_mng h.prodindex)
