-- ===== src/Receiver/Multicast.antt =====
-- The multicast thread: one round of `mcastHandler` and the handlers that it calls.
use Prim.Native.Nat.{min}
use fmtp_ldm.Prelude.{
  ℕ, ◌+◌, Bool, true, false, not, ◌&&◌, Option, none, some, List, [], ◌∷◌, if◌then◌else◌, ltb, ◌==◌,
  take, length,
}
use fmtp_ldm.Prelude.Word.{add32}
use fmtp_ldm.Prelude.Dict.{lookup, insert, is_some}
use fmtp_ldm.FmtpBase.{FmtpHeader, fmtp_bop, fmtp_eop, fmtp_mem_data}
use fmtp_ldm.ProdSegMng
use fmtp_ldm.Receiver.State.{
  Receiver, Action, stores, returned, threw, bad_payload_len, out_of_boundary, read_failed,
  short_packet, Handled, then_do, set_eop_status,
}
use fmtp_ldm.Receiver.Requests.{
  request_any_missing_data, request_missing_bops_exclusive, request_missing_bops_inclusive,
}
use fmtp_ldm.Receiver.Product.{bop_handler, eop_handler}

-- A datagram in the socket: the header, decoded, and the payload that really follows it.
pub record Datagram : Type 0 where
  pub head : FmtpHeader
  pub payload : List ℕ

-- `checkPayloadLen`. At most the stated number of bytes has been read.
unfoldable pub check_payload_len : FmtpHeader → List ℕ → Bool
check_payload_len h payload = h.payloadlen == min (length payload) h.payloadlen

unfoldable pub mcast_bop_handler : Receiver → Datagram → Option ℕ → Handled
unfolding check_payload_len bop_handler request_missing_bops_exclusive
mcast_bop_handler r d prodptr =
    if check_payload_len d.head d.payload
    then then_do (bop_handler r d.head d.payload prodptr)
        (λ r'. request_missing_bops_exclusive r' d.head.prodindex)
    else (r, [], threw bad_payload_len)

-- `tracker.prodptr + seqnum`, with what `readv` puts there.
unfoldable pub store_payload : Receiver → FmtpHeader → List ℕ → List Action
store_payload r h payload = elim (lookup h.prodindex r.trackermap) [
  | none ↦ []
  | some tracker ↦ elim tracker.prodptr [
    | none ↦ []
    | some address ↦ stores (address + h.seqnum) (take h.payloadlen payload) ∷ []
  ]
]

unfoldable pub read_mcast_data : Receiver → Datagram → Handled
unfolding store_payload check_payload_len
read_mcast_data r d =
    let out = store_payload r d.head d.payload in
    let segs = (ProdSegMng.set r.seg_mng d.head.prodindex d.head.seqnum d.head.payloadlen).0 in
    if check_payload_len d.head d.payload
    then (record r { seg_mng = segs }, out, returned)
    else (r, out, threw bad_payload_len)

-- `trackermap[prodindex].seqnum` and `.paylen` become those of the packet.
unfoldable pub note_packet : Receiver → FmtpHeader → Receiver
note_packet r h = elim (lookup h.prodindex r.trackermap) [
  | none ↦ r
  | some tracker ↦ record r {
    trackermap =
        insert h.prodindex (record tracker { seqnum = h.seqnum; paylen = h.payloadlen })
          r.trackermap;
  }
]

-- The size of a product that is tracked, and 0 otherwise.
unfoldable pub tracked_size : Receiver → ℕ → ℕ
tracked_size r prodindex = elim (lookup prodindex r.trackermap) [
  | none ↦ 0
  | some tracker ↦ tracker.prodsize
]

unfoldable pub recv_mem_data : Receiver → Datagram → Handled
unfolding tracked_size read_mcast_data note_packet
recv_mem_data r d =
    let prodsize = tracked_size r d.head.prodindex in
    if ltb 0 prodsize
    then (if ltb prodsize (add32 d.head.seqnum d.head.payloadlen)
        then (r, [], threw out_of_boundary)
        else then_do (read_mcast_data r d) (λ r₁.
          then_do (request_any_missing_data r₁ d.head.prodindex d.head.seqnum)
            (λ r₂. (note_packet r₂ d.head, [], returned))))
    else request_missing_bops_inclusive r d.head.prodindex

unfoldable pub mcast_eop_handler : Receiver → Datagram → Handled
unfolding set_eop_status eop_handler
mcast_eop_handler r d =
    if is_some (lookup d.head.prodindex r.trackermap)
    then eop_handler (set_eop_status r d.head.prodindex) d.head
    else request_missing_bops_inclusive r d.head.prodindex

-- The first packet says where the sender is.
unfoldable pub note_first : Receiver → ℕ → Receiver
note_first r prodindex =
    if r.mcast_hndlr_started
    then r
    else record r { prodidx_mcast = prodindex; mcast_hndlr_started = true }

-- The call for a packet that has been peeked at, and whether it takes the packet out of the socket.
unfoldable pub dispatch : Receiver → Datagram → Option ℕ → Handled × Bool
unfolding mcast_bop_handler recv_mem_data mcast_eop_handler
dispatch r d prodptr =
    if d.head.flags == fmtp_bop
    then (mcast_bop_handler r d prodptr, true)
    else if d.head.flags == fmtp_mem_data
    then (
      recv_mem_data r d,
      not (
          ltb 0 (tracked_size r d.head.prodindex)
          && ltb (tracked_size r d.head.prodindex) (add32 d.head.seqnum d.head.payloadlen)),
    )
    else if d.head.flags == fmtp_eop
    then (mcast_eop_handler r d, true)
    else ((r, [], returned), false)

-- What `recv` with `MSG_PEEK` answers.
pub data Peeked : Type 0 where
  peek_failed peek_short : Peeked
  peeked : Datagram → Peeked

-- One round of `mcastHandler`.
unfoldable pub mcast_round : Receiver → Peeked → Option ℕ → Handled × Bool
unfolding note_first dispatch
mcast_round r peek_failed prodptr = ((r, [], threw read_failed), false)
mcast_round r peek_short prodptr = ((r, [], threw short_packet), false)
mcast_round r (peeked d) prodptr = dispatch (note_first r d.head.prodindex) d prodptr
