-- ===== src/Sender/Unicast.antt =====
-- What the sender does on its TCP connections and on its timer: `retransmit`, `retransBOP`,
-- `retransEOP`, `rejRetxReq`, the handlers of requests, one round of `RunRetxThread`, one round of
-- `timerThread`, and the end of a retransmission thread.
use Prim.Native.Nat.{min}
use fmtp_ldm.Prelude.{
  ℕ, zero, suc, ◌+◌, ◌-◌, ◌*◌, ◌/◌, Bool, true, false, Option, none, some, List, [], ◌∷◌, ◌++◌,
  take, drop, map, ltb, ◌==◌, if◌then◌else◌,
}
use fmtp_ldm.Prelude.Word.{add32, sub32, to_u16}
use fmtp_ldm.FmtpBase.{
  FmtpHeader, fmtp_data_len, avail_bop_len, fmtp_retx_req, fmtp_retx_rej, fmtp_retx_end,
  fmtp_retx_data, fmtp_bop_req, fmtp_retx_bop, fmtp_eop_req, fmtp_retx_eop, encode_bop,
}
use fmtp_ldm.SenderMetadata.{
  RetxMetadata, get_metadata, clear_unfinished_set, release_metadata, rm_retx_metadata,
  notify_unacked_rcvrs,
}
use fmtp_ldm.SenderMetadata.Sets
use fmtp_ldm.Sender.State.{Sender, Output, unicast, header, transmit, task_broke, notify_finished}

-- The loop of `retransmit`, on fuel: `none` if that runs out. `nbytes` and `start` are `uint32_t`,
-- `paylen` is a `uint16_t`. What the memory holds past the product is not modelled: of a packet that
-- reaches past it, only the header and the bytes of the product are.
unfoldable pub retransmit_loop : ℕ → RetxMetadata → ℕ → ℕ → ℕ → ℕ → ℕ → Option (List Output)
retransmit_loop zero meta prodindex sock start nbytes paylen = none
retransmit_loop (suc fuel) meta prodindex sock start nbytes paylen =
    let n = if ltb nbytes paylen then to_u16 nbytes else fmtp_data_len in
    let rest = retransmit_loop fuel meta prodindex sock (add32 start n) (sub32 nbytes n) n in
    if nbytes == 0 then some [] else elim rest [
      | none ↦ none
      | some packets ↦ some (
          unicast sock (header prodindex start n fmtp_retx_data) (take n (drop start meta.dataprod))
          ∷ packets)
    ]

-- The product-relative end of what is asked for, in `uint32_t`.
unfoldable pub retransmit_out : RetxMetadata → FmtpHeader → ℕ
retransmit_out meta h = min meta.prod_length (add32 h.seqnum h.payloadlen)

unfoldable pub retransmit : ℕ → RetxMetadata → FmtpHeader → ℕ → Option (List Output)
unfolding retransmit_loop retransmit_out
retransmit fuel meta h sock =
    let start = h.seqnum / fmtp_data_len * fmtp_data_len in
    if ltb 0 h.payloadlen
    then retransmit_loop fuel meta h.prodindex sock start (sub32 (retransmit_out meta h) start)
        fmtp_data_len
    else some []

unfoldable pub retrans_bop : RetxMetadata → FmtpHeader → ℕ → Output
retrans_bop meta h sock =
    unicast sock
      (header h.prodindex 0 (to_u16 (meta.meta_size + (fmtp_data_len - avail_bop_len)))
        fmtp_retx_bop)
      (encode_bop meta.start_sec meta.start_nsec meta.prod_length meta.metadata meta.meta_size)

unfoldable pub retrans_eop : FmtpHeader → ℕ → Output
retrans_eop h sock = unicast sock (header h.prodindex 0 0 fmtp_retx_eop) []

unfoldable pub rej_retx_req : ℕ → ℕ → Output
rej_retx_req prodindex sock = unicast sock (header prodindex 0 0 fmtp_retx_rej) []

-- `handleRetxReq`, `handleBopReq` and `handleEopReq`: the packets of the answer.
unfoldable pub handle_retx_req : ℕ → FmtpHeader → Option RetxMetadata → ℕ → Option (List Output)
unfolding retransmit rej_retx_req
handle_retx_req fuel h none sock = some (rej_retx_req h.prodindex sock ∷ [])
handle_retx_req fuel h (some meta) sock = retransmit fuel meta h sock

unfoldable pub handle_bop_req : FmtpHeader → Option RetxMetadata → ℕ → List Output
unfolding retrans_bop rej_retx_req
handle_bop_req h none sock = rej_retx_req h.prodindex sock ∷ []
handle_bop_req h (some meta) sock = retrans_bop meta h sock ∷ []

unfoldable pub handle_eop_req : FmtpHeader → Option RetxMetadata → ℕ → List Output
unfolding retrans_eop rej_retx_req
handle_eop_req h none sock = rej_retx_req h.prodindex sock ∷ []
handle_eop_req h (some meta) sock = retrans_eop h sock ∷ []

unfoldable pub handle_retx_end :
    Sender → FmtpHeader → Option RetxMetadata → ℕ → Sender × List Output
unfolding notify_finished
handle_retx_end s h none sock = (s, [])
handle_retx_end s h (some meta) sock =
    let (m, removed) = clear_unfinished_set s.send_meta h.prodindex sock s.conn_sock_list in
    let s' : Sender = record s { send_meta = m } in
    if removed then notify_finished s' h.prodindex else (s', [])

-- The answer to a request: the packets, and for the end message the new state. `none` is the fuel.
unfoldable pub handle :
    ℕ → Sender → FmtpHeader → Option RetxMetadata → ℕ → Option (Sender × List Output)
unfolding handle_retx_req handle_bop_req handle_eop_req handle_retx_end
handle fuel s h meta sock =
    if h.flags == fmtp_retx_req
    then elim (handle_retx_req fuel h meta sock) [ none ↦ none | some out ↦ some (s, out) ]
    else if h.flags == fmtp_retx_end
    then some (handle_retx_end s h meta sock)
    else if h.flags == fmtp_bop_req
    then some (s, handle_bop_req h meta sock)
    else if h.flags == fmtp_eop_req
    then some (s, handle_eop_req h meta sock)
    else some (s, [])

-- A retransmission thread that ends takes its socket out of the list of connections.
unfoldable pub thread_ends : Sender → ℕ → Sender
thread_ends s sock = record s { conn_sock_list = Sets.remove sock s.conn_sock_list }

-- One round of `RunRetxThread` for a header that has been read. `ok` says which packets the socket
-- takes. If one fails, the thread ends, and the entry is not released. The answer says whether the
-- thread goes on.
unfoldable pub retx_round :
    ℕ → Sender → ℕ → FmtpHeader → (ℕ → Bool) → Option (Sender × List Output × Bool)
unfolding thread_ends
retx_round fuel s sock h ok =
    let (m, meta) = get_metadata s.send_meta h.prodindex in
    elim (handle fuel (record s { send_meta = m }) h meta sock) [
      | none ↦ none
      | some (s₁, packets) ↦
          let (out, all) = transmit ok 0 packets in
          if all
          then some
              (record s₁ { send_meta = (release_metadata s₁.send_meta h.prodindex).0 }, out, true)
          else some (thread_ends s₁ sock, out, false)
    ]

-- One round of `timerThread`, when the delay queue has handed out `prodindex`: an EOP for each
-- receiver that has not finished, then the removal. A failure to send ends the timer thread.
unfoldable pub timer_round : Sender → ℕ → (ℕ → Bool) → Sender × List Output × Bool
unfolding notify_finished
timer_round s prodindex ok =
    let eops =
      map (λ sock. unicast sock (header prodindex 0 0 fmtp_retx_eop) [])
        (notify_unacked_rcvrs s.send_meta prodindex s.conn_sock_list) in
    let (out, all) = transmit ok 0 eops in
    if all
    then (let (m, removed) = rm_retx_metadata s.send_meta prodindex in
        let s₁ : Sender = record s { send_meta = m } in
        if removed
        then (let (s₂, told) = notify_finished s₁ prodindex in (s₂, out ++ told, true))
        else (s₁, out, true))
    else (task_broke s, out, false)
