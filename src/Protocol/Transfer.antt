-- ===== src/Protocol/Transfer.antt =====
-- A whole file: the sender's thread and the receiver of the first protocol version together.
use fmtp_ldm.Prelude.{
  ℕ, ◌<◌, ◌≡◌, refl, sym, ◌∙◌, subst, false, not, ◌&&◌, ◌==◌, some, List, [], length, All, arith,
}
use fmtp_ldm.Prelude.Word.{u32_mod}
use fmtp_ldm.Prelude.Dict.{lookup, lookup-insert, lookup-insert_self}
use fmtp_ldm.SenderMetadata.Sets.{member, remove, member-remove}
use fmtp_ldm.Protocol.{Header}
use fmtp_ldm.Protocol.Content.{Has-eq}
use fmtp_ldm.Protocol.FmtpReceiver.{
  ReceiveStatus, FmtpReceiver, SenderMessage, file_transfer_start, new_status,
  prepare_for_file_transfer, handle_eof_message, handle_multicast_packet, drain,
}
use fmtp_ldm.Protocol.FmtpReceiver.Receiving.{
  Arrival, InOrder, AsksFile, Receives, receive, receive-Receives,
}
use fmtp_ldm.Protocol.FmtpReceiver.Repairing.{IsOpen, handle_eof_message_lem}
use fmtp_ldm.Protocol.FmtpSender.{
  MessageMetadata, MetadataMap, RetransThread, remove_finished_receiver,
}
use fmtp_ldm.Protocol.Serving.{IsReady, serve, Finished, serve_requests}

module _ (id : ℕ) (file : List ℕ) (small : length file < u32_mod) (sock : ℕ) (stale : List ℕ) where
  abbrev pub bof_header : Header
  bof_header = record { session_id = id; seq_number = 0; data_len = 280; flags = 1 }

  abbrev pub eof_header : Header
  eof_header = record { session_id = id; seq_number = 0; data_len = 0; flags = 2 }

  abbrev pub bof_message : SenderMessage
  bof_message = record { msg_type = file_transfer_start; session_id = id; data_len = length file }

  -- A receiver from the BOF to the EOF; `msg` is what the bytes of the other packets would say.
  unfoldable pub multicast_file :
      SenderMessage → FmtpReceiver → List ℕ → List Arrival → FmtpReceiver
  multicast_file msg r payload arrivals =
      handle_multicast_packet
        (receive id file small msg (handle_multicast_packet r bof_header payload bof_message 0)
          arrivals)
        eof_header [] msg 0

  begun :
      (r : FmtpReceiver) (payload : List ℕ)
      → r.retrans_list ≡ []
      → Receives id file small
          (handle_multicast_packet r bof_header payload bof_message 0)
          (new_status (length file))
  unfolding handle_multicast_packet prepare_for_file_transfer
  begun r payload e = (
    lookup-insert_self id (new_status (length file)) r.recv_status_map,
    record {
      opened = refl;
      healthy = refl;
      size = refl;
      place = refl;
      inside = omega arith;
      fits = omega arith;
      asked = subst (All (AsksFile id (length file))) (sym e) tt;
      known = λ i l. absurd (omega arith);
    },
  )

  eof_packet :
      (r : FmtpReceiver) (msg : SenderMessage)
      → handle_multicast_packet r eof_header [] msg 0 ≡ handle_eof_message r id
  unfolding handle_multicast_packet
  eof_packet r msg = refl

  drained :
      (r : FmtpReceiver) (st : ReceiveStatus)
      → IsOpen id file r st
      → IsOpen id file (record r { retrans_list = [] }) st
  drained r st o = record { found = o.found; opened = o.opened; fits = o.fits }

  -- In `map'` the socket is off the list of the message, and the rest of `map` is as it was.
  abbrev pub TakenOff : MetadataMap → MetadataMap → Type 0
  TakenOff map map' =
      (meta : MessageMetadata) × (meta' : MessageMetadata) × (lookup id map ≡ some meta)
      × (lookup id map' ≡ some meta')
      × ((j : ℕ)
          → member j meta'.unfinished_recvers
            ≡ (member j meta.unfinished_recvers && not (sock == j)))
      × (meta'.file ≡ meta.file)
      × ((k : ℕ) → (id == k) ≡ false → lookup k map' ≡ lookup k map)

  remove_finished_receiver-TakenOff :
      (map : MetadataMap) (meta : MessageMetadata)
      → lookup id map ≡ some meta
      → TakenOff map (remove_finished_receiver map id sock)
  unfolding remove_finished_receiver
  remove_finished_receiver-TakenOff map meta u =
      let meta' : MessageMetadata = record meta {
        unfinished_recvers = remove sock meta.unfinished_recvers;
      } in
      (
        meta,
        meta',
        u,
        rw (remove_finished_receiver, u) (lookup-insert_self id meta' map),
        λ j. member-remove sock j meta.unfinished_recvers,
        refl,
        λ k other.
            rw (remove_finished_receiver, u) (lookup-insert id k meta' map ∙ (rw other refl)),
      )

  -- A file that is multicast, with any losses, and then repaired: when the data packets that come are
  -- pieces of the file in its order, whatever is missing between them, when no retransmitted packet
  -- comes before the EOF, and when the sender has the file and no timeout passes, the receiver ends with
  -- the file closed and exactly the bytes of the file in it, and the sender has taken the receiver, and
  -- no other, off the list of the message, whose file and every other message stay.
  pub file_delivered :
      (msg : SenderMessage) (r : FmtpReceiver) (payload : List ℕ) (arrivals : List Arrival)
      (map : MetadataMap) (t : RetransThread)
      → r.retrans_list ≡ []
      → InOrder 0 (length file) arrivals
      → IsReady id file small sock stale map t
      → let (r₁, requests) = drain (multicast_file msg r payload arrivals) in
        (r' : FmtpReceiver) × (map' : MetadataMap) × (t' : RetransThread) × (st : ReceiveStatus)
        × (serve sock stale requests r₁ map t ≡ some (r', map', t'))
        × TakenOff map map'
        × (lookup id r'.recv_status_map ≡ some st)
        × (st.file_open ≡ false)
        × (st.content ≡ file)
  unfolding drain multicast_file Finished
  file_delivered msg r payload arrivals map t e order v =
      let r₀ = handle_multicast_packet r bof_header payload bof_message 0 in
      let r₁ = receive id file small msg r₀ arrivals in
      let r₂ = handle_eof_message r₁ id in
      let (st, received) =
        receive-Receives id file small msg arrivals r₀ (new_status (length file))
          (begun r payload e) order in
      let (st', o, (requests, asks, all)) = handle_eof_message_lem id file small r₁ st received in
      let (r', t', st'', served, found, closed, fits, has) =
        serve_requests id file small sock stale map _ t (record r₂ { retrans_list = [] }) st' v
          (drained r₂ st' o) asks in
      (
        r',
        remove_finished_receiver map id sock,
        t',
        st'',
        rw (eof_packet, requests) served,
        remove_finished_receiver-TakenOff map v.meta v.found,
        found,
        closed,
        Has-eq st''.content file fits (λ i l. has i (all i l)),
      )
