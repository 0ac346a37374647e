-- ===== src/Protocol/Serving.antt =====
-- The sender answers the requests of one receiver, which repair the file.
use fmtp_ldm.Prelude.{
  ℕ, suc, ◌≤◌, ◌<◌, ◌≡◌, refl, ap, ◌∙◌, ◌⊎◌, inl, inr, false, Option, none, some, List, [], ◌∷◌,
  ◌++◌, length, ◌==◌, All, arith,
}
use fmtp_ldm.Prelude.Word.{u32_mod, sub32}
use fmtp_ldm.Prelude.Dict.{lookup, insert, lookup-insert_self}
use fmtp_ldm.SenderMetadata.Sets.{member}
use fmtp_ldm.Protocol.{Header, RetransRequest}
use fmtp_ldm.Protocol.Content.{Has, Asked}
use fmtp_ldm.Protocol.FmtpReceiver.{
  ReceiveStatus, FmtpReceiver, request, handle_unicast_packet, close_files, request_packet,
  request_packets,
}
use fmtp_ldm.Protocol.FmtpReceiver.Receiving.{AsksFile}
use fmtp_ldm.Protocol.FmtpReceiver.Repairing.{
  Packet, IsOpen, Repaired, unicast_all, unicast_all-Repaired,
}
use fmtp_ldm.Protocol.FmtpSender.{
  MessageMetadata, MetadataMap, RetransThread, retrans_loop, opened, handle_retrans_req,
  handle_retrans_end, retrans_round, remove_finished_receiver,
}
use fmtp_ldm.Protocol.FmtpSender.Answers.{Answers, retrans_loop_lem}

-- The requests of a receiver are answered one after the other, and what the sender sends is handled by
-- the receiver before the next request. `stale` is what the thread's buffer holds, and no message has
-- timed out.
unfoldable pub serve :
    ℕ
    → List ℕ
    → List (Header × RetransRequest)
    → FmtpReceiver
    → MetadataMap
    → RetransThread
    → Option (FmtpReceiver × MetadataMap × RetransThread)
serve sock stale [] r map t = some (r, map, t)
serve sock stale ((h, q) ∷ rest) r map t = elim (retrans_round map t sock h q false stale) [
  | none ↦ none
  | some (map', t', packets) ↦ serve sock stale rest (unicast_all r packets) map' t'
]

module _ (id : ℕ) (file : List ℕ) (small : length file < u32_mod) (sock : ℕ) (stale : List ℕ) where
  -- The sender has the file, and the thread has not given the message up.
  pub record IsReady (map : MetadataMap) (t : RetransThread) : Type 0 where
    pub meta : MessageMetadata
    pub found : lookup id map ≡ some meta
    pub bytes : meta.file ≡ file
    pub in_time : member id t.timeout_set ≡ false
    pub descriptor : (lookup id t.retrans_fd_map ≡ none) ⊎ (lookup id t.retrans_fd_map ≡ some file)

  opened_lem :
      (t : RetransThread) (meta : MessageMetadata)
      → meta.file ≡ file
      → (lookup id t.retrans_fd_map ≡ none) ⊎ (lookup id t.retrans_fd_map ≡ some file)
      → (t' : RetransThread) × (opened t id meta ≡ (t', file))
        × (lookup id t'.retrans_fd_map ≡ some file)
        × (t'.timeout_set ≡ t.timeout_set)
  unfolding opened
  opened_lem t meta e d = elim d [
    | inl n ↦ (
      record t { retrans_fd_map = insert id file t.retrans_fd_map },
      rw (opened, n, e) refl,
      lookup-insert_self id file t.retrans_fd_map,
      refl,
    )
    | inr s ↦ (t, rw (opened, s) refl, s, refl)
  ]

  request_round :
      (map : MetadataMap) (t t' : RetransThread) (q : RetransRequest) (meta : MessageMetadata)
      (packets : List Packet)
      → 0 < q.data_len
      → lookup q.msg_id map ≡ some meta
      → member q.msg_id t.timeout_set ≡ false
      → opened t q.msg_id meta ≡ (t', file)
      → retrans_loop (suc q.data_len) q.msg_id file stale q.data_len q.seq_num ≡ some packets
      → retrans_round map t sock (request_packet q).0 q false stale ≡ some (map, t', packets)
  unfolding retrans_round request_packet handle_retrans_req
  request_round map t t' q meta packets pos found in_time o sent =
      let z : (q.data_len == 0) ≡ false = ground arith in
      rw (retrans_round, z, handle_retrans_req, found, in_time, o, sent)
        (ap (λ (x : RetransThread × List ℕ). some (map, x.0, packets)) o)

  -- A request that is answered.
  Answered : MetadataMap → RetransThread → RetransRequest → Type 0
  Answered map t q =
      (t' : RetransThread) × (packets : List Packet) × (retrans_round map t sock
          (request_packet q).0 q false stale
        ≡ some (map, t', packets))
      × IsReady map t'
      × Answers id file q.seq_num q.data_len packets

  round_answers :
      (map : MetadataMap) (t : RetransThread) (q : RetransRequest)
      → IsReady map t
      → AsksFile id (length file) q
      → Answered map t q
  unfolding Answered
  round_answers map t q v (e, pos, inside) =
      let (t', o, fd, same) = opened_lem t v.meta v.bytes v.descriptor in
      let (packets, sent, a) =
        retrans_loop_lem id file small (suc q.data_len) q.data_len q.seq_num stale (omega arith)
          inside in
      (
        t',
        packets,
        request_round map t t' q v.meta packets pos (rw e v.found) (rw e v.in_time) (rw e o)
            (rw e sent),
        record {
          meta = v.meta;
          found = v.found;
          bytes = v.bytes;
          in_time = rw same v.in_time;
          descriptor = inr fd;
        },
        a,
      )

  -- The end message: the receiver closes the file, and the sender takes it off the message's list.
  Closed : MetadataMap → FmtpReceiver → RetransThread → ReceiveStatus → Type 0
  Closed map r t st =
      (r' : FmtpReceiver) × (t' : RetransThread) × (serve sock stale
          (request_packets (request id 0 0 ∷ [])) r map t
        ≡ some (r', remove_finished_receiver map id sock, t'))
      × (lookup id r'.recv_status_map ≡ some (close_files st))

  end_closes :
      (map : MetadataMap) (r : FmtpReceiver) (t : RetransThread) (st : ReceiveStatus)
      → lookup id r.recv_status_map ≡ some st
      → Closed map r t st
  unfolding Closed serve request_packets request_packet retrans_round handle_retrans_end sub32
      unicast_all handle_unicast_packet
  end_closes map r t st found = (
    record r { recv_status_map = insert id (close_files st) r.recv_status_map },
    (handle_retrans_end t (request_packet (request id 0 0)).0).0,
    rw found refl,
    lookup-insert_self id (close_files st) r.recv_status_map,
  )

  -- What remains to be shown of a receiver that serves its requests: the file is closed and has all of
  -- it that was there or asked for.
  unfoldable pub Finished :
      MetadataMap → RetransThread → FmtpReceiver → ReceiveStatus → List RetransRequest → Type 0
  Finished map t r st reqs =
      (r' : FmtpReceiver) × (t' : RetransThread) × (st' : ReceiveStatus) × (serve sock stale
          (request_packets (reqs ++ request id 0 0 ∷ [])) r map t
        ≡ some (r', remove_finished_receiver map id sock, t'))
      × (lookup id r'.recv_status_map ≡ some st')
      × (st'.file_open ≡ false)
      × (length st'.content ≤ length file)
      × ((i : ℕ) → Has st.content file i ⊎ Asked reqs i → Has st'.content file i)

  request_packets-cons :
      (q : RetransRequest) (reqs : List RetransRequest)
      → request_packets (q ∷ reqs) ≡ request_packet q ∷ request_packets reqs
  unfolding request_packets
  request_packets-cons q reqs = refl

  serve-cons :
      (r : FmtpReceiver) (map map' : MetadataMap) (t t' : RetransThread) (h : Header)
      (q : RetransRequest) (rest : List (Header × RetransRequest)) (packets : List Packet)
      → retrans_round map t sock h q false stale ≡ some (map', t', packets)
      → serve sock stale ((h, q) ∷ rest) r map t
        ≡ serve sock stale rest (unicast_all r packets) map' t'
  unfolding serve
  serve-cons r map map' t t' h q rest packets round = rw (serve, round) refl

  pub serve_requests :
      (map : MetadataMap) (reqs : List RetransRequest) (t : RetransThread) (r : FmtpReceiver)
      (st : ReceiveStatus)
      → IsReady map t
      → IsOpen id file r st
      → All (AsksFile id (length file)) reqs
      → Finished map t r st reqs
  unfolding Finished Closed close_files Answered Repaired request_packet
  serve_requests map [] t r st v o a =
      let (r', t', served, found) = end_closes map r t st o.found in
      (
        r',
        t',
        close_files st,
        served,
        found,
        refl,
        o.fits,
        λ i h. elim h [ inl has ↦ has | inr n ↦ absurd n ],
      )
  serve_requests map (q ∷ reqs) t r st v o (a, rest) =
      let (t₁, packets, round, v₁, ans) = round_answers map t q v a in
      let (st₁, o₁, keep, add) = unicast_all-Repaired id file packets r st o ans.pieces in
      let (r', t', st', served, found, closed, fits, has) =
        serve_requests map reqs t₁ (unicast_all r packets) st₁ v₁ o₁ rest in
      (
        r',
        t',
        st',
        rw (request_packets-cons)
            (serve-cons r map map t t₁ (request_packet q).0 q _ packets round ∙ served),
        found,
        closed,
        fits,
        λ i h. has i (elim h [
          | inl there ↦ inl (keep i there)
          | inr asks ↦ elim asks [
            | inl here ↦ inl (add i (ans.complete i here.0 here.1))
            | inr later ↦ inr later
          ]
        ]),
      )
