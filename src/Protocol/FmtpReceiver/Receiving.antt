-- ===== src/Protocol/FmtpReceiver/Receiving.antt =====
-- The multicast of a file as the receiver takes it: every byte is stored or asked for.
use fmtp_ldm.Prelude.{
  ℕ, ◌+◌, ◌≤◌, ◌<◌, ◌≡◌, refl, sym, subst, ◌⊎◌, inl, inr, true, false, some, List, [], ◌∷◌, ◌++◌,
  length, ltb, leb, lt-cases, Bool-cases, All, All-append, arith, if◌then◌else◌,
}
use fmtp_ldm.Prelude.Word.{add32_exact, sub32_exact, u32_mod}
use fmtp_ldm.Prelude.Dict.{lookup, insert, lookup-insert_self}
use fmtp_ldm.Prelude.Memory.{write_at, slice}
use fmtp_ldm.Protocol.{Header, fmtp_data, RetransRequest}
use fmtp_ldm.Protocol.Content.{
  Has, Asked, Asked-append_left, Asked-append_right, length-slice, write_at-Has, write_at-Has_piece,
  length-write_at_piece,
}
use fmtp_ldm.Protocol.FmtpReceiver.{
  ReceiveStatus, FmtpReceiver, request, add_retx_request, write_multicast, count_received,
  handle_data, SenderMessage, handle_multicast_packet,
}

-- A data packet of the file comes: its place, its length, and the random draw that may drop it.
pub record Arrival : Type 0 where
  pub seq : ℕ
  pub len : ℕ
  pub draw : ℕ

abbrev pub data_header : ℕ → ℕ → ℕ → Header
data_header session seq len = record {
  session_id = session;
  seq_number = seq;
  data_len = len;
  flags = fmtp_data;
}

-- In the order of the file from `off` on, with any gaps.
abbrev pub InOrder : ℕ → ℕ → List Arrival → Type 0
InOrder off size [] = off ≤ size
InOrder off size (a ∷ rest) = (off ≤ a.seq) × InOrder (a.seq + a.len) size rest

-- A request for bytes of the file.
abbrev pub AsksFile : ℕ → ℕ → RetransRequest → Type 0
AsksFile id size q = (q.msg_id ≡ id) × (0 < q.data_len) × (q.seq_num + q.data_len ≤ size)

-- A file is being received: what is before the offset is stored or asked for.
pub record IsReceiving (id : ℕ) (file : List ℕ) (st : ReceiveStatus) (reqs : List RetransRequest)
    : Type 0 where
  pub opened : st.file_open ≡ true
  pub healthy : st.recv_failed ≡ false
  pub size : st.msg_length ≡ length file
  pub place : st.position ≡ st.current_offset
  pub inside : st.current_offset ≤ length file
  pub fits : length st.content ≤ length file
  pub asked : All (AsksFile id (length file)) reqs
  pub known : (i : ℕ) → i < st.current_offset → Has st.content file i ⊎ Asked reqs i

pub handle_multicast_data :
    (id : ℕ) (r : FmtpReceiver) (seq len draw : ℕ) (msg : SenderMessage) (payload : List ℕ)
    → handle_multicast_packet r (data_header id seq len) payload msg draw
      ≡ handle_data r (data_header id seq len) payload draw
unfolding handle_multicast_packet
handle_multicast_data id r seq len draw msg payload = refl

module _ (id : ℕ) (file : List ℕ) (small : length file < u32_mod) where
  -- The requests after a packet at `seq`.
  abbrev pub with_gap : List RetransRequest → ℕ → ℕ → List RetransRequest
  with_gap reqs offset seq = if ltb offset seq then reqs ++ request id offset seq ∷ [] else reqs

  pub gap_known :
      (st : ReceiveStatus) (reqs : List RetransRequest) (seq i : ℕ)
      → IsReceiving id file st reqs
      → seq ≤ length file
      → i < seq
      → Has st.content file i ⊎ Asked (with_gap reqs st.current_offset seq) i
  gap_known st reqs seq i v h k = elim (lt-cases st.current_offset seq) [
    | inr (t, l) ↦ rw t (v.known i (omega arith))
    | inl (t, l) ↦
        let e = sub32_exact seq st.current_offset (omega arith) (omega arith) in
        rw t (elim (lt-cases i st.current_offset) [
          | inl (u, m) ↦ elim (v.known i m) [
            | inl has ↦ inl has
            | inr asks ↦ inr (Asked-append_left reqs _ i asks)
          ]
          | inr (u, m) ↦ inr (Asked-append_right reqs _ i (inl (m, omega (arith, e))))
        ])
  ]

  pub gap_asked :
      (st : ReceiveStatus) (reqs : List RetransRequest) (seq : ℕ)
      → IsReceiving id file st reqs
      → seq ≤ length file
      → All (AsksFile id (length file)) (with_gap reqs st.current_offset seq)
  gap_asked st reqs seq v h = elim (lt-cases st.current_offset seq) [
    | inr (t, l) ↦ rw t v.asked
    | inl (t, l) ↦
        let e = sub32_exact seq st.current_offset (omega arith) (omega arith) in
        rw t (
          All-append (AsksFile id (length file)) reqs _ v.asked
            ((refl, omega (arith, e), omega (arith, e)), tt))
  ]

  -- The status after a data packet that is not dropped.
  abbrev pub stored : ReceiveStatus → ℕ → ℕ → ReceiveStatus
  stored st seq len = record st {
    content = write_at seq (slice seq len file) st.content;
    position = seq + length (slice seq len file);
    current_offset = seq + len;
    multicast_packets = st.multicast_packets + 1;
    multicast_bytes = st.multicast_bytes + len;
  }

  write_multicast_lem :
      (st : ReceiveStatus) (reqs : List RetransRequest) (seq len : ℕ)
      → IsReceiving id file st reqs
      → st.current_offset ≤ seq
      → seq + len ≤ length file
      → write_multicast st (data_header id seq len) (slice seq len file) ≡ stored st seq len
  unfolding write_multicast
  write_multicast_lem st reqs seq len v h k =
      let e = add32_exact seq len (omega arith) in
      elim (lt-cases st.current_offset seq) [
        | inl (t, l) ↦ rw (t, v.opened, e) refl
        | inr (t, l) ↦
            let p : st.position ≡ seq = omega (arith, v.place) in rw (t, v.opened, e, p) refl
      ]

  stored-IsReceiving :
      (st : ReceiveStatus) (reqs : List RetransRequest) (seq len : ℕ)
      → IsReceiving id file st reqs
      → seq + len ≤ length file
      → IsReceiving id file (stored st seq len) (with_gap reqs st.current_offset seq)
  stored-IsReceiving st reqs seq len v k = record {
    opened = v.opened;
    healthy = v.healthy;
    size = v.size;
    place = omega (arith, length-slice seq len file k);
    inside = k;
    fits = length-write_at_piece st.content file seq len k v.fits;
    asked = gap_asked st reqs seq v (omega arith);
    known = λ i l. elim (lt-cases i seq) [
      | inr (t, m) ↦ inl (write_at-Has_piece st.content file seq len k i m l)
      | inl (t, m) ↦ elim (gap_known st reqs seq i v (omega arith) m) [
        | inl has ↦ inl (write_at-Has st.content file seq len k i has)
        | inr asks ↦ inr asks
      ]
    ];
  }

  -- What the receiver knows of the file.
  abbrev pub Receives : FmtpReceiver → ReceiveStatus → Type 0
  Receives r st = (lookup id r.recv_status_map ≡ some st) × IsReceiving id file st r.retrans_list

  -- The receiver after a data packet that is not dropped.
  abbrev after_data : FmtpReceiver → ReceiveStatus → ℕ → ℕ → FmtpReceiver
  after_data r st seq len = record r {
    recv_status_map = insert id (stored st seq len) r.recv_status_map;
    retrans_list = with_gap r.retrans_list st.current_offset seq;
    stats = count_received r.stats len;
  }

  handle_data_kept :
      (r : FmtpReceiver) (st : ReceiveStatus) (seq len draw : ℕ)
      → lookup id r.recv_status_map ≡ some st
      → st.recv_failed ≡ false
      → leb r.packet_loss_rate draw ≡ true
      → write_multicast st (data_header id seq len) (slice seq len file) ≡ stored st seq len
      → handle_data r (data_header id seq len) (slice seq len file) draw ≡ after_data r st seq len
  unfolding handle_data add_retx_request
  handle_data_kept r st seq len draw found healthy kept written =
      elim (Bool-cases (ltb st.current_offset seq)) [
        | inl t ↦ rw (handle_data, found, written, kept, t, healthy) refl
        | inr t ↦ rw (handle_data, found, written, kept, t, healthy) refl
      ]

  handle_data_dropped :
      (r : FmtpReceiver) (st : ReceiveStatus) (seq len draw : ℕ)
      → lookup id r.recv_status_map ≡ some st
      → st.recv_failed ≡ false
      → leb r.packet_loss_rate draw ≡ false
      → handle_data r (data_header id seq len) (slice seq len file) draw ≡ r
  unfolding handle_data
  handle_data_dropped r st seq len draw found healthy dropped =
      rw (handle_data, found, healthy, dropped) refl

  -- The status afterwards, and that the offset is not past the packet.
  Step : FmtpReceiver → ℕ → Type 0
  Step r offset = (st : ReceiveStatus) × Receives r st × (st.current_offset ≤ offset)

  handle_data-Step :
      (r : FmtpReceiver) (st : ReceiveStatus) (a : Arrival)
      → Receives r st
      → st.current_offset ≤ a.seq
      → a.seq + a.len ≤ length file
      → Step
          (handle_data r (data_header id a.seq a.len) (slice a.seq a.len file) a.draw)
          (a.seq + a.len)
  unfolding Step
  handle_data-Step r st a (found, v) h k = elim (Bool-cases (leb r.packet_loss_rate a.draw)) [
    | inr dropped ↦
        subst (λ x. Step x (a.seq + a.len))
          (sym (handle_data_dropped r st a.seq a.len a.draw found v.healthy dropped))
          (st, (found, v), omega arith)
    | inl kept ↦
        let written = write_multicast_lem st r.retrans_list a.seq a.len v h k in
        subst (λ x. Step x (a.seq + a.len))
          (sym (handle_data_kept r st a.seq a.len a.draw found v.healthy kept written))
          (
            stored st a.seq a.len,
            (
              lookup-insert_self id (stored st a.seq a.len) r.recv_status_map,
              stored-IsReceiving st r.retrans_list a.seq a.len v k,
            ),
            omega arith,
          )
  ]

  -- The packets come one after the other; `msg` is what their bytes would say as a message.
  unfoldable pub receive : SenderMessage → FmtpReceiver → List Arrival → FmtpReceiver
  receive msg r [] = r
  receive msg r (a ∷ rest) =
      receive msg
        (handle_multicast_packet r (data_header id a.seq a.len) (slice a.seq a.len file) msg a.draw)
        rest

  InOrder-lower :
      (low high : ℕ) (arrivals : List Arrival)
      → low ≤ high
      → InOrder high (length file) arrivals
      → InOrder low (length file) arrivals
  InOrder-lower low high [] h o = omega arith
  InOrder-lower low high (a ∷ rest) h o = (omega (arith, o.0), o.1)

  InOrder-inside :
      (off : ℕ) (arrivals : List Arrival) → InOrder off (length file) arrivals → off ≤ length file
  InOrder-inside off [] o = o
  InOrder-inside off (a ∷ rest) o = omega (arith, o.0, InOrder-inside (a.seq + a.len) rest o.1)

  pub receive-Receives :
      (msg : SenderMessage) (arrivals : List Arrival) (r : FmtpReceiver) (st : ReceiveStatus)
      → Receives r st
      → InOrder st.current_offset (length file) arrivals
      → (st' : ReceiveStatus) × Receives (receive msg r arrivals) st'
  unfolding receive Step
  receive-Receives msg [] r st v o = (st, v)
  receive-Receives msg (a ∷ rest) r st v o =
      let e = handle_multicast_data id r a.seq a.len a.draw msg (slice a.seq a.len file) in
      let (st', v', l) = handle_data-Step r st a v o.0 (InOrder-inside (a.seq + a.len) rest o.1) in
      rw (receive, e)
        (receive-Receives msg rest
          (handle_data r (data_header id a.seq a.len) (slice a.seq a.len file) a.draw) st' v'
          (InOrder-lower st'.current_offset (a.seq + a.len) rest l o.1))
