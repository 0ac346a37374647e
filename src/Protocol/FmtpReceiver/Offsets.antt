-- ===== src/Protocol/FmtpReceiver/Offsets.antt =====
-- The two descriptors of a file share one position: what a retransmitted packet does to the multicast.
use fmtp_ldm.Prelude.{
  ℕ, ◌+◌, ◌-◌, ◌≤◌, ◌<◌, ◌≡◌, refl, sym, ap, subst, ◌∙◌, true, false, some, List, length, ltb, leb,
  arith,
}
use fmtp_ldm.Prelude.Word.{add32}
use fmtp_ldm.Prelude.Dict.{lookup, insert, lookup-insert_self}
use fmtp_ldm.Prelude.Memory.{write_at, byte_at, byte_at-write_at}
use fmtp_ldm.Protocol.{Header, fmtp_retrans_data}
use fmtp_ldm.Protocol.FmtpReceiver.{
  ReceiveStatus, FmtpReceiver, SenderMessage, write_multicast, count_received, handle_data,
  handle_multicast_packet, write_retx, handle_unicast_packet, count_retrans,
}
use fmtp_ldm.Protocol.FmtpReceiver.Receiving.{data_header, handle_multicast_data}
use fmtp_ldm.Protocol.FmtpReceiver.Repairing.{retx_stored}

-- A packet that is next in order is written where the file stands.
handle_data_next :
    (r : FmtpReceiver) (st : ReceiveStatus) (id draw : ℕ) (payload : List ℕ)
    → lookup id r.recv_status_map ≡ some st
    → st.recv_failed ≡ false
    → leb r.packet_loss_rate draw ≡ true
    → handle_data r (data_header id st.current_offset (length payload)) payload draw ≡ record r {
      recv_status_map =
          insert id
            (write_multicast st (data_header id st.current_offset (length payload)) payload)
            r.recv_status_map;
      stats = count_received r.stats (length payload);
    }
unfolding handle_data
handle_data_next r st id draw payload found healthy kept =
    let t : ltb st.current_offset st.current_offset ≡ false = ground arith in
    rw (handle_data, found, kept, t, healthy) refl

next_content :
    (st : ReceiveStatus) (id place : ℕ) (payload : List ℕ)
    → st.file_open ≡ true
    → st.position ≡ place
    → (write_multicast st (data_header id st.current_offset (length payload)) payload).content
      ≡ write_at place payload st.content
unfolding write_multicast
next_content st id place payload e f =
    let t : ltb st.current_offset st.current_offset ≡ false = ground arith in rw (t, f, e) refl

retx_content :
    (st : ReceiveStatus) (h : Header) (payload : List ℕ)
    → st.file_open ≡ true
    → ((write_retx st h payload).content ≡ write_at h.seq_number payload st.content)
      × ((write_retx st h payload).position ≡ h.seq_number + length payload)
      × ((write_retx st h payload).current_offset ≡ st.current_offset)
      × ((write_retx st h payload).file_open ≡ true)
      × ((write_retx st h payload).recv_failed ≡ st.recv_failed)
unfolding write_retx
retx_content st h payload e = ground arith

-- The bytes of the second write, and those past both.
misplaced_bytes :
    (place : ℕ) (payload old : List ℕ) (i : ℕ)
    → i < length payload
    → byte_at (write_at place payload old) (place + i) ≡ byte_at payload i
misplaced_bytes place payload old i l =
    let t : leb place (place + i) ≡ true = ground arith in
    let u : ltb (place + i) (place + length payload) ≡ true = ground arith in
    let e : place + i - place ≡ i = omega arith in
    byte_at-write_at place payload old (place + i) ∙ rw (t, u, e) refl

past_write :
    (place : ℕ) (payload old : List ℕ) (i : ℕ)
    → place + length payload ≤ i
    → byte_at (write_at place payload old) i ≡ byte_at old i
past_write place payload old i l =
    let t : leb place i ≡ true = ground arith in
    let u : ltb i (place + length payload) ≡ false = ground arith in
    byte_at-write_at place payload old i ∙ rw (t, u) refl

-- What the two packets do to the receiver.
Misplaced : FmtpReceiver → FmtpReceiver → ReceiveStatus → ℕ → ℕ → List ℕ → Type 0
Misplaced r' r st id place payload =
    (st' : ReceiveStatus) × (lookup id r'.recv_status_map ≡ some st')
    × ((i : ℕ) → i < length payload → byte_at st'.content (place + i) ≡ byte_at payload i)
    × ((i : ℕ) → st.current_offset ≤ i → byte_at st'.content i ≡ byte_at st.content i)
    × (st'.current_offset ≡ add32 st.current_offset (length payload))
    × (r'.retrans_list ≡ r.retrans_list)

after_retx : FmtpReceiver → ReceiveStatus → Header → List ℕ → FmtpReceiver
after_retx r st h repair = record r {
  recv_status_map = insert h.session_id (write_retx st h repair) r.recv_status_map;
  stats = count_retrans r.stats h.data_len;
}

module _ (r : FmtpReceiver) (st : ReceiveStatus) (h : Header) (repair payload : List ℕ)
    (opened : st.file_open ≡ true) where
  abbrev after : ReceiveStatus
  after =
      write_multicast (write_retx st h repair)
        (data_header h.session_id st.current_offset (length payload)) payload

  after_content :
      after.content
      ≡ write_at (h.seq_number + length repair) payload (write_at h.seq_number repair st.content)
  unfolding write_retx
  after_content =
      let (e, p, o, f, g) = retx_content st h repair opened in
      next_content (write_retx st h repair) h.session_id (h.seq_number + length repair) payload f p
      ∙ ap (write_at (h.seq_number + length repair) payload) e

  next_step :
      (draw : ℕ) (msg : SenderMessage)
      → st.recv_failed ≡ false
      → leb r.packet_loss_rate draw ≡ true
      → handle_multicast_packet
          (after_retx r st h repair)
          (data_header h.session_id st.current_offset (length payload))
          payload
          msg
          draw
        ≡ record (after_retx r st h repair) {
          recv_status_map = insert h.session_id after (after_retx r st h repair).recv_status_map;
          stats = count_received (after_retx r st h repair).stats (length payload);
        }
  unfolding after_retx write_retx
  next_step draw msg healthy kept =
      handle_multicast_data h.session_id (after_retx r st h repair) st.current_offset
        (length payload) draw msg payload
      ∙ handle_data_next (after_retx r st h repair) (write_retx st h repair) h.session_id draw
          payload (lookup-insert_self h.session_id (write_retx st h repair) r.recv_status_map)
          healthy kept

-- A retransmitted packet that comes before the EOF moves the place at which the multicast goes on. The
-- next data packet, if it is the one that the receiver waits for, is written right behind the
-- retransmitted bytes. When these lie before it in the file, its own place stays as it was, the
-- receiver counts it as received, and no request is made for it.
pub retx_misplaces_next :
    (r : FmtpReceiver) (st : ReceiveStatus) (h : Header) (repair payload : List ℕ) (draw : ℕ)
    (msg : SenderMessage)
    → lookup h.session_id r.recv_status_map ≡ some st
    → (st.file_open ≡ true) × (st.recv_failed ≡ false)
    → leb r.packet_loss_rate draw ≡ true
    → h.flags ≡ fmtp_retrans_data
    → h.seq_number + length repair + length payload ≤ st.current_offset
    → let r' =
        handle_multicast_packet
          (handle_unicast_packet r h repair)
          (data_header h.session_id st.current_offset (length payload))
          payload
          msg
          draw in
      (st' : ReceiveStatus) × (lookup h.session_id r'.recv_status_map ≡ some st')
      × ((i : ℕ)
          → i < length payload
          → byte_at st'.content (h.seq_number + length repair + i) ≡ byte_at payload i)
      × ((i : ℕ) → st.current_offset ≤ i → byte_at st'.content i ≡ byte_at st.content i)
      × (st'.current_offset ≡ add32 st.current_offset (length payload))
      × (r'.retrans_list ≡ r.retrans_list)
unfolding Misplaced after_retx write_multicast write_retx
retx_misplaces_next r st h repair payload draw msg found o kept flags before =
    let place = h.seq_number + length repair in
    let next = data_header h.session_id st.current_offset (length payload) in
    let st' = after r st h repair payload o.0 in
    let written = after_content r st h repair payload o.0 in
    let repaired = write_at h.seq_number repair st.content in
    subst
      (λ x.
        Misplaced (handle_multicast_packet x next payload msg draw) r st h.session_id place payload)
      (sym (retx_stored r st h repair found flags))
      (subst (λ x. Misplaced x r st h.session_id place payload)
        (sym (next_step r st h repair payload o.0 draw msg o.1 kept))
        (
          st',
          lookup-insert_self h.session_id st' (after_retx r st h repair).recv_status_map,
          λ i l.
              ap (λ c. byte_at c (place + i)) written ∙ misplaced_bytes place payload repaired i l,
          λ i l.
              ap (λ c. byte_at c i) written
              ∙ past_write place payload repaired i (omega arith)
              ∙ past_write h.seq_number repair st.content i (omega arith),
          refl,
          refl,
        ))
