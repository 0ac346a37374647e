-- ===== src/Protocol/FmtpReceiver/Repairing.antt =====
-- The end of the multicast, and the retransmitted packets: what was asked for is stored as it comes.
use fmtp_ldm.Prelude.{
  ℕ, ◌+◌, ◌≤◌, ◌<◌, ◌≡◌, refl, sym, ap, subst, ◌∙◌, ◌⊎◌, inl, inr, true, some, List, [], ◌∷◌, ◌++◌,
  length, ltb, Bool-cases, All, arith, if◌then◌else◌,
}
use fmtp_ldm.Prelude.Word.{u32_mod}
use fmtp_ldm.Prelude.Dict.{lookup, insert, lookup-insert_self}
use fmtp_ldm.Prelude.Memory.{write_at, slice}
use fmtp_ldm.Protocol.{Header, fmtp_retrans_data}
use fmtp_ldm.Protocol.Content.{Has, Asked, write_at-Has, write_at-Has_piece, length-write_at_piece}
use fmtp_ldm.Protocol.FmtpReceiver.{
  ReceiveStatus, FmtpReceiver, request, add_retx_request, handle_eof_message, write_retx,
  count_retrans, handle_unicast_packet,
}
use fmtp_ldm.Protocol.FmtpReceiver.Receiving.{Receives, AsksFile, with_gap, gap_known, gap_asked}

-- A retransmitted packet, and the bytes that it carries.
abbrev pub Packet : Type 0
Packet = Header × List ℕ

abbrev pub IsPiece : ℕ → List ℕ → Packet → Type 0
IsPiece id file (h, payload) =
    (h.session_id ≡ id)
    × (h.flags ≡ fmtp_retrans_data)
    × (h.seq_number + h.data_len ≤ length file)
    × (payload ≡ slice h.seq_number h.data_len file)

abbrev pub Carried : List Packet → ℕ → Type 0
Carried [] i = ⊥
Carried ((h, payload) ∷ packets) i =
    ((h.seq_number ≤ i) × (i < h.seq_number + h.data_len)) ⊎ Carried packets i

-- The file is open and not longer than it should be.
pub record IsOpen (id : ℕ) (file : List ℕ) (r : FmtpReceiver) (st : ReceiveStatus) : Type 0 where
  pub found : lookup id r.recv_status_map ≡ some st
  pub opened : st.file_open ≡ true
  pub fits : length st.content ≤ length file

unfoldable pub unicast_all : FmtpReceiver → List Packet → FmtpReceiver
unicast_all r [] = r
unicast_all r ((h, payload) ∷ packets) = unicast_all (handle_unicast_packet r h payload) packets

retx_content :
    (st : ReceiveStatus) (h : Header) (payload : List ℕ)
    → st.file_open ≡ true
    → (write_retx st h payload).content ≡ write_at h.seq_number payload st.content
unfolding write_retx
retx_content st h payload e = ground arith

pub retx_stored :
    (r : FmtpReceiver) (st : ReceiveStatus) (h : Header) (payload : List ℕ)
    → lookup h.session_id r.recv_status_map ≡ some st
    → h.flags ≡ fmtp_retrans_data
    → handle_unicast_packet r h payload ≡ record r {
      recv_status_map = insert h.session_id (write_retx st h payload) r.recv_status_map;
      stats = count_retrans r.stats h.data_len;
    }
unfolding handle_unicast_packet
retx_stored r st h payload found f = rw (handle_unicast_packet, f, found) refl

module _ (id : ℕ) (file : List ℕ) where
  -- The receiver has a file in which nothing is lost that `st` had, and where `S` has been added.
  unfoldable pub Repaired : FmtpReceiver → ReceiveStatus → (ℕ → Type 0) → Type 0
  Repaired r st S =
      (st' : ReceiveStatus) × IsOpen id file r st'
      × ((i : ℕ) → Has st.content file i → Has st'.content file i)
      × ((i : ℕ) → S i → Has st'.content file i)

  retx-Repaired :
      (r : FmtpReceiver) (st : ReceiveStatus) (h : Header) (payload : List ℕ)
      → IsOpen id file r st
      → IsPiece id file (h, payload)
      → Repaired
          (handle_unicast_packet r h payload)
          st
          (λ i. (h.seq_number ≤ i) × (i < h.seq_number + h.data_len))
  unfolding Repaired write_retx
  retx-Repaired r st h payload o (e, f, inside, g) =
      let written =
        retx_content st h payload o.opened ∙ ap (λ p. write_at h.seq_number p st.content) g in
      subst (λ x. Repaired x st (λ i. (h.seq_number ≤ i) × (i < h.seq_number + h.data_len)))
        (sym (retx_stored r st h payload (rw e o.found) f))
        (
          write_retx st h payload,
          record {
            found = rw e (lookup-insert_self id (write_retx st h payload) r.recv_status_map);
            opened = o.opened;
            fits =
                rw written
                  (length-write_at_piece st.content file h.seq_number h.data_len inside o.fits);
          },
          λ i has. rw written (write_at-Has st.content file h.seq_number h.data_len inside i has),
          λ i at.
              rw written
                (write_at-Has_piece st.content file h.seq_number h.data_len inside i at.0 at.1),
        )

  pub unicast_all-Repaired :
      (packets : List Packet) (r : FmtpReceiver) (st : ReceiveStatus)
      → IsOpen id file r st
      → All (IsPiece id file) packets
      → Repaired (unicast_all r packets) st (Carried packets)
  unfolding Repaired unicast_all
  unicast_all-Repaired [] r st o a = (st, o, λ i h. h, λ i h. absurd h)
  unicast_all-Repaired ((h, payload) ∷ packets) r st o (a, rest) =
      let (st', o', keep, add) = retx-Repaired r st h payload o a in
      let (st'', o'', keep', add') =
        unicast_all-Repaired packets (handle_unicast_packet r h payload) st' o' rest in
      (
        st'',
        o'',
        λ i has. keep' i (keep i has),
        λ i c. elim c [ inl here ↦ keep' i (add i here) | inr later ↦ add' i later ],
      )

  module _ (small : length file < u32_mod) where
    abbrev finished : ReceiveStatus → ReceiveStatus
    finished st = record st {
      is_multicast_done = true;
      current_offset =
          if ltb st.current_offset (length file) then length file else st.current_offset;
    }

    eof_lem :
        (r : FmtpReceiver) (st : ReceiveStatus)
        → lookup id r.recv_status_map ≡ some st
        → st.msg_length ≡ length file
        → handle_eof_message r id ≡ record r {
          recv_status_map = insert id (finished st) r.recv_status_map;
          retrans_list =
              with_gap id file small r.retrans_list st.current_offset (length file)
              ++ request id 0 0 ∷ [];
        }
    unfolding handle_eof_message add_retx_request
    eof_lem r st found e = elim (Bool-cases (ltb st.current_offset (length file))) [
      | inl t ↦ rw (handle_eof_message, found, e, t) refl
      | inr t ↦ rw (handle_eof_message, found, e, t) refl
    ]

    -- After the EOF, all of the file is stored or asked for, and the request that ends the list is added.
    pub handle_eof_message_lem :
        (r : FmtpReceiver) (st : ReceiveStatus)
        → Receives id file small r st
        → (st' : ReceiveStatus) × IsOpen id file (handle_eof_message r id) st'
          × (let reqs = with_gap id file small r.retrans_list st.current_offset (length file) in
              ((handle_eof_message r id).retrans_list ≡ reqs ++ request id 0 0 ∷ [])
              × All (AsksFile id (length file)) reqs
              × ((i : ℕ) → i < length file → Has st'.content file i ⊎ Asked reqs i))
    handle_eof_message_lem r st (found, v) =
        let size = length file in
        let reqs = with_gap id file small r.retrans_list st.current_offset size in
        let st' = finished st in
        subst
          (λ x.
            (st' : ReceiveStatus) × IsOpen id file x st'
            × ((x.retrans_list ≡ reqs ++ request id 0 0 ∷ [])
                × All (AsksFile id size) reqs
                × ((i : ℕ) → i < size → Has st'.content file i ⊎ Asked reqs i)))
          (sym (eof_lem r st found v.size))
          (
            finished st,
            record {
              found = lookup-insert_self id (finished st) r.recv_status_map;
              opened = v.opened;
              fits = v.fits;
            },
            (
              refl,
              gap_asked id file small st r.retrans_list size v (omega arith),
              λ i l. gap_known id file small st r.retrans_list size i v (omega arith) l,
            ),
          )
