-- ===== src/Protocol/FmtpSender/Files.antt =====
-- `SendFile`, and when a file has been received by all.
use fmtp_ldm.Prelude.{
  ℕ, zero, suc, ◌+◌, ◌-◌, ◌≤◌, ◌<◌, ◌≡◌, refl, true, some, List, [], ◌∷◌, ◌++◌, length, ltb,
  lt-cases, inl, inr, arith, if◌then◌else◌,
}
use fmtp_ldm.Prelude.Word.{add32, u32_mod}
use fmtp_ldm.Prelude.Dict.{lookup, insert, lookup-insert_self}
use fmtp_ldm.Prelude.Memory.{slice}
use fmtp_ldm.Protocol.{fmtp_data_len}
use fmtp_ldm.Protocol.Content.{length-slice}
use fmtp_ldm.Protocol.FmtpReceiver.Repairing.{Packet}
use fmtp_ldm.Protocol.FmtpSender.{
  MessageMetadata, do_memory_transfer, FmtpSender, bof_out, eof_out, max_mapped_mem_size, data_outs,
  mapped_loop, send_file, add_message_metadata,
}
use fmtp_ldm.Protocol.FmtpSender.Multicasts.{Names, do_memory_transfer_lem}

-- The headers name one piece after the other, from `pos` to `end`.
abbrev pub Pieces : ℕ → ℕ → List Packet → Type 0
Pieces pos end [] = pos ≡ end
Pieces pos end ((h, payload) ∷ packets) =
    (h.seq_number ≡ pos)
    × (0 < h.data_len)
    × (h.data_len ≤ fmtp_data_len)
    × Pieces (pos + h.data_len) end packets

Names-Pieces :
    (content : List ℕ) (pos end : ℕ) (packets : List Packet)
    → Names content pos end packets
    → Pieces pos end packets
Names-Pieces content pos end [] n = n
Names-Pieces content pos end ((h, payload) ∷ packets) (a, b, c, d, n) =
    (a, b, c, Names-Pieces content (pos + h.data_len) end packets n)

Pieces-append :
    (pos mid end : ℕ) (xs ys : List Packet)
    → Pieces pos mid xs
    → Pieces mid end ys
    → Pieces pos end (xs ++ ys)
Pieces-append pos mid end [] ys p q = rw p q
Pieces-append pos mid end ((h, payload) ∷ xs) ys (a, b, c, p) q =
    (a, b, c, Pieces-append (pos + h.data_len) mid end xs ys p q)

module _ (session : ℕ) (file : List ℕ) (small : length file < u32_mod) where
  mapped_loop-step :
      (fuel remained offset n : ℕ) {packets more : List Packet}
      → 0 < remained
      → (if ltb remained max_mapped_mem_size then remained else max_mapped_mem_size) ≡ n
      → do_memory_transfer session (slice offset n file) offset ≡ some packets
      → mapped_loop fuel session file (remained - n) (offset + n) ≡ some more
      → mapped_loop (suc fuel) session file remained offset ≡ some (packets ++ more)
  unfolding mapped_loop
  mapped_loop-step fuel remained offset n z e sent ih =
      let t : ltb 0 remained ≡ true = ground arith in rw (t, e, sent, e, ih) refl

  mapped_piece :
      (offset n : ℕ)
      → offset + n ≤ length file
      → (packets : List Packet) × (do_memory_transfer session (slice offset n file) offset
          ≡ some packets)
        × Pieces offset (offset + n) packets
  mapped_piece offset n h =
      let len = length-slice offset n file h in
      let (packets, e, names) =
        do_memory_transfer_lem session offset (slice offset n file) (omega (arith, len)) in
      (packets, e, rw len at (Names-Pieces (slice offset n file) offset _ packets names))

  mapped_loop_lem :
      (fuel remained offset : ℕ)
      → remained < fuel
      → offset + remained ≡ length file
      → (packets : List Packet) × (mapped_loop fuel session file remained offset ≡ some packets)
        × Pieces offset (length file) packets
  mapped_loop_lem zero remained offset h e = elim h [ ]
  mapped_loop_lem (suc fuel) remained offset h e = elim (lt-cases 0 remained) [
    | inr (t, z) ↦ ([], unfold mapped_loop in rw t refl, omega arith)
    | inl (t, z) ↦ elim (lt-cases remained max_mapped_mem_size) [
      | inl (u, l) ↦
          let n = remained in
          let (xs, sent, p) = mapped_piece offset n (omega arith) in
          let (ys, q, r) =
            mapped_loop_lem fuel (remained - n) (offset + n) (omega arith) (omega arith) in
          (
            xs ++ ys,
            mapped_loop-step fuel remained offset n z (rw u refl) sent q,
            Pieces-append offset (offset + n) (length file) xs ys p r,
          )
      | inr (u, l) ↦
          let n : ℕ = max_mapped_mem_size in
          let (xs, sent, p) = mapped_piece offset n (omega arith) in
          let (ys, q, r) =
            mapped_loop_lem fuel (remained - n) (offset + n) (omega arith) (omega arith) in
          (
            xs ++ ys,
            mapped_loop-step fuel remained offset n z (rw u refl) sent q,
            Pieces-append offset (offset + n) (length file) xs ys p r,
          )
    ]
  ]

-- `SendFile` ends. It takes the next session, notes the file with every receiver that is connected as
-- unfinished, and multicasts a BOF that announces the length, data packets whose headers name the whole
-- file in order, and an EOF.
pub send_file_lem :
    (s : FmtpSender) (sender_msg_len : ℕ) (file : List ℕ)
    → length file < u32_mod
    → (s' : FmtpSender) × (packets : List Packet) × (meta : MessageMetadata) × (send_file s
          sender_msg_len file
        ≡ some (
          s',
          bof_out
                  (record {
                    session_id = s'.cur_session_id;
                    seq_number = 0;
                    data_len = sender_msg_len;
                    flags = 1;
                  })
                  (length file)
                ∷ data_outs packets
              ++ eof_out (record {
                session_id = s'.cur_session_id;
                seq_number = 0;
                data_len = 0;
                flags = 2;
              })
                ∷ [],
        ))
      × (s'.cur_session_id ≡ add32 s.cur_session_id 1)
      × (lookup s'.cur_session_id s'.metadata ≡ some meta)
      × (meta.file ≡ file)
      × (meta.unfinished_recvers ≡ s.conn_sock_list)
      × Pieces 0 (length file) packets
unfolding send_file add_message_metadata
send_file_lem s sender_msg_len file small =
    let session = add32 s.cur_session_id 1 in
    let meta : MessageMetadata = record {
      msg_length = length file;
      file = file;
      unfinished_recvers = s.conn_sock_list;
    } in
    let (packets, e, p) =
      mapped_loop_lem session file small (suc (length file)) (length file) 0 (omega arith)
        (omega arith) in
    let s' : FmtpSender = record s {
      cur_session_id = session;
      metadata = insert session meta s.metadata;
    } in
    (
      s',
      packets,
      meta,
      rw (send_file, e) refl,
      refl,
      lookup-insert_self session meta s.metadata,
      refl,
      refl,
      p,
    )
