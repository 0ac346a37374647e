-- ===== src/Protocol/FmtpSender/Multicasts.antt =====
-- What `DoMemoryTransfer` multicasts.
use fmtp_ldm.Prelude.{
  ℕ, zero, suc, ◌+◌, ◌-◌, ◌≤◌, ◌<◌, ◌≡◌, refl, true, some, List, [], ◌∷◌, length, ltb, lt-cases,
  inl, inr, arith, if◌then◌else◌,
}
use fmtp_ldm.Prelude.Word.{add32, add32_exact, u32_mod}
use fmtp_ldm.Protocol.{fmtp_data, fmtp_data_len}
use fmtp_ldm.Protocol.FmtpReceiver.Repairing.{Packet}
use fmtp_ldm.Protocol.FmtpSender.{transfer_loop, do_memory_transfer}

-- The headers name one piece after the other from `pos` to `end`, and each packet carries `content`.
abbrev pub Names : List ℕ → ℕ → ℕ → List Packet → Type 0
Names content pos end [] = pos ≡ end
Names content pos end ((h, payload) ∷ packets) =
    (h.seq_number ≡ pos)
    × (0 < h.data_len)
    × (h.data_len ≤ fmtp_data_len)
    × (payload ≡ content)
    × Names content (pos + h.data_len) end packets

module _ (session start : ℕ) (content : List ℕ) where
  abbrev named : ℕ → ℕ → Packet
  named pos n =
      (record { session_id = session; seq_number = pos; data_len = n; flags = fmtp_data }, content)

  transfer_loop-step :
      (fuel remained offset n pos : ℕ) {packets : List Packet}
      → 0 < remained
      → (if ltb remained fmtp_data_len then remained else fmtp_data_len) ≡ n
      → add32 offset start ≡ pos
      → transfer_loop fuel session content start (remained - n) (offset + n) ≡ some packets
      → transfer_loop (suc fuel) session content start remained offset
        ≡ some (named pos n ∷ packets)
  unfolding transfer_loop
  transfer_loop-step fuel remained offset n pos z e p ih =
      let t : ltb 0 remained ≡ true = ground arith in rw (t, e, ih, e, p) refl

  transfer_loop_lem :
      (fuel remained offset end : ℕ)
      → remained < fuel
      → offset + start + remained ≡ end
      → end < u32_mod
      → (packets : List Packet) × (transfer_loop fuel session content start remained offset
          ≡ some packets)
        × Names content (offset + start) end packets
  transfer_loop_lem zero remained offset end h e small = elim h [ ]
  transfer_loop_lem (suc fuel) remained offset end h e small = elim (lt-cases 0 remained) [
    | inr (t, z) ↦ ([], unfold transfer_loop in rw t refl, omega arith)
    | inl (t, z) ↦
        let pos = add32_exact offset start (omega arith) in
        elim (lt-cases remained fmtp_data_len) [
          | inl (u, l) ↦
              let n = remained in
              let (packets, q, names) =
                transfer_loop_lem fuel (remained - n) (offset + n) end (omega arith) (omega arith)
                  small in
              (
                named (offset + start) n ∷ packets,
                transfer_loop-step fuel remained offset n (offset + start) z (rw u refl) pos q,
                (refl, z, omega arith, refl, later offset n end packets names),
              )
          | inr (u, l) ↦
              let n : ℕ = fmtp_data_len in
              let (packets, q, names) =
                transfer_loop_lem fuel (remained - n) (offset + n) end (omega arith) (omega arith)
                  small in
              (
                named (offset + start) n ∷ packets,
                transfer_loop-step fuel remained offset n (offset + start) z (rw u refl) pos q,
                (refl, omega arith, omega arith, refl, later offset n end packets names),
              )
        ]
  ]
    where
      later :
          (offset n end : ℕ) (packets : List Packet)
          → Names content (offset + n + start) end packets
          → Names content (offset + start + n) end packets
      later offset n end packets names =
          let e : offset + n + start ≡ offset + start + n = omega arith in rw (← e) names

-- `DoMemoryTransfer` ends. The headers of its packets name the pieces of the content in order, each of at
-- most one payload, but every packet carries all of the content, from its start: the payload is longer
-- than the header says as soon as there is more than one packet.
pub do_memory_transfer_lem :
    (session start : ℕ) (content : List ℕ)
    → start + length content < u32_mod
    → (packets : List Packet) × (do_memory_transfer session content start ≡ some packets)
      × Names content start (start + length content) packets
unfolding do_memory_transfer
do_memory_transfer_lem session start content small =
    let (packets, e, names) =
      transfer_loop_lem session start content (suc (length content)) (length content) 0
        (start + length content) (omega arith) (omega arith) small in
    let z : 0 + start ≡ start = omega arith in (packets, e, rw z at names)
