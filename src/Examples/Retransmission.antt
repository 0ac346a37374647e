-- ===== src/Examples/Retransmission.antt =====
-- The serial and the round robin retransmission of a file at concrete inputs: three blocks of one byte, two receivers.
use mathlib.Core.List.{Perm}
use fmtp_ldm.Prelude.{
  ℕ, ◌≡◌, refl, sym, subst, Option, some, List, [], ◌∷◌, map, All, inl, inr, eq-cases, arith,
}
use fmtp_ldm.Prelude.Dict.{lookup, insert}
use fmtp_ldm.SenderMetadata.Sets.{remove}
use fmtp_ldm.Protocol.Memory.{Nack, MissingMap, nacks_of, push_all, receive_retrans_requests_serial}
use fmtp_ldm.Protocol.Memory.Sorting.{requests_of, Ascending}
use fmtp_ldm.Protocol.Memory.Shortest.{keys}
use fmtp_ldm.Protocol.FileRetrans.{do_file_retransmission_serial}
use fmtp_ldm.Protocol.FileRetrans.Cached.{AsksBlock, fresh}
use fmtp_ldm.Protocol.FileRetrans.Serial.{do_file_retransmission_serial_lem}
use fmtp_ldm.Protocol.FmtpReceiver.Repairing.{Packet}
use fmtp_ldm.Protocol.RoundRobin.Asked.{AsksAll}
use fmtp_ldm.Protocol.Parallel.Interleaved.{sent_to}
use fmtp_ldm.Protocol.RoundRobin.{do_file_retransmission_serial_rr}
use fmtp_ldm.Protocol.RoundRobin.Compared.{served_to, do_file_retransmission_serial_rr_lem}

abbrev blocks : List ℕ
blocks = 7 ∷ 8 ∷ 9 ∷ []

abbrev block : ℕ → Nack
block pos = record { seq_num = pos; data_len = 1 }

abbrev len : ℕ → ℕ
len pos = 1

-- Socket 11 asks for blocks 0 and 1, socket 12 for block 0.
abbrev messages : List (ℕ × Option (List Nack))
messages =
    (11, some (block 0 ∷ block 1 ∷ []))
    ∷ (12, some (block 0 ∷ []))
    ∷ (12, some [])
    ∷ (11, some [])
    ∷ []

abbrev requests : MissingMap
requests = (11, block 0 ∷ block 1 ∷ []) ∷ (12, block 0 ∷ []) ∷ []

collected_requests : receive_retrans_requests_serial messages (11 ∷ 12 ∷ []) [] ≡ some requests
unfolding receive_retrans_requests_serial push_all nacks_of lookup insert remove
collected_requests = refl

requested_blocks : (sock : ℕ) → All (AsksBlock 32 1 blocks 0 [] len) (nacks_of sock requests)
unfolding nacks_of lookup
requested_blocks sock = elim (eq-cases 11 sock) [
  | inl (t, e) ↦
      let f : nacks_of sock requests ≡ block 0 ∷ block 1 ∷ [] = rw (nacks_of, t) refl in
      subst (All (AsksBlock 32 1 blocks 0 [] len)) (sym f)
        ((refl, (omega arith, omega arith)), ((refl, (omega arith, omega arith)), tt))
  | inr (t, n) ↦ elim (eq-cases 12 sock) [
    | inl (u, e) ↦
        let f : nacks_of sock requests ≡ block 0 ∷ [] = rw (nacks_of, t, u) refl in
        subst (All (AsksBlock 32 1 blocks 0 [] len)) (sym f)
          ((refl, (omega arith, omega arith)), tt)
    | inr (u, o) ↦
        let f : nacks_of sock requests ≡ [] = rw (nacks_of, t, u) refl in
        subst (All (AsksBlock 32 1 blocks 0 [] len)) (sym f) tt
  ]
]

file_retransmission_example :
    (socks : List ℕ) × (do_file_retransmission_serial 32 1 blocks 0 [] messages (11 ∷ 12 ∷ []) 0
      ≡ some
          (map (λ sock. (sock, map (fresh 32 1 blocks 0 [] len) (nacks_of sock requests))) socks))
    × Perm socks (keys requests)
    × Ascending (requests_of requests) socks
file_retransmission_example =
    do_file_retransmission_serial_lem 32 1 blocks 0 [] len messages (11 ∷ 12 ∷ []) 0 requests
      collected_requests (omega arith, (omega arith, tt)) requested_blocks

requested_each : AsksAll (AsksBlock 32 1 blocks 0 [] len) messages
requested_each = (
  ((refl, (omega arith, omega arith)), ((refl, (omega arith, omega arith)), tt)),
  (((refl, (omega arith, omega arith)), tt), (tt, (tt, tt))),
)

round_robin_example :
    (served : List (ℕ × List Packet)) × (outs : List (ℕ × Packet)) × (do_file_retransmission_serial
        32 1 blocks 0 [] messages
        (11 ∷ 12 ∷ [])
        0
      ≡ some served)
    × (do_file_retransmission_serial_rr 1 blocks 0 messages (11 ∷ 12 ∷ []) [] ≡ some outs)
    × ((sock : ℕ) → Perm (sent_to sock outs) (served_to sock served))
round_robin_example =
    do_file_retransmission_serial_rr_lem 32 1 blocks 0 [] len messages (11 ∷ 12 ∷ []) 0 [] requests
      collected_requests (omega arith, (omega arith, tt)) requested_each
