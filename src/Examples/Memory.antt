-- ===== src/Examples/Memory.antt =====
-- Memory transfers of the first protocol version at concrete inputs.
use fmtp_ldm.Prelude.{
  ℕ, ◌≡◌, refl, true, some, List, [], ◌∷◌, map, inl, inr, arith, ◌==◌, eq-cases, if◌then◌else◌,
}
use fmtp_ldm.Prelude.Dict.{lookup}
use fmtp_ldm.SenderMetadata.Sets.{member}
use fmtp_ldm.Protocol.{Header, fmtp_data}
use fmtp_ldm.Protocol.Memory.{
  Nack, MemoryTransfer, nack_loop, send_nack_messages, finish_transfer, MissingMap, nacks_of,
  receive_retrans_requests_serial, sort_sockets_by_shortest_jobs,
}
use fmtp_ldm.Protocol.Memory.Losses.{Drawn, multicast_packets, KeepsLoss, memory_loss_stays}
use fmtp_ldm.Protocol.Memory.Nacks.{collected-send_nack_messages}
use fmtp_ldm.Protocol.Memory.Messages.{Event, messages_of}
use fmtp_ldm.Protocol.Memory.Sorting.{requests_of, Ascending, sort_sockets_lem}
use fmtp_ldm.Protocol.Memory.Shortest.{keys}
use mathlib.Core.List.{Perm}

abbrev transfer : MemoryTransfer
transfer = record {
  offset = 0;
  mem_data = 0 ∷ 0 ∷ 0 ∷ [];
  nack_list = [];
  retrans_list = [];
  total_missing_bytes = 0;
}

abbrev data_at : ℕ → Header
data_at seq = record { session_id = 1; seq_number = seq; data_len = 1; flags = fmtp_data }

-- Byte 1 of three is lost.
abbrev packets : List Drawn
packets = (data_at 0, 7 ∷ [], 0) ∷ (data_at 2, 9 ∷ [], 0) ∷ []

memory_loss_stays_example :
    KeepsLoss
      (λ at. 99)
      1
      0
      (finish_transfer (λ at. 99) (multicast_packets (λ at. 99) 1 0 transfer packets) 3 [] [])
memory_loss_stays_example =
    memory_loss_stays (λ at. 99) 1 1 0 3 transfer packets [] [] refl refl
      (inr (omega arith), (inl (omega arith), tt)) tt

abbrev nack : ℕ → Nack
nack pos = record { seq_num = pos; data_len = 1 }

-- Socket 11 asks for bytes 0 and 2, socket 12 for nothing.
abbrev lists : ℕ → List Nack
lists sock = if sock == 11 then nack 0 ∷ nack 2 ∷ [] else []

abbrev events : List Event
events = (12, some []) ∷ (11, some (nack 0 ∷ nack 2 ∷ [])) ∷ (11, some []) ∷ []

listed :
    (sock : ℕ)
    → member sock (11 ∷ 12 ∷ []) ≡ true
    → messages_of sock events ≡ map some (send_nack_messages (lists sock))
unfolding member messages_of send_nack_messages nack_loop
listed sock l = elim (eq-cases sock 11) [
  | inl (t, e) ↦ rw e refl
  | inr (t, n) ↦ elim (eq-cases sock 12) [
    | inl (u, e) ↦ rw e refl
    | inr (u, m) ↦ absurd (ground arith)
  ]
]

collected_example :
    (m : MissingMap) × (receive_retrans_requests_serial events (11 ∷ 12 ∷ []) [] ≡ some m)
    × ((sock : ℕ) → member sock (11 ∷ 12 ∷ []) ≡ true → nacks_of sock m ≡ lists sock)
collected_example = collected-send_nack_messages lists events (11 ∷ 12 ∷ []) listed

abbrev missing : MissingMap
missing = (11, nack 0 ∷ nack 2 ∷ []) ∷ (12, nack 1 ∷ []) ∷ []

sort_sockets_example :
    (socks : List ℕ) × (sort_sockets_by_shortest_jobs 0 missing ≡ some socks)
    × Perm socks (keys missing)
    × Ascending (requests_of missing) socks
unfolding lookup
sort_sockets_example =
    sort_sockets_lem missing 0 (refl, (refl, tt)) (omega arith, (omega arith, tt))
