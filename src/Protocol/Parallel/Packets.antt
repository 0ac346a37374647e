-- ===== src/Protocol/Parallel/Packets.antt =====
-- What `RunRetransmissionThread` and `DoFileRetransmissionSerialRR` send for a request in the file.
use fmtp_ldm.Prelude.{ℕ, ◌+◌, ◌≤◌, ◌≡◌, ap, List, length}
use fmtp_ldm.Prelude.Memory.{slice}
use fmtp_ldm.Protocol.{fmtp_data_len}
use fmtp_ldm.Protocol.Content.{length-slice}
use fmtp_ldm.Protocol.FmtpReceiver.Repairing.{Packet}
use fmtp_ldm.Protocol.FmtpSender.Answers.{take-write_at}
use fmtp_ldm.Protocol.Memory.{Nack}
use fmtp_ldm.Protocol.Parallel.{block_packet}

-- The range of a request lies in the file, and is not longer than the payload of a packet.
abbrev pub InFile : List ℕ → Nack → Type 0
InFile file nack = (nack.seq_num + nack.data_len ≤ length file) × (nack.data_len ≤ fmtp_data_len)

-- The header of a request, with the bytes of the file from its place on.
abbrev pub asked_packet : ℕ → List ℕ → ℕ → Nack → Packet
asked_packet session file stale_flags nack = (
  record {
    session_id = session;
    seq_number = nack.seq_num;
    data_len = nack.data_len;
    flags = stale_flags;
  },
  slice nack.seq_num nack.data_len file,
)

pub block_packet-InFile :
    (session : ℕ) (file : List ℕ) (stale_flags : ℕ) (nack : Nack) (buffer : List ℕ)
    → InFile file nack
    → block_packet session file stale_flags nack buffer ≡ asked_packet session file stale_flags nack
block_packet-InFile session file stale_flags nack buffer (inside, short) =
    ap (λ (bytes : List ℕ). ((asked_packet session file stale_flags nack).0, bytes))
      (take-write_at (slice nack.seq_num nack.data_len file) buffer nack.data_len
        (length-slice nack.seq_num nack.data_len file inside))
