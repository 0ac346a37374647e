-- ===== src/Protocol/RoundRobin/Plain.antt =====
-- The packets of the round robin scheme, when all requests lie in the file.
use mathlib.Core.Path.{ap₂}
use fmtp_ldm.Prelude.{ℕ, ◌≡◌, refl, List, [], ◌∷◌, ◌++◌, All}
use fmtp_ldm.Protocol.FmtpReceiver.Repairing.{Packet}
use fmtp_ldm.Protocol.Memory.{Nack}
use fmtp_ldm.Protocol.Parallel.Packets.{InFile, asked_packet, block_packet-InFile}
use fmtp_ldm.Protocol.Parallel.{read_block}
use fmtp_ldm.Protocol.RoundRobin.{RrMap, send_to_socks, send_map}

module _ (session : ℕ) (file : List ℕ) (stale_flags : ℕ) where
  unfoldable pub plain_to_socks : Nack → List ℕ → List (ℕ × Packet)
  plain_to_socks nack [] = []
  plain_to_socks nack (sock ∷ socks) =
      (sock, asked_packet session file stale_flags nack) ∷ plain_to_socks nack socks

  unfoldable pub plain_map : RrMap → List (ℕ × Packet)
  unfolding plain_to_socks
  plain_map [] = []
  plain_map ((nack, socks) ∷ rest) = plain_to_socks nack socks ++ plain_map rest

  send_to_socks-plain :
      (nack : Nack) (socks buffer : List ℕ)
      → InFile file nack
      → (send_to_socks session file stale_flags nack socks buffer).0 ≡ plain_to_socks nack socks
  unfolding send_to_socks plain_to_socks
  send_to_socks-plain nack [] buffer i = refl
  send_to_socks-plain nack (sock ∷ socks) buffer i =
      ap₂ (λ (p : Packet) (rest : List (ℕ × Packet)). (sock, p) ∷ rest)
        (block_packet-InFile session file stale_flags nack buffer i)
        (send_to_socks-plain nack socks (read_block session file stale_flags nack buffer) i)

  -- Whatever the buffer holds, it is not seen.
  pub send_map-plain :
      (m : RrMap) (buffer : List ℕ)
      → All (λ (e : Nack × List ℕ). InFile file e.0) m
      → send_map session file stale_flags m buffer ≡ plain_map m
  unfolding send_map plain_map
  send_map-plain [] buffer a = refl
  send_map-plain ((nack, socks) ∷ rest) buffer (i, a) =
      ap₂ ◌++◌ (send_to_socks-plain nack socks buffer i)
        (send_map-plain rest (send_to_socks session file stale_flags nack socks buffer).1 a)
