-- ===== src/Protocol/Parallel.antt =====
-- The parallel retransmission of a file in the first protocol version, protocol/FMTPSender.cpp:
-- `DoFileRetransmissionParallel` and `RunRetransmissionThread`. The threads take sockets from one list
-- under a mutex; a schedule says which thread goes on. `stale_flags` is what the flags of a header hold,
-- which nothing sets. Statistics are not modelled.
pub mod Packets
pub mod Owed
pub mod Leaving
pub mod Interleaved
pub mod Ending
use fmtp_ldm.Prelude.{ℕ, zero, suc, List, [], ◌∷◌, ◌++◌, take}
use fmtp_ldm.Prelude.Memory.{write_at, slice}
use fmtp_ldm.Protocol.{Header}
use fmtp_ldm.Protocol.FmtpReceiver.Repairing.{Packet}
use fmtp_ldm.Protocol.Memory.{Nack, MissingMap, nacks_of}

-- Where a thread is: before it takes a socket, among the requests of one, or at its end; with what its
-- `packet_buf` holds after the header.
pub data Worker : Type 0 where
  ready : List ℕ → Worker
  serving : ℕ → List Nack → List ℕ → Worker
  exited : Worker

pub record Pool : Type 0 where
  pub retrans_sock_list : List ℕ
  pub workers : List Worker
  pub sent : List (ℕ × Packet)

-- `buffers` is what the buffer of each thread holds at its start.
unfoldable pub ready_workers : (ℕ → List ℕ) → ℕ → List Worker
ready_workers buffers zero = []
ready_workers buffers (suc n) = ready (buffers n) ∷ ready_workers buffers n

-- The start of the threads, with the sockets in the order of the sort.
abbrev pub start : (ℕ → List ℕ) → List ℕ → ℕ → Pool
start buffers socks num_retrans_threads = record {
  retrans_sock_list = socks;
  workers = ready_workers buffers num_retrans_threads;
  sent = [];
}

module _ (session : ℕ) (file : List ℕ) (stale_flags : ℕ) where
  -- `read` puts what the file has from the place of the request on at the start of the buffer.
  abbrev pub read_block : Nack → List ℕ → List ℕ
  read_block nack buffer = write_at 0 (slice nack.seq_num nack.data_len file) buffer

  -- The header and `data_len` bytes of the buffer.
  abbrev pub block_packet : Nack → List ℕ → Packet
  block_packet nack buffer = (
    record {
      session_id = session;
      seq_number = nack.seq_num;
      data_len = nack.data_len;
      flags = stale_flags;
    },
    take nack.data_len (read_block nack buffer),
  )

module _ (session : ℕ) (file : List ℕ) (stale_flags : ℕ) (m : MissingMap) where
  -- What a thread does next: it takes a socket or ends, sends a packet, or has served its socket.
  unfoldable pub act : Worker → List ℕ → Worker × List ℕ × List (ℕ × Packet)
  act (ready buf) [] = (exited, [], [])
  act (ready buf) (sock ∷ socks) = (serving sock (nacks_of sock m) buf, socks, [])
  act (serving sock [] buf) socks = (ready buf, socks, [])
  act (serving sock (nack ∷ nacks) buf) socks = (
    serving sock nacks (read_block session file stale_flags nack buf),
    socks,
    (sock, block_packet session file stale_flags nack buf) ∷ [],
  )
  act exited socks = (exited, socks, [])

  -- The thread at a place of the list of threads goes on.
  unfoldable pub act_at : ℕ → List Worker → List ℕ → List Worker × List ℕ × List (ℕ × Packet)
  unfolding act
  act_at n [] socks = ([], socks, [])
  act_at zero (w ∷ ws) socks = let (w', socks', out) = act w socks in (w' ∷ ws, socks', out)
  act_at (suc n) (w ∷ ws) socks =
      let (ws', socks', out) = act_at n ws socks in (w ∷ ws', socks', out)

  unfoldable pub step : ℕ → Pool → Pool
  unfolding act_at
  step n p =
      let (ws, socks, out) = act_at n p.workers p.retrans_sock_list in
      record { retrans_sock_list = socks; workers = ws; sent = p.sent ++ out }

  unfoldable pub run : List ℕ → Pool → Pool
  unfolding step
  run [] p = p
  run (n ∷ schedule) p = run schedule (step n p)
