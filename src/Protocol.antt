-- ===== src/Protocol.antt =====
-- The first version of the protocol, protocol/: a file is multicast between a BOF and an EOF, and each
-- receiver asks for the ranges that it lacks. Integers are sent in the order of the host, so a packet is
-- a header record and its bytes.
pub mod Content
pub mod FmtpReceiver
pub mod FmtpSender
pub mod Serving
pub mod Transfer
pub mod Memory
pub mod FileRetrans
pub mod Parallel
pub mod RoundRobin
use fmtp_ldm.Prelude.{ℕ, ◌/◌, ◌%◌, ◌^◌, Bool, ◌==◌}

-- `FmtpHeader` of protocol/fmtp.h, without the ports, which no handler reads.
pub record Header : Type 0 where
  pub session_id : ℕ
  pub seq_number : ℕ
  pub data_len : ℕ
  pub flags : ℕ

-- 1460 - sizeof(FMTP_HEADER)
abbrev pub fmtp_data_len : ℕ
fmtp_data_len = 1440

-- `flags & f` for the flag of bit `k`.
unfoldable pub has_flag : ℕ → ℕ → Bool
has_flag flags k = flags / 2 ^ k % 2 == 1

abbrev pub fmtp_data : ℕ
fmtp_data = 0x00000000

-- The bits of the flags.
abbrev pub bof_bit : ℕ
bof_bit = 0

abbrev pub eof_bit : ℕ
eof_bit = 1

abbrev pub sender_msg_exp_bit : ℕ
sender_msg_exp_bit = 2

abbrev pub retrans_req_bit : ℕ
retrans_req_bit = 3

abbrev pub retrans_data_bit : ℕ
retrans_data_bit = 4

abbrev pub retrans_end_bit : ℕ
retrans_end_bit = 5

abbrev pub retrans_timeout_bit : ℕ
retrans_timeout_bit = 6

abbrev pub fmtp_retrans_req : ℕ
fmtp_retrans_req = 0x00000008

abbrev pub fmtp_retrans_data : ℕ
fmtp_retrans_data = 0x00000010

abbrev pub fmtp_retrans_end : ℕ
fmtp_retrans_end = 0x00000020

abbrev pub fmtp_retrans_timeout : ℕ
fmtp_retrans_timeout = 0x00000040

-- `FmtpRetransRequest`
pub record RetransRequest : Type 0 where
  pub msg_id : ℕ
  pub seq_num : ℕ
  pub data_len : ℕ
