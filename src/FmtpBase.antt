-- ===== src/FmtpBase.antt =====
-- FMTPv3/fmtpBase.h, and the places that write and read its packets byte by byte: `decodeHeader` and
-- `BOPHandler` of the receiver, `parseHeader` of TcpSend.cpp, `SendBOPMessage`, `retransBOP` and
-- `Serializer::encode` of the sender. A packet is a list of bytes; `htonl` and `ntohl` are the
-- big-endian order of `be32` and `from_be32`.
pub mod RoundTrip
use fmtp_ldm.Prelude.{
  ℕ, ◌+◌, ◌-◌, ◌*◌, ◌/◌, ◌%◌, ◌^◌, ◌<◌, Option, none, some, List, [], ◌∷◌, ◌++◌, ltb, if◌then◌else◌,
  length, take,
}
use fmtp_ldm.Prelude.Word.{to_u16, u16_mod, u32_mod}

pub record FmtpHeader : Type 0 where
  pub prodindex : ℕ
  pub seqnum : ℕ
  pub payloadlen : ℕ
  pub flags : ℕ

abbrev pub fmtp_header_len : ℕ
fmtp_header_len = 12

-- MTU - 20 - 20 - FMTP_HEADER_LEN
abbrev pub fmtp_data_len : ℕ
fmtp_data_len = 1448

-- FMTP_DATA_LEN - sizeof(StartTime) - sizeof(uint32_t) - sizeof(uint16_t)
abbrev pub avail_bop_len : ℕ
avail_bop_len = 1430

-- sizeof(startTime) + sizeof(prodsize) + sizeof(metasize)
abbrev pub bopconst : ℕ
bopconst = 18

abbrev pub fmtp_bop : ℕ
fmtp_bop = 0x0001

abbrev pub fmtp_eop : ℕ
fmtp_eop = 0x0002

abbrev pub fmtp_mem_data : ℕ
fmtp_mem_data = 0x0004

abbrev pub fmtp_retx_req : ℕ
fmtp_retx_req = 0x0008

abbrev pub fmtp_retx_rej : ℕ
fmtp_retx_rej = 0x0010

abbrev pub fmtp_retx_end : ℕ
fmtp_retx_end = 0x0020

abbrev pub fmtp_retx_data : ℕ
fmtp_retx_data = 0x0040

abbrev pub fmtp_bop_req : ℕ
fmtp_bop_req = 0x0080

abbrev pub fmtp_retx_bop : ℕ
fmtp_retx_bop = 0x0100

abbrev pub fmtp_eop_req : ℕ
fmtp_eop_req = 0x0200

abbrev pub fmtp_retx_eop : ℕ
fmtp_retx_eop = 0x0400

-- `encode(uint16_t)` and `encode(uint32_t)` of Serializer.h.
unfoldable pub be16 : ℕ → List ℕ
be16 v = (v / 2 ^ 8 % 2 ^ 8) ∷ (v % 2 ^ 8) ∷ []

unfoldable pub be32 : ℕ → List ℕ
be32 v = (v / 2 ^ 24 % 2 ^ 8) ∷ (v / 2 ^ 16 % 2 ^ 8) ∷ (v / 2 ^ 8 % 2 ^ 8) ∷ (v % 2 ^ 8) ∷ []

-- `encode(uint64_t)`: the high word, then the low word.
unfoldable pub be64 : ℕ → List ℕ
unfolding be32
be64 v = be32 (v / 2 ^ 32) ++ be32 (v % 2 ^ 32)

unfoldable pub from_be16 : ℕ → ℕ → ℕ
from_be16 a b = a * 2 ^ 8 + b

unfoldable pub from_be32 : ℕ → ℕ → ℕ → ℕ → ℕ
from_be32 a b c d = a * 2 ^ 24 + b * 2 ^ 16 + c * 2 ^ 8 + d

-- The header as the sender writes it.
unfoldable pub encode_header : FmtpHeader → List ℕ
unfolding be16 be32
encode_header h = be32 h.prodindex ++ be32 h.seqnum ++ be16 h.payloadlen ++ be16 h.flags

-- `decodeHeader(char*, FmtpHeader&)` and `parseHeader`. A packet that is shorter than the header is
-- refused here; the callers have checked the length.
unfoldable pub decode_header : List ℕ → Option FmtpHeader
unfolding from_be16 from_be32
decode_header (a ∷ b ∷ c ∷ d ∷ e ∷ f ∷ g ∷ h ∷ i ∷ j ∷ k ∷ l ∷ rest) = some (record {
  prodindex = from_be32 a b c d;
  seqnum = from_be32 e f g h;
  payloadlen = from_be16 i j;
  flags = from_be16 k l;
})
decode_header _ = none

pub record BopMsg : Type 0 where
  pub start_hi : ℕ
  pub start_lo : ℕ
  pub start_nsec : ℕ
  pub prodsize : ℕ
  pub metasize : ℕ
  pub metadata : List ℕ

-- The payload of a BOP: `startTime` as a 64-bit and a 32-bit number, sizes, metadata.
unfoldable pub encode_bop : ℕ → ℕ → ℕ → List ℕ → ℕ → List ℕ
unfolding be16 be32 be64
encode_bop tv_sec tv_nsec prodsize metadata metasize =
    be64 tv_sec ++ be32 tv_nsec ++ be32 prodsize ++ be16 metasize ++ take metasize metadata

-- The two ways in which `BOPHandler` refuses a payload.
pub data BopError : Type 0 where
  packet_too_small metadata_too_big : BopError

pub data BopResult : Type 0 where
  parsed : BopMsg → BopResult
  refused : BopError → BopResult

-- The fixed fields, and then the second check of `BOPHandler`.
unfoldable pub parse_fields : ℕ → List ℕ → BopResult
unfolding from_be16 from_be32
parse_fields payloadlen
      (a ∷ b ∷ c ∷ d ∷ e ∷ f ∷ g ∷ h ∷ i ∷ j ∷ k ∷ l ∷ m ∷ n ∷ o ∷ p ∷ q ∷ r ∷ rest) =
    let metasize = from_be16 q r in
    if ltb payloadlen (bopconst + metasize)
    then refused metadata_too_big
    else parsed (record {
      start_hi = from_be32 a b c d;
      start_lo = from_be32 e f g h;
      start_nsec = from_be32 i j k l;
      prodsize = from_be32 m n o p;
      metasize = metasize;
      metadata = take metasize rest;
    })
parse_fields payloadlen _ = refused packet_too_small

-- The parse of `BOPHandler`: `payloadlen` is the header's, `payload` what follows the header.
unfoldable pub parse_bop : ℕ → List ℕ → BopResult
unfolding parse_fields
parse_bop payloadlen payload =
    if ltb payloadlen bopconst then refused packet_too_small else parse_fields payloadlen payload
