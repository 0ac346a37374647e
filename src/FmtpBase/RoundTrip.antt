-- ===== src/FmtpBase/RoundTrip.antt =====
-- What one side writes, the other side reads.
use mathlib.Core.Option.{some-injective}
use fmtp_ldm.Prelude.{
  ℕ, ◌+◌, ◌/◌, ◌%◌, ◌^◌, ◌<◌, ◌≤◌, ◌≡◌, refl, some, List, [], ◌∷◌, ◌++◌, ltb, length, arith, All,
  Bool-cases, inl, inr, length-take, false, take-length, ap, subst,
}
use fmtp_ldm.Prelude.Word.{u16_mod, u32_mod}
use fmtp_ldm.FmtpBase.{
  FmtpHeader, be16, be32, from_be16, from_be32, encode_header, decode_header, BopMsg, encode_bop,
  parse_bop, parsed, bopconst, avail_bop_len, parse_fields,
}

-- The fields fit their widths.
pub record FitsHeader (h : FmtpHeader) : Type 0 where
  pub prodindex : h.prodindex < u32_mod
  pub seqnum : h.seqnum < u32_mod
  pub payloadlen : h.payloadlen < u16_mod
  pub flags : h.flags < u16_mod

header_eq :
    {a b c d : ℕ} (h : FmtpHeader)
    → a ≡ h.prodindex
    → b ≡ h.seqnum
    → c ≡ h.payloadlen
    → d ≡ h.flags
    → record { prodindex = a; seqnum = b; payloadlen = c; flags = d } ≡ h
header_eq h p q r s = λ i. record { prodindex = p i; seqnum = q i; payloadlen = r i; flags = s i }

from_be16-be16 : (v : ℕ) → v < u16_mod → from_be16 (v / 2 ^ 8 % 2 ^ 8) (v % 2 ^ 8) ≡ v
unfolding from_be16
from_be16-be16 v h = omega arith

from_be32-be32 :
    (v : ℕ)
    → v < u32_mod
    → from_be32 (v / 2 ^ 24 % 2 ^ 8) (v / 2 ^ 16 % 2 ^ 8) (v / 2 ^ 8 % 2 ^ 8) (v % 2 ^ 8) ≡ v
unfolding from_be32
from_be32-be32 v h = omega arith

-- A header is read back from what was written, whatever bytes follow.
pub decode-encode_header :
    (h : FmtpHeader) (rest : List ℕ)
    → FitsHeader h
    → decode_header (encode_header h ++ rest) ≡ some h
unfolding encode_header be32 be16 decode_header
decode-encode_header h rest w = ap some (
    header_eq h (from_be32-be32 h.prodindex w.prodindex) (from_be32-be32 h.seqnum w.seqnum)
      (from_be16-be16 h.payloadlen w.payloadlen) (from_be16-be16 h.flags w.flags))

-- Bytes.
abbrev pub IsBytes : List ℕ → Type 0
IsBytes = All (λ b. b < 256)

-- The two directions of a 32-bit field.
be32-from_be32 :
    (a b c d : ℕ)
    → (a < 256) × (b < 256) × (c < 256) × (d < 256)
    → be32 (from_be32 a b c d) ≡ a ∷ b ∷ c ∷ d ∷ []
unfolding be32 from_be32
be32-from_be32 a b c d h = ground arith

be16-from_be16 : (a b : ℕ) → (a < 256) × (b < 256) → be16 (from_be16 a b) ≡ a ∷ b ∷ []
unfolding be16 from_be16
be16-from_be16 a b h = ground arith

from_be32-lt :
    (a b c d : ℕ) → (a < 256) × (b < 256) × (c < 256) × (d < 256) → from_be32 a b c d < u32_mod
unfolding from_be32
from_be32-lt a b c d h = omega arith

from_be16-lt : (a b : ℕ) → (a < 256) × (b < 256) → from_be16 a b < u16_mod
unfolding from_be16
from_be16-lt a b h = omega arith

encode_header_lem :
    (h : FmtpHeader)
    → encode_header h ≡ be32 h.prodindex ++ be32 h.seqnum ++ be16 h.payloadlen ++ be16 h.flags
unfolding encode_header
encode_header_lem h = refl

-- Every packet that decodes is the encoding of its header, followed by the payload.
pub encode-decode_header :
    (packet payload : List ℕ) {h : FmtpHeader}
    → IsBytes packet
    → length packet ≡ 12
    → decode_header (packet ++ payload) ≡ some h
    → (encode_header h ≡ packet) × FitsHeader h
unfolding decode_header
encode-decode_header [] payload w l e = absurd (omega arith)
encode-decode_header (a ∷ b ∷ c ∷ d ∷ e' ∷ f ∷ g ∷ h' ∷ i ∷ j ∷ k ∷ l' ∷ []) payload w l e =
    subst
      (λ x.
        (encode_header x ≡ a ∷ b ∷ c ∷ d ∷ e' ∷ f ∷ g ∷ h' ∷ i ∷ j ∷ k ∷ l' ∷ []) × FitsHeader x)
      (some-injective _ _ e)
      (
        rw (
          encode_header_lem,
          be32-from_be32 a b c d (omega arith),
          be32-from_be32 e' f g h' (omega arith),
          be16-from_be16 i j (omega arith),
          be16-from_be16 k l' (omega arith),
        ),
        record {
          prodindex = from_be32-lt a b c d (omega arith);
          seqnum = from_be32-lt e' f g h' (omega arith);
          payloadlen = from_be16-lt i j (omega arith);
          flags = from_be16-lt k l' (omega arith);
        },
      )
encode-decode_header _ payload w l e = absurd (omega arith)

-- The payload that `SendBOPMessage` and `retransBOP` write is parsed by `BOPHandler` into the same
-- start time, sizes and metadata.
pub parse-encode_bop :
    (tv_sec tv_nsec prodsize : ℕ) (metadata : List ℕ)
    → (tv_sec < 2 ^ 64) × (tv_nsec < u32_mod) × (prodsize < u32_mod)
    → bopconst + length metadata < u16_mod
    → parse_bop
        (bopconst + length metadata)
        (encode_bop tv_sec tv_nsec prodsize metadata (length metadata))
      ≡ parsed (record {
        start_hi = tv_sec / 2 ^ 32;
        start_lo = tv_sec % 2 ^ 32;
        start_nsec = tv_nsec;
        prodsize = prodsize;
        metasize = length metadata;
        metadata = metadata;
      })
unfolding parse_bop encode_bop
parse-encode_bop tv_sec tv_nsec prodsize metadata w h =
    let n = length metadata in
    let e : ltb (bopconst + n) bopconst ≡ false = ground arith in
    let f : ltb (bopconst + n) (bopconst + n) ≡ false = ground arith in
    rw (
      e,
      from_be16-be16 n (omega arith),
      f,
      from_be32-be32 (tv_sec / 2 ^ 32) (omega arith),
      from_be32-be32 (tv_sec % 2 ^ 32) (omega arith),
      from_be32-be32 tv_nsec w.1,
      from_be32-be32 prodsize w.2,
      take-length metadata,
      take-length metadata,
    )

-- `BOPHandler` copies `metasize` bytes into an array of `AVAIL_BOP_LEN`. No check of it refuses a
-- larger `metasize`: each such size that a 16-bit payload length can hold is accepted, and the copy
-- is longer than the array.
pub parse_bop_overrun :
    (tv_sec tv_nsec prodsize : ℕ) (metadata : List ℕ)
    → (tv_sec < 2 ^ 64) × (tv_nsec < u32_mod) × (prodsize < u32_mod)
    → avail_bop_len < length metadata
    → bopconst + length metadata < u16_mod
    → (msg : BopMsg) × (parse_bop
          (bopconst + length metadata)
          (encode_bop tv_sec tv_nsec prodsize metadata (length metadata))
        ≡ parsed msg)
      × (avail_bop_len < length msg.metadata)
parse_bop_overrun tv_sec tv_nsec prodsize metadata w h k =
    (_, parse-encode_bop tv_sec tv_nsec prodsize metadata w k, h)

parse_fields-parsed :
    (payloadlen : ℕ) (msg : BopMsg) (payload : List ℕ)
    → parse_fields payloadlen payload ≡ parsed msg
    → (bopconst + msg.metasize ≤ payloadlen) × (length msg.metadata ≤ msg.metasize)
unfolding parse_fields
parse_fields-parsed payloadlen msg
      (a ∷ b ∷ c ∷ d ∷ e' ∷ f ∷ g ∷ h ∷ i ∷ j ∷ k ∷ l ∷ m ∷ n ∷ o ∷ p ∷ q ∷ r ∷ rest) e =
    ground (arith, length-take (from_be16 q r) rest)
parse_fields-parsed payloadlen msg _ e = absurd (ground arith)

-- What `BOPHandler` accepts announces no more metadata than the payload holds, and the metadata is no
-- longer than announced.
pub parse_bop-parsed :
    (payloadlen : ℕ) (msg : BopMsg) (payload : List ℕ)
    → parse_bop payloadlen payload ≡ parsed msg
    → (bopconst + msg.metasize ≤ payloadlen) × (length msg.metadata ≤ msg.metasize)
unfolding parse_bop
parse_bop-parsed payloadlen msg payload e = elim (Bool-cases (ltb payloadlen bopconst)) [
  | inl t ↦ absurd (ground arith)
  | inr t ↦ parse_fields-parsed payloadlen msg payload (ground arith)
]
