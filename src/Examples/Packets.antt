-- ===== src/Examples/Packets.antt =====
-- Headers and BOP messages at concrete inputs.
use fmtp_ldm.Prelude.{ℕ, zero, suc, ◌+◌, ◌<◌, ◌≡◌, refl, List, [], ◌∷◌, arith, length}
use fmtp_ldm.FmtpBase.{FmtpHeader, BopMsg, encode_bop, parse_bop, parsed, bopconst, avail_bop_len}
use fmtp_ldm.FmtpBase.RoundTrip.{FitsHeader, IsBytes, parse-encode_bop, parse_bop_overrun}

abbrev request : FmtpHeader
request = record { prodindex = 300; seqnum = 1448; payloadlen = 1448; flags = 8 }

request-FitsHeader : FitsHeader request
request-FitsHeader = record {
  prodindex = omega arith;
  seqnum = omega arith;
  payloadlen = omega arith;
  flags = omega arith;
}

abbrev wire : List ℕ
wire = 0 ∷ 0 ∷ 1 ∷ 44 ∷ 0 ∷ 0 ∷ 5 ∷ 168 ∷ 5 ∷ 168 ∷ 0 ∷ 8 ∷ []

wire-IsBytes : IsBytes wire
wire-IsBytes = (
  omega arith,
  (
    omega arith,
    (
      omega arith,
      (
        omega arith,
        (
          omega arith,
          (
            omega arith,
            (
              omega arith,
              (omega arith, (omega arith, (omega arith, (omega arith, (omega arith, tt))))),
            ),
          ),
        ),
      ),
    ),
  ),
)

parse-encode_example :
    parse_bop (bopconst + 3) (encode_bop 1700000000 5 3000 (1 ∷ 2 ∷ 3 ∷ []) 3)
    ≡ parsed (record {
      start_hi = 0;
      start_lo = 1700000000;
      start_nsec = 5;
      prodsize = 3000;
      metasize = 3;
      metadata = 1 ∷ 2 ∷ 3 ∷ [];
    })
parse-encode_example =
    parse-encode_bop 1700000000 5 3000 (1 ∷ 2 ∷ 3 ∷ []) (omega arith, omega arith, omega arith)
      (omega arith)

abbrev small_bop : BopMsg
small_bop = record {
  start_hi = 0;
  start_lo = 1700000000;
  start_nsec = 5;
  prodsize = 3000;
  metasize = 3;
  metadata = 1 ∷ 2 ∷ 3 ∷ [];
}

unfoldable zeros : ℕ → List ℕ
zeros zero = []
zeros (suc n) = 0 ∷ zeros n

length-zeros : (n : ℕ) → length (zeros n) ≡ n
unfolding zeros
length-zeros zero = refl
length-zeros (suc n) = omega (arith, length-zeros n)

parse_bop_overrun_example :
    (msg : BopMsg) × (parse_bop
        (bopconst + length (zeros 1431))
        (encode_bop 1700000000 5 3000 (zeros 1431) (length (zeros 1431)))
      ≡ parsed msg)
    × (avail_bop_len < length msg.metadata)
parse_bop_overrun_example =
    parse_bop_overrun 1700000000 5 3000 (zeros 1431) (omega arith, omega arith, omega arith)
      (omega (arith, length-zeros 1431)) (omega (arith, length-zeros 1431))
