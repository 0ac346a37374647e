-- ===== src/Sender/UdpSerializer.antt =====
-- `UdpSerializer` of FMTPv3/sender/fmtpSendv3.cpp, and `Serializer` of FMTPv3/sender/Serializer.h: it
-- gathers a packet from a buffer of its own, for the numbers, and from memory of the caller. A pointer
-- into the buffer is the offset from its start. `iovec` is the part of the array that is filled, so
-- `iovIndex` is its length. Memory of the caller is taken to be unchanged until `flush`.
pub mod Held
pub mod Refine
pub mod Bop
use fmtp_ldm.Prelude.{
  ℕ, zero, suc, ◌+◌, ◌-◌, ◌/◌, ◌%◌, ◌^◌, Bool, Option, none, some, List, [], ◌∷◌, ◌++◌, ltb, leb,
  length, if◌then◌else◌,
}
use fmtp_ldm.Prelude.Word.{to_u16}
use fmtp_ldm.Prelude.Memory.{write_at, slice}
use fmtp_ldm.FmtpBase.{be16, be32, fmtp_bop, fmtp_data_len, avail_bop_len}

pub data Segment : Type 0 where
  in_buf : ℕ → ℕ → Segment
  outside : List ℕ → Segment

pub record UdpSerializer : Type 0 where
  pub buf : List ℕ
  pub start : ℕ
  pub next : ℕ
  pub iovec : List Segment

-- Why an operation throws; `send_failed` is that of `UdpSend::SendTo`.
pub data SerialError : Type 0 where
  too_many_segments would_overflow send_failed : SerialError

-- An operation leaves a state, whether it returns or throws.
abbrev pub Serialized : Type 0
Serialized = UdpSerializer × Option SerialError

abbrev pub then_encode : Serialized → (UdpSerializer → Serialized) → Serialized
then_encode (s, none) next = next s
then_encode (s, some e) next = (s, some e)

-- MTU - 20 - 20
abbrev pub max_fmtp_packet_len : ℕ
max_fmtp_packet_len = 1460

unfoldable pub zeros : ℕ → List ℕ
zeros zero = []
zeros (suc n) = 0 ∷ zeros n

-- The constructor.
unfoldable pub new : UdpSerializer
unfolding zeros
new = record { buf = zeros max_fmtp_packet_len; start = 0; next = 0; iovec = [] }

unfoldable pub reset : UdpSerializer → UdpSerializer
reset s = record s { start = 0; next = 0; iovec = [] }

-- The bytes that the segments stand for, as `sendmsg` gathers them.
unfoldable pub gather : List ℕ → List Segment → List ℕ
gather buf [] = []
gather buf (in_buf start len ∷ segments) = slice start len buf ++ gather buf segments
gather buf (outside bytes ∷ segments) = bytes ++ gather buf segments

unfoldable pub next_buf_seg : UdpSerializer → UdpSerializer
next_buf_seg s =
    if ltb s.start s.next
    then record s { iovec = s.iovec ++ in_buf s.start (s.next - s.start) ∷ []; start = s.next }
    else s

-- `add(const void*, unsigned)`
unfoldable pub add_bytes : UdpSerializer → List ℕ → Serialized
add_bytes s bytes =
    if ltb max_fmtp_packet_len (s.next + length bytes)
    then (s, some would_overflow)
    else (record s { buf = write_at s.next bytes s.buf; next = s.next + length bytes }, none)

-- `flush`: `ok` says whether the socket takes the packet, which is then the last component.
unfoldable pub flush : UdpSerializer → Bool → Serialized × Option (List ℕ)
unfolding next_buf_seg reset
flush s ok =
    let s' = next_buf_seg s in
    if ok then ((reset s', none), some (gather s'.buf s'.iovec)) else ((s', some send_failed), none)

-- What a client encodes.
pub data Item : Type 0 where
  uint16 uint32 uint64 : ℕ → Item
  memory : List ℕ → Item

-- What `SendBOPMessage` encodes.
unfoldable pub bop_items : ℕ → ℕ → List ℕ → ℕ → ℕ → List Item
bop_items prodindex prod_size metadata sec nsec =
    uint32 prodindex
    ∷ uint32 0
    ∷ uint16 (to_u16 (length metadata + (fmtp_data_len - avail_bop_len)))
    ∷ uint16 fmtp_bop
    ∷ uint64 sec
    ∷ uint32 nsec
    ∷ uint32 prod_size
    ∷ uint16 (length metadata)
    ∷ memory metadata
    ∷ []

-- A call of `flush` after others, none of which may have thrown.
unfoldable pub flush_all : Serialized → Bool → Serialized × Option (List ℕ)
flush_all (s, none) ok = flush s ok
flush_all (s, some e) ok = ((s, some e), none)

module _ (iov_max : ℕ) where
  unfoldable pub vet_seg : UdpSerializer → Option SerialError
  vet_seg s = if leb iov_max (length s.iovec) then some too_many_segments else none

  -- `add(uint16_t)` and `add(uint32_t)`, with the bytes in network order.
  unfoldable pub add : UdpSerializer → List ℕ → Serialized
  unfolding vet_seg add_bytes
  add s bytes = elim (vet_seg s) [ none ↦ add_bytes s bytes | some e ↦ (s, some e) ]

  -- `encode(const void*, unsigned)`
  unfoldable pub encode_memory : UdpSerializer → List ℕ → Serialized
  unfolding vet_seg next_buf_seg
  encode_memory s bytes =
      if ltb 0 (length bytes)
      then (let s' = next_buf_seg s in
          elim (vet_seg s') [
            | none ↦ (record s' { iovec = s'.iovec ++ outside bytes ∷ [] }, none)
            | some e ↦ (s', some e)
          ])
      else (s, none)

  -- The overloads of `encode`; a 64-bit number is two 32-bit ones.
  unfoldable pub encode : UdpSerializer → Item → Serialized
  unfolding add encode_memory be16 be32
  encode s (uint16 v) = add s (be16 v)
  encode s (uint32 v) = add s (be32 v)
  encode s (uint64 v) = then_encode (add s (be32 (v / 2 ^ 32))) (λ s'. add s' (be32 (v % 2 ^ 32)))
  encode s (memory bytes) = encode_memory s bytes

  unfoldable pub encode_all : UdpSerializer → List Item → Serialized
  unfolding encode
  encode_all s [] = (s, none)
  encode_all s (item ∷ items) = then_encode (encode s item) (λ s'. encode_all s' items)

  -- `SendBOPMessage`: the items, and the flush when nothing has thrown. `metadata` is the `metaSize`
  -- bytes that are given.
  unfoldable pub send_bop_serialized :
      UdpSerializer → ℕ → ℕ → List ℕ → ℕ → ℕ → Bool → Serialized × Option (List ℕ)
  unfolding flush_all
  send_bop_serialized s prodindex prod_size metadata sec nsec ok =
      flush_all (encode_all s (bop_items prodindex prod_size metadata sec nsec)) ok
