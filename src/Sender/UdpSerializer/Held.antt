-- ===== src/Sender/UdpSerializer/Held.antt =====
-- What a `UdpSerializer` holds: the bytes that `flush` would send, and when it is well formed.
use fmtp_ldm.Prelude.{
  ℕ, zero, suc, ◌+◌, ◌-◌, ◌≤◌, ◌<◌, ◌≡◌, refl, ap, ◌∙◌, none, some, List, [], ◌∷◌, ◌++◌,
  append_assoc, append-nil, length, All, arith,
}
use fmtp_ldm.Prelude.Memory.{write_at, slice, slice-write_at_before}
use fmtp_ldm.FmtpBase.{be16, be32, be64}
use fmtp_ldm.Sender.UdpSerializer.{
  Segment, in_buf, outside, UdpSerializer, Serialized, max_fmtp_packet_len, gather, Item, uint16,
  uint32, uint64, memory, new, zeros,
}

-- The bytes that are waiting to be flushed.
unfoldable pub pending : UdpSerializer → List ℕ
pending s = gather s.buf s.iovec ++ slice s.start (s.next - s.start) s.buf

-- The abstract serializer: the bytes of an item in network order.
unfoldable pub item_bytes : Item → List ℕ
item_bytes (uint16 v) = be16 v
item_bytes (uint32 v) = be32 v
item_bytes (uint64 v) = be64 v
item_bytes (memory bytes) = bytes

unfoldable pub all_bytes : List Item → List ℕ
all_bytes [] = []
all_bytes (item ∷ items) = item_bytes item ++ all_bytes items

-- A segment lies below an offset of the buffer.
abbrev pub Below : ℕ → Segment → Type 0
Below n (in_buf start len) = start + len ≤ n
Below n (outside bytes) = Unit {0}

-- The buffer keeps its size, the pointers their order, and there is room in the array for the segment
-- that is open.
pub record IsSerializer (iov_max : ℕ) (s : UdpSerializer) : Type 0 where
  pub size : length s.buf ≡ max_fmtp_packet_len
  pub order : s.start ≤ s.next
  pub inside : s.next ≤ max_fmtp_packet_len
  pub filled : All (Below s.start) s.iovec
  pub room : length s.iovec ≤ iov_max
  pub open_room : s.start < s.next → length s.iovec < iov_max

pub gather-append :
    (buf : List ℕ) (xs ys : List Segment) → gather buf (xs ++ ys) ≡ gather buf xs ++ gather buf ys
unfolding gather
gather-append buf [] ys = refl
gather-append buf (in_buf a l ∷ xs) ys = rw (gather-append buf xs ys, append_assoc)
gather-append buf (outside bytes ∷ xs) ys = rw (gather-append buf xs ys, append_assoc)

-- A write above the segments does not change what they stand for.
pub gather-write_at :
    (start p : ℕ) (bytes buf : List ℕ) (segments : List Segment)
    → All (Below start) segments
    → start ≤ p
    → p + length bytes ≤ length buf
    → gather (write_at p bytes buf) segments ≡ gather buf segments
unfolding gather
gather-write_at start p bytes buf [] h k l = refl
gather-write_at start p bytes buf (in_buf a n ∷ segments) h k l =
    rw
      (
        slice-write_at_before a n p bytes buf (omega arith) l,
        gather-write_at start p bytes buf segments h.1 k l,
      )
      refl
gather-write_at start p bytes buf (outside other ∷ segments) h k l =
    rw (gather-write_at start p bytes buf segments h.1 k l) refl

pub Below-le :
    (m n : ℕ) (segments : List Segment) → m ≤ n → All (Below m) segments → All (Below n) segments
Below-le m n [] h b = tt
Below-le m n (in_buf a l ∷ segments) h (b, bs) = (omega arith, Below-le m n segments h bs)
Below-le m n (outside bytes ∷ segments) h (b, bs) = (tt, Below-le m n segments h bs)

unfoldable pub added : UdpSerializer → List ℕ → UdpSerializer
added s bytes = record s { buf = write_at s.next bytes s.buf; next = s.next + length bytes }

pub pending_closed : (s : UdpSerializer) → s.start ≡ s.next → pending s ≡ gather s.buf s.iovec
unfolding pending
pending_closed s e = let z : s.next - s.start ≡ 0 = omega arith in rw (z, append-nil)

-- What an operation that is to append `bytes` does: all of it, or a part of it when it throws.
abbrev pub Appends : ℕ → UdpSerializer → List ℕ → Serialized → Type 0
Appends iov_max s bytes (s', none) = IsSerializer iov_max s' × (pending s' ≡ pending s ++ bytes)
Appends iov_max s bytes (s', some e) =
    IsSerializer iov_max s'
    × ((taken : List ℕ) × (rest : List ℕ) × (pending s' ≡ pending s ++ taken)
        × (taken ++ rest ≡ bytes))

pub Appends-after :
    (iov_max : ℕ) (s s' : UdpSerializer) (xs ys : List ℕ) (r : Serialized)
    → pending s' ≡ pending s ++ xs
    → Appends iov_max s' ys r
    → Appends iov_max s (xs ++ ys) r
Appends-after iov_max s s' xs ys (s'', none) e (w, h) = (w, h ∙ rw (e, append_assoc))
Appends-after iov_max s s' xs ys (s'', some _) e (w, (taken, rest, h, k)) = (
  w,
  (xs ++ taken, rest, h ∙ rw (e, append_assoc), append_assoc xs taken rest ∙ ap (λ z. xs ++ z) k),
)

length-zeros : (n : ℕ) → length (zeros n) ≡ n
unfolding zeros
length-zeros zero = refl
length-zeros (suc n) = ap suc (length-zeros n)

pub new-IsSerializer : (iov_max : ℕ) → IsSerializer iov_max new
unfolding new
new-IsSerializer iov_max = record {
  size = length-zeros max_fmtp_packet_len;
  order = omega arith;
  inside = omega arith;
  filled = tt;
  room = omega arith;
  open_room = λ h. absurd (omega arith);
}
