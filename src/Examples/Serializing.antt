-- ===== src/Examples/Serializing.antt =====
-- The serializer at concrete inputs, with room for three segments.
use fmtp_ldm.Prelude.{none}
use fmtp_ldm.Prelude.{ℕ, ◌≡◌, refl, true, some, List, [], ◌∷◌, ◌++◌, arith}
use fmtp_ldm.FmtpBase.{FmtpHeader, encode_header}
use fmtp_ldm.Sender.State.{multicast}
use fmtp_ldm.Sender.Multicast.{send_bop_message}
use fmtp_ldm.Sender.UdpSerializer.{new, Item, uint16, memory, encode_all, send_bop_serialized}
use fmtp_ldm.Sender.UdpSerializer.Refine.{encode_all-Appends}
use fmtp_ldm.Sender.UdpSerializer.Held.{all_bytes, Appends, new-IsSerializer}
use fmtp_ldm.Sender.UdpSerializer.Bop.{IsFresh, send_bop_serialized_lem}

abbrev items : List Item
items = uint16 258 ∷ memory (7 ∷ 8 ∷ []) ∷ uint16 3 ∷ []

encode_all_example : Appends 3 new (all_bytes items) (encode_all 3 new items)
encode_all_example = encode_all-Appends new items (new-IsSerializer 3)

new-IsFresh : IsFresh 3 new
unfolding new
new-IsFresh = record {
  sound = new-IsSerializer 3;
  at_start = refl;
  at_next = refl;
  no_segments = refl;
}

send_bop_serialized_example :
    let result = send_bop_serialized 3 new 5 3 (1 ∷ []) 1700000000 7 true in
    (h : FmtpHeader) × (payload : List ℕ) × (send_bop_message 5 3 (1 ∷ []) 1 1700000000 7
      ≡ multicast h payload)
    × (result.1 ≡ some (encode_header h ++ payload))
    × IsFresh 3 result.0.0
    × (result.0.1 ≡ none)
send_bop_serialized_example =
    send_bop_serialized_lem 3 new 5 3 1700000000 7 (1 ∷ []) (omega arith) new-IsFresh
