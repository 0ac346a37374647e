-- ===== src/Receiver/Receiving.antt =====
-- A product that a receiver is receiving by multicast: the rounds for its blocks.
use fmtp_ldm.Prelude.{
  ℕ, ◌+◌, ◌-◌, ◌≤◌, ◌≡◌, refl, ap, ◌∙◌, true, none, some, List, [], ◌∷◌, ◌++◌, inl, inr, Bool-cases,
  map, length, All,
}
use fmtp_ldm.Prelude.Word.{u32_mod}
use fmtp_ldm.Prelude.Dict.{lookup, lookup-insert_self}
use fmtp_ldm.FmtpBase.{FmtpHeader, fmtp_data_len}
use fmtp_ldm.ProdSegMng
use fmtp_ldm.ProdSegMng.{SegMapSet, add_prod, is_complete, get_last_segment}
use fmtp_ldm.ProdSegMng.Aligned.{block_len, IsBlock}
use fmtp_ldm.ProdSegMng.Transfer.{deliver}
use fmtp_ldm.Sender.Segments.{starts, rounds}
use fmtp_ldm.Receiver.State.{Receiver, ProdTracker}
use fmtp_ldm.Receiver.Requests.{next_seqnum}
use fmtp_ldm.Receiver.Multicast.{
  note_packet, recv_mem_data, note_first, dispatch, peeked, mcast_round,
}
use fmtp_ldm.Receiver.Missing.{block_request}
use fmtp_ldm.Receiver.Delivery.{datagram, recv_mem_data-block}

-- Product `p` is tracked, nothing of it has been retransmitted, and `segs` is the segment map.
pub record IsReceiving (r : Receiver) (p size : ℕ) (segs : SegMapSet) : Type 0 where
  pub tracker : ProdTracker
  pub found : lookup p r.trackermap ≡ some tracker
  pub size_eq : tracker.prodsize ≡ size
  pub no_retrans : tracker.num_retrans ≡ 0
  pub segs_eq : r.seg_mng ≡ segs
  pub up : r.tcp_up ≡ true
  pub notifier : r.has_notifier ≡ true

-- The rounds of `mcastHandler` for the packets of the blocks at `ks`.
unfoldable pub receive : Receiver → ℕ → List ℕ → ℕ → List ℕ → Receiver
receive r p product size [] = r
receive r p product size (k ∷ ks) =
    receive (mcast_round r (peeked (datagram p product size k)) none).0.0 p product size ks

pub same-IsReceiving :
    {r r' : Receiver} (p size : ℕ) (segs : SegMapSet)
    → r'.trackermap ≡ r.trackermap
    → r'.seg_mng ≡ r.seg_mng
    → r'.tcp_up ≡ r.tcp_up
    → r'.has_notifier ≡ r.has_notifier
    → IsReceiving r p size segs
    → IsReceiving r' p size segs
same-IsReceiving p size segs a b c d i = record {
  tracker = i.tracker;
  found = ap (lookup p) a ∙ i.found;
  size_eq = i.size_eq;
  no_retrans = i.no_retrans;
  segs_eq = b ∙ i.segs_eq;
  up = c ∙ i.up;
  notifier = d ∙ i.notifier;
}

pub note_first-IsReceiving :
    (r : Receiver) (p q size : ℕ) (segs : SegMapSet)
    → IsReceiving r p size segs
    → IsReceiving (note_first r q) p size segs
unfolding note_first
note_first-IsReceiving r p q size segs i = elim (Bool-cases r.mcast_hndlr_started) [
  | inl t ↦ rw t (same-IsReceiving p size segs refl refl refl refl i)
  | inr t ↦ rw t (same-IsReceiving p size segs refl refl refl refl i)
]

note_packet-IsReceiving :
    (r : Receiver) (p size : ℕ) (segs : SegMapSet) (h : FmtpHeader)
    → h.prodindex ≡ p
    → IsReceiving r p size segs
    → IsReceiving (note_packet r h) p size segs
unfolding note_packet
note_packet-IsReceiving r p size segs h e i =
    let t : ProdTracker = record i.tracker { seqnum = h.seqnum; paylen = h.payloadlen } in
    rw (e, i.found, note_packet, e)
      (record {
        tracker = t;
        found = lookup-insert_self p t r.trackermap;
        size_eq = i.size_eq;
        no_retrans = i.no_retrans;
        segs_eq = i.segs_eq;
        up = i.up;
        notifier = i.notifier;
      })

block-IsReceiving :
    (r : Receiver) (p : ℕ) (product : List ℕ) (size k : ℕ) (segs : SegMapSet)
    → IsReceiving r p size segs
    → length product ≡ size
    → size + fmtp_data_len ≤ u32_mod
    → IsBlock size k
    → IsReceiving
        (recv_mem_data r (datagram p product size k)).0
        p
        size
        (ProdSegMng.set segs p k (block_len size k)).0
block-IsReceiving r p product size k segs i l small b =
    let next = next_seqnum r p in
    let r₁ : Receiver = record r {
      seg_mng = (ProdSegMng.set r.seg_mng p k (block_len size k)).0;
      msgqueue = r.msgqueue ++ map (block_request p) (starts (rounds (k - next)) next);
    } in
    let i₁ : IsReceiving r₁ p size (ProdSegMng.set segs p k (block_len size k)).0 = record {
      tracker = i.tracker;
      found = i.found;
      size_eq = i.size_eq;
      no_retrans = i.no_retrans;
      segs_eq = ap (λ m. (ProdSegMng.set m p k (block_len size k)).0) i.segs_eq;
      up = i.up;
      notifier = i.notifier;
    } in
    rw (recv_mem_data-block r p product size k i.tracker i.found i.size_eq l small b)
      (note_packet-IsReceiving r₁ p size _ (datagram p product size k).head refl i₁)

round-IsReceiving :
    (r : Receiver) (p : ℕ) (product : List ℕ) (size k : ℕ) (segs : SegMapSet)
    → IsReceiving r p size segs
    → length product ≡ size
    → size + fmtp_data_len ≤ u32_mod
    → IsBlock size k
    → IsReceiving
        (mcast_round r (peeked (datagram p product size k)) none).0.0
        p
        size
        (ProdSegMng.set segs p k (block_len size k)).0
unfolding mcast_round dispatch
round-IsReceiving r p product size k segs i l small b =
    block-IsReceiving (note_first r p) p product size k segs
      (note_first-IsReceiving r p p size segs i) l small b

pub receive-IsReceiving :
    (ks : List ℕ) (r : Receiver) (p : ℕ) (product : List ℕ) (size : ℕ) (segs : SegMapSet)
    → IsReceiving r p size segs
    → length product ≡ size
    → size + fmtp_data_len ≤ u32_mod
    → All (IsBlock size) ks
    → IsReceiving (receive r p product size ks) p size (deliver segs p size ks)
unfolding receive deliver
receive-IsReceiving [] r p product size segs i l small b = i
receive-IsReceiving (k ∷ ks) r p product size segs i l small b =
    receive-IsReceiving ks _ p product size _
      (round-IsReceiving r p product size k segs i l small b.0) l small b.1
