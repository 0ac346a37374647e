-- ===== src/Examples/Receiving.antt =====
-- The receiver at concrete inputs.
use fmtp_ldm.Prelude.{
  ℕ, ◌+◌, ◌-◌, ◌≡◌, ◌↔◌, inr, refl, true, false, not, ◌&&◌, ◌||◌, none, some, List, [], ◌∷◌, ◌++◌,
  arith, map, take,
}
use fmtp_ldm.Prelude.Word.{u32_mod}
use fmtp_ldm.Prelude.Dict.{lookup, insert, lookup-insert_self}
use fmtp_ldm.FmtpBase.{FmtpHeader, fmtp_retx_rej, fmtp_mem_data, fmtp_retx_req}
use fmtp_ldm.ProdSegMng.{SegMapSet, add_prod}
use fmtp_ldm.ProdSegMng.Aligned.{IsBlock}
use fmtp_ldm.ProdSegMng.Lifecycle.{fresh}
use fmtp_ldm.ProdSegMng.Segments.{put}
use fmtp_ldm.ProdSegMng.Transfer.{arrived, fresh-IsTracked}
use fmtp_ldm.SenderMetadata.Sets.{member}
use fmtp_ldm.SenderMetadata.{RetxMetadata}
use fmtp_ldm.Sender.State.{unicast, header}
use fmtp_ldm.Sender.Segments.{starts, rounds}
use fmtp_ldm.Sender.Unicast.{retransmit}
use fmtp_ldm.Sender.State.{multicast}
use fmtp_ldm.Sender.Multicast.{send_bop_message, send_data, send_eop_message}
use fmtp_ldm.Sender.Segments.{blocks, data_packet}
use fmtp_ldm.Receiver.EndToEnd.{bop_datagram, product_delivered}
use fmtp_ldm.Receiver.State.{
  new, Receiver, ProdTracker, stores, returned, missing_bop, request_header,
}
use fmtp_ldm.Receiver.Requests.{
  request_any_missing_data, request_missing_bops, request_missing_bops_exclusive,
}
use fmtp_ldm.Receiver.Multicast.{Datagram, peeked, mcast_round, recv_mem_data}
use fmtp_ldm.Receiver.Unicast.{retx_round}
use fmtp_ldm.Receiver.Missing.{block_request, request_any_missing_data_lem}
use fmtp_ldm.Receiver.Wanted.{between}
use fmtp_ldm.Receiver.Bops.{asked, asked_set, request_missing_bops_lem, bops_of_old_index}
use fmtp_ldm.Receiver.Paired.{IsPaired, insert-Agree}
use fmtp_ldm.Receiver.Rounds.{mcast_round-IsPaired}
use fmtp_ldm.Receiver.RetxRounds.{retx_round-IsPaired}
use fmtp_ldm.Receiver.Delivery.{datagram, block_store}
use fmtp_ldm.Receiver.Receiving.{IsReceiving, receive}
use fmtp_ldm.Receiver.Transfer.{eop_datagram, finish_actions, mcast_transfer_iff}
use fmtp_ldm.Receiver.Repair.{TakesBlock, lost_block_repaired}
use fmtp_ldm.Receiver.Limits.{BeginsWith, wrapped_end_stored}

abbrev product : List ℕ
product = 7 ∷ 8 ∷ 9 ∷ []

abbrev tracker : ProdTracker
tracker = record { prodsize = 3; prodptr = some 1000; seqnum = 0; paylen = 0; num_retrans = 0 }

abbrev no_products : SegMapSet
no_products = []

-- The BOP of product 5 has come.
abbrev receiver : Receiver
receiver = record (new true) {
  trackermap = insert 5 tracker [];
  seg_mng = insert 5 (fresh 3) [];
  prodidx_mcast = 5;
  mcast_hndlr_started = true;
}

receiver-IsPaired : IsPaired receiver
unfolding fresh
receiver-IsPaired = record {
  up = refl;
  agree = λ k. insert-Agree [] [] 5 k tracker (fresh 3) refl (unfold lookup in tt);
}

mcast_round-IsPaired_example :
    IsPaired (mcast_round receiver (peeked (datagram 5 product 3 0)) none).0.0
mcast_round-IsPaired_example =
    mcast_round-IsPaired receiver (peeked (datagram 5 product 3 0)) none receiver-IsPaired

retx_round-IsPaired_example :
    IsPaired (retx_round receiver (some (header 5 0 0 fmtp_retx_rej)) none none).0
retx_round-IsPaired_example =
    retx_round-IsPaired receiver (some (header 5 0 0 fmtp_retx_rej)) none none receiver-IsPaired

-- The first block has come by multicast; a packet at 3000 is the most recent.
abbrev behind : Receiver
behind = record receiver {
  trackermap = insert 5 (record tracker { prodsize = 4000; paylen = 1448 }) [];
}

request_any_missing_data_example : request_any_missing_data behind 5 3000 ≡ (
  record behind { msgqueue = [] ++ map (block_request 5) (starts (rounds (3000 - 1448)) 1448) },
  [],
  returned,
)
unfolding lookup insert
request_any_missing_data_example =
    request_any_missing_data_lem behind 5 1448 3000
      (inr (record tracker { prodsize = 4000; paylen = 1448 }, refl, refl, omega arith))
      (omega arith)

request_missing_bops_example :
    (request_missing_bops receiver 5 9 ≡ (
      record receiver {
        mis_bop_set = asked_set receiver 5 9;
        msgqueue = [] ++ map missing_bop (asked receiver 5 9);
      },
      [],
      returned,
    ))
    × (member 7 (asked receiver 5 9) ≡ (between 5 9 7 && not (member 7 [])))
    × (member 7 (asked_set receiver 5 9) ≡ (between 5 9 7 || member 7 []))
request_missing_bops_example =
    request_missing_bops_lem receiver 5 9 7 (omega arith) (omega arith) (omega arith)

bops_of_old_index_example :
    ((request_missing_bops_exclusive receiver 4).0.prodidx_mcast ≡ 4)
    × ((request_missing_bops_exclusive receiver 4).0.msgqueue
        ≡ [] ++ map missing_bop (asked receiver 5 4))
    × (member 9 (asked receiver 5 4) ≡ true)
unfolding member
bops_of_old_index_example =
    bops_of_old_index receiver 4 9 (omega arith) (omega arith) (omega arith) (inr (omega arith))
      refl

receiver-IsReceiving : IsReceiving receiver 5 3 (add_prod no_products 5 3).0
unfolding add_prod fresh lookup insert put
receiver-IsReceiving = record {
  tracker = tracker;
  found = lookup-insert_self 5 tracker [];
  size_eq = refl;
  no_retrans = refl;
  segs_eq = refl;
  up = refl;
  notifier = refl;
}

mcast_transfer_example :
    ((mcast_round (receive receiver 5 product 3 (0 ∷ [])) (peeked (eop_datagram 5)) none).0.1
      ≡ finish_actions 5)
    ↔ ((j : ℕ) → IsBlock 3 j → arrived j (0 ∷ []) ≡ true)
unfolding lookup
mcast_transfer_example =
    mcast_transfer_iff receiver 5 product (0 ∷ []) no_products refl (omega arith) (omega arith)
      receiver-IsReceiving ((omega arith, omega arith), tt)

abbrev meta : RetxMetadata
meta = record {
  start_sec = 1700000000;
  start_nsec = 5;
  prodindex = 5;
  prod_length = 3;
  meta_size = 0;
  metadata = [];
  dataprod = product;
  unfin_receivers = 11 ∷ 12 ∷ [];
  inuse = true;
  remove_flag = false;
}

lost_block_repaired_example :
    (h' : FmtpHeader) × (bytes : List ℕ) × (retransmit u32_mod meta
        (header 5 0 1448 fmtp_retx_req)
        11
      ≡ some (unicast 11 h' bytes ∷ []))
    × TakesBlock receiver 5 3 0 tracker
        (block_store (some 1000) product 3 0)
        (retx_round receiver (some h') (some bytes) none)
unfolding request_header
lost_block_repaired_example =
    lost_block_repaired receiver 5 0 11 tracker (fresh 3) meta (header 5 0 1448 fmtp_retx_req)
      (lookup-insert_self 5 tracker []) (lookup-insert_self 5 (fresh 3) [])
      (fresh-IsTracked 3 (omega arith) (omega arith)) refl refl refl refl (omega arith)
      (omega arith, omega arith) refl

-- A packet of eight bytes from four bytes before the end of the range on.
abbrev wild_packet : Datagram
wild_packet = record { head = header 5 4294967290 8 fmtp_mem_data; payload = 1 ∷ 2 ∷ 3 ∷ [] }

wrapped_end_example :
    BeginsWith
      (stores (1000 + 4294967290) (take 8 (1 ∷ 2 ∷ 3 ∷ [])))
      (recv_mem_data receiver wild_packet).1
wrapped_end_example =
    wrapped_end_stored receiver wild_packet tracker 1000 (lookup-insert_self 5 tracker []) refl
      (omega arith) (omega arith) (omega arith) (omega arith) (omega arith)

-- A receiver that has seen product 4.
abbrev idle : Receiver
idle = record (new true) { prodidx_mcast = 4; mcast_hndlr_started = true }

product_delivered_example :
    (send_bop_message 5 3 (1 ∷ []) 1 1700000000 7
      ≡ multicast
          (bop_datagram 5 3 (1 ∷ []) 1700000000 7).head
          (bop_datagram 5 3 (1 ∷ []) 1700000000 7).payload)
    × (send_data 5 product 3 ≡ some (map (data_packet 5 product 3) (blocks 3)))
    × (send_eop_message 5 ≡ multicast (eop_datagram 5).head (eop_datagram 5).payload)
    × ((mcast_round
          (receive
            (mcast_round idle (peeked (bop_datagram 5 3 (1 ∷ []) 1700000000 7)) (some 1000)).0.0
            5
            product
            3
            (blocks 3))
          (peeked (eop_datagram 5))
          none).0.1
        ≡ finish_actions 5)
unfolding lookup
product_delivered_example =
    product_delivered idle 5 1700000000 7 product (1 ∷ []) (some 1000) (omega arith, omega arith)
      (omega arith, omega arith) (omega arith) refl refl refl refl refl (omega arith, omega arith)
