-- ===== src/Examples/Sending.antt =====
-- The sender at concrete inputs.
use fmtp_ldm.Prelude.{
  ℕ, ◌+◌, ◌≤◌, ◌≡◌, ◌≢◌, ◌↔◌, ◌⊎◌, inl, inr, refl, Bool, true, false, ◌&&◌, none, some, List, [],
  ◌∷◌, ◌==◌, arith, Bool-cases, length, map,
}
use fmtp_ldm.Prelude.Word.{u32_mod}
use fmtp_ldm.Prelude.Dict.{lookup}
use fmtp_ldm.FmtpBase.{FmtpHeader, fmtp_retx_req}
use fmtp_ldm.SenderMetadata.{
  RetxMetadata, MetaMap, clear_unfinished_set, get_metadata, release_metadata, rm_retx_metadata,
}
use fmtp_ldm.SenderMetadata.Receivers.{AllFinished, clear_unfinished_set_iff}
use fmtp_ldm.SenderMetadata.Calls.{
  gets, clears, releases, removes, reported, adds_of, credit, IsMetas,
}
use fmtp_ldm.SenderMetadata.Once.{reported-le}
use fmtp_ldm.SenderMetadata.Holds.{Holds, run}
use fmtp_ldm.SenderMetadata.Use.{get_metadata-Holds, second_holder_frees}
use fmtp_ldm.Sender.State.{Sender, Output, header}
use fmtp_ldm.Sender.Multicast.{send_product, send_data}
use fmtp_ldm.Sender.Segments.{payloads, payloads-send_data, starts, rounds}
use fmtp_ldm.Sender.Product.{IsPrefix, whole_product, IsSent, IsFailed, send_product-cases}
use fmtp_ldm.Sender.Unicast.{retransmit}
use fmtp_ldm.Sender.Answers.{upto, retx_packet, retransmit_lem}

abbrev product : List ℕ
product = 7 ∷ 8 ∷ 9 ∷ []

-- Product 5, which the receivers on sockets 11 and 12 have not finished.
abbrev meta : RetxMetadata
meta = record {
  start_sec = 1700000000;
  start_nsec = 5;
  prodindex = 5;
  prod_length = 3;
  meta_size = 0;
  metadata = [];
  dataprod = product;
  unfin_receivers = 11 ∷ 12 ∷ [];
  inuse = false;
  remove_flag = false;
}

abbrev metas : MetaMap
metas = (5, meta) ∷ []

abbrev sender : Sender
sender = record {
  prod_index = 6;
  send_meta = metas;
  conn_sock_list = 11 ∷ 12 ∷ [];
  timer_delay_q = record { pri_q = []; disabled = false };
  suppressor = [];
  notifyprodidx = 0;
  has_notifier = true;
  broken = false;
  retx_timeout = 60;
}

metas-IsMetas : IsMetas metas
unfolding lookup
metas-IsMetas k = elim (Bool-cases (5 == k)) [
  | inl t ↦ rw t (λ e. absurd (ground arith))
  | inr t ↦ rw t tt
]

reported-le_example :
    reported 5 metas (gets 5 ∷ removes 5 ∷ clears 5 11 (11 ∷ []) ∷ releases 5 ∷ [])
    ≤ credit (lookup 5 metas)
      + adds_of 5 (gets 5 ∷ removes 5 ∷ clears 5 11 (11 ∷ []) ∷ releases 5 ∷ [])
reported-le_example =
    reported-le 5 metas (gets 5 ∷ removes 5 ∷ clears 5 11 (11 ∷ []) ∷ releases 5 ∷ []) metas-IsMetas
      (tt, (tt, (tt, (tt, tt))))

clear_unfinished_set_example : ((clear_unfinished_set metas 5 11 (11 ∷ 12 ∷ [])).1 ≡ true) ↔ (
    (meta' : RetxMetadata) × (lookup 5 metas ≡ some meta')
    × AllFinished meta' 11 (11 ∷ 12 ∷ [])
    × ((meta'.inuse && meta'.remove_flag) ≡ false))
clear_unfinished_set_example = clear_unfinished_set_iff metas 5 11 (11 ∷ 12 ∷ [])

get_metadata-Holds_example :
    Holds
      (record meta { inuse = true })
      (lookup 5 (run (get_metadata metas 5).0 (removes 5 ∷ releases 4 ∷ [])))
unfolding get_metadata lookup
get_metadata-Holds_example =
    get_metadata-Holds metas 5 (removes 5 ∷ releases 4 ∷ []) (record meta { inuse = true }) refl
      (tt, ((λ e. absurd (ground arith)), tt))

second_holder_frees_example :
    ((get_metadata metas 5).1 ≢ none)
    × ((get_metadata (get_metadata metas 5).0 5).1 ≢ none)
    × (lookup 5
          (rm_retx_metadata (release_metadata (get_metadata (get_metadata metas 5).0 5).0 5).0 5).0
        ≡ none)
unfolding lookup
second_holder_frees_example = second_holder_frees metas 5 meta refl refl

payloads-send_data_example :
    (packets : List Output) × (send_data 5 product (length product) ≡ some packets)
    × (payloads packets ≡ product)
payloads-send_data_example = payloads-send_data 5 product (omega arith)

abbrev all_sent : ℕ → Bool
all_sent i = true

send_product_example :
    IsPrefix
      (send_product sender (some product) 3 none 0 (1, 2, 3) all_sent).1
      (whole_product 6 product 3 [] 0 1 2)
    × (IsSent sender
          (send_product sender (some product) 3 none 0 (1, 2, 3) all_sent).0
          (send_product sender (some product) 3 none 0 (1, 2, 3) all_sent).1
          (whole_product 6 product 3 [] 0 1 2)
          (send_product sender (some product) 3 none 0 (1, 2, 3) all_sent).2
        ⊎ IsFailed sender
            (send_product sender (some product) 3 none 0 (1, 2, 3) all_sent).0
            (send_product sender (some product) 3 none 0 (1, 2, 3) all_sent).2)
send_product_example =
    send_product-cases sender (some product) none 3 0 1 2 3 all_sent (omega arith)

abbrev request : FmtpHeader
request = header 5 0 1448 fmtp_retx_req

retransmit_example :
    retransmit u32_mod meta (header 5 1 1 fmtp_retx_req) 11
    ≡ some (map (λ k. retx_packet meta 5 11 (upto 2 k) k) (starts (rounds 2) 0))
retransmit_example =
    retransmit_lem u32_mod meta (header 5 1 1 fmtp_retx_req) 11 (omega arith) (omega arith)
      (omega arith) (omega arith) (omega arith)
