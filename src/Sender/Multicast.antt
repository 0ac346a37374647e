-- ===== src/Sender/Multicast.antt =====
-- `sendProduct` and what it calls: `addRetxMetadata`, `SendBOPMessage`, `sendData`, `sendEOPMessage`.
use fmtp_ldm.Prelude.{
  ℕ, zero, suc, ◌+◌, ◌-◌, Bool, Option, none, some, List, [], ◌∷◌, ◌++◌, take, drop, ltb, ◌==◌,
  if◌then◌else◌,
}
use fmtp_ldm.Prelude.Word.{add32, to_u16}
use fmtp_ldm.FmtpBase.{fmtp_data_len, avail_bop_len, fmtp_bop, fmtp_eop, fmtp_mem_data, encode_bop}
use fmtp_ldm.SenderMetadata.{add_retx_metadata}
use fmtp_ldm.ProdIndexDelayQueue
use fmtp_ldm.Sender.State.{
  Sender, Output, multicast, header, transmit, task_broke, new_retx_metadata,
}

-- One BOP packet: the header and the encoded message.
unfoldable pub send_bop_message : ℕ → ℕ → List ℕ → ℕ → ℕ → ℕ → Output
send_bop_message prodindex prod_size metadata meta_size sec nsec =
    multicast (header prodindex 0 (to_u16 (meta_size + (fmtp_data_len - avail_bop_len))) fmtp_bop)
      (encode_bop sec nsec prod_size metadata meta_size)

unfoldable pub send_eop_message : ℕ → Output
send_eop_message prodindex = multicast (header prodindex 0 0 fmtp_eop) []

-- The loop of `sendData`, on fuel: `none` if that runs out. The bytes of the product that are left are
-- those from `data` on.
unfoldable pub send_loop : ℕ → ℕ → List ℕ → ℕ → ℕ → Option (List Output)
send_loop zero prodindex product datasize seqnum = none
send_loop (suc fuel) prodindex product datasize seqnum =
    let payloadlen = if ltb datasize fmtp_data_len then datasize else fmtp_data_len in
    let rest =
      send_loop fuel prodindex (drop payloadlen product) (datasize - payloadlen)
        (add32 seqnum payloadlen) in
    if ltb 0 datasize
    then elim rest [
      | none ↦ none
      | some packets ↦ some (
          multicast (header prodindex seqnum payloadlen fmtp_mem_data) (take payloadlen product)
          ∷ packets)
    ]
    else some []

-- Each round sends at least one byte.
unfoldable pub send_data : ℕ → List ℕ → ℕ → Option (List Output)
unfolding send_loop
send_data prodindex product data_size = send_loop (suc data_size) prodindex product data_size 0

abbrev pub or_empty : Option (List Output) → List Output
or_empty none = []
or_empty (some packets) = packets

-- Why `sendProduct` throws.
pub data SendError : Type 0 where
  is_broken null_data meta_too_large non_zero_meta io_error queue_disabled : SendError

pub data Sent : Type 0 where
  sent : ℕ → Sent
  failed : SendError → Sent

-- The checks of the arguments, in the order of the source; `dataSize` is a `uint32_t` and passes the
-- check on its range. A null pointer is `none`.
unfoldable pub check_args : Option (List ℕ) → Option (List ℕ) → ℕ → Option SendError
check_args none metadata meta_size = some null_data
check_args (some _) none meta_size = if meta_size == 0 then none else some non_zero_meta
check_args (some _) (some _) meta_size =
    if ltb avail_bop_len meta_size then some meta_too_large else none

abbrev pub or_nil : Option (List ℕ) → List ℕ
or_nil none = []
or_nil (some xs) = xs

-- The packets of one product, in the order in which they are sent.
unfoldable pub product_packets : ℕ → List ℕ → ℕ → List ℕ → ℕ → ℕ → ℕ → List Output
unfolding send_bop_message send_data send_eop_message
product_packets prodindex product data_size metadata meta_size sec nsec =
    send_bop_message prodindex data_size metadata meta_size sec nsec
      ∷ or_empty (send_data prodindex product data_size)
    ++ send_eop_message prodindex ∷ []

-- After the packets: the timer is started, and the product index goes up.
unfoldable pub start_timer : Sender → ℕ → Sender × Sent
start_timer s now =
    elim (ProdIndexDelayQueue.push s.timer_delay_q now s.prod_index s.retx_timeout) [
      | none ↦ (task_broke s, failed queue_disabled)
      | some q ↦
          (record s { timer_delay_q = q; prod_index = add32 s.prod_index 1 }, sent s.prod_index)
    ]

-- The body of the `try` block, when the arguments are good. `sec` and `nsec` are the time of
-- `clock_gettime`, `now` is the time of the push, and `ok` says which packets the socket takes.
unfoldable pub send_checked :
    Sender → List ℕ → ℕ → List ℕ → ℕ → (ℕ × ℕ × ℕ) → (ℕ → Bool) → Sender × List Output × Sent
unfolding product_packets start_timer
send_checked s product data_size metadata meta_size (sec, nsec, now) ok =
    let meta = new_retx_metadata s product data_size metadata meta_size sec nsec in
    let s₁ : Sender = record s { send_meta = add_retx_metadata s.send_meta meta } in
    let (out, all) =
      transmit ok 0 (product_packets s.prod_index product data_size metadata meta_size sec nsec) in
    if all
    then (let (s₂, result) = start_timer s₁ now in (s₂, out, result))
    else (task_broke s₁, out, failed io_error)

unfoldable pub send_product :
    Sender
    → Option (List ℕ)
    → ℕ
    → Option (List ℕ)
    → ℕ
    → (ℕ × ℕ × ℕ)
    → (ℕ → Bool)
    → Sender × List Output × Sent
unfolding send_checked check_args
send_product s product data_size metadata meta_size time ok =
    if s.broken then (s, [], failed is_broken) else elim (check_args product metadata meta_size) [
      | some e ↦ (task_broke s, [], failed e)
      | none ↦ send_checked s (or_nil product) data_size (or_nil metadata) meta_size time ok
    ]
