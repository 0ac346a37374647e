-- ===== src/Sender/Product.antt =====
-- What a call of `sendProduct` does, on every path.
use fmtp_ldm.Prelude.{
  ℕ, suc, ◌≡◌, refl, Bool, true, false, Option, List, [], ◌∷◌, ◌++◌, ◌⊎◌, inl, inr, Bool-cases,
  Option-cases, ◌||◌, ap, arith, ◌+◌, ◌-◌, ◌<◌, map, subst,
}
use fmtp_ldm.Prelude.Word.{add32, to_u16, u32_mod}
use fmtp_ldm.FmtpBase.{fmtp_data_len, avail_bop_len, fmtp_bop, fmtp_eop, encode_bop}
use fmtp_ldm.Sender.Segments.{data_packet, blocks, send_data_lem}
use fmtp_ldm.SenderMetadata.{add_retx_metadata}
use fmtp_ldm.ProdIndexDelayQueue
use fmtp_ldm.Sender.State.{
  Sender, Output, multicast, header, transmit, tells, task_broke, new_retx_metadata,
}
use fmtp_ldm.Sender.Multicast.{
  Sent, SendError, sent, failed, queue_disabled, io_error, is_broken, check_args, or_nil,
  product_packets, send_bop_message, send_eop_message, start_timer, send_checked, send_product,
}

-- The first of the packets that are sent are those that are to be sent.
abbrev pub IsPrefix : List Output → List Output → Type 0
IsPrefix out packets = (rest : List Output) × (out ++ rest ≡ packets)

-- What is sent is a prefix, and all of it if nothing fails.
pub transmit_lem :
    (ok : ℕ → Bool) (i : ℕ) (packets : List Output)
    → IsPrefix (transmit ok i packets).0 packets
      × ((transmit ok i packets).1 ≡ true → (transmit ok i packets).0 ≡ packets)
unfolding transmit
transmit_lem ok i [] = (([], refl), λ e. refl)
transmit_lem ok i (o ∷ os) =
    let ((rest, e), f) = transmit_lem ok (suc i) os in
    elim (Bool-cases (ok i || tells o)) [
      | inl t ↦ rw t ((rest, ap (λ x. o ∷ x) e), λ g. ap (λ x. o ∷ x) (f g))
      | inr t ↦ rw t ((o ∷ os, refl), λ g. absurd (ground arith))
    ]

-- Either everything is sent, or a packet fails and what was before it has been sent.
pub transmit-cases :
    (ok : ℕ → Bool) (i : ℕ) (packets : List Output)
    → ((transmit ok i packets).1 ≡ true) × ((transmit ok i packets).0 ≡ packets)
      ⊎ ((transmit ok i packets).1 ≡ false)
        × ((j : ℕ) × (ok j ≡ false))
        × IsPrefix (transmit ok i packets).0 packets
unfolding transmit
transmit-cases ok i [] = inl (refl, refl)
transmit-cases ok i (o ∷ os) = elim (Bool-cases (ok i || tells o)) [
  | inl t ↦ elim (transmit-cases ok (suc i) os) [
    | inl (a, e) ↦ rw t (inl (a, ap (λ x. o ∷ x) e))
    | inr (a, f, (rest, e)) ↦ rw t (inr (a, f, (rest, ap (λ x. o ∷ x) e)))
  ]
  | inr t ↦ rw t (inr (refl, (i, ground arith), (o ∷ os, refl)))
]

-- The sender after a product that went out: the index is used up.
pub record IsSent (s s' : Sender) (out packets : List Output) (r : Sent) : Type 0 where
  pub result : r ≡ sent s.prod_index
  pub next : s'.prod_index ≡ add32 s.prod_index 1
  pub sound : s'.broken ≡ false
  pub complete : out ≡ packets
  pub conns : s'.conn_sock_list ≡ s.conn_sock_list

-- The sender after a failure.
pub record IsFailed (s s' : Sender) (r : Sent) : Type 0 where
  pub error : SendError
  pub result : r ≡ failed error
  pub same_index : s'.prod_index ≡ s.prod_index
  pub broke : s'.broken ≡ true

start_timer_lem :
    (s s₀ : Sender) (now : ℕ) (out packets : List Output)
    → s.prod_index ≡ s₀.prod_index
    → s.broken ≡ false
    → s.conn_sock_list ≡ s₀.conn_sock_list
    → out ≡ packets
    → IsSent s₀ (start_timer s now).0 out packets (start_timer s now).1
      ⊎ IsFailed s₀ (start_timer s now).0 (start_timer s now).1
unfolding start_timer task_broke
start_timer_lem s s₀ now out packets i b c e =
    elim (Option-cases (ProdIndexDelayQueue.push s.timer_delay_q now s.prod_index s.retx_timeout)) [
      | inl u ↦
          rw (u, start_timer)
            (inr record { error = queue_disabled; result = refl; same_index = i; broke = refl })
      | inr (q, u) ↦
          rw (u, start_timer)
            (inl record {
              result = ap sent i;
              next = ap (λ x. add32 x 1) i;
              sound = b;
              complete = e;
              conns = c;
            })
    ]

-- The packets of a whole product: BOP, one packet for each block, EOP.
abbrev pub whole_product : ℕ → List ℕ → ℕ → List ℕ → ℕ → ℕ → ℕ → List Output
whole_product p product data_size metadata meta_size sec nsec =
    multicast (header p 0 (to_u16 (meta_size + (fmtp_data_len - avail_bop_len))) fmtp_bop)
        (encode_bop sec nsec data_size metadata meta_size)
      ∷ map (data_packet p product data_size) (blocks data_size)
    ++ multicast (header p 0 0 fmtp_eop) [] ∷ []

product_packets-whole_product :
    (p : ℕ) (product : List ℕ) (data_size : ℕ) (metadata : List ℕ) (meta_size sec nsec : ℕ)
    → data_size < u32_mod
    → product_packets p product data_size metadata meta_size sec nsec
      ≡ whole_product p product data_size metadata meta_size sec nsec
unfolding product_packets send_bop_message send_eop_message
product_packets-whole_product p product data_size metadata meta_size sec nsec small =
    rw (product_packets, send_data_lem p data_size product small) refl

send_product-packets :
    (s : Sender) (product metadata : Option (List ℕ)) (data_size meta_size sec nsec now : ℕ)
    (ok : ℕ → Bool)
    → let (s', out, r) = send_product s product data_size metadata meta_size (sec, nsec, now) ok in
      let packets =
        product_packets s.prod_index
          (or_nil product)
          data_size
          (or_nil metadata)
          meta_size
          sec
          nsec in
      IsPrefix out packets × (IsSent s s' out packets r ⊎ IsFailed s s' r)
unfolding send_product send_checked task_broke
send_product-packets s product metadata data_size meta_size sec nsec now ok =
    let packets =
      product_packets s.prod_index (or_nil product) data_size (or_nil metadata) meta_size sec
        nsec in
    elim (Bool-cases s.broken) [
      | inl b ↦ rw b (
        (packets, refl),
        inr record { error = is_broken; result = refl; same_index = refl; broke = refl },
      )
      | inr b ↦ elim (Option-cases (check_args product metadata meta_size)) [
        | inr (x, u) ↦
            rw (b, u)
              (
                (packets, refl),
                inr record { error = x; result = refl; same_index = refl; broke = refl },
              )
        | inl u ↦
            let meta =
              new_retx_metadata s (or_nil product) data_size (or_nil metadata) meta_size sec nsec in
            let (pre, whole) = transmit_lem ok 0 packets in
            elim (Bool-cases (transmit ok 0 packets).1) [
              | inl t ↦
                  rw (b, u, t)
                    (
                      pre,
                      start_timer_lem (record s { send_meta = add_retx_metadata s.send_meta meta })
                          (record s { broken = false }) now _ packets refl b refl (whole t),
                    )
              | inr t ↦
                  rw (b, u, t)
                    (
                      pre,
                      inr record {
                        error = io_error;
                        result = refl;
                        same_index = refl;
                        broke = refl;
                      },
                    )
            ]
      ]
    ]

-- `sendProduct` either sends the whole product, in the order BOP, data, EOP, and uses up its index, or
-- it fails, leaves the index as it is and leaves the sender broken; what it has sent is then a prefix
-- of those packets. The BOP and the EOP are written out; a data packet is the header of its block
-- with the bytes of the block. The size is a `uint32_t`.
pub send_product-cases :
    (s : Sender) (product metadata : Option (List ℕ)) (data_size meta_size sec nsec now : ℕ)
    (ok : ℕ → Bool)
    → data_size < u32_mod
    → let (s', out, r) = send_product s product data_size metadata meta_size (sec, nsec, now) ok in
      let packets =
        whole_product s.prod_index
          (or_nil product)
          data_size
          (or_nil metadata)
          meta_size
          sec
          nsec in
      IsPrefix out packets × (IsSent s s' out packets r ⊎ IsFailed s s' r)
send_product-cases s product metadata data_size meta_size sec nsec now ok small =
    let (s', out, r) = send_product s product data_size metadata meta_size (sec, nsec, now) ok in
    subst (λ packets. IsPrefix out packets × (IsSent s s' out packets r ⊎ IsFailed s s' r))
      (product_packets-whole_product s.prod_index (or_nil product) data_size (or_nil metadata)
        meta_size sec nsec small)
      (send_product-packets s product metadata data_size meta_size sec nsec now ok)
