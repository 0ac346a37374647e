-- ===== src/Receiver/EndToEnd.antt =====
-- From `sendProduct` to the end of the product at a receiver that gets every packet.
use fmtp_ldm.Prelude.{
  ℕ, ◌+◌, ◌-◌, ◌/◌, ◌%◌, ◌≤◌, ◌<◌, ◌≡◌, refl, sym, ap, subst, ◌∙◌, true, Option, none, some, List,
  arith, length, map, inl, inr, Bool-cases, ltb, if◌then◌else◌, take-length, ◌^◌,
}
use fmtp_ldm.Prelude.Word.{u32_mod, u16_mod, to_u16, to_u16_exact, sub32}
use fmtp_ldm.Prelude.Dict.{lookup, lookup-insert_self}
use fmtp_ldm.FmtpBase.{fmtp_data_len, avail_bop_len, bopconst, fmtp_bop, encode_bop, BopMsg}
use fmtp_ldm.FmtpBase.RoundTrip.{parse-encode_bop}
use fmtp_ldm.ProdSegMng.{SegMapSet, add_prod}
use fmtp_ldm.ProdSegMng.Lifecycle.{add_prod-new}
use fmtp_ldm.Sender.State.{multicast, header}
use fmtp_ldm.Sender.Multicast.{send_data, send_bop_message, send_eop_message}
use fmtp_ldm.Sender.Segments.{blocks, blocks_lem, data_packet, send_data_lem}
use fmtp_ldm.Receiver.State.{Receiver, ProdTracker, Handled, then_do, returned, stuck, threw}
use fmtp_ldm.Receiver.Requests.{request_missing_bops_exclusive, note_index}
use fmtp_ldm.Receiver.Product.{begin_product, bop_handler}
use fmtp_ldm.Receiver.Multicast.{
  Datagram, check_payload_len, mcast_bop_handler, note_first, dispatch, peeked, mcast_round,
}
use fmtp_ldm.Receiver.Bops.{asked_lem}
use fmtp_ldm.Receiver.Receiving.{IsReceiving, same-IsReceiving, receive}
use fmtp_ldm.Receiver.Transfer.{eop_datagram, finish_actions, mcast_transfer_iff}

-- The sender cuts the product into blocks, and a receiver that has the BOP and gets all of them, and
-- then the EOP, tells the application the end of the product.
blocks_delivered :
    (r : Receiver) (p : ℕ) (product : List ℕ) (m : SegMapSet)
    → lookup p m ≡ none
    → 0 < length product
    → length product + fmtp_data_len ≤ u32_mod
    → IsReceiving r p (length product) (add_prod m p (length product)).0
    → let ks = blocks (length product) in
      (send_data p product (length product)
        ≡ some (map (data_packet p product (length product)) ks))
      × ((mcast_round (receive r p product (length product) ks) (peeked (eop_datagram p)) none).0.1
          ≡ finish_actions p)
blocks_delivered r p product m new z small i =
    let size = length product in
    let (each, all) = blocks_lem size in
    (
      send_data_lem p size product (omega arith),
      (mcast_transfer_iff r p product (blocks size) m new z small i each).1 all,
    )

-- A BOP for a new product makes the receiver track it.
begin-IsReceiving :
    (r : Receiver) (p : ℕ) (bop : BopMsg) (ptr : Option ℕ)
    → lookup p r.seg_mng ≡ none
    → lookup p r.trackermap ≡ none
    → r.tcp_up ≡ true
    → r.has_notifier ≡ true
    → ((begin_product r p bop ptr).2 ≡ returned)
      × ((begin_product r p bop ptr).0.prodidx_mcast ≡ r.prodidx_mcast)
      × IsReceiving
          (begin_product r p bop ptr).0
          p
          bop.prodsize
          (add_prod r.seg_mng p bop.prodsize).0
unfolding begin_product
begin-IsReceiving r p bop ptr u v up n =
    let t : ProdTracker = record {
      prodsize = bop.prodsize;
      prodptr = if r.has_notifier then ptr else none;
      seqnum = 0;
      paylen = 0;
      num_retrans = 0;
    } in
    rw (add_prod-new r.seg_mng p bop.prodsize u, v)
      (
        refl,
        refl,
        record {
          tracker = t;
          found = lookup-insert_self p t r.trackermap;
          size_eq = refl;
          no_retrans = refl;
          segs_eq = refl;
          up = up;
          notifier = n;
        },
      )

note_index-IsReceiving :
    (r : Receiver) (p q size : ℕ) (segs : SegMapSet)
    → IsReceiving r p size segs
    → IsReceiving (note_index r q) p size segs
note_index-IsReceiving r p q size segs i = elim (Bool-cases (ltb 0 (sub32 q r.prodidx_mcast))) [
  | inl t ↦ rw t (same-IsReceiving p size segs refl refl refl refl i)
  | inr t ↦ rw t (same-IsReceiving p size segs refl refl refl refl i)
]

exclusive-IsReceiving :
    (r : Receiver) (p q size : ℕ) (segs : SegMapSet)
    → r.prodidx_mcast < u32_mod
    → q < u32_mod
    → IsReceiving r p size segs
    → IsReceiving (request_missing_bops_exclusive r q).0 p size segs
unfolding request_missing_bops_exclusive
exclusive-IsReceiving r p q size segs a b i =
    rw (asked_lem (note_index r q) r.prodidx_mcast q a b)
      (same-IsReceiving p size segs refl refl refl refl (note_index-IsReceiving r p q size segs i))

-- The datagram of the sender's BOP.
abbrev pub bop_datagram : ℕ → ℕ → List ℕ → ℕ → ℕ → Datagram
bop_datagram p size metadata sec nsec = record {
  head = header p 0 (to_u16 (length metadata + (fmtp_data_len - avail_bop_len))) fmtp_bop;
  payload = encode_bop sec nsec size metadata (length metadata);
}

length-encode_bop :
    (sec nsec size : ℕ) (metadata : List ℕ)
    → length (encode_bop sec nsec size metadata (length metadata)) ≡ bopconst + length metadata
unfolding encode_bop
length-encode_bop sec nsec size metadata = rw (take-length metadata) (omega arith)

bop_handled :
    (r : Receiver) (p size sec nsec : ℕ) (metadata : List ℕ) (ptr : Option ℕ)
    → (sec < 2 ^ 64) × (nsec < u32_mod) × (size < u32_mod)
    → bopconst + length metadata < u16_mod
    → let d = bop_datagram p size metadata sec nsec in
      (check_payload_len d.head d.payload ≡ true)
      × ((bop : BopMsg) × (bop.prodsize ≡ size)
          × (bop_handler r d.head d.payload ptr ≡ begin_product r p bop ptr))
unfolding bop_handler check_payload_len
bop_handled r p size sec nsec metadata ptr w h =
    let len : to_u16 (length metadata + 18) ≡ bopconst + length metadata =
      to_u16_exact (length metadata + 18) (omega arith) ∙ (omega arith) in
    let bop : BopMsg = record {
      start_hi = sec / 2 ^ 32;
      start_lo = sec % 2 ^ 32;
      start_nsec = nsec;
      prodsize = size;
      metasize = length metadata;
      metadata = metadata;
    } in
    (
      ground (arith, len, length-encode_bop sec nsec size metadata),
      (bop, refl, rw (len, parse-encode_bop sec nsec size metadata w h, bop_handler) refl),
    )

then_do-returned :
    (x : Handled) (f : Receiver → Handled) → x.2 ≡ returned → (then_do x f).0 ≡ (f x.0).0
then_do-returned (r, out, returned) f e = refl
then_do-returned (r, out, stuck) f e = absurd (cc)
then_do-returned (r, out, threw x) f e = absurd (cc)

note_first-started : (r : Receiver) (p : ℕ) → r.mcast_hndlr_started ≡ true → note_first r p ≡ r
unfolding note_first
note_first-started r p t =
    subst (λ b. (if b then r else record r { prodidx_mcast = p; mcast_hndlr_started = true }) ≡ r)
      (sym t) refl

-- A round for a BOP with a good length.
round_of_bop :
    (r : Receiver) (p size sec nsec : ℕ) (metadata : List ℕ) (ptr : Option ℕ) {x : Handled}
    → let d = bop_datagram p size metadata sec nsec in
      r.mcast_hndlr_started ≡ true
      → check_payload_len d.head d.payload ≡ true
      → bop_handler r d.head d.payload ptr ≡ x
      → (mcast_round r (peeked d) ptr).0 ≡ then_do x (λ r'. request_missing_bops_exclusive r' p)
unfolding mcast_round dispatch mcast_bop_handler
round_of_bop r p size sec nsec metadata ptr t c e = rw (note_first-started r p t, c, e) refl

-- The BOP that the sender multicasts makes a receiver that has started, and does not have the product,
-- track it.
bop-IsReceiving :
    (r : Receiver) (p size sec nsec : ℕ) (metadata : List ℕ) (ptr : Option ℕ)
    → (sec < 2 ^ 64) × (nsec < u32_mod) × (size < u32_mod)
    → bopconst + length metadata < u16_mod
    → lookup p r.seg_mng ≡ none
    → lookup p r.trackermap ≡ none
    → r.tcp_up ≡ true
    → r.has_notifier ≡ true
    → r.mcast_hndlr_started ≡ true
    → (r.prodidx_mcast < u32_mod) × (p < u32_mod)
    → IsReceiving
        (mcast_round r (peeked (bop_datagram p size metadata sec nsec)) ptr).0.0
        p
        size
        (add_prod r.seg_mng p size).0
bop-IsReceiving r p size sec nsec metadata ptr w h u v up n st small =
    let d = bop_datagram p size metadata sec nsec in
    let (c, (bop, e, f)) = bop_handled r p size sec nsec metadata ptr w h in
    let (done, same, i) = begin-IsReceiving r p bop ptr u v up n in
    let x = begin_product r p bop ptr in
    let g : (mcast_round r (peeked d) ptr).0.0 ≡ (request_missing_bops_exclusive x.0 p).0 =
      ap (λ (y : Handled). y.0) (round_of_bop r p size sec nsec metadata ptr st c f)
      ∙ then_do-returned x _ done in
    let j = exclusive-IsReceiving x.0 p p bop.prodsize _ (rw same (small.0)) small.1 i in
    subst (λ z. IsReceiving z p size (add_prod r.seg_mng p size).0) (sym g)
      (subst
        (λ z. IsReceiving (request_missing_bops_exclusive x.0 p).0 p z (add_prod r.seg_mng p z).0) e
        j)

-- A whole product from the sender to a receiver that has started, does not have the product, and gets
-- every packet: the packets that the sender multicasts are the BOP, the blocks and the EOP, and with
-- the EOP the receiver says to the sender that it has the product and tells the application its end.
pub product_delivered :
    (r : Receiver) (p sec nsec : ℕ) (product metadata : List ℕ) (ptr : Option ℕ)
    → (sec < 2 ^ 64) × (nsec < u32_mod)
    → (0 < length product) × (length product + fmtp_data_len ≤ u32_mod)
    → bopconst + length metadata < u16_mod
    → lookup p r.seg_mng ≡ none
    → lookup p r.trackermap ≡ none
    → r.tcp_up ≡ true
    → r.has_notifier ≡ true
    → r.mcast_hndlr_started ≡ true
    → (r.prodidx_mcast < u32_mod) × (p < u32_mod)
    → let size = length product in
      let bop = bop_datagram p size metadata sec nsec in
      let r₁ = (mcast_round r (peeked bop) ptr).0.0 in
      let eop = eop_datagram p in
      (send_bop_message p size metadata (length metadata) sec nsec ≡ multicast bop.head bop.payload)
      × (send_data p product size ≡ some (map (data_packet p product size) (blocks size)))
      × (send_eop_message p ≡ multicast eop.head eop.payload)
      × ((mcast_round (receive r₁ p product size (blocks size)) (peeked eop) none).0.1
          ≡ finish_actions p)
product_delivered r p sec nsec product metadata ptr time size h u v up n st small =
    let i =
      bop-IsReceiving r p (length product) sec nsec metadata ptr (time.0, time.1, omega arith) h u v
        up n st small in
    let (sent, told) = blocks_delivered _ p product r.seg_mng u size.0 size.1 i in
    (unfold send_bop_message in refl, sent, unfold send_eop_message in refl, told)
