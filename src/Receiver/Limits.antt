-- ===== src/Receiver/Limits.antt =====
-- Packets that the receiver does not guard against.
use fmtp_ldm.Prelude.{
  ℕ, ◌+◌, ◌≤◌, ◌<◌, ◌≡◌, refl, ap, true, false, some, List, [], ◌∷◌, ◌++◌, arith, inl, inr,
  Bool-cases, ltb, take,
}
use fmtp_ldm.Prelude.Word.{add32, u32_mod}
use fmtp_ldm.Prelude.Dict.{lookup}
use fmtp_ldm.Receiver.State.{
  Receiver, ProdTracker, Handled, Action, stores, returned, stuck, threw, then_do,
}
use fmtp_ldm.Receiver.Multicast.{
  Datagram, check_payload_len, store_payload, read_mcast_data, recv_mem_data,
}
use fmtp_ldm.Receiver.Delivery.{tracked_size-known}

-- What an action list begins with.
abbrev pub BeginsWith : Action → List Action → Type 0
BeginsWith a out = (rest : List Action) × (out ≡ a ∷ rest)

then_do-begins :
    (a : Action) (x : Handled) (f : Receiver → Handled)
    → BeginsWith a x.1
    → BeginsWith a (then_do x f).1
then_do-begins a (r, out, returned) f (rest, e) = (rest ++ (f r).1, ap (λ o. o ++ (f r).1) e)
then_do-begins a (r, out, stuck) f b = b
then_do-begins a (r, out, threw x) f b = b

read_mcast_data-begins :
    (r : Receiver) (d : Datagram) (t : ProdTracker) (address : ℕ)
    → lookup d.head.prodindex r.trackermap ≡ some t
    → t.prodptr ≡ some address
    → BeginsWith
        (stores (address + d.head.seqnum) (take d.head.payloadlen d.payload))
        (read_mcast_data r d).1
unfolding read_mcast_data store_payload
read_mcast_data-begins r d t address u e = elim (Bool-cases (check_payload_len d.head d.payload)) [
  | inl c ↦ ([], rw (c, u, store_payload, e) refl)
  | inr c ↦ ([], rw (c, u, store_payload, e) refl)
]

-- The test for the end of the product wraps: a data packet whose end is past the range of `uint32_t`
-- passes it if the wrapped end is not past the product, and its payload is stored from a place past
-- the product's memory on.
pub wrapped_end_stored :
    (r : Receiver) (d : Datagram) (t : ProdTracker) (address : ℕ)
    → lookup d.head.prodindex r.trackermap ≡ some t
    → t.prodptr ≡ some address
    → 0 < t.prodsize
    → t.prodsize < d.head.seqnum
    → u32_mod ≤ d.head.seqnum + d.head.payloadlen
    → d.head.seqnum + d.head.payloadlen ≤ u32_mod + t.prodsize
    → t.prodsize < u32_mod
    → BeginsWith
        (stores (address + d.head.seqnum) (take d.head.payloadlen d.payload))
        (recv_mem_data r d).1
unfolding recv_mem_data
wrapped_end_stored r d t address u e z past wraps fits small =
    let positive : ltb 0 t.prodsize ≡ true = ground arith in
    let end : add32 d.head.seqnum d.head.payloadlen ≤ t.prodsize = unfold add32 in omega arith in
    let inside : ltb t.prodsize (add32 d.head.seqnum d.head.payloadlen) ≡ false = ground arith in
    rw (tracked_size-known r d.head.prodindex t u, positive, inside)
      (then_do-begins _ (read_mcast_data r d) _ (read_mcast_data-begins r d t address u e))
