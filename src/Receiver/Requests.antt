-- ===== src/Receiver/Requests.antt =====
-- The requests for what is missing: `requestAnyMissingData`, `requestMissingBops`,
-- `requestMissingBopsExclusive` and `requestMissingBopsInclusive`.
use fmtp_ldm.Prelude.{
  ℕ, zero, suc, Bool, true, false, Option, none, some, List, [], ◌∷◌, ◌++◌, if◌then◌else◌, ltb,
  ◌==◌,
}
use fmtp_ldm.Prelude.Word.{add32, sub32}
use fmtp_ldm.Prelude.Dict.{lookup}
use fmtp_ldm.FmtpBase.{fmtp_data_len}
use fmtp_ldm.SenderMetadata.Sets.{member}
use fmtp_ldm.Receiver.State.{Receiver, Request, missing_bop, missing_data, Handled, returned, stuck}

-- The loop of `requestAnyMissingData`, on fuel: `none` if that runs out.
unfoldable pub missing_loop : ℕ → ℕ → ℕ → ℕ → Option (List Request)
missing_loop zero prodindex seqnum most_recent = none
missing_loop (suc fuel) prodindex seqnum most_recent =
    let rest = missing_loop fuel prodindex (add32 seqnum fmtp_data_len) most_recent in
    if ltb seqnum most_recent
    then elim rest [
      | none ↦ none
      | some requests ↦ some (missing_data prodindex seqnum fmtp_data_len ∷ requests)
    ]
    else some []

-- The first byte after the last packet of a product that came by multicast.
unfoldable pub next_seqnum : Receiver → ℕ → ℕ
next_seqnum r prodindex = elim (lookup prodindex r.trackermap) [
  | none ↦ 0
  | some tracker ↦ add32 tracker.seqnum tracker.paylen
]

unfoldable pub request_any_missing_data : Receiver → ℕ → ℕ → Handled
unfolding missing_loop next_seqnum
request_any_missing_data r prodindex most_recent =
    let seqnum = next_seqnum r prodindex in
    if seqnum == most_recent
    then (r, [], returned)
    else elim (missing_loop (suc most_recent) prodindex seqnum most_recent) [
      | none ↦ (r, [], stuck)
      | some requests ↦ (record r { msgqueue = r.msgqueue ++ requests }, [], returned)
    ]

-- `addUnrqBOPinSet`: the new set, and whether the index was not in it.
unfoldable pub add_unrq_bop_in_set : List ℕ → ℕ → List ℕ × Bool
add_unrq_bop_in_set set prodindex =
    if member prodindex set then (set, false) else (prodindex ∷ set, true)

-- The loop of `requestMissingBops`, on fuel: the set of requested BOPs and the requests.
unfoldable pub bops_loop : ℕ → ℕ → ℕ → List ℕ → Option (List ℕ × List Request)
unfolding add_unrq_bop_in_set
bops_loop zero i openright set = none
bops_loop (suc fuel) i openright set =
    let (set', added) = add_unrq_bop_in_set set i in
    let rest = bops_loop fuel (add32 i 1) openright set' in
    if i == openright then some (set, []) else elim rest [
      | none ↦ none
      | some (set'', requests) ↦ some (set'', if added then missing_bop i ∷ requests else requests)
    ]

unfoldable pub request_missing_bops : Receiver → ℕ → ℕ → Handled
unfolding bops_loop
request_missing_bops r openleft openright =
    if ltb 1 (sub32 openright openleft)
    then elim (bops_loop (sub32 openright openleft) (add32 openleft 1) openright r.mis_bop_set) [
      | none ↦ (r, [], stuck)
      | some (set, requests) ↦
          (record r { mis_bop_set = set; msgqueue = r.msgqueue ++ requests }, [], returned)
    ]
    else (r, [], returned)

-- `prodindex - lastprodidx > 0`, in `uint32_t`.
abbrev pub note_index : Receiver → ℕ → Receiver
note_index r prodindex =
    if ltb 0 (sub32 prodindex r.prodidx_mcast) then record r { prodidx_mcast = prodindex } else r

unfoldable pub request_missing_bops_exclusive : Receiver → ℕ → Handled
unfolding request_missing_bops
request_missing_bops_exclusive r prodindex =
    request_missing_bops (note_index r prodindex) r.prodidx_mcast prodindex

unfoldable pub request_missing_bops_inclusive : Receiver → ℕ → Handled
unfolding request_missing_bops
request_missing_bops_inclusive r prodindex =
    request_missing_bops (note_index r prodindex) r.prodidx_mcast (add32 prodindex 1)
