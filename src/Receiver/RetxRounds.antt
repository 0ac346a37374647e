-- ===== src/Receiver/RetxRounds.antt =====
-- A round of the retransmission thread keeps the two maps in agreement.
use fmtp_ldm.Prelude.{
  ℕ, ◌≡◌, refl, sym, ap, subst, ◌∙◌, true, false, ◌&&◌, ◌||◌, Option, none, some, List, arith, inl,
  inr, eq-cases, Bool-cases, Option-cases, ◌==◌, if◌then◌else◌, ltb,
}
use fmtp_ldm.Prelude.Word.{add32}
use fmtp_ldm.Prelude.Dict.{lookup, erase, is_some, lookup-erase}
use fmtp_ldm.FmtpBase.{FmtpHeader, fmtp_retx_bop, fmtp_retx_data, fmtp_retx_eop, fmtp_retx_rej}
use fmtp_ldm.ProdSegMng
use fmtp_ldm.ProdSegMng.{SegMap, SegMapSet, rm_prod, is_complete}
use fmtp_ldm.SenderMetadata.Sets.{member}
use fmtp_ldm.Receiver.State.{Receiver, ProdTracker, push_request, missing_eop, stop}
use fmtp_ldm.Receiver.Requests.{request_any_missing_data}
use fmtp_ldm.Receiver.Product.{bop_handler}
use fmtp_ldm.Receiver.Multicast.{tracked_size}
use fmtp_ldm.Receiver.Unicast.{
  rm_mis_bop_in_set, request_rest, retx_bop, count_retrans, take_block, retx_data, retx_eop_handler,
  retx_rej, retx_round,
}
use fmtp_ldm.Receiver.Paired.{
  Agree, IsPaired, SameMaps, SameMaps-IsPaired, missing_data-SameMaps, erase-Agree, set-Agree,
}
use fmtp_ldm.Receiver.Invariant.{
  then_do-IsPaired, finish-IsPaired, bop_handler-IsPaired, eop_handler-IsPaired, del_complete,
  del_incomplete,
}
use fmtp_ldm.Receiver.Rounds.{retrack-IsPaired}

count_retrans-IsPaired : (r : Receiver) (p : ℕ) → IsPaired r → IsPaired (count_retrans r p)
unfolding count_retrans
count_retrans-IsPaired r p i = elim (Option-cases (lookup p r.trackermap)) [
  | inl u ↦ rw (u, count_retrans) i
  | inr (y, u) ↦ rw (u, count_retrans) (retrack-IsPaired r p _ y u refl i)
]

rm_mis-SameMaps : (r : Receiver) (p : ℕ) → SameMaps r (rm_mis_bop_in_set r p).0
unfolding rm_mis_bop_in_set
rm_mis-SameMaps r p = record { tracker = refl; segs = refl; up = refl }

push-SameMaps : (r : Receiver) (p : ℕ) → SameMaps r (push_request r (missing_eop p))
unfolding push_request
push-SameMaps r p = record { tracker = refl; segs = refl; up = refl }

request_rest-IsPaired : (r : Receiver) (p : ℕ) → IsPaired r → IsPaired (request_rest r p).0
unfolding request_rest
request_rest-IsPaired r p i = elim (Option-cases (lookup p r.trackermap)) [
  | inl u ↦ rw (u, request_rest) i
  | inr (t, u) ↦ elim (Bool-cases (t.prodsize == 0)) [
    | inl z ↦ rw (u, request_rest, z) i
    | inr z ↦ elim (Bool-cases (t.seqnum == 0)) [
      | inr s ↦ rw (u, request_rest, z, s) i
      | inl s ↦ elim (Bool-cases (r.prodidx_mcast == p)) [
        | inl m ↦ rw (u, request_rest, z, s, m) (SameMaps-IsPaired (push-SameMaps r p) i)
        | inr m ↦
            rw (u, request_rest, z, s, m)
              (then_do-IsPaired (request_any_missing_data r p t.prodsize) _
                (SameMaps-IsPaired (missing_data-SameMaps r p t.prodsize) i)
                (λ r'. SameMaps-IsPaired (push-SameMaps r' p)))
      ]
    ]
  ]
]

retx_bop-IsPaired :
    (r : Receiver) (h : FmtpHeader) (payload : List ℕ) (ptr : Option ℕ)
    → IsPaired r
    → IsPaired (retx_bop r h payload ptr).0
unfolding retx_bop
retx_bop-IsPaired r h payload ptr i =
    then_do-IsPaired (bop_handler r h payload ptr) _ (bop_handler-IsPaired r h payload ptr i)
      (λ r' j.
        request_rest-IsPaired (rm_mis_bop_in_set r' h.prodindex).0 h.prodindex
          (SameMaps-IsPaired (rm_mis-SameMaps r' h.prodindex) j))

set-IsPaired :
    (r : Receiver) (h : FmtpHeader)
    → IsPaired r
    → IsPaired
        (record r { seg_mng = (ProdSegMng.set r.seg_mng h.prodindex h.seqnum h.payloadlen).0 })
set-IsPaired r h i = record {
  up = i.up;
  agree = λ k.
      set-Agree (lookup k r.trackermap) r.seg_mng h.prodindex k h.seqnum h.payloadlen (i.agree k);
}

take_block-IsPaired : (r : Receiver) (h : FmtpHeader) → IsPaired r → IsPaired (take_block r h).0
unfolding take_block
take_block-IsPaired r h i =
    let segs = (ProdSegMng.set r.seg_mng h.prodindex h.seqnum h.payloadlen).0 in
    elim (Bool-cases (is_complete segs h.prodindex)) [
      | inl c ↦
          rw (del_complete segs h.prodindex c)
            (finish-IsPaired (record r { seg_mng = segs }) h.prodindex (set-IsPaired r h i))
      | inr c ↦ rw (del_incomplete segs h.prodindex c) (set-IsPaired r h i)
    ]

retx_data-IsPaired :
    (r : Receiver) (h : FmtpHeader) (payload : Option (List ℕ))
    → IsPaired r
    → IsPaired (retx_data r h payload).0
unfolding retx_data
retx_data-IsPaired r h payload i =
    let size = tracked_size r h.prodindex in
    let j = count_retrans-IsPaired r h.prodindex i in
    elim (Bool-cases (ltb 0 size && ltb size (add32 h.seqnum h.payloadlen))) [
      | inl b ↦ rw b j
      | inr b ↦ elim (Option-cases payload) [
        | inl e ↦ rw (b, e) j
        | inr (bytes, e) ↦ elim (Bool-cases (ltb 0 size)) [
          | inl z ↦ rw (b, e, z) (take_block-IsPaired (count_retrans r h.prodindex) h j)
          | inr z ↦ rw (b, e, z) j
        ]
      ]
    ]

retx_eop-IsPaired : (r : Receiver) (h : FmtpHeader) → IsPaired r → IsPaired (retx_eop_handler r h).0
unfolding retx_eop_handler
retx_eop-IsPaired r h i = elim (Bool-cases (is_some (lookup h.prodindex r.trackermap))) [
  | inl t ↦ rw t (eop_handler-IsPaired r h i)
  | inr t ↦ rw t i
]

rm_prod-unknown : (m : SegMapSet) (p : ℕ) → lookup p m ≡ none → rm_prod m p ≡ (m, false)
unfolding rm_prod
rm_prod-unknown m p u = rw (u, rm_prod)

rm_prod-known :
    (m : SegMapSet) (p : ℕ) (s : SegMap) → lookup p m ≡ some s → rm_prod m p ≡ (erase p m, true)
unfolding rm_prod
rm_prod-known m p s u = rw (u, rm_prod)

rm_prod-nothing : (m : SegMapSet) (p : ℕ) → (rm_prod m p).1 ≡ false → (rm_prod m p).0 ≡ m
unfolding rm_prod
rm_prod-nothing m p e = ground arith

only_tracker :
    (t : List (ℕ × ProdTracker)) (m : SegMapSet) (p k : ℕ)
    → lookup p m ≡ none
    → Agree (lookup k t) (lookup k m)
    → Agree (lookup k (erase p t)) (lookup k m)
only_tracker t m p k u a = elim (eq-cases p k) [
  | inl (b, e) ↦
      let v : lookup k m ≡ none = ap (λ j. lookup j m) (sym e) ∙ u in
      rw (lookup-erase p k t, b, v) tt
  | inr (b, e) ↦ rw (lookup-erase p k t, b) a
]

forget-IsPaired :
    (r : Receiver) (p : ℕ)
    → IsPaired r
    → IsPaired (record r { trackermap = erase p r.trackermap; seg_mng = (rm_prod r.seg_mng p).0 })
forget-IsPaired r p i = elim (Option-cases (lookup p r.seg_mng)) [
  | inl u ↦
      rw (rm_prod-unknown r.seg_mng p u)
        (record { up = i.up; agree = λ k. only_tracker r.trackermap r.seg_mng p k u (i.agree k) })
  | inr (s, u) ↦
      rw (rm_prod-known r.seg_mng p s u)
        (record { up = i.up; agree = λ k. erase-Agree r.trackermap r.seg_mng p k (i.agree k) })
]

retx_rej-IsPaired : (r : Receiver) (p : ℕ) → IsPaired r → IsPaired (retx_rej r p).0
unfolding retx_rej rm_mis_bop_in_set
retx_rej-IsPaired r p i =
    let gone = forget-IsPaired r p i in
    elim (Bool-cases ((rm_prod r.seg_mng p).1 || member p r.mis_bop_set)) [
      | inr t ↦
          let same : (rm_prod r.seg_mng p).0 ≡ r.seg_mng =
            rm_prod-nothing r.seg_mng p (ground arith) in
          rw t (record {
            up = i.up;
            agree =
                λ k. subst (λ m. Agree (lookup k r.trackermap) (lookup k m)) (sym same) (i.agree k);
          })
      | inl t ↦ elim (Bool-cases r.has_notifier) [
        | inl n ↦ rw (t, n) (record { up = i.up; agree = gone.agree })
        | inr n ↦ rw (t, n) (record { up = i.up; agree = gone.agree })
      ]
    ]

-- A round of the retransmission thread, whatever comes and however the round ends, keeps the two maps
-- of the receiver in agreement while the TCP connection is up.
pub retx_round-IsPaired :
    (r : Receiver) (head : Option FmtpHeader) (payload : Option (List ℕ)) (ptr : Option ℕ)
    → IsPaired r
    → IsPaired (retx_round r head payload ptr).0
unfolding retx_round
retx_round-IsPaired r none payload ptr i = unfold stop in record { up = i.up; agree = i.agree }
retx_round-IsPaired r (some h) payload ptr i =
    let read = if h.payloadlen == 0 then none else payload in
    elim (Bool-cases (h.flags == fmtp_retx_bop)) [
      | inl a ↦ elim (Option-cases read) [
        | inl e ↦ rw (a, e) i
        | inr (bytes, e) ↦ rw (a, e) (retx_bop-IsPaired r h bytes ptr i)
      ]
      | inr a ↦ elim (Bool-cases (h.flags == fmtp_retx_data)) [
        | inl b ↦ rw (a, b) (retx_data-IsPaired r h read i)
        | inr b ↦ elim (Bool-cases (h.flags == fmtp_retx_eop)) [
          | inl c ↦ rw (a, b, c) (retx_eop-IsPaired r h i)
          | inr c ↦ elim (Bool-cases (h.flags == fmtp_retx_rej)) [
            | inl d ↦ rw (a, b, c, d) (retx_rej-IsPaired r h.prodindex i)
            | inr d ↦ rw (a, b, c, d) i
          ]
        ]
      ]
    ]
