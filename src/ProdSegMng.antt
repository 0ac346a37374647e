-- ===== src/ProdSegMng.antt =====
-- FMTPv3/receiver/ProdSegMNG.{h,cpp}: which bytes of each product are still missing.
-- `SegMap*` values are owned by the table, so they are stored in it; `delete` is the erasure.
pub mod Segments
pub mod Gaps
pub mod Removes
pub mod Set
pub mod Outcome
pub mod Aligned
pub mod Table
pub mod Lifecycle
pub mod Blocks
pub mod Transfer
pub mod Filled
use fmtp_ldm.Prelude.{
  ℕ, ◌+◌, ◌-◌, Bool, true, false, Option, none, some, List, [], ◌∷◌, ltb, leb, ◌==◌, if◌then◌else◌,
}
use fmtp_ldm.Prelude.Word.{add32, sub32}
use fmtp_ldm.Prelude.Dict.{lookup, insert, erase}
use Segments.{SeqLenMap, Gap, gap, find, put, remove, before, rbegin, empty}

pub record SegMap : Type 0 where
  pub seqlen_map : SeqLenMap
  pub completed : Bool
  pub prodsize : ℕ

abbrev pub SegMapSet : Type 0
SegMapSet = List (ℕ × SegMap)

-- What `set` returns: -1, 0 and 1.
pub data SetState : Type 0 where
  misaligned duplicate done : SetState

unfoldable pub add_prod : SegMapSet → ℕ → ℕ → SegMapSet × Bool
add_prod m prodindex prodsize = elim (lookup prodindex m) [
  | none ↦ (
    insert prodindex
        (record { seqlen_map = put 0 prodsize []; completed = false; prodsize = prodsize }) m,
    true,
  )
  | some _ ↦ (m, false)
]

unfoldable pub del_if_complete : SegMapSet → ℕ → SegMapSet × Bool
del_if_complete m prodindex = elim (lookup prodindex m) [
  | none ↦ (m, false)
  | some s ↦ if s.completed then (erase prodindex m, true) else (m, false)
]

-- The last entry ends before the product does. The source dereferences `rbegin()` of a map that is
-- empty only if `completed` holds; an empty map is answered by `false` here.
unfoldable pub last_received : SegMap → Bool
last_received s = elim (rbegin s.seqlen_map) [
  | none ↦ false
  | some g ↦ ltb (add32 g.start g.len) s.prodsize
]

unfoldable pub get_last_segment : SegMapSet → ℕ → Bool
unfolding last_received
get_last_segment m prodindex = elim (lookup prodindex m) [
  | none ↦ false
  | some s ↦ if s.completed then true else last_received s
]

unfoldable pub is_complete : SegMapSet → ℕ → Bool
is_complete m prodindex = elim (lookup prodindex m) [ none ↦ false | some s ↦ s.completed ]

unfoldable pub rm_prod : SegMapSet → ℕ → SegMapSet × Bool
rm_prod m prodindex = elim (lookup prodindex m) [
  | none ↦ (m, false)
  | some _ ↦ (erase prodindex m, true)
]

-- `set`, where an entry starts with `seqnum`.
unfoldable pub set_at : SeqLenMap → ℕ → ℕ → ℕ → SeqLenMap × SetState
set_at m seqnum payloadlen len =
    if ltb payloadlen len
    then (put (add32 seqnum payloadlen) (sub32 len payloadlen) (remove seqnum m), done)
    else if len == payloadlen
    then (remove seqnum m, done)
    else (m, misaligned)

-- `set`, where the entry `g` comes before `seqnum`.
unfoldable pub set_after : SeqLenMap → ℕ → ℕ → Gap → SeqLenMap × SetState
set_after m seqnum payloadlen g =
    let firstlen = sub32 seqnum g.start in
    let secondlen = sub32 (sub32 g.len payloadlen) firstlen in
    if ltb (add32 seqnum payloadlen) (add32 g.start g.len)
    then (put (add32 seqnum payloadlen) secondlen (put g.start firstlen m), done)
    else if add32 g.start g.len == add32 seqnum payloadlen
    then (put g.start (sub32 g.len payloadlen) m, done)
    else if leb (add32 g.start g.len) seqnum
    then (m, duplicate)
    else (m, misaligned)

unfoldable pub set_map : SeqLenMap → ℕ → ℕ → SeqLenMap × SetState
unfolding set_at set_after
set_map m seqnum payloadlen = if empty m then (m, duplicate) else elim (find seqnum m) [
  | some len ↦ set_at m seqnum payloadlen len
  | none ↦ elim (before seqnum m) [
    | some g ↦ set_after m seqnum payloadlen g
    | none ↦ (m, duplicate)
  ]
]

unfoldable pub set_seg : SegMap → ℕ → ℕ → SegMap × SetState
unfolding set_map
set_seg s seqnum payloadlen =
    let (m, state) = set_map s.seqlen_map seqnum payloadlen in
    (record s { seqlen_map = m; completed = if empty m then true else s.completed }, state)

unfoldable pub set : SegMapSet → ℕ → ℕ → ℕ → SegMapSet × SetState
unfolding set_seg
set m prodindex seqnum payloadlen = elim (lookup prodindex m) [
  | none ↦ (m, misaligned)
  | some s ↦ let (s', state) = set_seg s seqnum payloadlen in (insert prodindex s' m, state)
]
