-- ===== src/SenderMetadata.antt =====
-- FMTPv3/sender/senderMetadata.{h,cpp}: the products that may still be retransmitted. Each method
-- holds `indexMetaMapLock` from start to end, so a method is one step. The map owns its entries; a
-- pointer that `getMetadata` hands out is to the entry that it returns here.
pub mod Sets
pub mod Receivers
pub mod Calls
pub mod Fair
pub mod Once
pub mod Holds
pub mod Use
use fmtp_ldm.Prelude.{ℕ, Bool, true, false, Option, none, some, List, [], ◌∷◌, if◌then◌else◌}
use fmtp_ldm.Prelude.Dict.{lookup, insert, erase}
use Sets.{member, remove, retain, is_empty}

pub record RetxMetadata : Type 0 where
  pub start_sec : ℕ
  pub start_nsec : ℕ
  pub prodindex : ℕ
  pub prod_length : ℕ
  pub meta_size : ℕ
  pub metadata : List ℕ
  pub dataprod : List ℕ
  pub unfin_receivers : List ℕ
  pub inuse : Bool
  pub remove_flag : Bool

abbrev pub MetaMap : Type 0
MetaMap = List (ℕ × RetxMetadata)

unfoldable pub add_retx_metadata : MetaMap → RetxMetadata → MetaMap
add_retx_metadata m meta = insert meta.prodindex meta m

-- Drops the receiver `sock`, and those that are no longer connected.
unfoldable pub drop_receivers : List ℕ → ℕ → List ℕ → List ℕ
drop_receivers receivers sock sklist =
    let rest = remove sock receivers in if is_empty rest then rest else retain sklist rest

-- Marks an entry in use for deletion, or deletes it: common to `clearUnfinishedSet` and
-- `rmRetxMetadata`.
unfoldable pub remove_entry : MetaMap → ℕ → RetxMetadata → MetaMap × Bool
remove_entry m prodindex meta =
    if meta.inuse
    then if meta.remove_flag
      then (insert prodindex meta m, false)
      else (insert prodindex (record meta { remove_flag = true }) m, true)
    else (erase prodindex m, true)

-- `sklist` is what `TcpSend::getConnSockList()` returns.
unfoldable pub clear_unfinished_set : MetaMap → ℕ → ℕ → List ℕ → MetaMap × Bool
unfolding remove_entry
clear_unfinished_set m prodindex sock sklist = elim (lookup prodindex m) [
  | none ↦ (m, false)
  | some meta ↦
      let rest = drop_receivers meta.unfin_receivers sock sklist in
      let meta' : RetxMetadata = record meta { unfin_receivers = rest } in
      if is_empty rest then remove_entry m prodindex meta' else (insert prodindex meta' m, false)
]

unfoldable pub get_metadata : MetaMap → ℕ → MetaMap × Option RetxMetadata
get_metadata m prodindex = elim (lookup prodindex m) [
  | none ↦ (m, none)
  | some meta ↦
      let meta' : RetxMetadata = record meta { inuse = true } in
      (insert prodindex meta' m, some meta')
]

-- The sockets that get the EOP, in the order of the set.
unfoldable pub notify_unacked_rcvrs : MetaMap → ℕ → List ℕ → List ℕ
notify_unacked_rcvrs m prodindex sklist = elim (lookup prodindex m) [
  | none ↦ []
  | some meta ↦ retain sklist meta.unfin_receivers
]

unfoldable pub release_metadata : MetaMap → ℕ → MetaMap × Bool
release_metadata m prodindex = elim (lookup prodindex m) [
  | none ↦ (m, false)
  | some meta ↦
      if meta.remove_flag
      then (erase prodindex m, true)
      else (insert prodindex (record meta { inuse = false }) m, true)
]

unfoldable pub rm_retx_metadata : MetaMap → ℕ → MetaMap × Bool
unfolding remove_entry
rm_retx_metadata m prodindex = elim (lookup prodindex m) [
  | none ↦ (m, false)
  | some meta ↦ remove_entry m prodindex meta
]
