-- ===== src/SenderMetadata/Calls.antt =====
-- Calls of the methods of `senderMetadata`, from any thread and in any order, and what they report to
-- the sending application: `notifyOfEop` is called where `clearUnfinishedSet` or `rmRetxMetadata`
-- answers true.
use fmtp_ldm.Prelude.{
  ℕ, ◌+◌, ◌≡◌, Bool, true, false, ◌&&◌, Option, none, some, List, [], ◌∷◌, ◌==◌, if◌then◌else◌,
}
use fmtp_ldm.Prelude.Dict.{lookup}
use fmtp_ldm.SenderMetadata.{
  RetxMetadata, MetaMap, add_retx_metadata, clear_unfinished_set, get_metadata, release_metadata,
  rm_retx_metadata,
}

-- A call of a method of `senderMetadata` that changes the map.
pub data Call : Type 0 where
  adds : RetxMetadata → Call
  gets : ℕ → Call
  clears : ℕ → ℕ → List ℕ → Call
  releases : ℕ → Call
  removes : ℕ → Call

-- The new map, and whether the call answers that product `p` has been removed.
unfoldable pub step : ℕ → MetaMap → Call → MetaMap × Bool
step p m (adds meta) = (add_retx_metadata m meta, false)
step p m (gets k) = ((get_metadata m k).0, false)
step p m (clears k sock sklist) =
    let (m', removed) = clear_unfinished_set m k sock sklist in (m', removed && (k == p))
step p m (releases k) = ((release_metadata m k).0, false)
step p m (removes k) = let (m', removed) = rm_retx_metadata m k in (m', removed && (k == p))

abbrev pub count_true : Bool → ℕ
count_true true = 1
count_true false = 0

-- How often product `p` is reported as removed.
unfoldable pub reported : ℕ → MetaMap → List Call → ℕ
unfolding step
reported p m [] = 0
reported p m (c ∷ cs) = count_true (step p m c).1 + reported p (step p m c).0 cs

abbrev pub adds_of : ℕ → List Call → ℕ
adds_of p [] = 0
adds_of p (adds meta ∷ cs) = count_true (meta.prodindex == p) + adds_of p cs
adds_of p (gets k ∷ cs) = adds_of p cs
adds_of p (clears k sock sklist ∷ cs) = adds_of p cs
adds_of p (releases k ∷ cs) = adds_of p cs
adds_of p (removes k ∷ cs) = adds_of p cs

-- An entry that is marked for deletion is in use.
abbrev pub MarkedInUse : Option RetxMetadata → Type 0
MarkedInUse none = Unit {0}
MarkedInUse (some meta) = meta.remove_flag ≡ true → meta.inuse ≡ true

abbrev pub IsMetas : MetaMap → Type 0
IsMetas m = (k : ℕ) → MarkedInUse (lookup k m)

-- The constructor of `RetxMetadata` leaves both flags unset.
abbrev pub IsNew : Call → Type 0
IsNew (adds meta) = (meta.inuse ≡ false) × (meta.remove_flag ≡ false)
IsNew (gets k) = Unit {0}
IsNew (clears k sock sklist) = Unit {0}
IsNew (releases k) = Unit {0}
IsNew (removes k) = Unit {0}

-- How often an entry can still be reported.
abbrev pub credit : Option RetxMetadata → ℕ
credit none = 0
credit (some meta) = if meta.remove_flag then 0 else 1
