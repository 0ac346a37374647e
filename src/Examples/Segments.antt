-- ===== src/Examples/Segments.antt =====
-- The segment map and the small containers at concrete inputs.
use mathlib.Core.Option.{some-injective, none-ne-some}
use fmtp_ldm.Prelude.{
  ℕ, ◌≤◌, ◌≡◌, ◌↔◌, refl, sym, subst, ◌∙◌, true, not, ◌&&◌, List, some, [], ◌∷◌, ◌==◌, arith,
}
use fmtp_ldm.Prelude.Dict.{lookup, insert, lookup-insert_self}
use fmtp_ldm.ProdSegMng.{SegMapSet, add_prod, set, set_map, is_complete, done}
use fmtp_ldm.ProdSegMng.Segments.{gap, empty, find, before, put}
use fmtp_ldm.Prelude.Word.{add32, sub32}
use fmtp_ldm.ProdSegMng.Gaps.{in_seg}
use fmtp_ldm.ProdSegMng.Aligned.{IsBlock}
use fmtp_ldm.ProdSegMng.Table.{
  IsTable, Fits, missing, is_done, insert-IsTable, missing-set, set-IsTable,
}
use fmtp_ldm.ProdSegMng.Lifecycle.{fresh, fresh-IsSegMap}
use fmtp_ldm.ProdSegMng.Transfer.{arrived, deliver, transfer_complete_iff}
use fmtp_ldm.SilenceSuppressor
use fmtp_ldm.SilenceSuppressor.{ProdSet}
use fmtp_ldm.SilenceSuppressor.Range.{IsSorted, clear_range-remove}
use fmtp_ldm.ProdIndexDelayQueue
use fmtp_ldm.ProdIndexDelayQueue.{Queue, Element, pops}
use fmtp_ldm.ProdIndexDelayQueue.Order.{push_each, pushed, PopServes, pop-earliest}

abbrev no_products : SegMapSet
no_products = []

-- A product of 3000 bytes, which is three blocks.
abbrev table : SegMapSet
table = insert 5 (fresh 3000) []

empty-IsTable : IsTable []
unfolding lookup
empty-IsTable = λ k s e. absurd (none-ne-some _ e)

table-IsTable : IsTable table
table-IsTable =
    insert-IsTable [] 5 (fresh 3000) empty-IsTable (fresh-IsSegMap 3000 (omega arith) (omega arith))

table-Fits : Fits table 5 0 1448
unfolding fresh
table-Fits = λ s e.
    subst (λ x. 1448 ≤ x.prodsize)
      (some-injective _ _ (sym (lookup-insert_self 5 (fresh 3000) []) ∙ e)) (omega arith)

missing-set_example : missing (set table 5 0 1448).0 5 100 ≡ (
    missing table 5 100 && not ((5 == 5) && (is_done (set table 5 0 1448).1 && in_seg 0 1448 100)))
missing-set_example = missing-set table 5 0 1448 5 100 table-IsTable table-Fits

set-IsTable_example : IsTable (set table 5 0 1448).0
set-IsTable_example = set-IsTable table 5 0 1448 table-IsTable table-Fits

-- The middle block splits the run of missing bytes.
set_map_middle : set_map (gap 0 3000 ∷ []) 1448 1448 ≡ (gap 0 1448 ∷ gap 2896 104 ∷ [], done)
unfolding set_map empty find before add32 put sub32
set_map_middle = refl

transfer_complete_example :
    (is_complete (deliver (add_prod [] 5 3000).0 5 3000 (1448 ∷ 0 ∷ 2896 ∷ [])) 5 ≡ true)
    ↔ ((j : ℕ) → IsBlock 3000 j → arrived j (1448 ∷ 0 ∷ 2896 ∷ []) ≡ true)
unfolding lookup
transfer_complete_example =
    transfer_complete_iff [] 5 3000 (1448 ∷ 0 ∷ 2896 ∷ []) refl (omega arith, omega arith)
      ((omega arith, omega arith), ((omega arith, omega arith), ((omega arith, omega arith), tt)))

-- Products 2, 5 and 7 have not been acknowledged.
abbrev waiting : ProdSet
waiting = 2 ∷ 5 ∷ 7 ∷ []

waiting-IsSorted : IsSorted 0 waiting
waiting-IsSorted = (omega arith, (omega arith, (omega arith, tt)))

clear_range-remove_example :
    SilenceSuppressor.clear_range (SilenceSuppressor.remove waiting 5).0 5 ≡ []
clear_range-remove_example = clear_range-remove 0 5 waiting waiting-IsSorted

-- Product 3 is due at time 20, product 4 at time 15.
abbrev delays : List (ℕ × ℕ × ℕ)
delays = (10, 3, 10) ∷ (12, 4, 3) ∷ []

pop-earliest_example :
    (q : Queue) × (push_each ProdIndexDelayQueue.new delays ≡ some q)
    × PopServes q 18 (pushed delays)
pop-earliest_example = pop-earliest delays 18
