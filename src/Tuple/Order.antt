-- ===== src/Tuple/Order.antt =====
-- n_tuple_isort_ex orders a tuple, and n_tuple_bsearch_idx_ex finds in it.
use mathlib.Core.List.{Perm}
use trurlib.Prelude.{
  ◌^◌, ◌<◌, ◌≤◌, ◌≡◌, ◌≢◌, refl, ap, sym, ◌∙◌, inl, inr, true, false, Bool-cases, List, arith,
  length, ◌==◌,
}
use trurlib.Prelude.Int.{is_neg, negsuc}
use trurlib.Run.{ok, Returns}
use trurlib.Memory.Laws.{load-get_or}
use trurlib.Array.State.{Ptr, null, Code}
use trurlib.Sort.{isort, search_idx}
use trurlib.Sort.Insertion.{IsSorted, isort-IsSorted}
use trurlib.Sort.Search.{IsOrdered, IsFirst, search_idx-IsFirst}
use trurlib.Tuple.{Tuple, isort_ex, sort_ex, bsearch_idx_ex}

-- On a tuple of at most 10 elements n_tuple_sort_ex ends with the same elements in the order of the
-- function, if of two elements at most one compares less than the other; nothing else of the tuple
-- is changed.
pub sort_ex-IsSorted :
    (code : Code) (tu : Tuple) (cmpf : Ptr)
    → length tu.cells ≡ tu.size
    → tu.size ≤ 10
    → cmpf ≢ null
    → ((x y : Ptr) → is_neg (code.cmp cmpf x y) ≡ true → is_neg (code.cmp cmpf y x) ≡ false)
    → (cells : List Ptr) × (sort_ex code tu cmpf ≡ ok (record tu { cells = cells }))
      × IsSorted (code.cmp cmpf) cells
      × Perm cells tu.cells
unfolding sort_ex isort_ex
sort_ex-IsSorted code tu cmpf whole few given asym =
    let (cells, run, (sorted, same)) = isort-IsSorted (code.cmp cmpf) asym tu.cells in
    let run2 = ap (λ n. isort (code.cmp cmpf) tu.cells n) (sym whole) ∙ run in
    (cells, ground (arith, few, given, run2), sorted, same)

-- In a tuple that is ordered by the function n_tuple_bsearch_idx_ex finds the first element that is
-- equal to the wanted one, or -1 if there is none.
pub tuple_bsearch-IsFirst :
    (code : Code) (tu : Tuple) (wanted cmpf : Ptr)
    → length tu.cells ≡ tu.size
    → tu.size < 2 ^ 16
    → cmpf ≢ null
    → IsOrdered (code.cmp cmpf) tu.cells wanted
    → Returns (bsearch_idx_ex code tu wanted cmpf) (IsFirst (code.cmp cmpf) tu.cells wanted)
unfolding bsearch_idx_ex
tuple_bsearch-IsFirst code tu wanted cmpf whole small given w = elim (Bool-cases (tu.size == 0)) [
  | inl e ↦
      (negsuc 0, ground (arith, given, e), (refl, λ i h. absurd (ground (arith, e, whole, h))))
  | inr e ↦
      let (o, run, first) =
        search_idx-IsFirst (code.cmp cmpf) tu.cells wanted w tu.cells
          (λ i h. load-get_or tu.cells i null h) (ground (arith, e, whole))
          (omega (arith, whole)) in
      let run2 = ap (λ n. search_idx (code.cmp cmpf) tu.cells n wanted) (sym whole) ∙ run in
      (o, ground (arith, given, e, run2), first)
]
