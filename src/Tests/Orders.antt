-- ===== src/Tests/Orders.antt =====
-- Examples of sorting and searching, by the order of the numbers.
use mathlib.Core.List.{Perm}
use trurlib.Prelude.{
  subst, ℕ, zero, suc, ◌<◌, ◌≡◌, refl, ap, sym, false, true, List, [], ◌∷◌, arith, length, ltb,
  ◌==◌, if◌then◌else◌, get_or,
}
use trurlib.Prelude.Int.{ℤ, pos, negsuc, is_neg, is_pos}
use trurlib.Run.{Run, ok, assert_fail, die, fault, Returns}
use trurlib.Array.State.{Array, Ptr, null, Code}
use trurlib.Array.View.{Models}
use trurlib.Array.Order.{sort_ex, bsearch_idx_ex}
use trurlib.Array.Order.Found.{bsearch_idx_ex-IsFirst}
use trurlib.Array.Order.Sorted.{IsSortedBy, Sorts, sort_ex-IsSortedBy}
use trurlib.Sort.{isort}
use trurlib.Sort.Insertion.{IsSorted, isort-IsSorted}
use trurlib.Sort.Search.{IsOrdered, IsFirst}
use trurlib.Tuple.{Tuple, new_fromarray}
use trurlib.Tuple.Drain.{new_fromarray-moves}
use trurlib.Tests.Samples.{array_of, two_shifted, two_shifted-Models}

abbrev difference : Ptr → Ptr → ℤ
difference a b = if ltb a b then negsuc 0 else if a == b then pos 0 else pos 1

abbrev ordering : Code
ordering = record { cmp = λ fn a b. difference a b; dup = λ fn i p. p; default_cmp = 9 }

difference_asym : (a b : Ptr) → is_neg (difference a b) ≡ true → is_neg (difference b a) ≡ false
difference_asym a b h = ground (arith, h)

isort-IsSorted_example :
    Returns
      (isort difference (3 ∷ 1 ∷ 2 ∷ []) 3)
      (λ out. IsSorted difference out × Perm out (3 ∷ 1 ∷ 2 ∷ []))
isort-IsSorted_example = isort-IsSorted difference difference_asym (3 ∷ 1 ∷ 2 ∷ [])

abbrev or_nothing : Run (List Ptr) → List Ptr
or_nothing assert_fail = []
or_nothing (die m) = []
or_nothing (fault f) = []
or_nothing (ok l) = l

-- The insertion sort in the place of the one that is not modelled
abbrev by_isort : (Ptr → Ptr → ℤ) → List Ptr → List Ptr
by_isort compare l = or_nothing (isort compare l (length l))

by_isort-Sorts : Sorts by_isort difference
by_isort-Sorts l =
    let (out, run, (sorted, same)) = isort-IsSorted difference difference_asym l in
    let e : out ≡ by_isort difference l = sym (ap or_nothing run) in
    (subst (λ o. Perm o l) e same, subst (λ o. IsSorted difference o) e sorted)

abbrev unordered : Array
unordered = array_of 1 3 (0 ∷ 9 ∷ 7 ∷ 8 ∷ [])

unordered-Models : Models 1 (9 ∷ 7 ∷ 8 ∷ []) 0 unordered
unordered-Models = record {
  start = refl;
  layout = refl;
  count = refl;
  extent = refl;
  nonempty = omega arith;
}

sort_ex-IsSortedBy_example :
    Returns
      (sort_ex by_isort ordering unordered null)
      (IsSortedBy ordering 1 (9 ∷ 7 ∷ 8 ∷ []) 0 unordered 6)
sort_ex-IsSortedBy_example =
    sort_ex-IsSortedBy by_isort ordering 1 (9 ∷ 7 ∷ 8 ∷ []) 0 unordered null unordered-Models
      (record { sorted = λ s. cc }) refl (λ e. cc) by_isort-Sorts

two_shifted-IsOrdered : IsOrdered difference (7 ∷ 8 ∷ []) 8
two_shifted-IsOrdered = record { above = above; below = below }
  where
    above :
        (i j : ℕ)
        → i < j
        → j < 2
        → is_pos (difference (get_or (7 ∷ 8 ∷ []) i null) 8) ≡ true
        → is_pos (difference (get_or (7 ∷ 8 ∷ []) j null) 8) ≡ true
    above zero j h hj e = cc
    above (suc i) j h hj e = absurd (omega (arith, h, hj))

    below :
        (i j : ℕ)
        → i < j
        → j < 2
        → is_neg (difference (get_or (7 ∷ 8 ∷ []) j null) 8) ≡ true
        → is_neg (difference (get_or (7 ∷ 8 ∷ []) i null) 8) ≡ true
    below i zero h hj e = absurd (omega (arith, h))
    below i (suc zero) h hj e = cc
    below i (suc (suc j)) h hj e = absurd (omega (arith, hj))

bsearch_idx_ex-IsFirst_example :
    (idx : ℤ) × (bsearch_idx_ex by_isort ordering two_shifted 8 6 ≡ ok (idx, two_shifted))
    × IsFirst difference (7 ∷ 8 ∷ []) 8 idx
bsearch_idx_ex-IsFirst_example =
    bsearch_idx_ex-IsFirst by_isort ordering 1 (7 ∷ 8 ∷ []) 1 two_shifted 8 6 two_shifted-Models
      (omega arith) (λ e. cc) two_shifted-IsOrdered

abbrev triple : Tuple
triple = record { refcnt = 0; size = 3; cells = 3 ∷ 1 ∷ 2 ∷ [] }

new_fromarray-moves_example :
    (arr' : Array) × (new_fromarray two_shifted
      ≡ ok (record { refcnt = 0; size = 2; cells = 7 ∷ 8 ∷ [] }, arr'))
    × Models 3 [] 1 arr'
new_fromarray-moves_example =
    new_fromarray-moves 1 (7 ∷ 8 ∷ []) 1 two_shifted two_shifted-Models refl (omega arith)
