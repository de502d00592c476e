-- ===== src/Array/Order/Found.antt =====
-- What n_array_bsearch_idx_ex finds in an array.
use trurlib.Prelude.{
  ℕ, zero, suc, ◌^◌, ◌<◌, ◌≡◌, ◌≢◌, refl, ap, sym, ◌∙◌, inl, inr, Bool-cases, List, [], ◌∷◌, ◌++◌,
  arith, length, length-replicate, ◌==◌, get_or, drop, drop-append, replicate,
}
use trurlib.Prelude.Int.{ℤ, negsuc}
use trurlib.Run.{ok}
use trurlib.Memory.Block.{load}
use trurlib.Array.State.{Array, Ptr, null, Code}
use trurlib.Array.View.{Models, window}
use trurlib.Sort.{search_idx}
use trurlib.Sort.Search.{IsOrdered, IsFirst, search_idx-IsFirst}
use trurlib.Array.Order.{searched, bsearch_idx_ex}

pub drop-window :
    (before : ℕ) (xs : List Ptr) (room : ℕ)
    → drop before (window before xs room) ≡ xs ++ replicate room null
drop-window before xs room =
    ap (λ n. drop n (window before xs room)) (sym (length-replicate before null))
    ∙ drop-append (replicate before null) (xs ++ replicate room null)

load-prefix : (xs ys : List Ptr) (i : ℕ) → i < length xs → load (xs ++ ys) i ≡ ok (get_or xs i null)
unfolding load
load-prefix [] ys i h = absurd (omega arith)
load-prefix (x ∷ xs) ys zero h = refl
load-prefix (x ∷ xs) ys (suc i) h = load-prefix xs ys i (omega arith)

-- In the window of an array of fewer than 2 ^ 31 elements that is ordered by the given function,
-- which is not NULL, n_array_bsearch_idx_ex returns the index of the first element that is equal to
-- the wanted one, or -1 if there is none, and leaves the array as it is.
pub bsearch_idx_ex-IsFirst :
    (timsort : (Ptr → Ptr → ℤ) → List Ptr → List Ptr) (code : Code) (before : ℕ) (xs : List Ptr)
    (room : ℕ) (arr : Array) (wanted cmpf : Ptr)
    → Models before xs room arr
    → length xs < 2 ^ 31
    → cmpf ≢ null
    → IsOrdered (code.cmp cmpf) xs wanted
    → (idx : ℤ) × (bsearch_idx_ex timsort code arr wanted cmpf ≡ ok (idx, arr))
      × IsFirst (code.cmp cmpf) xs wanted idx
unfolding bsearch_idx_ex searched
bsearch_idx_ex-IsFirst timsort code before xs room arr wanted cmpf m small given w =
    let count = m.count in
    elim (Bool-cases (arr.items == 0)) [
      | inl e ↦
          (negsuc 0, ground (arith, given, e), (refl, λ i h. absurd (ground (arith, e, count, h))))
      | inr e ↦
          let base : drop arr.start_index arr.cells ≡ xs ++ replicate room null =
            ap (λ n. drop n arr.cells) m.start
            ∙ (ap (drop before) m.layout ∙ drop-window before xs room) in
          let (o, run, first) =
            search_idx-IsFirst (code.cmp cmpf) xs wanted w (drop arr.start_index arr.cells)
              (λ i h. ap (λ c. load c i) base ∙ load-prefix xs (replicate room null) i h)
              (ground (arith, e, count)) small in
          let run2 =
            ap (λ n. search_idx (code.cmp cmpf) (drop arr.start_index arr.cells) n wanted) count
            ∙ run in
          (o, ground (arith, given, e, run2), first)
    ]
