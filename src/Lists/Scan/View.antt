-- ===== src/Lists/Scan/View.antt =====
-- The sequence that a list stands for, and what the walks find in it.
use trurlib.Prelude.{
  ℕ, zero, suc, ◌+◌, ◌<◌, ◌≤◌, ◌≡◌, ◌≢◌, false, List, [], ◌∷◌, arith, length, get_or, ◌==◌,
  if◌then◌else◌,
}
use trurlib.Prelude.Int.{ℤ, pos, is_zero}
use trurlib.Run.{ok}
use trurlib.Array.State.{Ptr, null, Code}
use trurlib.Lists.Nodes.{Node, Nodes, read}
use trurlib.Lists.State.{Linked}
use trurlib.Lists.Scan.{nth_loop, nth, chosen, lookup_loop, lookup_ex, visit, map_arg_calls}

-- The nodes from `p` on carry the sequence.
abbrev pub IsChain : Nodes → Ptr → List Ptr → Type 0
IsChain nodes p [] = p ≡ null
IsChain nodes p (x ∷ xs) =
    (next : Ptr) × (read nodes p ≡ ok (record { data_ptr = x; next = next }))
    × IsChain nodes next xs

-- A list that carries `xs`, with as many nodes at least
pub record Carries (xs : List Ptr) (l : Linked) : Type 0 where
  pub chain : IsChain l.nodes l.head xs
  pub count : l.items ≡ length xs
  pub bounded : length xs ≤ length l.nodes

pub read-not_null : (nodes : Nodes) (p : Ptr) {n : Node} → read nodes p ≡ ok n → (p == null) ≡ false
unfolding read
read-not_null nodes zero e = cc
read-not_null nodes (suc a) e = ground arith

nth_loop-element :
    (xs : List Ptr) (fuel : ℕ) (nodes : Nodes) (p : Ptr) (n i k : ℕ)
    → IsChain nodes p xs
    → length xs < fuel
    → i ≡ n + k
    → nth_loop fuel nodes p n (pos i) ≡ ok (get_or xs k null)
unfolding nth_loop
nth_loop-element xs zero nodes p n i k c enough e = absurd (omega arith)
nth_loop-element [] (suc fuel) nodes p n i k c enough e = ground (arith, c)
nth_loop-element (x ∷ xs) (suc fuel) nodes p n i zero (next, r, c) enough e =
    ground (arith, r, read-not_null nodes p r)
nth_loop-element (x ∷ xs) (suc fuel) nodes p n i (suc k) (next, r, c) enough e = ground (
  arith,
  r,
  read-not_null nodes p r,
  nth_loop-element xs fuel nodes next (n + 1) i k c (omega arith) (omega arith),
)

-- n_list_nth returns the element at the index, and NULL behind the end.
pub nth-get_or :
    (xs : List Ptr) {l : Linked} (i : ℕ) → Carries xs l → nth l (pos i) ≡ ok (get_or xs i null)
unfolding nth
nth-get_or xs {l} i m =
    nth_loop-element xs (suc (length l.nodes)) l.nodes l.head 0 i i m.chain
      (omega (arith, m.bounded)) (omega arith)

visit-chain :
    (xs : List Ptr) (fuel : ℕ) (nodes : Nodes) (p : Ptr)
    → IsChain nodes p xs
    → length xs < fuel
    → visit fuel nodes p ≡ ok xs
unfolding visit
visit-chain xs zero nodes p c enough = absurd (omega arith)
visit-chain [] (suc fuel) nodes p c enough = ground (arith, c)
visit-chain (x ∷ xs) (suc fuel) nodes p (next, r, c) enough =
    ground (arith, r, read-not_null nodes p r, visit-chain xs fuel nodes next c (omega arith))

-- n_list_map_arg calls `map_fn` on every element, in order.
pub map_arg-chain : (xs : List Ptr) {l : Linked} → Carries xs l → map_arg_calls l ≡ ok xs
unfolding map_arg_calls
map_arg-chain xs {l} m =
    visit-chain xs (suc (length l.nodes)) l.nodes l.head m.chain (omega (arith, m.bounded))

module _ (compare : Ptr → Ptr → ℤ) (wanted : Ptr) where
  -- The first element that compares equal, or NULL
  unfoldable pub first_equal : List Ptr → Ptr
  first_equal [] = null
  first_equal (x ∷ xs) = if is_zero (compare x wanted) then x else first_equal xs

  lookup_loop-first_equal :
      (xs : List Ptr) (fuel : ℕ) (nodes : Nodes) (p : Ptr)
      → IsChain nodes p xs
      → length xs < fuel
      → lookup_loop compare fuel nodes p wanted ≡ ok (first_equal xs)
  unfolding lookup_loop first_equal
  lookup_loop-first_equal xs zero nodes p c enough = absurd (omega arith)
  lookup_loop-first_equal [] (suc fuel) nodes p c enough = ground (arith, c)
  lookup_loop-first_equal (x ∷ xs) (suc fuel) nodes p (next, r, c) enough = ground (
    arith,
    r,
    read-not_null nodes p r,
    lookup_loop-first_equal xs fuel nodes next c (omega arith),
  )

-- With a comparison that is not NULL, n_list_lookup_ex returns the first element of the sequence
-- that `cmpf` (or the list's own function, for NULL) finds equal, and NULL if there is none.
pub lookup_ex-first_equal :
    (code : Code) (xs : List Ptr) {l : Linked} (wanted cmpf : Ptr)
    → Carries xs l
    → chosen l cmpf ≢ null
    → lookup_ex code l wanted cmpf ≡ ok (first_equal (code.cmp (chosen l cmpf)) wanted xs)
unfolding lookup_ex
lookup_ex-first_equal code xs {l} wanted cmpf m fn = ground (
  arith,
  fn,
  lookup_loop-first_equal (code.cmp (chosen l cmpf)) wanted xs (suc (length l.nodes)) l.nodes l.head
      m.chain (omega (arith, m.bounded)),
)
