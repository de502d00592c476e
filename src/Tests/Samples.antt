-- ===== src/Tests/Samples.antt =====
-- The arrays of the examples.
use trurlib.Prelude.{ℕ, ◌+◌, ◌-◌, ◌^◌, refl, true, List, [], ◌∷◌, arith}
use trurlib.Prelude.Int.{to_int}
use trurlib.Array.State.{Array, Ptr, Code, no_flags}
use trurlib.Array.View.{Models, IsOpen}

-- An array of four cells, with the free function at 5 and the comparison at 6
abbrev pub array_of : ℕ → ℕ → List Ptr → Array
array_of start_index items cells = record {
  refcnt = 0;
  flags = no_flags;
  items = items;
  allocated = 4;
  start_index = start_index;
  cells = cells;
  free_fn = 5;
  cmp_fn = 6;
  freed = [];
}

abbrev pub code : Code
code = record { cmp = λ fn a b. to_int (a + 2 ^ 64 - b); dup = λ fn i p. p + 100; default_cmp = 9 }

abbrev pub two_items : Array
two_items = array_of 0 2 (7 ∷ 8 ∷ 0 ∷ 0 ∷ [])

abbrev pub two_shifted : Array
two_shifted = array_of 1 2 (0 ∷ 7 ∷ 8 ∷ 0 ∷ [])

abbrev pub at_end : Array
at_end = array_of 2 2 (0 ∷ 0 ∷ 7 ∷ 8 ∷ [])

abbrev pub no_items : Array
no_items = array_of 0 0 (0 ∷ 0 ∷ 0 ∷ 0 ∷ [])

pub two_items-Models : Models 0 (7 ∷ 8 ∷ []) 2 two_items
two_items-Models = record {
  start = refl;
  layout = refl;
  count = refl;
  extent = refl;
  nonempty = omega arith;
}

pub two_shifted-Models : Models 1 (7 ∷ 8 ∷ []) 1 two_shifted
two_shifted-Models = record {
  start = refl;
  layout = refl;
  count = refl;
  extent = refl;
  nonempty = omega arith;
}

pub at_end-Models : Models 2 (7 ∷ 8 ∷ []) 0 at_end
at_end-Models = record {
  start = refl;
  layout = refl;
  count = refl;
  extent = refl;
  nonempty = omega arith;
}

pub no_items-Models : Models 0 [] 4 no_items
no_items-Models = record {
  start = refl;
  layout = refl;
  count = refl;
  extent = refl;
  nonempty = omega arith;
}

pub two_items-IsOpen : IsOpen two_items
two_items-IsOpen = record { thawed = refl; grows = refl; small = omega arith }

pub two_shifted-IsOpen : IsOpen two_shifted
two_shifted-IsOpen = record { thawed = refl; grows = refl; small = omega arith }

-- Two elements have been shifted out of five cells, the second of three is removed.
abbrev pub third_of_five : Array
third_of_five = record (array_of 2 2 (0 ∷ 0 ∷ 7 ∷ 8 ∷ 0 ∷ [])) { allocated = 5 }

pub third_of_five-Models : Models 2 (7 ∷ 8 ∷ []) 1 third_of_five
third_of_five-Models = record {
  start = refl;
  layout = refl;
  count = refl;
  extent = refl;
  nonempty = omega arith;
}

abbrev pub frozen_items : Array
frozen_items = record two_items { flags = record no_flags { frozen = true } }

pub frozen_items-Models : Models 0 (7 ∷ 8 ∷ []) 2 frozen_items
frozen_items-Models = record {
  start = refl;
  layout = refl;
  count = refl;
  extent = refl;
  nonempty = omega arith;
}
