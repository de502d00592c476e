-- ===== src/Array/Slots/Read.antt =====
-- Reading an element by its index.
use trurlib.Prelude.{
  ℕ, zero, suc, ◌+◌, ◌<◌, ◌≤◌, ◌≡◌, refl, ◌∙◌, List, [], ◌∷◌, ◌++◌, arith, length, replicate,
  length-replicate, some, none, get_elem?, dec_lt, if◌then◌else◌, ◌==◌,
}
use trurlib.Prelude.Int.{ℤ, pos, negsuc}
use trurlib.Run.{Run, ok, die, assert_fail, nth_oob}
use trurlib.Memory.Block.{load}
use trurlib.Memory.Laws.{load-append_right, load-append_left}
use trurlib.Array.State.{Array, Ptr, null}
use trurlib.Array.View.{Models, window}
use trurlib.Array.Slots.{nth, nth_inl}

-- What reading index `i` of a sequence gives: its element, or the end of the process.
abbrev pub element : List Ptr → ℤ → Run Ptr
element xs (pos i) = elim (get_elem? xs i) [ some x ↦ ok x | none ↦ die nth_oob ]
element xs (negsuc i) = die nth_oob

get_elem?-inside : (xs : List Ptr) (i : ℕ) → i < length xs → (x : Ptr) × (get_elem? xs i ≡ some x)
get_elem?-inside [] i h = elim h [ ]
get_elem?-inside (x ∷ xs) zero h = (x, refl)
get_elem?-inside (x ∷ xs) (suc i) h = get_elem?-inside xs i (omega arith)

get_elem?-outside : (xs : List Ptr) (i : ℕ) → length xs ≤ i → get_elem? xs i ≡ none
get_elem?-outside [] i h = refl
get_elem?-outside (x ∷ xs) zero h = absurd (omega arith)
get_elem?-outside (x ∷ xs) (suc i) h = get_elem?-outside xs i (omega arith)

pub load-window_get :
    (before : ℕ) (xs : List Ptr) (room i k : ℕ) (x : Ptr)
    → i ≡ before + k
    → get_elem? xs k ≡ some x
    → load (window before xs room) i ≡ ok x
load-window_get before xs room i k x e g =
    load-append_right (replicate before null) (xs ++ replicate room null) i k
      (omega (arith, length-replicate before null))
    ∙ load-append_left xs (replicate room null) k x g

-- The inline n_array_nth reads the element at the index, and dies with its message at every index
-- outside the array, the negative ones included.
pub nth_inl-element :
    (before : ℕ) (xs : List Ptr) (room : ℕ) {arr : Array} (i : ℤ)
    → Models before xs room arr
    → nth_inl arr i ≡ element xs i
unfolding nth_inl
nth_inl-element before xs room {arr} (negsuc i) m = ground arith
nth_inl-element before xs room {arr} (pos i) m = elim (dec_lt i (length xs)) [
  | yes h ↦
      let (x, e) = get_elem?-inside xs i h in
      ground (arith, load-window_get before xs room (arr.start_index + i) i x, e)
  | no h ↦ ground (arith, get_elem?-outside xs i (omega arith))
]

-- The function n_array_nth does the same for the indices of the array and those behind it, but an
-- empty array and a negative index fail an assertion before the message.
pub nth-element :
    (before : ℕ) (xs : List Ptr) (room : ℕ) {arr : Array} (i : ℕ)
    → Models before xs room arr
    → (nth arr (pos i) ≡ (if length xs == 0 then assert_fail else element xs (pos i)))
      × ((j : ℕ) → nth arr (negsuc j) ≡ assert_fail)
unfolding nth
nth-element before [] room {arr} i m = (ground arith, λ j. ground arith)
nth-element before (y ∷ ys) room {arr} i m = (
  elim (dec_lt i (length (y ∷ ys))) [
    | yes h ↦
        let (x, e) = get_elem?-inside (y ∷ ys) i h in
        ground (arith, load-window_get before (y ∷ ys) room (arr.start_index + i) i x, e)
    | no h ↦ ground (arith, get_elem?-outside (y ∷ ys) i (omega arith))
  ],
  λ j. ground arith,
)
