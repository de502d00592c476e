-- ===== src/Array/Ends/Take.antt =====
-- n_array_pop and n_array_shift on the sequence that the array stands for.
use trurlib.Prelude.{
  ℕ, suc, ◌+◌, ◌-◌, ◌<◌, ◌≡◌, refl, ◌∙◌, ◌⊎◌, false, List, [], ◌∷◌, ◌++◌, arith, length,
  length-append, leb,
}
use trurlib.Run.{die, Returns, ◌>>=◌, pop_empty, shift_empty}
use trurlib.Array.State.{Array, Ptr, null}
use trurlib.Array.View.{
  Models, SameSettings, After, IsOpen, window, load-window, store-window, window-clear_last,
  window-clear_first,
}
use trurlib.Array.Ends.{push, pop, shift, unshift}
use trurlib.Array.Ends.Push.{push-append, unshift-cons}

-- On an array that is not frozen, n_array_pop returns the last element and leaves the others, with
-- one more free cell behind them; the settings stay.
pub pop-append_one :
    (before : ℕ) (xs : List Ptr) (x : Ptr) (room : ℕ) {arr : Array}
    → Models before (xs ++ x ∷ []) room arr
    → arr.flags.frozen ≡ false
    → Returns (pop arr) (λ r. (r.0 ≡ x) × Models before xs (suc room) r.1 × SameSettings arr r.1)
unfolding pop
pop-append_one before xs x room {arr} m thawed =
    let at = arr.start_index + arr.items - 1 in
    let e : at ≡ before + length xs = omega (arith, length-append xs (x ∷ [])) in
    let some_items : leb arr.items 0 ≡ false = ground (arith, length-append xs (x ∷ [])) in
    (
      (x, record arr { cells = window before xs (suc room); items = arr.items - 1 }),
      ground (
        arith,
        thawed,
        some_items,
        load-window before xs room x [] at e,
        store-window before xs room x null [] at e,
        window-clear_last before xs room,
      ),
      (refl, ground (arith, length-append xs (x ∷ [])), ground arith),
    )

-- On an array that is not frozen, n_array_shift returns the first element; the others stay where
-- they are, and the settings stay.
pub shift-cons :
    (before : ℕ) (xs : List Ptr) (x : Ptr) (room : ℕ) {arr : Array}
    → Models before (x ∷ xs) room arr
    → arr.flags.frozen ≡ false
    → Returns (shift arr) (λ r. (r.0 ≡ x) × Models (suc before) xs room r.1 × SameSettings arr r.1)
unfolding shift
shift-cons before xs x room {arr} m thawed =
    let e : arr.start_index ≡ before + 0 = omega arith in
    let some_items : leb arr.items 0 ≡ false = ground arith in
    (
      (
        x,
        record arr {
          cells = window (suc before) xs room;
          items = arr.items - 1;
          start_index = arr.start_index + 1;
        },
      ),
      ground (
        arith,
        thawed,
        some_items,
        load-window before [] room x xs arr.start_index e,
        store-window before [] room x null xs arr.start_index e,
        window-clear_first before xs room,
      ),
      (refl, ground arith, ground arith),
    )

-- On an empty array that is not frozen, n_array_pop and n_array_shift die with their messages.
pub take_empty :
    (before room : ℕ) {arr : Array}
    → Models before [] room arr
    → arr.flags.frozen ≡ false
    → (pop arr ≡ die pop_empty) × (shift arr ≡ die shift_empty)
unfolding pop shift
take_empty before room m thawed = ground arith

-- What n_array_push adds, n_array_pop returns, and the sequence is then what it was before the
-- push; the array is not frozen, may grow and has fewer than 2 ^ 28 cells, and its window stands
-- at the start of the block or has room behind it.
pub pop-push :
    (before : ℕ) (xs : List Ptr) (room : ℕ) {arr : Array} (p : Ptr)
    → Models before xs room arr
    → IsOpen arr
    → (before ≡ 0) ⊎ (0 < room)
    → Returns (push arr p >>= pop) (λ r. (r.0 ≡ p) × After arr before xs r.1)
pop-push before xs room {arr} p m o fits =
    let (a, pushed, t) = push-append before xs room p m o fits in
    let (r, popped, (got, m', same)) =
      pop-append_one before xs p t.room t.models (t.same.frozen ∙ o.thawed) in
    (
      r,
      ground (arith, pushed, popped),
      (got, record { room = suc t.room; models = m'; same = ground (arith, t.same, same) }),
    )

-- What n_array_unshift puts in front, n_array_shift returns, and the sequence is as before; the
-- array is not frozen, may grow and has fewer than 2 ^ 28 cells.
pub shift-unshift :
    (before : ℕ) (xs : List Ptr) (room : ℕ) {arr : Array} (p : Ptr)
    → Models before xs room arr
    → IsOpen arr
    → Returns
        (unshift arr p >>= shift)
        (λ r. (r.0 ≡ p) × ((before' : ℕ) × After arr before' xs r.1))
shift-unshift before xs room {arr} p m o =
    let (a, put, (before', t)) = unshift-cons before xs room p m o in
    let (r, taken, (got, m', same)) =
      shift-cons before' xs p t.room t.models (t.same.frozen ∙ o.thawed) in
    (
      r,
      ground (arith, put, taken),
      (
        got,
        (suc before', record { room = t.room; models = m'; same = ground (arith, t.same, same) }),
      ),
    )
