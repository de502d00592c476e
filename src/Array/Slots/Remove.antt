-- ===== src/Array/Slots/Remove.antt =====
-- n_array_remove_nth on the sequence that the array stands for.
use trurlib.Prelude.{
  ℕ, suc, ◌+◌, ◌-◌, ◌^◌, ◌%◌, ◌<◌, ◌≡◌, ◌≢◌, refl, false, List, [], ◌∷◌, ◌++◌, arith, length,
  replicate, length-append, length-replicate, append_assoc, replicate-append_one,
}
use trurlib.Prelude.Int.{pos}
use trurlib.Run.{ok, Returns, ◌>>=◌}
use trurlib.Memory.Block.{store, move}
use trurlib.Memory.Laws.{move_out}
use trurlib.Array.State.{Array, Ptr, null, log_free}
use trurlib.Array.View.{Models, window, load-window, store-window, store-window_last}
use trurlib.Array.Slots.{remove_nth}

module _ (before : ℕ) (xs : List Ptr) (x : Ptr) (ys : List Ptr) (room : ℕ) where
  -- Closing the gap in a window leaves one more free cell behind it.
  move-window :
      (at n last : ℕ)
      → at ≡ before + length xs
      → n ≡ length ys + room
      → last ≡ before + length xs + length ys + room
      → (move (window before (xs ++ x ∷ ys) room) at (at + 1) n >>= λ d. store d last null)
        ≡ ok (window before (xs ++ ys) (suc room))
  move-window at n last ea en el =
      let pre = replicate before null ++ xs in
      let post = ys ++ replicate room null in
      rw (
        append_assoc xs (x ∷ ys) (replicate room null),
        ← append_assoc (replicate before null) xs (x ∷ post),
        move_out pre x post null at n last
            (omega (arith, length-append (replicate before null) xs, length-replicate before null))
            (omega (arith, length-append ys (replicate room null), length-replicate room null))
            (omega (
              arith,
              length-append (replicate before null) xs,
              length-replicate before null,
              length-append ys (replicate room null),
              length-replicate room null,
            )),
        append_assoc (replicate before null) xs (post ++ null ∷ []),
        append_assoc ys (replicate room null) (null ∷ []),
        replicate-append_one room null,
        append_assoc xs ys (replicate (suc room) null),
      )

  -- On an array that is not frozen and has fewer than 2 ^ 31 cells, n_array_remove_nth takes the
  -- element at the index out, closes the gap, and hands the element to `free_fn`, unless the
  -- number of the element's cell in the block is the number of items.
  pub remove_nth-delete :
      {arr : Array}
      → Models before (xs ++ x ∷ ys) room arr
      → arr.flags.frozen ≡ false
      → arr.allocated < 2 ^ 31
      → before ≢ suc (length ys)
      → Returns (remove_nth arr (pos (length xs))) (λ a.
        Models before (xs ++ ys) (suc room) a × (a.freed ≡ log_free arr.free_fn x arr.freed))
  unfolding remove_nth
  remove_nth-delete {arr} m thawed small apart =
      let count = length-append xs (x ∷ ys) in
      let at = (arr.start_index + length xs) % 2 ^ 32 in
      let ea : at ≡ before + length xs = omega (arith, m.start, m.extent) in
      (
        record arr {
          cells = window before (xs ++ ys) (suc room);
          items = arr.items - 1;
          freed = log_free arr.free_fn x arr.freed;
        },
        ground (
          arith,
          count,
          ea,
          load-window before xs room x ys at ea,
          move-window at (arr.allocated - 1 - at) (arr.allocated - 1),
        ),
        (ground (arith, length-append xs ys, count), refl),
      )

-- On an array that is not frozen and has fewer than 2 ^ 31 cells, with a free cell behind its
-- window, where the cell of an element has the number of items as its number in the block,
-- n_array_remove_nth sets this cell to NULL, leaves the elements behind it where they are, and
-- counts one item less.
pub remove_nth-hole :
    (xs : List Ptr) (x : Ptr) (ys : List Ptr) (room : ℕ) {arr : Array}
    → Models (suc (length ys)) (xs ++ x ∷ ys) (suc room) arr
    → arr.flags.frozen ≡ false
    → arr.allocated < 2 ^ 31
    → Returns (remove_nth arr (pos (length xs))) (λ a.
      (a.cells ≡ window (suc (length ys)) (xs ++ null ∷ ys) (suc room))
      × (a.items ≡ length (xs ++ ys)))
unfolding remove_nth
remove_nth-hole xs x ys room {arr} m thawed small =
    let before = suc (length ys) in
    let count = length-append xs (x ∷ ys) in
    let count' = length-append xs (null ∷ ys) in
    let at = (arr.start_index + length xs) % 2 ^ 32 in
    let ea : at ≡ before + length xs = omega (arith, m.start, m.extent) in
    (
      record arr {
        cells = window before (xs ++ null ∷ ys) (suc room);
        items = arr.items - 1;
        freed = log_free arr.free_fn x arr.freed;
      },
      ground (
        arith,
        count,
        ea,
        load-window before xs (suc room) x ys at ea,
        store-window before xs (suc room) x null ys at ea,
        count',
        store-window_last before (xs ++ null ∷ ys) room (arr.allocated - 1),
      ),
      (refl, omega (arith, length-append xs ys, count)),
    )
