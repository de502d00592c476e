-- ===== src/Array/Slots/Write.antt =====
-- n_array_set_nth: writes inside the sequence, into the free cells behind it, and past the block.
use trurlib.Prelude.{
  ℕ, suc, ◌+◌, ◌-◌, ◌^◌, ◌<◌, ◌≡◌, refl, ap, ◌∙◌, false, List, [], ◌∷◌, ◌++◌, arith, length,
  replicate, length-append, length-replicate, append_assoc,
}
use trurlib.Prelude.Int.{pos}
use trurlib.Run.{fault, out_of_bounds, Returns}
use trurlib.Memory.Laws.{load-beyond}
use trurlib.Array.State.{Array, Ptr, null, log_free, clr_sorted}
use trurlib.Array.View.{
  Models, IsOpen, window, length-window, load-window, store-window, store-window_end,
  load-window_end, window-grow, window-fill,
}
use trurlib.Array.Grow.Enough.{grow-ok}
use trurlib.Array.Slots.{set_nth}

-- On an array that is not frozen, n_array_set_nth at the index of an element replaces it, and
-- hands the old one to `free_fn`.
pub set_nth-replace :
    (before : ℕ) (xs : List Ptr) (x : Ptr) (ys : List Ptr) (room : ℕ) {arr : Array} (p : Ptr)
    → Models before (xs ++ x ∷ ys) room arr
    → arr.flags.frozen ≡ false
    → Returns
        (set_nth arr (pos (length xs)) p)
        (λ a. Models before (xs ++ p ∷ ys) room a × (a.freed ≡ log_free arr.free_fn x arr.freed))
unfolding set_nth
set_nth-replace before xs x ys room {arr} p m thawed =
    let at = arr.start_index + length xs in
    let count = length-append xs (x ∷ ys) in
    let e : at ≡ before + length xs = omega (arith, m.start) in
    (
      clr_sorted (record arr {
        cells = window before (xs ++ p ∷ ys) room;
        freed = log_free arr.free_fn x arr.freed;
      }),
      ground (
        arith,
        count,
        load-window before xs room x ys at e,
        store-window before xs room x p ys at e,
      ),
      (ground (arith, count, length-append xs (p ∷ ys)), refl),
    )

-- On an array that is not frozen, n_array_set_nth at the index of the cell right behind the block
-- accesses that cell, out of bounds, instead of growing the block.
pub set_nth-overflow :
    (before : ℕ) (xs : List Ptr) (room i : ℕ) {arr : Array} (p : Ptr)
    → Models before xs room arr
    → arr.flags.frozen ≡ false
    → before + i ≡ arr.allocated
    → set_nth arr (pos i) p ≡ fault out_of_bounds
unfolding set_nth
set_nth-overflow before xs room i {arr} p m thawed e =
    ground (arith, load-beyond arr.cells (arr.start_index + i), length-window before xs room)

-- On an array that is not frozen, n_array_set_nth at the index right behind the last element,
-- where the block has a free cell, writes the cell and does not count it: the number of items
-- stays.
pub set_nth-uncounted :
    (before : ℕ) (xs : List Ptr) (room i : ℕ) {arr : Array} (p : Ptr)
    → Models before xs (suc room) arr
    → arr.flags.frozen ≡ false
    → length xs ≡ i
    → Returns
        (set_nth arr (pos i) p)
        (λ a. (a.cells ≡ window before (xs ++ p ∷ []) room) × (a.items ≡ length xs))
unfolding set_nth
set_nth-uncounted before xs room i {arr} p m thawed e =
    let at = arr.start_index + i in
    let ea : at ≡ before + length xs = omega (arith, m.start) in
    (
      clr_sorted (record arr { cells = window before (xs ++ p ∷ []) room; freed = arr.freed }),
      ground (
        arith,
        ea,
        load-window_end before xs room at ea,
        store-window_end before xs room at p ea,
      ),
      (refl, m.count),
    )

-- n_array_set_nth at an index above the number of cells and below 2 ^ 30, on an array that is not
-- frozen, may grow and has its window at the start of the block, grows the block: the sequence is
-- filled up with NULL, and ends with the element.
pub set_nth-grow :
    (xs : List Ptr) (room i : ℕ) {arr : Array} (p : Ptr)
    → Models 0 xs room arr
    → IsOpen arr
    → arr.allocated < i
    → i < 2 ^ 30
    → Returns
        (set_nth arr (pos i) p)
        (λ a. (room' : ℕ) × Models 0 (xs ++ (replicate (i - length xs) null ++ p ∷ [])) room' a)
unfolding set_nth
set_nth-grow xs room i {arr} p m o past small =
    let (n, above, below, grown) =
      grow-ok arr (arr.start_index + i) o.grows m.nonempty (omega arith) (omega arith) in
    let gap = i - length xs in
    let rest = n - i - 1 in
    let zs = xs ++ replicate gap null in
    let more = length-append xs (replicate gap null) in
    let size = length-replicate gap null in
    let cells : arr.cells ++ replicate (n - arr.allocated) null ≡ window 0 zs (suc rest) =
      ap (λ t. t ++ replicate (n - arr.allocated) null) m.layout
      ∙ (window-grow 0 xs room (n - arr.allocated)
          ∙ window-fill 0 xs (room + (n - arr.allocated)) gap (suc rest) (omega arith)) in
    (
      clr_sorted
          (record arr { cells = window 0 (zs ++ p ∷ []) rest; items = i + 1; allocated = n }),
      ground (arith, grown, cells, more, size, store-window_end 0 zs rest (arr.start_index + i) p),
      (
        rest,
        record {
          start = m.start;
          layout = ap (λ t. window 0 t rest) (append_assoc xs (replicate gap null) (p ∷ []));
          count = omega (
            arith,
            length-append xs (replicate gap null ++ p ∷ []),
            length-append (replicate gap null) (p ∷ []),
            size,
          );
          extent = omega (
            arith,
            length-append xs (replicate gap null ++ p ∷ []),
            length-append (replicate gap null) (p ∷ []),
            size,
          );
          nonempty = omega arith;
        },
      ),
    )
