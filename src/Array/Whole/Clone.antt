-- ===== src/Array/Whole/Clone.antt =====
-- n_array_clone_ex on the sequence that the array stands for.
use trurlib.Prelude.{
  ℕ, zero, suc, ◌+◌, ◌^◌, ◌<◌, ◌≡◌, ◌≢◌, refl, ap, sym, ◌∙◌, false, true, List, [], ◌∷◌, ◌++◌,
  arith, length, replicate, length-append, length-replicate, append_assoc, append-nil,
}
use trurlib.Prelude.Int.{to_int-small}
use trurlib.Run.{ok, die, frozen, Returns}
use trurlib.Memory.Laws.{load-append}
use trurlib.Array.State.{Array, Ptr, null, Code, new}
use trurlib.Memory.Block.{load}
use trurlib.Array.State.New.{new-Models}
use trurlib.Array.View.{Models, SameSettings, load-window}
use trurlib.Array.Ends.{push}
use trurlib.Array.Ends.Push.{push-room}
use trurlib.Array.Whole.{clone_loop, clone_ex}

module _ (code : Code) (dup_fn : Ptr) where
  -- The copies of a sequence, the `i`-th call of `dup_fn` making the first one.
  unfoldable pub copies : ℕ → List Ptr → List Ptr
  copies i [] = []
  copies i (p ∷ ps) = code.dup dup_fn i p ∷ copies (i + 1) ps

  pub length-copies : (i : ℕ) (ps : List Ptr) → length (copies i ps) ≡ length ps
  unfolding copies
  length-copies i [] = refl
  length-copies i (p ∷ ps) = ap suc (length-copies (i + 1) ps)

  module _ (arr : Array) where
    clone_loop-copies :
        (xs pre post ys : List Ptr) (n i free room : ℕ) {dupl : Array}
        → arr.cells ≡ pre ++ (xs ++ post)
        → arr.start_index + i ≡ length pre
        → n ≡ length xs
        → free ≡ length xs + room
        → Models 0 ys free dupl
        → dupl.flags.frozen ≡ false
        → Returns
            (clone_loop code arr dup_fn n i dupl)
            (λ a. Models 0 (ys ++ copies i xs) room a × SameSettings dupl a)
    unfolding clone_loop copies
    clone_loop-copies [] pre post ys zero i free room {dupl} e ei en ef m thawed =
        (dupl, refl, (rw (append-nil ys) (ground (arith, m)), ground arith))
    clone_loop-copies [] pre post ys (suc n) i free room e ei en ef m thawed = absurd (omega arith)
    clone_loop-copies (x ∷ xs) pre post ys zero i free room e ei en ef m thawed =
        absurd (omega arith)
    clone_loop-copies (x ∷ xs) pre post ys (suc n) i zero room e ei en ef m thawed =
        absurd (omega arith)
    clone_loop-copies (x ∷ xs) pre post ys (suc n) i (suc free) room {dupl} e ei en ef m thawed =
        let copy = code.dup dup_fn i x in
        let (a, run, (m', same)) = push-room 0 ys free copy m thawed in
        let (a', rest, (m'', same')) =
          clone_loop-copies xs (pre ++ x ∷ []) post (ys ++ copy ∷ []) n (i + 1) free room
            (e ∙ sym (append_assoc pre (x ∷ []) (xs ++ post)))
            (omega (arith, length-append pre (x ∷ []))) (omega arith) (omega arith) m'
            (same.frozen ∙ thawed) in
        (
          a',
          ground (arith, load-append pre x (xs ++ post) (arr.start_index + i) ei, run, rest),
          (rw (← append_assoc ys (copy ∷ []) (copies (i + 1) xs)) m'', ground (arith, same, same')),
        )

-- On an array that is not frozen and has fewer than 2 ^ 31 cells, n_array_clone_ex with a copying
-- function makes an array of the copies, in the order of the elements and at the start of a block
-- of its own, with the array's `free_fn` and its mark of an allocator.
pub clone_ex-copies :
    (code : Code) (before : ℕ) (xs : List Ptr) (room : ℕ) {arr : Array} (dup_fn : Ptr)
    → Models before xs room arr
    → arr.flags.frozen ≡ false
    → arr.allocated < 2 ^ 31
    → dup_fn ≢ null
    → Returns (clone_ex code arr dup_fn) (λ a.
      Models 0 (copies code dup_fn 0 xs) (before + room) a
      × (a.free_fn ≡ arr.free_fn)
      × (a.flags.na ≡ arr.flags.na))
unfolding clone_ex
clone_ex-copies code before xs room {arr} dup_fn m thawed small fn =
    let (a, made, (m₀, new)) = new-Models code arr.allocated arr.free_fn arr.cmp_fn in
    let dupl = record a { flags = arr.flags } in
    let empty : Models 0 [] arr.allocated dupl = ground (arith, m₀, m) in
    let (a', run, (m', same)) =
      clone_loop-copies code dup_fn arr xs (replicate before null) (replicate room null) []
        arr.items 0 arr.allocated (before + room) m.layout
        (omega (arith, m.start, length-replicate before null)) m.count (omega (arith, m.extent))
        empty thawed in
    (
      a',
      ground (
        arith,
        to_int-small arr.allocated small,
        made,
        run,
        m.count,
        m'.count,
        length-copies code dup_fn 0 xs,
      ),
      (m', same.free_fn ∙ new.free_fn, same.na),
    )

-- On a frozen array that is not empty and has fewer than 2 ^ 31 cells, n_array_clone_ex with a
-- copying function dies with the message that the array is frozen.
pub clone_ex-frozen :
    (code : Code) (before : ℕ) (x : Ptr) (xs : List Ptr) (room : ℕ) {arr : Array} (dup_fn : Ptr)
    → Models before (x ∷ xs) room arr
    → arr.flags.frozen ≡ true
    → arr.allocated < 2 ^ 31
    → dup_fn ≢ null
    → clone_ex code arr dup_fn ≡ die frozen
unfolding clone_ex clone_loop push
clone_ex-frozen code before x xs room {arr} dup_fn m held small fn =
    let (a, made, (m₀, new)) = new-Models code arr.allocated arr.free_fn arr.cmp_fn in
    let first : load arr.cells (arr.start_index + 0) ≡ ok x =
      rw m.layout
        (load-window before [] room x xs (arr.start_index + 0) (omega (arith, m.start))) in
    ground (arith, to_int-small arr.allocated small, made, first, m.count)
