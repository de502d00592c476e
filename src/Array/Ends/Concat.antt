-- ===== src/Array/Ends/Concat.antt =====
-- n_array_concat_ex on the sequences that the two arrays stand for.
use trurlib.Prelude.{
  ℕ, zero, suc, ◌+◌, ◌-◌, ◌^◌, ◌<◌, ◌≡◌, refl, ap, ◌∙◌, false, List, [], ◌∷◌, ◌++◌, arith, length,
  replicate, length-append, append_assoc, append-nil, ◌==◌, if◌then◌else◌, ltb, inl, inr,
  Bool-cases,
}
use trurlib.Prelude.Int.{pos, to_int-small}
use trurlib.Run.{ok, Returns}
use trurlib.Array.State.{Array, Ptr, null, Code, size, clr_sorted}
use trurlib.Array.View.{
  Models, SameSettings, After, IsOpen, window, load-window, store-window_end, window-grow,
}
use trurlib.Array.Grow.{grow}
use trurlib.Array.Grow.Enough.{grow-ok}
use trurlib.Array.Slots.{nth_inl}
use trurlib.Array.Ends.{concat_loop, concat_ex}

module _ (code : Code) (dup_fn : Ptr) where
  -- What is appended for a sequence: its elements or, with a `dup_fn`, their copies.
  unfoldable pub given : ℕ → List Ptr → List Ptr
  given i [] = []
  given i (p ∷ ps) = (if dup_fn == null then p else code.dup dup_fn i p) ∷ given (i + 1) ps

  length-given : (i : ℕ) (ps : List Ptr) → length (given i ps) ≡ length ps
  unfolding given
  length-given i [] = refl
  length-given i (p ∷ ps) = ap suc (length-given (i + 1) ps)

  module _ (before sbefore sroom : ℕ) {src : Array} where
    read_next :
        (pre : List Ptr) (y : Ptr) (ys : List Ptr) (i : ℕ)
        → Models sbefore (pre ++ y ∷ ys) sroom src
        → i ≡ length pre
        → nth_inl src (pos i) ≡ ok y
    unfolding nth_inl
    read_next pre y ys i m e = ground (
      arith,
      load-window sbefore pre sroom y ys (src.start_index + i),
      length-append pre (y ∷ ys),
      m.layout,
      m.start,
      m.count,
    )

    concat_loop-given :
        (ys pre xs : List Ptr) (n i index room room' : ℕ) (cells : List Ptr)
        → Models sbefore (pre ++ ys) sroom src
        → i ≡ length pre
        → n ≡ length ys
        → index ≡ before + length xs
        → room ≡ length ys + room'
        → cells ≡ window before xs room
        → concat_loop code src dup_fn n i index cells
          ≡ ok (index + length ys, window before (xs ++ given i ys) room')
    unfolding concat_loop given
    concat_loop-given [] pre xs zero i index room room' cells m ei en ex er ec =
        ground (arith, append-nil xs)
    concat_loop-given [] pre xs (suc n) i index room room' cells m ei en ex er ec =
        absurd (omega arith)
    concat_loop-given (y ∷ ys) pre xs zero i index room room' cells m ei en ex er ec =
        absurd (omega arith)
    concat_loop-given (y ∷ ys) pre xs (suc n) i index zero room' cells m ei en ex er ec =
        absurd (omega arith)
    concat_loop-given (y ∷ ys) pre xs (suc n) i index (suc room) room' cells m ei en ex er ec =
        let item = if dup_fn == null then y else code.dup dup_fn i y in
        let rest =
          concat_loop-given ys (pre ++ y ∷ []) (xs ++ item ∷ []) n (i + 1) (index + 1) room room'
            (window before (xs ++ item ∷ []) room) (rw (append_assoc pre (y ∷ []) ys) m)
            (omega (arith, length-append pre (y ∷ []))) (omega arith)
            (omega (arith, length-append xs (item ∷ []))) (omega arith) refl in
        ground (
          arith,
          read_next pre y ys i m ei,
          store-window_end before xs room index item,
          ec,
          append_assoc xs (item ∷ []) (given (i + 1) ys),
          rest,
        )

    -- Where the block of an array that is not frozen has room, n_array_concat_ex writes the
    -- elements of `src` (their copies, with a `dup_fn`) behind those of the array, but it counts
    -- the cells from the start of the block: the number of items is too high by as many elements
    -- as have been shifted out.
    pub concat_ex-fits :
        (xs ys : List Ptr) (room : ℕ) {arr : Array}
        → Models before xs (length ys + room) arr
        → Models sbefore ys sroom src
        → arr.flags.frozen ≡ false
        → src.allocated < 2 ^ 31
        → Returns (concat_ex code arr src dup_fn) (λ a.
          (a.cells ≡ window before (xs ++ given 0 ys) room)
          × (a.items ≡ before + length (xs ++ given 0 ys))
          × SameSettings arr a)
    unfolding concat_ex size
    concat_ex-fits xs ys room {arr} m ms thawed small =
        let run =
          concat_loop-given ys [] xs (length ys) 0 (arr.start_index + arr.items) (length ys + room)
            room arr.cells ms refl refl (omega (arith, m.start, m.count)) refl m.layout in
        (
          clr_sorted (record arr {
            cells = window before (xs ++ given 0 ys) room;
            items = arr.start_index + arr.items + length ys;
          }),
          ground (
            arith,
            run,
            to_int-small src.items (omega (arith, ms.count, ms.extent)),
            m.count,
            m.extent,
            ms.count,
          ),
          (
            refl,
            omega (arith, length-append xs (given 0 ys), length-given 0 ys, m.start, m.count),
            ground arith,
          ),
        )

  module _ (sbefore sroom : ℕ) {src : Array} where
    -- The array after room for `src` has been made
    make_room :
        (xs ys : List Ptr) (room : ℕ) {arr : Array}
        → Models 0 xs room arr
        → Models sbefore ys sroom src
        → IsOpen arr
        → src.allocated < 2 ^ 28
        → Returns
            (if ltb arr.allocated (arr.items + src.items)
              then grow arr (arr.allocated + src.items)
              else ok arr)
            (λ a. (room' : ℕ) × Models 0 xs (length ys + room') a × SameSettings arr a)
    make_room xs ys room {arr} m ms o small =
        elim (Bool-cases (ltb arr.allocated (arr.items + src.items))) [
          | inr fits ↦
              let rest = room - length ys in
              let e : room ≡ length ys + rest = ground (arith, m.extent, m.count, ms.count) in
              (arr, rw fits refl, (rest, rw (← e) m, ground arith))
          | inl full ↦
              let (n, above, below, grown) =
                grow-ok arr (arr.allocated + src.items) o.grows m.nonempty (omega arith)
                  (omega (arith, o.small, ms.count, ms.extent)) in
              let rest = room + (n - arr.allocated) - length ys in
              let e : room + (n - arr.allocated) ≡ length ys + rest =
                ground (arith, m.extent, m.count, ms.count) in
              (
                record arr {
                  cells = arr.cells ++ replicate (n - arr.allocated) null;
                  allocated = n;
                },
                rw full grown,
                (
                  rest,
                  record {
                    start = m.start;
                    layout =
                        ap (λ t. t ++ replicate (n - arr.allocated) null) m.layout
                        ∙ (window-grow 0 xs room (n - arr.allocated) ∙ ap (window 0 xs) e);
                    count = m.count;
                    extent = omega (arith, m.extent, m.nonempty);
                    nonempty = omega (arith, m.nonempty);
                  },
                  ground arith,
                ),
              )
        ]

    -- To an array that is not frozen and may grow, whose window stands at the start of its block,
    -- n_array_concat_ex appends the elements of `src`, or their copies with a `dup_fn`, and grows
    -- the block where it must; both blocks have fewer than 2 ^ 28 cells.
    pub concat_ex-append :
        (xs ys : List Ptr) (room : ℕ) {arr : Array}
        → Models 0 xs room arr
        → Models sbefore ys sroom src
        → IsOpen arr
        → src.allocated < 2 ^ 28
        → Returns (concat_ex code arr src dup_fn) (After arr 0 (xs ++ given 0 ys))
    unfolding concat_ex size
    concat_ex-append xs ys room {arr} m ms o small =
        let (a, made, (room', m', same)) = make_room xs ys room m ms o small in
        let run =
          concat_loop-given 0 sbefore sroom ys [] xs (length ys) 0 (a.start_index + a.items)
            (length ys + room') room' a.cells ms refl refl (omega (arith, m'.start, m'.count)) refl
            m'.layout in
        let sum : length (xs ++ given 0 ys) ≡ length xs + length ys =
          omega (arith, length-append xs (given 0 ys), length-given 0 ys) in
        (
          clr_sorted (record a {
            cells = window 0 (xs ++ given 0 ys) room';
            items = a.start_index + a.items + length ys;
          }),
          ground (
            arith,
            made,
            run,
            to_int-small src.items (omega (arith, ms.count, ms.extent)),
            ms.count,
            o.thawed,
          ),
          record {
            room = room';
            models = record {
              start = m'.start;
              layout = refl;
              count = omega (arith, m'.start, m'.count, sum);
              extent = omega (arith, m'.extent, sum);
              nonempty = m'.nonempty;
            };
            same = ground (arith, same);
          },
        )
