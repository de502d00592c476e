-- ===== src/Array/Ends/Push.antt =====
-- n_array_push and n_array_unshift on the sequence that the array stands for.
use native.Mathlib.Nat.{zero-add}
use trurlib.Prelude.{
  ℕ, zero, suc, ◌+◌, ◌-◌, ◌<◌, ◌≡◌, refl, ap, ◌∙◌, inl, inr, ◌⊎◌, false, List, [], ◌∷◌, ◌++◌, arith,
  replicate, length-append,
}
use trurlib.Run.{fault, out_of_bounds, Returns}
use trurlib.Memory.Laws.{move_up}
use trurlib.Array.State.{Array, Ptr, null, clr_sorted}
use trurlib.Array.View.{
  Models, SameSettings, After, IsOpen, window, store-window_end, store-window_front,
  store-window_full, window-grow,
}
use trurlib.Array.Grow.Enough.{grow-ok}
use trurlib.Array.Ends.{
  room_for_one, append_cell, push, unshift_before, insert_first, unshift_moving, unshift,
}

-- What n_array_push and n_array_unshift find after making room: a free cell behind the window.
record Roomy (before : ℕ) (xs : List Ptr) (arr arr' : Array) : Type 0 where
  room : ℕ
  models : Models before xs (suc room) arr'
  same : SameSettings arr arr'

layout-grown :
    (before : ℕ) (xs cells : List Ptr) (n room : ℕ)
    → cells ≡ window before xs 0
    → n ≡ room
    → cells ++ replicate n null ≡ window before xs room
layout-grown before xs cells n room c e =
    rw (c, e) (window-grow before xs 0 room ∙ ap (window before xs) (zero-add room))

room_for_one-Roomy :
    (before : ℕ) (xs : List Ptr) (room : ℕ) {arr : Array}
    → Models before xs room arr
    → IsOpen arr
    → (before ≡ 0) ⊎ (0 < room)
    → Returns (room_for_one arr) (Roomy before xs arr)
unfolding room_for_one
room_for_one-Roomy before xs (suc room) {arr} m o fits =
    (arr, ground arith, record { room = room; models = m; same = ground arith })
room_for_one-Roomy before xs zero m o (inr h) = absurd (omega arith)
room_for_one-Roomy before xs zero {arr} m o (inl first) =
    let (n, above, below, grown) =
      grow-ok arr (arr.allocated + 1) o.grows m.nonempty (omega arith) (omega arith) in
    let r = n - arr.allocated - 1 in
    let e : n - arr.allocated ≡ suc r = omega arith in
    (
      record arr { cells = arr.cells ++ replicate (n - arr.allocated) null; allocated = n },
      ground (arith, grown),
      record {
        room = r;
        models = record {
          start = m.start;
          layout = layout-grown before xs arr.cells _ (suc r) m.layout e;
          count = m.count;
          extent = omega arith;
          nonempty = omega arith;
        };
        same = ground arith;
      },
    )

append_cell-Models :
    (before : ℕ) (xs : List Ptr) (room : ℕ) {arr : Array} (p : Ptr)
    → Models before xs (suc room) arr
    → Returns (append_cell arr p) (λ a. Models before (xs ++ p ∷ []) room a × SameSettings arr a)
unfolding append_cell
append_cell-Models before xs room {arr} p m = (
  clr_sorted (record arr { cells = window before (xs ++ p ∷ []) room; items = arr.items + 1 }),
  ground (arith, store-window_end before xs room (arr.start_index + arr.items) p),
  (ground (arith, length-append xs (p ∷ [])), ground arith),
)

-- n_array_push appends one element to an array that is not frozen, may grow and has fewer than 2 ^
-- 28 cells, if the window stands at the start of the block or has room behind it; the settings
-- stay.
pub push-append :
    (before : ℕ) (xs : List Ptr) (room : ℕ) {arr : Array} (p : Ptr)
    → Models before xs room arr
    → IsOpen arr
    → (before ≡ 0) ⊎ (0 < room)
    → Returns (push arr p) (After arr before (xs ++ p ∷ []))
unfolding push
push-append before xs room {arr} p m o fits =
    let (a, made, roomy) = room_for_one-Roomy before xs room m o fits in
    let (a', put, (m', same)) = append_cell-Models before xs roomy.room p roomy.models in
    (
      a',
      ground (arith, o.thawed, made, put),
      record { room = roomy.room; models = m'; same = ground (arith, roomy.same, same) },
    )

-- Where there is room behind the window, n_array_push appends without growing the block.
pub push-room :
    (before : ℕ) (xs : List Ptr) (room : ℕ) {arr : Array} (p : Ptr)
    → Models before xs (suc room) arr
    → arr.flags.frozen ≡ false
    → Returns (push arr p) (λ a. Models before (xs ++ p ∷ []) room a × SameSettings arr a)
unfolding push room_for_one
push-room before xs room {arr} p m thawed =
    let (a, put, done) = append_cell-Models before xs room p m in
    (a, ground (arith, thawed, m.count, m.extent, put), done)

-- On an array that is not frozen, whose window ends with the block and does not start with it,
-- n_array_push writes behind the block.
pub push-overflow :
    (before : ℕ) (xs : List Ptr) {arr : Array} (p : Ptr)
    → Models (suc before) xs 0 arr
    → arr.flags.frozen ≡ false
    → push arr p ≡ fault out_of_bounds
unfolding push room_for_one append_cell
push-overflow before xs {arr} p m thawed =
    ground (arith, store-window_full (suc before) xs 0 (arr.start_index + arr.items) p)

unshift_before-Models :
    (before : ℕ) (xs : List Ptr) (room : ℕ) {arr : Array} (p : Ptr)
    → Models (suc before) xs room arr
    → Returns (unshift_before arr p) (λ a.
      let a' = clr_sorted (record a { items = a.items + 1 }) in
      Models before (p ∷ xs) room a' × SameSettings arr a')
unfolding unshift_before
unshift_before-Models before xs room {arr} p m =
    let e : arr.start_index - 1 ≡ before = omega arith in
    (
      record arr { cells = window before (p ∷ xs) room; start_index = arr.start_index - 1 },
      ground (arith, e, store-window_front before xs room p),
      (ground (arith, e), ground arith),
    )

insert_first-Models :
    (xs : List Ptr) (room : ℕ) {arr : Array} (p : Ptr)
    → Models 0 xs (suc room) arr
    → Returns (insert_first arr p) (λ a.
      let a' = clr_sorted (record a { items = a.items + 1 }) in
      Models 0 (p ∷ xs) room a' × SameSettings arr a')
unfolding insert_first
insert_first-Models xs room {arr} p m = (
  record arr { cells = window 0 (p ∷ xs) room },
  ground (arith, move_up xs null p (replicate room null) arr.items m.count),
  (ground arith, ground arith),
)

-- n_array_unshift puts one element in front of the sequence, whatever the layout of the block, if
-- the array is not frozen, may grow and has fewer than 2 ^ 28 cells; the settings stay.
pub unshift-cons :
    (before : ℕ) (xs : List Ptr) (room : ℕ) {arr : Array} (p : Ptr)
    → Models before xs room arr
    → IsOpen arr
    → Returns (unshift arr p) (λ arr'. (before' : ℕ) × After arr before' (p ∷ xs) arr')
unfolding unshift unshift_moving
unshift-cons (suc before) xs room {arr} p m o =
    let (a', put, (m', same)) = unshift_before-Models before xs room p m in
    (_, ground (arith, put, o.thawed), (before, record { room = room; models = m'; same = same }))
unshift-cons zero xs room {arr} p m o =
    let (a, made, roomy) = room_for_one-Roomy 0 xs room m o (inl refl) in
    let (a', put, (m', same)) = insert_first-Models xs roomy.room p roomy.models in
    (
      _,
      ground (arith, made, put, o.thawed),
      (0, record { room = roomy.room; models = m'; same = ground (arith, roomy.same, same) }),
    )
