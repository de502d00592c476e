-- ===== src/Array/Whole/Visit.antt =====
-- n_array_map and n_array_map_arg: which elements are visited.
use trurlib.Prelude.{
  ℕ, zero, suc, ◌+◌, ◌-◌, ◌≡◌, refl, ap, sym, ◌∙◌, List, [], ◌∷◌, ◌++◌, arith, length, replicate,
  length-append, length-replicate, append_assoc,
}
use trurlib.Run.{ok}
use trurlib.Memory.Laws.{load-append}
use trurlib.Array.State.{Array, Ptr, null}
use trurlib.Array.View.{Models}
use trurlib.Array.Whole.{visit, map_calls, map_arg_calls}

visit-part :
    (xs pre post cells : List Ptr) (n i : ℕ)
    → cells ≡ pre ++ (xs ++ post)
    → i ≡ length pre
    → n ≡ length xs
    → visit n i cells ≡ ok xs
unfolding visit
visit-part [] pre post cells zero i e ei en = refl
visit-part [] pre post cells (suc n) i e ei en = absurd (omega arith)
visit-part (x ∷ xs) pre post cells zero i e ei en = absurd (omega arith)
visit-part (x ∷ xs) pre post cells (suc n) i e ei en = ground (
  arith,
  load-append pre x (xs ++ post) i ei,
  visit-part xs (pre ++ x ∷ []) post cells n (i + 1)
      (e ∙ sym (append_assoc pre (x ∷ []) (xs ++ post))) (omega (arith, length-append pre (x ∷ [])))
      (omega arith),
)

-- n_array_map_arg calls `map_fn` on every element, in order, wherever the window stands.
pub map_arg-all :
    (before : ℕ) (xs : List Ptr) (room : ℕ) {arr : Array}
    → Models before xs room arr
    → map_arg_calls arr ≡ ok xs
unfolding map_arg_calls
map_arg-all before xs room {arr} m =
    visit-part xs (replicate before null) (replicate room null) arr.cells arr.items arr.start_index
      m.layout (omega (arith, m.start, length-replicate before null)) m.count

-- n_array_map leaves out as many of the last elements as have been shifted out in front: `map_fn` is
-- called on the others only.
pub map-misses :
    (before : ℕ) (xs ys : List Ptr) (room : ℕ) {arr : Array}
    → Models before (xs ++ ys) room arr
    → length ys ≡ before
    → map_calls arr ≡ ok xs
unfolding map_calls
map-misses before xs ys room {arr} m e =
    visit-part xs (replicate before null) (ys ++ replicate room null) arr.cells
      (arr.items - arr.start_index) arr.start_index
      (m.layout ∙ ap (λ t. replicate before null ++ t) (append_assoc xs ys (replicate room null)))
      (omega (arith, m.start, length-replicate before null))
      (omega (arith, m.start, m.count, length-append xs ys))
