-- ===== src/Array/Whole/Clean.antt =====
-- n_array_clean and n_array_free: every element reaches `free_fn` once, and the array is empty.
use trurlib.Prelude.{
  ℕ, zero, suc, ◌+◌, ◌-◌, ◌≡◌, refl, ap, sym, ◌∙◌, inl, inr, false, true, List, [], ◌∷◌, ◌++◌,
  arith, length, replicate, length-replicate, append_assoc, append-nil, Bool-cases, if◌then◌else◌,
  ltb, replicate-append,
}
use native.Mathlib.Nat.{zero-add}
use trurlib.Run.{ok, Returns}
use trurlib.Memory.Laws.{load-append, store-append}
use trurlib.Array.State.{Array, Ptr, null, log_free, unfreeze}
use trurlib.Array.View.{Models, window, length-window}
use trurlib.Array.Whole.{clean_loop, clean, free}

-- The log after `free_fn` has been called on each pointer that is not NULL, in order.
unfoldable pub log_all : Ptr → (ps freed : List Ptr) → List Ptr
log_all fn [] freed = freed
log_all fn (p ∷ ps) freed = log_all fn ps (log_free fn p freed)

module _ (fn : Ptr) where
  log_all-append :
      (ps qs freed : List Ptr) → log_all fn (ps ++ qs) freed ≡ log_all fn qs (log_all fn ps freed)
  unfolding log_all
  log_all-append [] qs freed = refl
  log_all-append (p ∷ ps) qs freed = log_all-append ps qs (log_free fn p freed)

  log_all-nulls : (n : ℕ) (freed : List Ptr) → log_all fn (replicate n null) freed ≡ freed
  unfolding log_all
  log_all-nulls zero freed = refl
  log_all-nulls (suc n) freed = log_all-nulls n freed

  log_all-window :
      (before : ℕ) (xs : List Ptr) (room : ℕ) (freed : List Ptr)
      → log_all fn (window before xs room) freed ≡ log_all fn xs freed
  log_all-window before xs room freed = rw (
    log_all-append (replicate before null),
    log_all-nulls before,
    log_all-append xs,
    log_all-nulls room,
  )

  shift_null :
      (i : ℕ) (rest : List Ptr) → replicate i null ++ (null ∷ rest) ≡ replicate (i + 1) null ++ rest
  shift_null i rest =
      sym (append_assoc (replicate i null) (null ∷ []) rest)
      ∙ ap (λ t. t ++ rest) (replicate-append i 1 null)

  clean_loop-clears :
      (rest cells : List Ptr) (i n : ℕ) (freed : List Ptr)
      → cells ≡ replicate i null ++ rest
      → i + length rest ≡ n
      → clean_loop fn (length rest) i cells freed ≡ ok (replicate n null, log_all fn rest freed)
  unfolding clean_loop log_all
  clean_loop-clears [] cells i n freed e size =
      let e' : i ≡ n = omega arith in ground (arith, e, append-nil (replicate i null), e')
  clean_loop-clears (p ∷ rest) cells i n freed e size =
      let here = sym (length-replicate i null) in
      ground (
        arith,
        load-append (replicate i null) p rest i here,
        store-append (replicate i null) p null rest i here,
        shift_null i rest,
        clean_loop-clears rest (replicate i null ++ (null ∷ rest)) (i + 1) n (log_free fn p freed)
            (shift_null i rest) (omega arith),
      )

-- n_array_clean empties an array that is not frozen and keeps its block: every cell is free
-- afterwards, and `free_fn`, if set, has been called once on each element that is not NULL, in
-- order.
pub clean-empties :
    (before : ℕ) (xs : List Ptr) (room : ℕ) {arr : Array}
    → Models before xs room arr
    → arr.flags.frozen ≡ false
    → Returns
        (clean arr)
        (λ a. Models 0 [] arr.allocated a × (a.freed ≡ log_all arr.free_fn xs arr.freed))
unfolding clean
clean-empties before xs room {arr} m thawed =
    let cells = window before xs room in
    let size : length cells ≡ arr.allocated = length-window before xs room ∙ sym m.extent in
    let run =
      clean_loop-clears arr.free_fn cells cells 0 arr.allocated arr.freed refl
        (zero-add (length cells) ∙ size) in
    (
      record arr {
        cells = replicate arr.allocated null;
        freed = log_all arr.free_fn xs arr.freed;
        start_index = 0;
        items = 0;
      },
      ground (arith, run, size, log_all-window arr.free_fn before xs room arr.freed),
      (
        record {
          start = refl;
          layout = refl;
          count = refl;
          extent = omega arith;
          nonempty = m.nonempty;
        },
        refl,
      ),
    )

-- n_array_free of an array without an allocator of its own only counts down while there are other
-- references; at the last one it hands every element that is not NULL to `free_fn`, even if the
-- array is frozen.
pub free-releases :
    (before : ℕ) (xs : List Ptr) (room : ℕ) {arr : Array}
    → Models before xs room arr
    → arr.flags.na ≡ false
    → Returns (free arr) (λ r.
      if ltb 0 arr.refcnt
      then (r.0 ≡ true) × (r.1 ≡ record arr { refcnt = arr.refcnt - 1 })
      else (r.0 ≡ false) × (r.1.freed ≡ log_all arr.free_fn xs arr.freed))
unfolding free unfreeze
free-releases before xs room {arr} m plain = elim (Bool-cases (ltb 0 arr.refcnt)) [
  | inl shared ↦ ((true, record arr { refcnt = arr.refcnt - 1 }), rw shared, rw shared (refl, refl))
  | inr last ↦
      let (a, run, (m', log)) =
        clean-empties before xs room {arr = unfreeze arr} (ground arith) refl in
      ((false, record a { cells = [] }), ground (arith, run), rw last (refl, log))
]
