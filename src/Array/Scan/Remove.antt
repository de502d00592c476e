-- ===== src/Array/Scan/Remove.antt =====
-- n_array_remove_ex keeps the elements that differ from the one looked for.
use trurlib.Prelude.{
  ℕ, zero, suc, ◌+◌, ◌-◌, ◌<◌, ◌≤◌, ◌≡◌, ◌≢◌, refl, ap, sym, ◌∙◌, inl, inr, false, not, ◌||◌, Bool,
  List, [], ◌∷◌, ◌++◌, arith, length, replicate, length-append, length-replicate, append_assoc,
  replicate-append_one, ◌==◌, Bool-cases, if◌then◌else◌, ◌^◌,
}
use trurlib.Prelude.Int.{ℤ, is_zero}
use trurlib.Run.{ok, Returns}
use trurlib.Memory.Laws.{load-append, store-append, move_out}
use trurlib.Array.State.{Array, Ptr, null, Code, log_free}
use trurlib.Array.View.{Models, window}
use trurlib.Array.Scan.{chosen, Sweep, take_out, remove_loop, remove_ex}

module _ (compare : Ptr → Ptr → ℤ) (wanted : Ptr) where
  -- An element stays if it is NULL or compares different.
  abbrev pub stays : Ptr → Bool
  stays p = p == null || not (is_zero (compare p wanted))

  unfoldable pub kept : List Ptr → List Ptr
  kept [] = []
  kept (p ∷ ps) = if stays p then p ∷ kept ps else kept ps

module _ (compare : Ptr → Ptr → ℤ) (fn wanted : Ptr) where
  -- The log of `free_fn` after the others have gone, in their order.
  unfoldable pub log_gone : (ps freed : List Ptr) → List Ptr
  log_gone [] freed = freed
  log_gone (p ∷ ps) freed =
      log_gone ps (if stays compare wanted p then freed else log_free fn p freed)

  -- Taking an element out of the block closes the gap and clears the last cell.
  take_out-closes :
      (pre : List Ptr) (p : Ptr) (post : List Ptr) (allocated i : ℕ) (s : Sweep)
      → s.cells ≡ pre ++ (p ∷ post)
      → i ≡ length pre
      → allocated ≡ length pre + suc (length post)
      → 0 < s.items
      → s.items < 2 ^ 64
      → take_out compare fn wanted allocated i p s
        ≡ ok (record {
          cells = pre ++ (post ++ null ∷ []);
          items = s.items - 1;
          freed = log_free fn p s.freed;
        })
  unfolding take_out
  take_out-closes pre p [] allocated i s cells ei size some_items small =
      ground (arith, store-append pre p null [] (allocated - 1))
  take_out-closes pre p (y ∷ ys) allocated i s cells ei size some_items small =
      ground (arith, move_out pre p (y ∷ ys) null i (allocated - 1 - i) (allocated - 1))

  null_loop :
      (pre : List Ptr) (room fuel i allocated : ℕ) (s : Sweep)
      → s.cells ≡ pre ++ replicate room null
      → i ≡ length pre
      → allocated ≡ i + room
      → room ≤ fuel
      → remove_loop compare fn wanted allocated fuel i s ≡ ok s
  unfolding remove_loop
  null_loop pre zero zero i allocated s cells ei size enough = ground arith
  null_loop pre zero (suc fuel) i allocated s cells ei size enough = ground arith
  null_loop pre (suc room) zero i allocated s cells ei size enough = absurd (omega arith)
  null_loop pre (suc room) (suc fuel) i allocated s cells ei size enough = ground (
    arith,
    load-append pre null (replicate room null) i,
    append_assoc pre (null ∷ []) (replicate room null),
    null_loop (pre ++ null ∷ []) room fuel (i + 1) allocated s,
    length-append pre (null ∷ []),
  )

  -- The sweep over the rest `ys` of the sequence, with `pre` looked at already
  remove_loop-kept :
      (ys pre : List Ptr) (room fuel i allocated : ℕ) (s : Sweep)
      → s.cells ≡ pre ++ (ys ++ replicate room null)
      → i ≡ length pre
      → allocated ≡ i + length ys + room
      → length ys ≤ s.items
      → s.items < 2 ^ 64
      → length ys + length ys + room ≤ fuel
      → (room' : ℕ) × (remove_loop compare fn wanted allocated fuel i s
          ≡ ok (record {
            cells = pre ++ (kept compare wanted ys ++ replicate room' null);
            items = s.items + length (kept compare wanted ys) - length ys;
            freed = log_gone ys s.freed;
          }))
        × (room' + length (kept compare wanted ys) ≡ room + length ys)
  unfolding remove_loop kept log_gone
  remove_loop-kept [] pre room fuel i allocated s cells ei size some_items small enough =
      (room, ground (arith, null_loop pre room fuel i allocated s), omega arith)
  remove_loop-kept (y ∷ ys) pre room zero i allocated s cells ei size some_items small enough =
      absurd (omega arith)
  remove_loop-kept (y ∷ ys) pre room (suc fuel) i allocated s cells ei size some_items small
        enough =
      elim (Bool-cases (stays compare wanted y)) [
        | inl keep ↦
            let (room', run, count) =
              remove_loop-kept ys (pre ++ y ∷ []) room fuel (i + 1) allocated s
                (cells ∙ sym (append_assoc pre (y ∷ []) (ys ++ replicate room null)))
                (omega (arith, length-append pre (y ∷ []))) (omega arith) (omega arith) small
                (omega arith) in
            let size' : s.items + suc (length (kept compare wanted ys)) - suc (length ys)
                ≡ s.items + length (kept compare wanted ys) - length ys =
              omega arith in
            (
              room',
              ground (
                arith,
                keep,
                size',
                load-append pre y (ys ++ replicate room null) i ei,
                append_assoc pre (y ∷ []) (kept compare wanted ys ++ replicate room' null),
                run,
              ),
              ground (arith, count, keep),
            )
        | inr gone ↦
            let post = ys ++ replicate room null in
            let s' : Sweep = record {
              cells = pre ++ (post ++ null ∷ []);
              items = s.items - 1;
              freed = log_free fn y s.freed;
            } in
            let moved : s'.cells ≡ pre ++ (ys ++ replicate (suc room) null) =
              ap (λ t. pre ++ t)
                (append_assoc ys (replicate room null) (null ∷ [])
                  ∙ ap (λ t. ys ++ t) (replicate-append_one room null)) in
            let (room', run, count) =
              remove_loop-kept ys pre (suc room) fuel i allocated s' moved ei (omega arith)
                (omega arith) (omega arith) (omega arith) in
            let size' : s.items - 1 + length (kept compare wanted ys) - length ys
                ≡ s.items + length (kept compare wanted ys) - suc (length ys) =
              omega arith in
            (
              room',
              ground (
                arith,
                gone,
                size',
                load-append pre y post i ei,
                take_out-closes pre y post allocated i s cells ei
                    (omega
                      (arith, length-append ys (replicate room null), length-replicate room null))
                    (omega arith) small,
                run,
              ),
              ground (arith, count, gone),
            )
      ]

-- On an array that is not frozen and has fewer than 2 ^ 31 cells, with a comparison that is not
-- NULL, n_array_remove_ex ends and keeps exactly the elements that are NULL or that `cmpf` (or the
-- array's own function, for NULL) finds different from `wanted`, in their order; it hands the
-- others to `free_fn`.
pub remove_ex-kept :
    (code : Code) (before : ℕ) (xs : List Ptr) (room : ℕ) {arr : Array} (wanted cmpf : Ptr)
    → Models before xs room arr
    → arr.flags.frozen ≡ false
    → arr.allocated < 2 ^ 31
    → chosen arr cmpf ≢ null
    → let compare = code.cmp (chosen arr cmpf) in
      Returns (remove_ex code arr wanted cmpf) (λ a.
        ((room' : ℕ) × Models before (kept compare wanted xs) room' a)
        × (a.freed ≡ log_gone compare arr.free_fn wanted xs arr.freed))
unfolding remove_ex
remove_ex-kept code before [] room {arr} wanted cmpf m thawed small fn =
    (arr, ground arith, unfold kept log_gone in ((room, m), refl))
remove_ex-kept code before (x ∷ xs) room {arr} wanted cmpf m thawed small fn =
    let compare = code.cmp (chosen arr cmpf) in
    let s : Sweep = record { cells = arr.cells; items = arr.items; freed = arr.freed } in
    let (room', run, count) =
      remove_loop-kept compare arr.free_fn wanted (x ∷ xs) (replicate before null) room
        (arr.allocated + arr.items) arr.start_index arr.allocated s m.layout
        (m.start ∙ sym (length-replicate before null)) (omega arith) (omega arith) (omega arith)
        (omega arith) in
    let ks = kept compare wanted (x ∷ xs) in
    let items : arr.items + length ks - length (x ∷ xs) ≡ length ks = omega arith in
    (
      record arr {
        cells = window before ks room';
        items = length ks;
        freed = log_gone compare arr.free_fn wanted (x ∷ xs) arr.freed;
      },
      ground (arith, thawed, fn, run, items, m.count),
      (
        (
          room',
          record {
            start = m.start;
            layout = refl;
            count = refl;
            extent = omega arith;
            nonempty = m.nonempty;
          },
        ),
        refl,
      ),
    )
