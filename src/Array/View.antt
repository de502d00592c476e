-- ===== src/Array/View.antt =====
-- The sequence that an array stands for: the cells of its window, with NULL in every other cell.
use trurlib.Prelude.{
  ℕ, suc, ◌+◌, ◌^◌, ◌<◌, ◌≡◌, ap, sym, ◌∙◌, false, List, [], ◌∷◌, ◌++◌, arith, length, replicate,
  append_assoc, length-append, length-replicate, replicate-append, replicate-append_one,
}
use trurlib.Run.{ok, fault, out_of_bounds}
use trurlib.Memory.Block.{load, store}
use trurlib.Memory.Laws.{load-append, store-append, store-beyond}
use trurlib.Array.State.{Array, Ptr, null}

-- `before` cells are free in front of the window `xs`, and `room` cells behind it.
abbrev pub window : ℕ → List Ptr → ℕ → List Ptr
window before xs room = replicate before null ++ (xs ++ replicate room null)

pub record Models (before : ℕ) (xs : List Ptr) (room : ℕ) (arr : Array) : Type 0 where
  pub start : arr.start_index ≡ before
  pub layout : arr.cells ≡ window before xs room
  pub count : arr.items ≡ length xs
  pub extent : arr.allocated ≡ before + length xs + room
  pub nonempty : 0 < arr.allocated

-- What a change of the elements leaves alone: all but the mark that the array is sorted.
pub record SameSettings (arr arr' : Array) : Type 0 where
  pub const_size : arr'.flags.const_size ≡ arr.flags.const_size
  pub autosorted : arr'.flags.autosorted ≡ arr.flags.autosorted
  pub frozen : arr'.flags.frozen ≡ arr.flags.frozen
  pub na : arr'.flags.na ≡ arr.flags.na
  pub refcnt : arr'.refcnt ≡ arr.refcnt
  pub free_fn : arr'.free_fn ≡ arr.free_fn
  pub cmp_fn : arr'.cmp_fn ≡ arr.cmp_fn
  pub freed : arr'.freed ≡ arr.freed

-- `arr` with its elements replaced by `xs`, behind `before` free cells.
pub record After (arr : Array) (before : ℕ) (xs : List Ptr) (arr' : Array) : Type 0 where
  pub room : ℕ
  pub models : Models before xs room arr'
  pub same : SameSettings arr arr'

-- The array may be changed, and grown.
pub record IsOpen (arr : Array) : Type 0 where
  pub thawed : arr.flags.frozen ≡ false
  pub grows : arr.flags.const_size ≡ false
  pub small : arr.allocated < 2 ^ 28

module _ (before : ℕ) (xs : List Ptr) (room : ℕ) where
  pub length-window : length (window before xs room) ≡ before + length xs + room
  length-window = omega (
    arith,
    length-append (replicate before null) (xs ++ replicate room null),
    length-append xs (replicate room null),
    length-replicate before null,
    length-replicate room null,
  )

  -- A window that `n` free cells are added to.
  pub window-grow :
      (n : ℕ) → window before xs room ++ replicate n null ≡ window before xs (room + n)
  window-grow n = rw (append_assoc, append_assoc, replicate-append room n null)

  -- A write into the first free cell behind the window extends it.
  pub store-window_end :
      (i : ℕ) (p : Ptr)
      → i ≡ before + length xs
      → store (window before xs (suc room)) i p ≡ ok (window before (xs ++ p ∷ []) room)
  store-window_end i p e = rw (
    ← append_assoc (replicate before null) xs (replicate (suc room) null),
    store-append (replicate before null ++ xs) null p (replicate room null) i
        (omega (arith, length-append (replicate before null) xs, length-replicate before null)),
    append_assoc (replicate before null) xs (p ∷ replicate room null),
    append_assoc xs (p ∷ []) (replicate room null),
  )

  -- Behind a window that reaches the end of the block there is nothing to write.
  pub store-window_full :
      (i : ℕ) (p : Ptr)
      → i ≡ before + length xs
      → room ≡ 0
      → store (window before xs room) i p ≡ fault out_of_bounds
  store-window_full i p e full = store-beyond _ i p (omega (arith, length-window))

  -- A write into the cell in front of the window extends it.
  pub store-window_front :
      (p : Ptr) → store (window (suc before) xs room) before p ≡ ok (window before (p ∷ xs) room)
  store-window_front p =
      let rest = xs ++ replicate room null in
      let front : window (suc before) xs room ≡ replicate before null ++ (null ∷ rest) =
        ap (λ t. t ++ rest) (sym (replicate-append_one before null))
        ∙ append_assoc (replicate before null) (null ∷ []) rest in
      ap (λ t. store t before p) front
      ∙ store-append (replicate before null) null p rest before (sym (length-replicate before null))

  -- A cell of the window, between the elements before it and those behind it.
  pub load-window :
      (x : Ptr) (ys : List Ptr) (i : ℕ)
      → i ≡ before + length xs
      → load (window before (xs ++ (x ∷ ys)) room) i ≡ ok x
  load-window x ys i e =
      rw
        (
          append_assoc xs (x ∷ ys) (replicate room null),
          ← append_assoc (replicate before null) xs (x ∷ (ys ++ replicate room null)),
        )
        (load-append (replicate before null ++ xs) x (ys ++ replicate room null) i
          (omega (arith, length-append (replicate before null) xs, length-replicate before null)))

  pub store-window :
      (x v : Ptr) (ys : List Ptr) (i : ℕ)
      → i ≡ before + length xs
      → store (window before (xs ++ (x ∷ ys)) room) i v ≡ ok (window before (xs ++ (v ∷ ys)) room)
  store-window x v ys i e =
      rw
        (
          append_assoc xs (x ∷ ys) (replicate room null),
          append_assoc xs (v ∷ ys) (replicate room null),
          ← append_assoc (replicate before null) xs (x ∷ (ys ++ replicate room null)),
          ← append_assoc (replicate before null) xs (v ∷ (ys ++ replicate room null)),
        )
        (store-append (replicate before null ++ xs) x v (ys ++ replicate room null) i
          (omega (arith, length-append (replicate before null) xs, length-replicate before null)))

  -- A window whose last element is cleared.
  pub window-clear_last : window before (xs ++ null ∷ []) room ≡ window before xs (suc room)
  window-clear_last =
      ap (λ t. replicate before null ++ t) (append_assoc xs (null ∷ []) (replicate room null))

  -- A window whose first element is cleared.
  pub window-clear_first : window before (null ∷ xs) room ≡ window (suc before) xs room
  window-clear_first =
      let rest = xs ++ replicate room null in
      sym (append_assoc (replicate before null) (null ∷ []) rest)
      ∙ ap (λ t. t ++ rest) (replicate-append_one before null)

  -- Clearing the last free cell changes nothing.
  pub store-window_last :
      (i : ℕ)
      → i ≡ before + length xs + room
      → store (window before xs (suc room)) i null ≡ ok (window before xs (suc room))
  store-window_last i e =
      let one_more : room + 1 ≡ suc room = omega arith in
      let split : window before xs (suc room) ≡ window before xs room ++ null ∷ [] =
        sym (window-grow 1 ∙ ap (window before xs) one_more) in
      rw split (store-append (window before xs room) null null [] i (e ∙ sym length-window))

  -- Free cells behind the window may be counted to it.
  pub window-fill :
      (n k : ℕ) → room ≡ n + k → window before xs room ≡ window before (xs ++ replicate n null) k
  window-fill n k e =
      rw (e, ← replicate-append n k null)
        (ap (λ t. replicate before null ++ t)
          (sym (append_assoc xs (replicate n null) (replicate k null))))

  -- The first free cell behind the window holds NULL.
  pub load-window_end :
      (i : ℕ) → i ≡ before + length xs → load (window before xs (suc room)) i ≡ ok null
  load-window_end i e = rw (← append_assoc (replicate before null) xs (replicate (suc room) null)) (
      load-append (replicate before null ++ xs) null (replicate room null) i
        (omega (arith, length-append (replicate before null) xs, length-replicate before null)))
