-- ===== src/Array/Order/Sorted.antt =====
-- The mark that an array is sorted, and what n_array_sort_ex does.
use mathlib.Core.List.{Perm, Permᴰ}
use mathlib.Core.List.Perm
use native.Mathlib.Nat.{ℕ_set}
use mathlib.Core.Logic.{∥∥₁_elim}
use trurlib.Array.Scan.{chosen}
use trurlib.Prelude.{
  subst, ℕ, suc, ◌+◌, ◌≤◌, ◌≡◌, ◌≢◌, refl, ap, sym, ◌∙◌, inl, inr, true, false, Bool-cases, ◌&&◌,
  List, ◌++◌, arith, length, length-replicate, ◌==◌, take, drop, take-append, drop-append,
  replicate,
}
use trurlib.Prelude.Int.{ℤ}
use trurlib.Run.{Returns}
use trurlib.Array.State.{Array, Ptr, null, Code, Flags, set_sorted, clr_sorted}
use trurlib.Array.View.{Models, window, length-window}
use trurlib.Sort.Insertion.{IsSorted}
use trurlib.Array.Order.{Choice, autosort, sort_window, sort_ex}
use trurlib.Array.Order.Found.{drop-window}

-- An array that is marked as sorted is.
pub record IsMarked (code : Code) (xs : List Ptr) (arr : Array) : Type 0 where
  pub sorted : arr.flags.is_sorted ≡ true → IsSorted (code.cmp arr.cmp_fn) xs

perm_length : {xs ys : List Ptr} → Permᴰ xs ys → length xs ≡ length ys
perm_length Permᴰ.nil = refl
perm_length (Permᴰ.cons e d) = ap suc (perm_length d)
perm_length (Permᴰ.swap e e2) = refl
perm_length (Permᴰ.trans d d2) = perm_length d ∙ perm_length d2

Perm-length : {xs ys : List Ptr} → Perm xs ys → length xs ≡ length ys
Perm-length p = ∥∥₁_elim p (ℕ_set _ _) perm_length

-- The call has sorted the elements of `arr` with `f`. An array that sorts itself and is marked is left
-- as it is; the mark is set if `f` is the array's own function, and cleared if it is another one.
pub record IsSortedBy (code : Code) (before : ℕ) (xs : List Ptr) (room : ℕ) (arr : Array) (f : Ptr)
    (arr' : Array) : Type 0 where
  pub ys : List Ptr
  pub models : Models before ys room arr'
  pub same : Perm ys xs
  pub sorted : IsSorted (code.cmp f) ys
  pub marked : IsMarked code ys arr'
  pub left : f ≡ arr.cmp_fn → arr.flags.autosorted ≡ true → arr.flags.is_sorted ≡ true → arr' ≡ arr
  pub mark_set : f ≡ arr.cmp_fn → arr'.flags.is_sorted ≡ true
  pub cleared : f ≢ arr.cmp_fn → arr'.flags.is_sorted ≡ false

-- What sorting does to any block
abbrev pub Sorts : ((Ptr → Ptr → ℤ) → List Ptr → List Ptr) → (Ptr → Ptr → ℤ) → Type 0
Sorts timsort compare =
    (l : List Ptr) → Perm (timsort compare l) l × IsSorted compare (timsort compare l)

record IsChoice (code : Code) (before : ℕ) (xs : List Ptr) (room : ℕ) (arr : Array) (f : Ptr)
    (c : Choice) : Type 0 where
  pub models : Models before xs room c.arr
  pub cmpf : c.cmpf ≡ f
  pub marked : c.arr.flags.is_sorted ≡ true → IsSorted (code.cmp f) xs
  pub thawed : c.arr.flags.frozen ≡ false
  pub owned : c.own ≡ true → f ≡ c.arr.cmp_fn
  pub unowned : c.own ≡ false → c.arr.flags.is_sorted ≡ false
  pub kept : c.own ≡ true → c.arr ≡ arr
  pub owns : f ≡ arr.cmp_fn → c.own ≡ true

module _ (timsort : (Ptr → Ptr → ℤ) → List Ptr → List Ptr) (code : Code) (before : ℕ)
    (xs : List Ptr) (room : ℕ) (arr : Array) (cmpf : Ptr) (m : Models before xs room arr)
    (w : IsMarked code xs arr) (thawed : arr.flags.frozen ≡ false) where
  autosort-IsChoice :
      chosen arr cmpf ≢ null
      → Returns (autosort arr cmpf) (IsChoice code before xs room arr (chosen arr cmpf))
  unfolding autosort
  autosort-IsChoice given = elim (Bool-cases (cmpf == null)) [
    | inl e ↦
        let f : chosen arr cmpf ≡ arr.cmp_fn = ground (arith, e) in
        (
          record { arr = arr; cmpf = arr.cmp_fn; own = true },
          ground (arith, e, given, f),
          record {
            models = m;
            cmpf = sym f;
            marked = λ s. subst (λ g. IsSorted (code.cmp g) xs) (sym f) (w.sorted s);
            thawed = thawed;
            owned = λ o. f;
            unowned = λ o. cc;
            kept = λ o. refl;
            owns = λ own. refl;
          },
        )
    | inr e ↦
        let f : chosen arr cmpf ≡ cmpf = ground (arith, e) in
        elim (Bool-cases (cmpf == arr.cmp_fn)) [
          | inl e2 ↦
              let g : chosen arr cmpf ≡ arr.cmp_fn = ground (arith, f, e2) in
              (
                record { arr = arr; cmpf = cmpf; own = true },
                ground (arith, e, e2),
                record {
                  models = m;
                  cmpf = sym f;
                  marked = λ s. subst (λ g. IsSorted (code.cmp g) xs) (sym g) (w.sorted s);
                  thawed = thawed;
                  owned = λ o. g;
                  unowned = λ o. cc;
                  kept = λ o. refl;
                  owns = λ own. refl;
                },
              )
          | inr e2 ↦ (
            record { arr = clr_sorted arr; cmpf = cmpf; own = false },
            ground (arith, e, e2),
            record {
              models = record {
                start = m.start;
                layout = m.layout;
                count = m.count;
                extent = m.extent;
                nonempty = m.nonempty;
              };
              cmpf = sym f;
              marked = λ s. cc;
              thawed = thawed;
              owned = λ o. cc;
              unowned = λ o. refl;
              kept = λ o. cc;
              owns = λ own. absurd (ground (arith, e2, f, own));
            },
          )
        ]
  ]

  sort_window-window :
      (c : Choice) (f : Ptr)
      → Models before xs room c.arr
      → Perm (timsort (code.cmp f) xs) xs
      → Returns (sort_window timsort code c.arr f) (λ arr'.
        Models before (timsort (code.cmp f) xs) room arr'
        × (arr'.flags ≡ c.arr.flags)
        × (arr'.cmp_fn ≡ c.arr.cmp_fn))
  unfolding sort_window
  sort_window-window c f m p =
      let ys = timsort (code.cmp f) xs in
      let len = Perm-length p in
      let count = m.count in
      let layout = m.layout in
      let inside : c.arr.start_index + c.arr.items ≤ length c.arr.cells = omega (
        arith,
        m.start,
        count,
        ap (λ (l : List Ptr). length l) layout,
        length-window before xs room,
      ) in
      let behind : drop c.arr.start_index c.arr.cells ≡ xs ++ replicate room null =
        ap (λ n. drop n c.arr.cells) m.start
        ∙ (ap (drop before) layout ∙ drop-window before xs room) in
      let front : take c.arr.start_index c.arr.cells ≡ replicate before null =
        ap (λ n. take n c.arr.cells) m.start
        ∙ (ap (take before) layout
            ∙ (ap (λ n. take n (window before xs room)) (sym (length-replicate before null))
                ∙ take-append (replicate before null) (xs ++ replicate room null))) in
      let middle : take c.arr.items (drop c.arr.start_index c.arr.cells) ≡ xs =
        ap (λ n. take n (drop c.arr.start_index c.arr.cells)) count
        ∙ (ap (take (length xs)) behind ∙ take-append xs (replicate room null)) in
      let rest : drop c.arr.items (drop c.arr.start_index c.arr.cells) ≡ replicate room null =
        ap (λ n. drop n (drop c.arr.start_index c.arr.cells)) count
        ∙ (ap (drop (length xs)) behind ∙ drop-append xs (replicate room null)) in
      (
        record c.arr {
          cells =
              take c.arr.start_index c.arr.cells
              ++ (timsort (code.cmp f) (take c.arr.items (drop c.arr.start_index c.arr.cells))
                  ++ drop c.arr.items (drop c.arr.start_index c.arr.cells));
        },
        ground (arith, inside),
        (
          record {
            start = m.start;
            layout =
                ap
                  (λ l.
                    l
                    ++ (timsort (code.cmp f) (take c.arr.items (drop c.arr.start_index c.arr.cells))
                        ++ drop c.arr.items (drop c.arr.start_index c.arr.cells)))
                  front
                ∙ (ap
                      (λ l.
                        replicate before null
                        ++ (timsort (code.cmp f) l
                            ++ drop c.arr.items (drop c.arr.start_index c.arr.cells)))
                      middle
                    ∙ ap (λ l. replicate before null ++ (ys ++ l)) rest);
            count = count ∙ sym len;
            extent = omega (arith, m.extent, len);
            nonempty = m.nonempty;
          },
          refl,
          refl,
        ),
      )

  -- What is marked, the array's own function has sorted.
  marked-own :
      (c : Choice)
      → IsChoice code before xs room arr (chosen arr cmpf) c
      → c.arr.flags.is_sorted ≡ true
      → c.own ≡ true
  marked-own c q marked = elim (Bool-cases c.own) [
    | inl o ↦ o
    | inr o ↦ absurd (ground (arith, q.unowned o, marked))
  ]

  own-cmp_fn :
      (c : Choice)
      → IsChoice code before xs room arr (chosen arr cmpf) c
      → c.own ≡ true
      → chosen arr cmpf ≡ arr.cmp_fn
  own-cmp_fn c q o = q.owned o ∙ ap (λ (a : Array). a.cmp_fn) (q.kept o)

  -- An array that is sorted anew was not marked, or does not sort itself.
  not_left :
      (c : Choice)
      → IsChoice code before xs room arr (chosen arr cmpf) c
      → (c.arr.flags.autosorted && c.arr.flags.is_sorted) ≡ false
      → chosen arr cmpf ≡ arr.cmp_fn
      → arr.flags.autosorted ≡ true
      → arr.flags.is_sorted ≡ true
      → ⊥
  not_left c q e own auto marked =
      let same =
        ap (λ (a : Array). a.flags.autosorted && a.flags.is_sorted) (q.kept (q.owns own)) in
      ground (arith, e, same, auto, marked)

  -- Where `timsort` gives a permutation in the order of the function, n_array_sort_ex on an array
  -- that is not frozen and is sorted if it is marked so, with a function of its own or the array's,
  -- puts the elements into that order. The mark is set if the function is the array's own, and
  -- cleared if it is another one. An array that sorts itself and is marked is left as it is, when
  -- the function is its own.
  pub sort_ex-IsSortedBy :
      chosen arr cmpf ≢ null
      → Sorts timsort (code.cmp (chosen arr cmpf))
      → Returns
          (sort_ex timsort code arr cmpf)
          (IsSortedBy code before xs room arr (chosen arr cmpf))
  unfolding sort_ex
  sort_ex-IsSortedBy given sorts =
      let (c, run, q) = autosort-IsChoice given in
      let f = chosen arr cmpf in
      elim (Bool-cases (c.arr.flags.autosorted && c.arr.flags.is_sorted)) [
        | inl e ↦
            let marked : c.arr.flags.is_sorted ≡ true = ground (arith, e) in
            (
              c.arr,
              ground (arith, run, e),
              record {
                ys = xs;
                models = q.models;
                same = Perm.refl xs;
                sorted = q.marked marked;
                marked = record { sorted = λ s. kept c q marked };
                left = λ own auto is_sorted. q.kept (marked-own c q marked);
                mark_set = λ own. marked;
                cleared = λ other. absurd (other (own-cmp_fn c q (marked-own c q marked)));
              },
            )
        | inr e ↦
            let thawed2 = q.thawed in
            let (perm, sorted) = sorts xs in
            let (arr2, sorted_run, (models2, flags2, cmp2)) =
              sort_window-window c f q.models perm in
            let window_run = ap (λ g. sort_window timsort code c.arr g) q.cmpf ∙ sorted_run in
            elim (Bool-cases c.own) [
              | inl o ↦ (
                set_sorted arr2,
                ground (arith, run, e, thawed2, window_run, o),
                record {
                  ys = timsort (code.cmp f) xs;
                  models = record {
                    start = models2.start;
                    layout = models2.layout;
                    count = models2.count;
                    extent = models2.extent;
                    nonempty = models2.nonempty;
                  };
                  same = perm;
                  sorted = sorted;
                  marked = record {
                    sorted = λ s.
                        subst (λ g. IsSorted (code.cmp g) (timsort (code.cmp f) xs))
                          (q.owned o ∙ sym cmp2) sorted;
                  };
                  left = λ own auto is_sorted. absurd (not_left c q e own auto is_sorted);
                  mark_set = λ own. refl;
                  cleared = λ other. absurd (other (own-cmp_fn c q o));
                },
              )
              | inr o ↦ (
                arr2,
                ground (arith, run, e, thawed2, window_run, o),
                record {
                  ys = timsort (code.cmp f) xs;
                  models = models2;
                  same = perm;
                  sorted = sorted;
                  marked = record {
                    sorted = λ s.
                        absurd
                          (ground (arith, q.unowned o, ap (λ (g : Flags). g.is_sorted) flags2, s));
                  };
                  left = λ own auto is_sorted. absurd (not_left c q e own auto is_sorted);
                  mark_set = λ own. absurd (ground (arith, o, q.owns own));
                  cleared = λ other. ap (λ (g : Flags). g.is_sorted) flags2 ∙ q.unowned o;
                },
              )
            ]
      ]
    where
      kept :
          (c : Choice)
          → IsChoice code before xs room arr (chosen arr cmpf) c
          → c.arr.flags.is_sorted ≡ true
          → IsSorted (code.cmp c.arr.cmp_fn) xs
      kept c q marked = elim (Bool-cases c.own) [
        | inl o ↦ subst (λ g. IsSorted (code.cmp g) xs) (q.owned o) (q.marked marked)
        | inr o ↦ absurd (ground (arith, q.unowned o, marked))
      ]
