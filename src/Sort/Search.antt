-- ===== src/Sort/Search.antt =====
-- The binary search finds an element that is equal, and the search for an index the first one.
use trurlib.Prelude.{
  subst, ℕ, zero, suc, ◌+◌, ◌/◌, ◌^◌, ◌<◌, ◌≤◌, ◌≡◌, refl, inl, inr, true, false, Bool-cases,
  Option, none, some, List, arith, length, ltb, ◌==◌, get_or,
}
use trurlib.Prelude.Int.{ℤ, pos, negsuc, is_neg, is_zero, is_pos, to_int-small}
use trurlib.Run.{ok, Returns}
use trurlib.Memory.Block.{load}
use trurlib.Array.State.{Ptr, null}
use trurlib.Sort.{bsearch_loop, bsearch, first_equal, search_idx}

-- Exactly one of the three tests of a sign holds.
record IsSign (z : ℤ) : Type 0 where
  pub neg_other : is_zero z ≡ false → is_pos z ≡ false → is_neg z ≡ true
  pub pos_nonzero : is_pos z ≡ true → is_zero z ≡ false
  pub neg_nonzero : is_neg z ≡ true → is_zero z ≡ false

signed : (z : ℤ) → IsSign z
signed (pos n) = record {
  neg_other = λ a b. ground (arith, a, b);
  pos_nonzero = λ a. ground (arith, a);
  neg_nonzero = λ a. cc;
}
signed (negsuc n) = record {
  neg_other = λ a b. refl;
  pos_nonzero = λ a. cc;
  neg_nonzero = λ a. refl;
}

module _ (compare : Ptr → Ptr → ℤ) (arr : List Ptr) (wanted : Ptr) where
  -- How an element compares
  abbrev pub sign : ℕ → ℤ
  sign i = compare (get_or arr i null) wanted

  -- Behind an element that is greater than the wanted one all are greater, in front of one that is
  -- less all are less.
  pub record IsOrdered : Type 0 where
    pub above : (i j : ℕ) → i < j → j < length arr → is_pos (sign i) ≡ true → is_pos (sign j) ≡ true
    pub below : (i j : ℕ) → i < j → j < length arr → is_neg (sign j) ≡ true → is_neg (sign i) ≡ true

  abbrev pub IsFound : Option ℕ → Type 0
  IsFound none = (i : ℕ) → i < length arr → is_zero (sign i) ≡ false
  IsFound (some i) = (i < length arr) × (is_zero (sign i) ≡ true)

  -- What the search for an index gives: the first element that is equal, or -1.
  abbrev pub IsFirst : ℤ → Type 0
  IsFirst (negsuc n) = (n ≡ 0) × ((i : ℕ) → i < length arr → is_zero (sign i) ≡ false)
  IsFirst (pos i) =
      (i < length arr) × (is_zero (sign i) ≡ true) × ((j : ℕ) → j < i → is_zero (sign j) ≡ false)

  -- `base` points to the elements of `arr`, in a block that may be longer.
  abbrev pub IsBase : List Ptr → Type 0
  IsBase base = (i : ℕ) → i < length arr → load base i ≡ ok (get_or arr i null)

  module _ (w : IsOrdered) (base : List Ptr) (agree : IsBase base) where
    bsearch_loop-IsFound :
        (fuel l r : ℕ)
        → r ≤ length arr
        → r ≤ fuel + l
        → ((i : ℕ) → i < l → i < length arr → is_neg (sign i) ≡ true)
        → ((i : ℕ) → r ≤ i → i < length arr → is_pos (sign i) ≡ true)
        → Returns (bsearch_loop compare fuel l r base wanted) IsFound
    unfolding bsearch_loop
    bsearch_loop-IsFound zero l r le enough less greater = (
      none,
      ground arith,
      λ i h. elim (Bool-cases (ltb i l)) [
        | inl e ↦ (signed (sign i)).neg_nonzero (less i (ground (arith, e)) h)
        | inr e ↦ (signed (sign i)).pos_nonzero (greater i (ground (arith, e)) h)
      ],
    )
    bsearch_loop-IsFound (suc fuel) l r le enough less greater = elim (Bool-cases (ltb l r)) [
      | inr over ↦ (
        none,
        ground (arith, over),
        λ i h. elim (Bool-cases (ltb i l)) [
          | inl e ↦ (signed (sign i)).neg_nonzero (less i (ground (arith, e)) h)
          | inr e ↦ (signed (sign i)).pos_nonzero (greater i (ground (arith, e, over)) h)
        ],
      )
      | inl going ↦
          let i = (l + r) / 2 in
          let lr : l < r = ground (arith, going) in
          let hi : i < length arr = omega arith in
          let read = agree i hi in
          elim (Bool-cases (is_zero (sign i))) [
            | inl e ↦ (some i, ground (arith, going, read, e), (hi, e))
            | inr e ↦ elim (Bool-cases (is_pos (sign i))) [
              | inl up ↦
                  let (o, run, found) =
                    bsearch_loop-IsFound fuel l i (omega arith) (omega arith) less (λ j h hj.
                      elim (Bool-cases (i == j)) [
                        | inl same ↦ subst (λ n. is_pos (sign n) ≡ true) (ground (arith, same)) up
                        | inr other ↦ w.above i j (ground (arith, other, h)) hj up
                      ]) in
                  (o, ground (arith, going, read, e, up, run), found)
              | inr down ↦
                  let neg = (signed (sign i)).neg_other e down in
                  let (o, run, found) =
                    bsearch_loop-IsFound fuel (i + 1) r le (omega arith)
                      (λ j h hj. elim (Bool-cases (i == j)) [
                        | inl same ↦ subst (λ n. is_neg (sign n) ≡ true) (ground (arith, same)) neg
                        | inr other ↦ w.below j i (ground (arith, other, h)) hi neg
                      ])
                      greater in
                  (o, ground (arith, going, read, e, down, run), found)
            ]
          ]
    ]

    int_of : Option ℕ → ℤ
    int_of none = negsuc 0
    int_of (some i) = pos i

    -- The binary search ends; in an ordered block of fewer than 2 ^ 31 cells it finds an element that
    -- is equal to the wanted one, if there is any.
    bsearch-IsFound :
        length arr < 2 ^ 31
        → (o : Option ℕ) × (bsearch compare base (length arr) wanted ≡ ok (int_of o)) × IsFound o
    unfolding bsearch int_of
    bsearch-IsFound small =
        let (o, run, found) =
          bsearch_loop-IsFound (length arr) 0 (length arr) (omega arith) (omega arith)
            (λ i h hi. absurd (omega (arith, h))) (λ i h hi. absurd (omega (arith, h, hi))) in
        as_found o run found
      where
        as_found :
            (o : Option ℕ)
            → bsearch_loop compare (length arr) 0 (length arr) base wanted ≡ ok o
            → IsFound o
            → (o : Option ℕ) × (bsearch compare base (length arr) wanted ≡ ok (int_of o))
              × IsFound o
        as_found none run found = (none, rw run refl, found)
        as_found (some i) run (h, e) = (some i, rw (run, to_int-small i (omega arith)) refl, (h, e))

    first_equal-IsFirst :
        (idx : ℕ)
        → idx < length arr
        → is_zero (sign idx) ≡ true
        → Returns (first_equal compare idx base wanted) (λ i. IsFirst (pos i))
    unfolding first_equal
    first_equal-IsFirst zero h e = (0, refl, (h, e, λ j hj. absurd (omega (arith, hj))))
    first_equal-IsFirst (suc idx) h e =
        let read = agree idx (omega arith) in
        elim (Bool-cases (is_zero (sign idx))) [
          | inl same ↦
              let (i, run, first) = first_equal-IsFirst idx (omega arith) same in
              (i, ground (arith, read, same, run), first)
          | inr other ↦ (
            suc idx,
            ground (arith, read, other),
            (
              h,
              e,
              λ j hj. elim (Bool-cases (j == idx)) [
                | inl at ↦ subst (λ n. is_zero (sign n) ≡ false) (ground (arith, at)) other
                | inr before ↦ elim (Bool-cases (is_pos (sign idx))) [
                  | inl up ↦
                      let up2 =
                        (signed (sign (suc idx))).pos_nonzero
                          (w.above idx (suc idx) (omega arith) h up) in
                      absurd (ground (arith, up2, e))
                  | inr down ↦ (signed (sign j)).neg_nonzero (
                      w.below j idx (ground (arith, before, hj)) (omega arith)
                        ((signed (sign idx)).neg_other other down))
                ]
              ],
            ),
          )
        ]

    -- The search for an index (n_array_bsearch_idx_ex, n_tuple_bsearch_idx_ex) ends on an ordered
    -- block that is not empty and has fewer than 2 ^ 31 cells, with the position of the first element
    -- that is equal to the wanted one, or with -1 if there is none.
    pub search_idx-IsFirst :
        0 < length arr
        → length arr < 2 ^ 31
        → Returns (search_idx compare base (length arr) wanted) IsFirst
    unfolding search_idx int_of
    search_idx-IsFirst some_element small = elim (Bool-cases (ltb 1 (length arr))) [
      | inl two ↦ let (o, run, found) = bsearch-IsFound small in two_or_more o run found two
      | inr one ↦
          let read = agree 0 some_element in
          let only : (i : ℕ) → i < length arr → 0 ≡ i = λ i h. ground (arith, one, h) in
          elim (Bool-cases (is_zero (sign 0))) [
            | inl e ↦ (
              pos 0,
              ground (arith, one, read, e),
              (some_element, e, λ j hj. absurd (omega (arith, hj))),
            )
            | inr e ↦ (
              negsuc 0,
              ground (arith, one, read, e),
              (refl, λ i h. subst (λ n. is_zero (sign n) ≡ false) (only i h) e),
            )
          ]
    ]
      where
        two_or_more :
            (o : Option ℕ)
            → bsearch compare base (length arr) wanted ≡ ok (int_of o)
            → IsFound o
            → ltb 1 (length arr) ≡ true
            → Returns (search_idx compare base (length arr) wanted) IsFirst
        two_or_more none run found two = (negsuc 0, ground (arith, two, run), (refl, found))
        two_or_more (some idx) run (h, e) two =
            let (i, back, first) = first_equal-IsFirst idx h e in
            (pos i, ground (arith, two, run, back), first)
