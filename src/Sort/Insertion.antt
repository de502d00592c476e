-- ===== src/Sort/Insertion.antt =====
-- trurl_isort_voidp_arr sorts.
use mathlib.Core.List.{Perm, perm_middle}
use mathlib.Core.List.Perm
use trurlib.Prelude.{
  ℕ, suc, ◌+◌, ◌-◌, ◌≡◌, refl, ap, sym, ◌∙◌, inl, inr, true, false, Bool-cases, List, [], ◌∷◌, ◌++◌,
  append-nil, arith, length, subst,
}
use trurlib.Prelude.Int.{ℤ, is_neg}
use trurlib.Run.{ok, Returns, ◌>>=◌, >>=-eq-ok}
use trurlib.Memory.Block.{load, store}
use trurlib.Array.State.{Ptr}
use trurlib.Sort.{sift, isort_loop, isort}

-- The elements of `r` from the last one on, and then those of `xs`
rev_onto : List Ptr → List Ptr → List Ptr
rev_onto [] xs = xs
rev_onto (x ∷ r) xs = rev_onto r (x ∷ xs)

module _ (compare : Ptr → Ptr → ℤ) where
  -- No element is less than the one in front of it.
  pub data IsSorted : List Ptr → Type 0 where
    nothing : IsSorted []
    single : (x : Ptr) → IsSorted (x ∷ [])
    more :
        (x y : Ptr) (xs : List Ptr)
        → is_neg (compare y x) ≡ false
        → IsSorted (y ∷ xs)
        → IsSorted (x ∷ (y ∷ xs))

  -- The sorted part from its end on, with one more element
  rinsert : Ptr → List Ptr → List Ptr
  rinsert x [] = x ∷ []
  rinsert x (p ∷ r) = elim (is_neg (compare x p)) [ true ↦ p ∷ rinsert x r | false ↦ x ∷ (p ∷ r) ]

  rinsert_empty : (x : Ptr) → rinsert x [] ≡ x ∷ []
  unfolding rinsert
  rinsert_empty x = refl

  rinsert-before :
      (x p : Ptr) (r : List Ptr) → is_neg (compare x p) ≡ true → rinsert x (p ∷ r) ≡ p ∷ rinsert x r
  unfolding rinsert
  rinsert-before x p r e = ground (arith, e)

  rinsert-here :
      (x p : Ptr) (r : List Ptr) → is_neg (compare x p) ≡ false → rinsert x (p ∷ r) ≡ x ∷ (p ∷ r)
  unfolding rinsert
  rinsert-here x p r e = ground (arith, e)

  sift-moves :
      (j : ℕ) (arr arr' : List Ptr) (x p : Ptr)
      → load arr j ≡ ok p
      → is_neg (compare x p) ≡ true
      → store arr (suc j) p ≡ ok arr'
      → sift compare (suc j) arr x ≡ sift compare j arr' x
  unfolding sift
  sift-moves j arr arr' x p read e moved = ground (arith, read, e, moved)

  sift-stays :
      (j : ℕ) (arr : List Ptr) (x p : Ptr)
      → load arr j ≡ ok p
      → is_neg (compare x p) ≡ false
      → sift compare (suc j) arr x ≡ ok (arr, suc j)
  unfolding sift
  sift-stays j arr x p read e = ground (arith, read, e)

  rsort : List Ptr → List Ptr → List Ptr
  rsort r [] = r
  rsort r (x ∷ xs) = rsort (rinsert x r) xs

  load-rev_onto :
      (r xs : List Ptr) (i k : ℕ) → i ≡ length r + k → load (rev_onto r xs) i ≡ load xs k
  unfolding rev_onto load
  load-rev_onto [] xs i k e = ap (load xs) (omega arith)
  load-rev_onto (x ∷ r) xs i k e = load-rev_onto r (x ∷ xs) i (suc k) (omega arith)

  store-rev_onto :
      (r xs ys : List Ptr) (i k : ℕ) (v : Ptr)
      → i ≡ length r + k
      → store xs k v ≡ ok ys
      → store (rev_onto r xs) i v ≡ ok (rev_onto r ys)
  unfolding rev_onto store
  store-rev_onto [] xs ys i k v e h = ap (λ i. store xs i v) (omega arith) ∙ h
  store-rev_onto (x ∷ r) xs ys i k v e h =
      store-rev_onto r (x ∷ xs) (x ∷ ys) i (suc k) v (omega arith)
        (ap (λ c. c >>= λ zs. ok (x ∷ zs)) h)

  sift-empty :
      (h : Ptr) (post : List Ptr) (x : Ptr)
      → (sift compare 0 (h ∷ post) x >>= λ s. store s.0 s.1 x) ≡ ok (x ∷ post)
  unfolding sift store
  sift-empty h post x = refl

  -- The element finds its place in the sorted part.
  sift-rinsert :
      (r : List Ptr) (h : Ptr) (post : List Ptr) (x : Ptr)
      → (sift compare (length r) (rev_onto r (h ∷ post)) x >>= λ s. store s.0 s.1 x)
        ≡ ok (rev_onto (rinsert x r) post)
  unfolding rev_onto rinsert store load
  sift-rinsert [] h post x = sift-empty h post x
  sift-rinsert (p ∷ r) h post x =
      let read = load-rev_onto r (p ∷ (h ∷ post)) (length r) 0 (omega arith) in
      elim (Bool-cases (is_neg (compare x p))) [
        | inl e ↦
            let moved =
              store-rev_onto r (p ∷ (h ∷ post)) (p ∷ (p ∷ post)) (suc (length r)) 1 p (omega arith)
                refl in
            ap (λ c. c >>= λ s. store s.0 s.1 x)
              (sift-moves (length r) (rev_onto r (p ∷ (h ∷ post))) (rev_onto r (p ∷ (p ∷ post))) x p
                read e moved)
            ∙ (sift-rinsert r p (p ∷ post) x
                ∙ ap (λ l. ok (rev_onto l post)) (sym (rinsert-before x p r e)))
        | inr e ↦
            let put =
              store-rev_onto r (p ∷ (h ∷ post)) (p ∷ (x ∷ post)) (suc (length r)) 1 x (omega arith)
                refl in
            ap (λ c. c >>= λ s. store s.0 s.1 x)
              (sift-stays (length r) (rev_onto r (p ∷ (h ∷ post))) x p read e)
            ∙ (put ∙ ap (λ l. ok (rev_onto l post)) (sym (rinsert-here x p r e)))
      ]

  length-rinsert : (x : Ptr) (r : List Ptr) → length (rinsert x r) ≡ suc (length r)
  length-rinsert x [] = rw (rinsert_empty x) refl
  length-rinsert x (p ∷ r) = elim (Bool-cases (is_neg (compare x p))) [
    | inl e ↦ rw (rinsert-before x p r e) (ap suc (length-rinsert x r))
    | inr e ↦ rw (rinsert-here x p r e) refl
  ]

  isort_loop-rsort :
      (post r : List Ptr)
      → isort_loop compare (length post) (length r) (rev_onto r post)
        ≡ ok (rev_onto (rsort r post) [])
  unfolding isort_loop rsort load
  isort_loop-rsort [] r = refl
  isort_loop-rsort (x ∷ post) r =
      let read = load-rev_onto r (x ∷ post) (length r) 0 (omega arith) in
      let (s, sifted, stored) =
        >>=-eq-ok (sift compare (length r) (rev_onto r (x ∷ post)) x) (λ s. store s.0 s.1 x)
          (sift-rinsert r x post x) in
      let count : length r + 1 ≡ length (rinsert x r) = omega (arith, length-rinsert x r) in
      rw (read, sifted, stored, count) (isort_loop-rsort post (rinsert x r))

  rinsert_perm : (x : Ptr) (r : List Ptr) → Perm (rinsert x r) (x ∷ r)
  rinsert_perm x [] = rw (rinsert_empty x) (Perm.refl (x ∷ []))
  rinsert_perm x (p ∷ r) = elim (Bool-cases (is_neg (compare x p))) [
    | inl e ↦
        rw (rinsert-before x p r e) (Perm.trans (Perm.cons p (rinsert_perm x r)) (Perm.swap x p r))
    | inr e ↦ rw (rinsert-here x p r e) (Perm.refl (x ∷ (p ∷ r)))
  ]

  rsort_perm : (r xs : List Ptr) → Perm (rsort r xs) (r ++ xs)
  unfolding rsort
  rsort_perm r [] = subst (λ l. Perm r l) (sym (append-nil r)) (Perm.refl r)
  rsort_perm r (x ∷ xs) =
      Perm.trans (rsort_perm (rinsert x r) xs)
        (Perm.trans (Perm.append_right xs (rinsert_perm x r)) (Perm.symm (perm_middle r xs)))

  rev_onto_perm : (r xs : List Ptr) → Perm (rev_onto r xs) (r ++ xs)
  unfolding rev_onto
  rev_onto_perm [] xs = Perm.refl xs
  rev_onto_perm (x ∷ r) xs = Perm.trans (rev_onto_perm r (x ∷ xs)) (perm_middle r xs)

  -- Sorted from the end on
  data IsFalling : List Ptr → Type 0 where
    falling_nothing : IsFalling []
    falling_single : (x : Ptr) → IsFalling (x ∷ [])
    falling_more :
        (x y : Ptr) (xs : List Ptr)
        → is_neg (compare x y) ≡ false
        → IsFalling (y ∷ xs)
        → IsFalling (x ∷ (y ∷ xs))

  rev_onto-IsSorted :
      (r xs : List Ptr) (x : Ptr)
      → IsFalling (x ∷ r)
      → IsSorted (x ∷ xs)
      → IsSorted (rev_onto (x ∷ r) xs)
  unfolding rev_onto
  rev_onto-IsSorted [] xs x f s = s
  rev_onto-IsSorted (y ∷ r) xs x (falling_more _ _ _ e f) s =
      rev_onto-IsSorted r (x ∷ xs) y f (more y x xs e s)

  module _ (asym : (x y : Ptr) → is_neg (compare x y) ≡ true → is_neg (compare y x) ≡ false) where
    rinsert-IsFalling : (x : Ptr) (r : List Ptr) → IsFalling r → IsFalling (rinsert x r)
    rinsert-IsFalling x [] f = rw (rinsert_empty x) (falling_single x)
    rinsert-IsFalling x (p ∷ []) f = elim (Bool-cases (is_neg (compare x p))) [
      | inl e ↦
          rw (rinsert-before x p [] e, rinsert_empty x)
            (falling_more p x [] (asym x p e) (falling_single x))
      | inr e ↦ rw (rinsert-here x p [] e) (falling_more x p [] e f)
    ]
    rinsert-IsFalling x (p ∷ (q ∷ r)) (falling_more _ _ _ pq f) =
        let rest = rinsert-IsFalling x (q ∷ r) f in
        elim (Bool-cases (is_neg (compare x p))) [
          | inr e ↦
              rw (rinsert-here x p (q ∷ r) e) (falling_more x p (q ∷ r) e (falling_more p q r pq f))
          | inl e ↦ elim (Bool-cases (is_neg (compare x q))) [
            | inl e2 ↦
                rw (rinsert-before x p (q ∷ r) e, rinsert-before x q r e2)
                  (falling_more p q (rinsert x r) pq
                    (subst IsFalling (rinsert-before x q r e2) rest))
            | inr e2 ↦
                rw (rinsert-before x p (q ∷ r) e, rinsert-here x q r e2)
                  (falling_more p x (q ∷ r) (asym x p e)
                    (subst IsFalling (rinsert-here x q r e2) rest))
          ]
        ]

    rsort-IsFalling : (r xs : List Ptr) → IsFalling r → IsFalling (rsort r xs)
    unfolding rsort
    rsort-IsFalling r [] f = f
    rsort-IsFalling r (x ∷ xs) f = rsort-IsFalling (rinsert x r) xs (rinsert-IsFalling x r f)

    falling-IsSorted : (r : List Ptr) → IsFalling r → IsSorted (rev_onto r [])
    unfolding rev_onto
    falling-IsSorted [] f = nothing
    falling-IsSorted (x ∷ r) f = rev_onto-IsSorted r [] x f (single x)

    -- trurl_isort_voidp_arr ends on every block and leaves a permutation of it that is sorted, if
    -- of two elements at most one compares less than the other.
    pub isort-IsSorted :
        (arr : List Ptr)
        → Returns (isort compare arr (length arr)) (λ out. IsSorted out × Perm out arr)
    unfolding isort isort_loop rsort rev_onto
    isort-IsSorted [] = ([], refl, (nothing, Perm.refl []))
    isort-IsSorted (x ∷ xs) =
        let r = rsort (x ∷ []) xs in
        (
          rev_onto r [],
          rw (one_less (length xs)) (isort_loop-rsort xs (x ∷ [])),
          (
            falling-IsSorted r (rsort-IsFalling (x ∷ []) xs (falling_single x)),
            Perm.trans (rev_onto_perm r [])
                (subst (λ l. Perm l (x ∷ xs)) (sym (append-nil r)) (rsort_perm (x ∷ []) xs)),
          ),
        )
      where
        one_less : (n : ℕ) → suc n - 1 ≡ n
        one_less n = omega arith
