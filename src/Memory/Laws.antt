-- ===== src/Memory/Laws.antt =====
-- What the accesses do to a block that is split at the place of the access.
use trurlib.Prelude.{
  ℕ, zero, suc, ◌+◌, ◌≤◌, ◌≡◌, refl, ap, List, [], ◌∷◌, ◌++◌, arith, le→leb, length, take, drop,
  length-append, take-append, drop-append, append_assoc, ◌∙◌, get_elem?, some, get_or, set, ◌<◌,
}
use native.Mathlib.Nat.{zero-add}
use trurlib.Run.{ok, fault, out_of_bounds, ◌>>=◌, >>=-eq-ok}
use trurlib.Memory.Block.{load, store, move}

module _ {ℓ} {A : Type ℓ} where
  pub load-append :
      (pre : List A) (x : A) (post : List A) (i : ℕ)
      → i ≡ length pre
      → load (pre ++ (x ∷ post)) i ≡ ok x
  unfolding load
  load-append [] x post zero e = refl
  load-append [] x post (suc i) e = absurd (omega arith)
  load-append (y ∷ pre) x post zero e = absurd (omega arith)
  load-append (y ∷ pre) x post (suc i) e = load-append pre x post i (omega arith)

  pub store-append :
      (pre : List A) (x v : A) (post : List A) (i : ℕ)
      → i ≡ length pre
      → store (pre ++ (x ∷ post)) i v ≡ ok (pre ++ (v ∷ post))
  unfolding store
  store-append [] x v post zero e = refl
  store-append [] x v post (suc i) e = absurd (omega arith)
  store-append (y ∷ pre) x v post zero e = absurd (omega arith)
  store-append (y ∷ pre) x v post (suc i) e = rw (store-append pre x v post i (omega arith))

  -- A read behind a prefix is a read of the rest.
  pub load-append_right :
      (pre xs : List A) (i k : ℕ) → i ≡ length pre + k → load (pre ++ xs) i ≡ load xs k
  unfolding load
  load-append_right [] xs i k e = ap (load xs) (e ∙ zero-add k)
  load-append_right (y ∷ pre) xs zero k e = absurd (omega arith)
  load-append_right (y ∷ pre) xs (suc i) k e = load-append_right pre xs i k (omega arith)

  -- A read in a prefix finds its element.
  pub load-append_left :
      (xs ys : List A) (i : ℕ) (x : A) → get_elem? xs i ≡ some x → load (xs ++ ys) i ≡ ok x
  unfolding load
  load-append_left [] ys i x e = cc
  load-append_left (y ∷ xs) ys zero x e = ground arith
  load-append_left (y ∷ xs) ys (suc i) x e = load-append_left xs ys i x e

  -- Inside the block a read and a write do what they do on the list.
  pub load-get_or : (xs : List A) (i : ℕ) (d : A) → i < length xs → load xs i ≡ ok (get_or xs i d)
  unfolding load
  load-get_or [] i d h = elim h [ ]
  load-get_or (x ∷ xs) zero d h = refl
  load-get_or (x ∷ xs) (suc i) d h = load-get_or xs i d (omega arith)

  pub store-set : (xs : List A) (i : ℕ) (v : A) → i < length xs → store xs i v ≡ ok (set xs i v)
  unfolding store
  store-set [] i v h = elim h [ ]
  store-set (x ∷ xs) zero v h = refl
  store-set (x ∷ xs) (suc i) v h = rw (store-set xs i v (omega arith))

  pub load-beyond : (xs : List A) (i : ℕ) → length xs ≤ i → load xs i ≡ fault out_of_bounds
  unfolding load
  load-beyond [] i h = refl
  load-beyond (x ∷ xs) zero h = absurd (omega arith)
  load-beyond (x ∷ xs) (suc i) h = load-beyond xs i (omega arith)

  pub store-beyond :
      (xs : List A) (i : ℕ) (v : A) → length xs ≤ i → store xs i v ≡ fault out_of_bounds
  unfolding store
  store-beyond [] i v h = refl
  store-beyond (x ∷ xs) zero v h = absurd (omega arith)
  store-beyond (x ∷ xs) (suc i) v h = rw (store-beyond xs i v (omega arith))

  pub take_at : (xs ys : List A) (n : ℕ) → n ≡ length xs → take n (xs ++ ys) ≡ xs
  take_at xs ys n e = rw (e, take-append xs ys)

  pub drop_at : (xs ys : List A) (n : ℕ) → n ≡ length xs → drop n (xs ++ ys) ≡ ys
  drop_at xs ys n e = rw (e, drop-append xs ys)

  pub length-store : (xs ys : List A) (i : ℕ) (v : A) → store xs i v ≡ ok ys → length ys ≡ length xs
  unfolding store
  length-store [] ys i v h = cc
  length-store (x ∷ xs) ys zero v h = ground arith
  length-store (x ∷ xs) ys (suc i) v h =
      let (zs, e, f) = >>=-eq-ok (store xs i v) _ h in ground (arith, length-store xs zs i v e)

  move_lem :
      (xs : List A) (d s n : ℕ)
      → s + n ≤ length xs
      → d + n ≤ length xs
      → move xs d s n ≡ ok (take d xs ++ (take n (drop s xs) ++ drop (d + n) xs))
  unfolding move
  move_lem xs d s n hs hd = rw (le→leb _ _ hs, le→leb _ _ hd)

  pub drop-append_more :
      (xs ys : List A) (n k : ℕ) → n ≡ length xs + k → drop n (xs ++ ys) ≡ drop k ys
  drop-append_more [] ys n k e = ap (λ m. drop m ys) (e ∙ zero-add k)
  drop-append_more (x ∷ xs) ys zero k e = absurd (omega arith)
  drop-append_more (x ∷ xs) ys (suc n) k e = drop-append_more xs ys n k (omega arith)

  drop_last : (x : A) (xs : List A) → (y : A) × (drop (length xs) (x ∷ xs) ≡ y ∷ [])
  drop_last x [] = (x, refl)
  drop_last x (y ∷ ys) = drop_last y ys

  take_all : (xs : List A) (n : ℕ) → n ≡ length xs → take n xs ≡ xs
  take_all [] zero e = refl
  take_all [] (suc n) e = absurd (omega arith)
  take_all (x ∷ xs) zero e = absurd (omega arith)
  take_all (x ∷ xs) (suc n) e = ap (λ t. x ∷ t) (take_all xs n (omega arith))

  take_one : (xs : List A) (x : A) (rest : List A) → (y : A) × (take 1 (xs ++ (x ∷ rest)) ≡ y ∷ [])
  take_one [] x rest = (x, refl)
  take_one (y ∷ ys) x rest = (y, refl)

  -- Closing the gap at `x` and clearing the last cell: how an element is taken out of a block.
  pub move_out :
      (pre : List A) (x : A) (post : List A) (v : A) (i n last : ℕ)
      → i ≡ length pre
      → n ≡ length post
      → last ≡ length pre + length post
      → (move (pre ++ (x ∷ post)) i (i + 1) n >>= λ d. store d last v)
        ≡ ok (pre ++ (post ++ (v ∷ [])))
  move_out pre x post v i n last ei en el =
      let (y, dl) = drop_last x post in
      rw (
        move_lem (pre ++ (x ∷ post)) i (i + 1) n (omega (arith, length-append pre (x ∷ post)))
            (omega (arith, length-append pre (x ∷ post))),
        take_at pre (x ∷ post) i ei,
        drop-append_more pre (x ∷ post) (i + 1) 1 (omega arith),
        take_all post n en,
        drop-append_more pre (x ∷ post) (i + n) (length post) (omega arith),
        dl,
        ← append_assoc pre post (y ∷ []),
        store-append (pre ++ post) y v [] last (omega (arith, length-append pre post)),
        append_assoc pre post (v ∷ []),
      )

  -- Opening a gap at the front, which the cell `x` behind `xs` gives up.
  pub move_up :
      (xs : List A) (x v : A) (rest : List A) (n : ℕ)
      → n ≡ length xs
      → (move (xs ++ (x ∷ rest)) 1 0 n >>= λ d. store d 0 v) ≡ ok (v ∷ (xs ++ rest))
  unfolding store
  move_up xs x v rest n e =
      let (y, t) = take_one xs x rest in
      rw (
        move_lem (xs ++ (x ∷ rest)) 1 0 n (omega (arith, length-append xs (x ∷ rest)))
            (omega (arith, length-append xs (x ∷ rest))),
        drop-append_more xs (x ∷ rest) (1 + n) 1 (omega arith),
        take_at xs (x ∷ rest) n e,
        t,
      )
