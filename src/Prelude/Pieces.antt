-- ===== src/Prelude/Pieces.antt =====
-- Lists cut at a place: how the pieces combine.
use Prim.Native.Nat.{ℕ, zero, suc, ◌+◌, ◌-◌, ◌≤◌}
use mathlib.Core.Path.{◌≡◌, refl, sym, ap, ◌∙◌}
use mathlib.Core.List.{List, [], ◌∷◌, ◌++◌}
use native.Mathlib.Nat.{zero-add}
use native.Mathlib.Omega.{arith}
use trurlib.Prelude.Lists.{length, take, drop, take-append, drop-append}

module _ {ℓ} {A : Type ℓ} where
  pub length-take : (n : ℕ) (xs : List A) → n ≤ length xs → length (take n xs) ≡ n
  length-take zero xs le = refl
  length-take (suc n) [] le = absurd (omega arith)
  length-take (suc n) (x ∷ xs) le = ap suc (length-take n xs (omega arith))

  pub length-drop : (n : ℕ) (xs : List A) → length (drop n xs) ≡ length xs - n
  length-drop zero xs = omega arith
  length-drop (suc n) [] = omega arith
  length-drop (suc n) (x ∷ xs) = length-drop n xs ∙ omega arith

  -- To take all is to take nothing away.
  pub take_long : (xs : List A) (n : ℕ) → length xs ≤ n → take n xs ≡ xs
  take_long [] zero le = refl
  take_long [] (suc n) le = refl
  take_long (x ∷ xs) zero le = absurd (omega arith)
  take_long (x ∷ xs) (suc n) le = ap (λ t. x ∷ t) (take_long xs n (omega arith))

  pub take-append_left : (xs ys : List A) (n : ℕ) → n ≤ length xs → take n (xs ++ ys) ≡ take n xs
  take-append_left xs ys zero le = refl
  take-append_left [] ys (suc n) le = absurd (omega arith)
  take-append_left (x ∷ xs) ys (suc n) le = ap (λ t. x ∷ t) (take-append_left xs ys n (omega arith))

  pub take-append_right :
      (xs ys : List A) (n k : ℕ) → n ≡ length xs + k → take n (xs ++ ys) ≡ xs ++ take k ys
  take-append_right [] ys n k e = ap (λ m. take m ys) (e ∙ zero-add k)
  take-append_right (x ∷ xs) ys zero k e = absurd (omega arith)
  take-append_right (x ∷ xs) ys (suc n) k e =
      ap (λ t. x ∷ t) (take-append_right xs ys n k (omega arith))

  pub take-take : (xs : List A) (m n : ℕ) → m ≤ n → take m (take n xs) ≡ take m xs
  take-take xs zero n le = refl
  take-take xs (suc m) zero le = absurd (omega arith)
  take-take [] (suc m) (suc n) le = refl
  take-take (x ∷ xs) (suc m) (suc n) le = ap (λ t. x ∷ t) (take-take xs m n (omega arith))

  pub drop-take : (xs : List A) (m n : ℕ) → drop m (take n xs) ≡ take (n - m) (drop m xs)
  drop-take xs zero n = ap (λ k. take k xs) (omega arith)
  drop-take [] (suc m) zero = sym (take_long [] _ (omega arith))
  drop-take [] (suc m) (suc n) = sym (take_long [] _ (omega arith))
  drop-take (x ∷ xs) (suc m) zero = none_left (drop m xs) (0 - suc m) (omega arith)
    where
      none_left : (ys : List A) (k : ℕ) → k ≡ 0 → [] ≡ take k ys
      none_left ys zero e = refl
      none_left ys (suc k) e = absurd (omega arith)
  drop-take (x ∷ xs) (suc m) (suc n) = drop-take xs m n ∙ ap (λ k. take k (drop m xs)) (omega arith)

  -- A piece in the middle
  pub take-drop_at :
      (pre xs post : List A) → take (length xs) (drop (length pre) (pre ++ (xs ++ post))) ≡ xs
  take-drop_at pre xs post =
      ap (take (length xs)) (drop-append pre (xs ++ post)) ∙ take-append xs post

  pub take-append-drop : (n : ℕ) (xs : List A) → take n xs ++ drop n xs ≡ xs
  take-append-drop zero xs = refl
  take-append-drop (suc n) [] = refl
  take-append-drop (suc n) (x ∷ xs) = ap (λ t. x ∷ t) (take-append-drop n xs)

  pub drop_long : (n : ℕ) (xs : List A) → length xs ≤ n → drop n xs ≡ []
  drop_long zero [] le = refl
  drop_long zero (x ∷ xs) le = absurd (omega arith)
  drop_long (suc n) [] le = refl
  drop_long (suc n) (x ∷ xs) le = drop_long n xs (omega arith)

  pub drop-drop : (m n : ℕ) (xs : List A) → drop m (drop n xs) ≡ drop (n + m) xs
  drop-drop m zero xs = ap (λ k. drop k xs) (omega arith)
  drop-drop m (suc n) [] =
      drop_long m [] (omega arith) ∙ sym (drop_long (suc n + m) [] (omega arith))
  drop-drop m (suc n) (x ∷ xs) =
      drop-drop m n xs ∙ ap (λ k. drop k (x ∷ xs)) {x = suc (n + m)} (omega arith)
