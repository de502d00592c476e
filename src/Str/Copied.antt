-- ===== src/Str/Copied.antt =====
-- n_strncpy writes the string, cut to fit, with its end.
use trurlib.Prelude.{
  ℕ, zero, suc, ◌+◌, ◌-◌, ◌%◌, ◌^◌, ◌<◌, ◌≡◌, ◌≢◌, refl, ap, sym, ◌∙◌, List, [], ◌∷◌, ◌++◌, arith,
  append_assoc, length, length-append, take, drop,
}
use trurlib.Run.{Run, ok, ◌>>=◌}
use trurlib.Memory.Block.{load, store}
use trurlib.Memory.Laws.{load-append, store-append}
use trurlib.Str.{copy_loop, strncpy}

-- The characters of a string: no 0 is among them.
pub data IsText : List ℕ → Type 0 where
  nothing : IsText []
  more : (x : ℕ) (xs : List ℕ) → x ≢ 0 → IsText xs → IsText (x ∷ xs)

-- The block from the current cell on, when at most `k` characters of `xs` have come into it
abbrev pub cut : (k : ℕ) → List ℕ → (d : List ℕ) → List ℕ
cut k xs d = take k xs ++ (0 ∷ drop (suc (length (take k xs))) d)

abbrev ended : ℕ × List ℕ → Run (ℕ × List ℕ)
ended r = store r.1 r.0 0 >>= λ b. ok (r.0, b)

module _ (fuel i : ℕ) (dest dest' src : List ℕ) (c : ℕ) (read : load src i ≡ ok c)
    (write : store dest i c ≡ ok dest') where
  copy_loop-step :
      (k : ℕ)
      → suc (suc k) < 2 ^ 64
      → c ≢ 0
      → copy_loop (suc fuel) (suc (suc k)) i dest src ≡ copy_loop fuel (suc k) (i + 1) dest' src
  unfolding copy_loop
  copy_loop-step k small some_char =
      let less : (suc (suc k) + 2 ^ 64 - 1) % 2 ^ 64 ≡ suc k = omega (arith, small) in
      ground (arith, read, write, some_char, less)

  copy_loop-last : c ≢ 0 → copy_loop (suc fuel) 1 i dest src ≡ ok (i, dest')
  unfolding copy_loop
  copy_loop-last some_char = ground (arith, read, write, some_char)

  copy_loop-end : (n : ℕ) → c ≡ 0 → copy_loop (suc fuel) n i dest src ≡ ok (i, dest')
  unfolding copy_loop
  copy_loop-end n e = ground (arith, read, write, e)

at_end :
    (fuel k : ℕ) (pre spre : List ℕ) (y : ℕ) (d rest : List ℕ)
    → length spre ≡ length pre
    → (copy_loop (suc fuel) (suc k) (length pre) (pre ++ (y ∷ d)) (spre ++ (0 ∷ rest)) >>= ended)
      ≡ ok (length pre + 0, pre ++ (0 ∷ d))
at_end fuel k pre spre y d rest same =
    let read = load-append spre 0 rest (length pre) (sym same) in
    let write = store-append pre y 0 d (length pre) refl in
    let again = store-append pre 0 0 d (length pre) refl in
    rw
      (
        copy_loop-end fuel (length pre) (pre ++ (y ∷ d)) (pre ++ (0 ∷ d)) (spre ++ (0 ∷ rest)) 0
            read write (suc k) refl,
        again,
      )
      (ap (λ n. ok (n, pre ++ (0 ∷ d))) (omega arith))

copy_loop-cut :
    (xs : List ℕ) (fuel k : ℕ) (pre spre d rest : List ℕ)
    → IsText xs
    → suc k < 2 ^ 64
    → length xs < fuel
    → length spre ≡ length pre
    → length (take k xs) < length d
    → (copy_loop fuel (suc k) (length pre) (pre ++ d) (spre ++ (xs ++ (0 ∷ rest))) >>= ended)
      ≡ ok (length pre + length (take k xs), pre ++ cut k xs d)
copy_loop-cut xs zero k pre spre d rest text small enough same room = absurd (omega arith)
copy_loop-cut xs (suc fuel) k pre spre [] rest text small enough same room =
    absurd (omega (arith, room))
copy_loop-cut [] (suc fuel) zero pre spre (y ∷ d) rest text small enough same room =
    at_end fuel 0 pre spre y d rest same
copy_loop-cut [] (suc fuel) (suc k) pre spre (y ∷ d) rest text small enough same room =
    at_end fuel (suc k) pre spre y d rest same
copy_loop-cut (x ∷ xs) (suc fuel) zero pre spre (y ∷ d) rest (more _ _ some_char text) small enough
      same room =
    let read = load-append spre x (xs ++ (0 ∷ rest)) (length pre) (sym same) in
    let write = store-append pre y x d (length pre) refl in
    let again = store-append pre x 0 d (length pre) refl in
    rw
      (
        copy_loop-last fuel (length pre) (pre ++ (y ∷ d)) (pre ++ (x ∷ d))
            (spre ++ (x ∷ (xs ++ (0 ∷ rest)))) x read write some_char,
        again,
      )
      (ap (λ n. ok (n, pre ++ (0 ∷ d))) (omega arith))
copy_loop-cut (x ∷ xs) (suc fuel) (suc k) pre spre (y ∷ d) rest (more _ _ some_char text) small
      enough same room =
    let read = load-append spre x (xs ++ (0 ∷ rest)) (length pre) (sym same) in
    let write = store-append pre y x d (length pre) refl in
    let step =
      copy_loop-step fuel (length pre) (pre ++ (y ∷ d)) (pre ++ (x ∷ d))
        (spre ++ (x ∷ (xs ++ (0 ∷ rest)))) x read write k small some_char in
    let go =
      copy_loop-cut xs fuel k (pre ++ x ∷ []) (spre ++ x ∷ []) d rest text (omega (arith, small))
        (omega (arith, enough))
        (omega (arith, length-append pre (x ∷ []), length-append spre (x ∷ []), same))
        (omega (arith, room)) in
    let one_more : length (pre ++ x ∷ []) ≡ length pre + 1 =
      omega (arith, length-append pre (x ∷ [])) in
    let src = spre ++ (x ∷ (xs ++ (0 ∷ rest))) in
    let total : length (pre ++ x ∷ []) + length (take k xs)
        ≡ length pre + suc (length (take k xs)) =
      omega (arith, one_more) in
    ap (λ c. c >>= ended) step
    ∙ (ap (λ n. copy_loop fuel (suc k) n (pre ++ (x ∷ d)) src >>= ended) (sym one_more)
        ∙ (ap (λ b. copy_loop fuel (suc k) (length (pre ++ x ∷ [])) b src >>= ended)
              (sym (append_assoc pre (x ∷ []) d))
            ∙ (ap
                  (λ b.
                    copy_loop fuel (suc k) (length (pre ++ x ∷ [])) ((pre ++ x ∷ []) ++ d) b
                    >>= ended)
                  (sym (append_assoc spre (x ∷ []) (xs ++ (0 ∷ rest))))
                ∙ (go
                    ∙ (ap (λ n. ok (n, (pre ++ x ∷ []) ++ cut k xs d)) total
                        ∙ ap (λ b. ok (length pre + suc (length (take k xs)), b))
                            (append_assoc pre (x ∷ []) (cut k xs d)))))))

-- n_strncpy with a length above 0 writes the string, or as many of its characters as are less than
-- the length, with a 0 behind them, leaves the rest of the block as it was, and returns the place
-- of that 0.
pub strncpy-cut :
    (xs dest rest : List ℕ) (n : ℕ)
    → IsText xs
    → 0 < n
    → n < 2 ^ 64
    → length (take (n - 1) xs) < length dest
    → strncpy dest (xs ++ (0 ∷ rest)) n ≡ ok (length (take (n - 1) xs), cut (n - 1) xs dest)
unfolding strncpy
strncpy-cut xs dest rest n text some_length small room =
    let e : n ≡ suc (n - 1) = omega (arith, some_length) in
    let go =
      copy_loop-cut xs (suc (length (xs ++ (0 ∷ rest)))) (n - 1) [] [] dest rest text
        (omega (arith, small, some_length)) (omega (arith, length-append xs (0 ∷ rest))) refl
        room in
    ap (λ m. copy_loop (suc (length (xs ++ (0 ∷ rest)))) m 0 dest (xs ++ (0 ∷ rest)) >>= ended) e
    ∙ (go ∙ ap (λ m. ok (m, cut (n - 1) xs dest)) (omega arith))
