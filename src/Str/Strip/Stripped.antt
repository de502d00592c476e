-- ===== src/Str/Strip/Stripped.antt =====
-- What n_str_strip_ws leaves of a string, and where it goes on a blank one.
use trurlib.Prelude.{
  ℕ, zero, suc, ◌+◌, ◌<◌, ◌≤◌, ◌≡◌, refl, sym, ap, ◌∙◌, subst, Bool, true, false, List, [], ◌∷◌,
  ◌++◌, append_assoc, arith, length, length-append, drop, replicate, ◌==◌, if◌then◌else◌,
  drop-append,
}
use trurlib.Run.{Run, ok, fault, out_of_bounds, ◌>>=◌}
use trurlib.Memory.Laws.{load-append, store-append}
use trurlib.Str.Copied.{IsText}
use trurlib.Stream.Getline.{strlen}
use trurlib.Stream.Getline.First.{strlen-lem}
use trurlib.Str.Strip.{lead, trail, strip_ws}

module _ (isspace : ℕ → Bool) where
  abbrev pub Blank : List ℕ → Type 0
  Blank [] = Unit {0}
  Blank (x ∷ xs) = (isspace x ≡ true) × Blank xs

  lead-Blank :
      (xs pre rest : List ℕ) (c fuel : ℕ)
      → Blank xs
      → isspace c ≡ false
      → length xs < fuel
      → lead isspace fuel (pre ++ (xs ++ (c ∷ rest))) (length pre) ≡ ok (length pre + length xs)
  unfolding lead
  lead-Blank xs pre rest c zero blank other enough = absurd (omega arith)
  lead-Blank [] pre rest c (suc fuel) blank other enough =
      rw (load-append pre c rest (length pre) refl, other) (ap ok (omega arith))
  lead-Blank (x ∷ xs) pre rest c (suc fuel) (is_space, blank) other enough =
      let one_more : length (pre ++ (x ∷ [])) ≡ length pre + 1 = length-append pre (x ∷ []) in
      rw (load-append pre x (xs ++ (c ∷ rest)) (length pre) refl, is_space)
        (subst (λ b. lead isspace fuel b (length pre + 1) ≡ ok (length pre + suc (length xs)))
          (append_assoc pre (x ∷ []) (xs ++ (c ∷ rest)))
          (subst
            (λ i.
              lead isspace fuel ((pre ++ (x ∷ [])) ++ (xs ++ (c ∷ rest))) i
              ≡ ok (length pre + suc (length xs)))
            one_more
            (lead-Blank xs (pre ++ (x ∷ [])) rest c fuel blank other (omega arith)
              ∙ ap ok (omega (arith, one_more)))))

  clear :
      (pre : List ℕ) (x : ℕ) (zeros : List ℕ) (str : ℕ)
      → isspace x ≡ true
      → (length pre == str) ≡ false
      → trail isspace (suc (length pre)) str (pre ++ (x ∷ zeros))
        ≡ trail isspace (length pre) str (pre ++ (0 ∷ zeros))
  unfolding trail
  clear pre x zeros str is_space away = rw (
    away,
    load-append pre x zeros (length pre) refl,
    is_space,
    store-append pre x 0 zeros (length pre) refl,
  )

  -- Blanks away from `str` are cleared from the end on.
  trail-Blank :
      (xs pre rest : List ℕ) (str : ℕ)
      → Blank xs
      → ((i : ℕ) → length pre ≤ i → i < length pre + length xs → (i == str) ≡ false)
      → trail isspace (length pre + length xs) str (pre ++ (xs ++ rest))
        ≡ trail isspace (length pre) str (pre ++ (replicate (length xs) 0 ++ rest))
  trail-Blank [] pre rest str blank away = ap (λ i. trail isspace i str (pre ++ rest)) (omega arith)
  trail-Blank (x ∷ xs) pre rest str (is_space, blank) away =
      let zeros = replicate (length xs) 0 ++ rest in
      let one_more : length (pre ++ (x ∷ [])) ≡ suc (length pre) =
        length-append pre (x ∷ []) ∙ omega arith in
      let size : length pre + suc (length xs) ≡ length (pre ++ (x ∷ [])) + length xs =
        omega (arith, one_more) in
      ap (λ i. trail isspace i str (pre ++ (x ∷ (xs ++ rest)))) size
      ∙ (ap (trail isspace (length (pre ++ (x ∷ [])) + length xs) str)
            (sym (append_assoc pre (x ∷ []) (xs ++ rest)))
          ∙ (trail-Blank xs (pre ++ (x ∷ [])) rest str blank
                (λ i le less. away i (omega (arith, one_more, le)) (omega (arith, one_more, less)))
              ∙ (ap (λ i. trail isspace i str ((pre ++ (x ∷ [])) ++ zeros)) one_more
                  ∙ (ap (trail isspace (suc (length pre)) str) (append_assoc pre (x ∷ []) zeros)
                      ∙ clear pre x zeros str is_space
                          (away (length pre) (omega arith) (omega arith))))))

  trail-stop :
      (pre : List ℕ) (x : ℕ) (rest : List ℕ) (str : ℕ)
      → isspace x ≡ false
      → trail isspace (suc (length pre)) str (pre ++ (x ∷ rest)) ≡ ok (pre ++ (x ∷ rest))
  unfolding trail
  trail-stop pre x rest str other =
      rw (load-append pre x rest (length pre) refl, other) (either (length pre == str) _)
    where
      either : (b : Bool) (r : Run (List ℕ)) → (if b then r else r) ≡ r
      either true r = refl
      either false r = refl

  strip_ws-step :
      (block : List ℕ) (str n : ℕ) (r : Run (List ℕ))
      → lead isspace (suc (length block)) block 0 ≡ ok str
      → strlen (drop str block) ≡ ok n
      → trail isspace (str + n) str block ≡ r
      → strip_ws isspace block ≡ (r >>= λ b. ok (str, b))
  unfolding strip_ws
  strip_ws-step block str n r first size last = rw (first, size, last)

  lead-all :
      (ls rest : List ℕ) (c : ℕ)
      → Blank ls
      → isspace c ≡ false
      → lead isspace (suc (length (ls ++ (c ∷ rest)))) (ls ++ (c ∷ rest)) 0 ≡ ok (length ls)
  lead-all ls rest c blank other =
      lead-Blank ls [] rest c (suc (length (ls ++ (c ∷ rest)))) blank other
        (omega (arith, length-append ls (c ∷ rest)))
      ∙ ap ok (omega arith)

  -- The blanks behind the last character `d` are cleared, and no more.
  trail-last :
      (pre ts rest : List ℕ) (d str : ℕ)
      → Blank ts
      → isspace d ≡ false
      → str ≤ length pre
      → trail isspace (suc (length pre) + length ts) str ((pre ++ (d ∷ [])) ++ (ts ++ rest))
        ≡ ok ((pre ++ (d ∷ [])) ++ (replicate (length ts) 0 ++ rest))
  trail-last pre ts rest d str blank other below =
      let whole = pre ++ (d ∷ []) in
      let one_more : length whole ≡ suc (length pre) = length-append pre (d ∷ []) ∙ omega arith in
      let zeros = replicate (length ts) 0 ++ rest in
      ap (λ i. trail isspace (i + length ts) str (whole ++ (ts ++ rest))) (sym one_more)
      ∙ (trail-Blank ts whole rest str blank (λ i le less. ground (arith, le, one_more))
          ∙ (ap (λ i. trail isspace i str (whole ++ zeros)) one_more
              ∙ (ap (trail isspace (suc (length pre)) str) (append_assoc pre (d ∷ []) zeros)
                  ∙ (trail-stop pre d zeros str other
                      ∙ ap ok (sym (append_assoc pre (d ∷ []) zeros))))))

  -- A string of blanks, then characters of which the first and the last are no blanks, then blanks:
  -- n_str_strip_ws returns the place of the first of those characters, and clears the blanks
  -- behind the last.
  pub strip_ws-trimmed :
      (ls core ts rest : List ℕ) (c : ℕ) (cs ds : List ℕ) (d : ℕ)
      → core ≡ c ∷ cs
      → core ≡ ds ++ (d ∷ [])
      → Blank ls
      → Blank ts
      → isspace c ≡ false
      → isspace d ≡ false
      → IsText (core ++ ts)
      → strip_ws isspace (ls ++ ((core ++ ts) ++ (0 ∷ rest)))
        ≡ ok (length ls, ls ++ (core ++ (replicate (length ts) 0 ++ (0 ∷ rest))))
  strip_ws-trimmed ls core ts rest c cs ds d first last blank blank' other other' is_text =
      let block = ls ++ ((core ++ ts) ++ (0 ∷ rest)) in
      let begins : ls ++ (c ∷ ((cs ++ ts) ++ (0 ∷ rest))) ≡ block =
        ap (λ k. ls ++ ((k ++ ts) ++ (0 ∷ rest))) (sym first) in
      let starts =
        subst (λ b. lead isspace (suc (length b)) b 0 ≡ ok (length ls)) begins
          (lead-all ls ((cs ++ ts) ++ (0 ∷ rest)) c blank other) in
      let sized =
        ap strlen (drop-append ls ((core ++ ts) ++ (0 ∷ rest)))
        ∙ strlen-lem (core ++ ts) rest is_text in
      let shape : (ls ++ core) ≡ (ls ++ ds) ++ (d ∷ []) =
        ap (λ k. ls ++ k) last ∙ sym (append_assoc ls ds (d ∷ [])) in
      let total : length ls + length (core ++ ts) ≡ suc (length (ls ++ ds)) + length ts = omega (
        arith,
        length-append core ts,
        ap length last,
        length-append ds (d ∷ []),
        length-append ls ds,
      ) in
      let parts : block ≡ ((ls ++ ds) ++ (d ∷ [])) ++ (ts ++ (0 ∷ rest)) =
        ap (λ k. ls ++ k) (append_assoc core ts (0 ∷ rest))
        ∙ (sym (append_assoc ls core (ts ++ (0 ∷ rest)))
            ∙ ap (λ k. k ++ (ts ++ (0 ∷ rest))) shape) in
      let zeros = replicate (length ts) 0 ++ (0 ∷ rest) in
      let ends : trail isspace (length ls + length (core ++ ts)) (length ls) block
          ≡ ok (ls ++ (core ++ zeros)) =
        ap (λ i. trail isspace i (length ls) block) total
        ∙ (ap (trail isspace (suc (length (ls ++ ds)) + length ts) (length ls)) parts
            ∙ (trail-last (ls ++ ds) ts (0 ∷ rest) d (length ls) blank' other'
                  (omega (arith, length-append ls ds))
                ∙ ap ok (ap (λ k. k ++ zeros) (sym shape) ∙ append_assoc ls core zeros))) in
      strip_ws-step block (length ls) (length (core ++ ts)) (ok (ls ++ (core ++ zeros))) starts
        sized ends

  -- On a string of blanks at the start of its block, or an empty one, n_str_strip_ws reads before the
  -- block.
  pub strip_ws-Blank :
      (ls rest : List ℕ)
      → Blank ls
      → isspace 0 ≡ false
      → strip_ws isspace (ls ++ (0 ∷ rest)) ≡ fault out_of_bounds
  unfolding trail strlen
  strip_ws-Blank ls rest blank other =
      let block = ls ++ (0 ∷ rest) in
      let sized : strlen (drop (length ls) block) ≡ ok 0 = ap strlen (drop-append ls (0 ∷ rest)) in
      let ends : trail isspace (length ls + 0) (length ls) block ≡ fault out_of_bounds =
        ap (λ i. trail isspace i (length ls) block) {x = length ls + 0} {y = 0 + length ls}
          (omega arith)
        ∙ trail-Blank ls [] (0 ∷ rest) (length ls) blank (λ i le less. ground (arith, less)) in
      strip_ws-step block (length ls) 0 (fault out_of_bounds) (lead-all ls rest 0 blank other) sized
        ends
