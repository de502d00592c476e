-- ===== src/Str/Lexer/Words.antt =====
-- The words of a text, between its white characters.
use trurlib.Prelude.{
  ℕ, suc, ◌<◌, ◌≤◌, ◌≡◌, refl, sym, ap, ◌∙◌, inl, inr, true, List, [], ◌∷◌, ◌++◌, append-nil,
  append_assoc, arith, length, drop, if◌then◌else◌, Bool-cases,
}
use trurlib.Str.Lexer.{strchr}

module _ (white : List ℕ) where
  -- The characters up to the next white one
  abbrev pub word : List ℕ → List ℕ
  word [] = []
  word (x ∷ xs) = if strchr white x then [] else x ∷ word xs

  abbrev pub first_word : List ℕ → List ℕ
  first_word [] = []
  first_word (x ∷ xs) = if strchr white x then first_word xs else x ∷ word xs

  -- How many characters there are up to the end of the first word
  abbrev pub used : List ℕ → ℕ
  used [] = 0
  used (x ∷ xs) = if strchr white x then suc (used xs) else suc (length (word xs))

  abbrev pub emit : List ℕ → List (List ℕ)
  emit [] = []
  emit (x ∷ xs) = (x ∷ xs) ∷ []

  -- The words between white characters, where `cur` comes before the text
  abbrev words_from : (cur : List ℕ) → List ℕ → List (List ℕ)
  words_from cur [] = emit cur
  words_from cur (x ∷ xs) =
      if strchr white x then emit cur ++ words_from [] xs else words_from (cur ++ (x ∷ [])) xs

  abbrev pub words : List ℕ → List (List ℕ)
  words = words_from []

  words-white : (x : ℕ) (xs : List ℕ) → strchr white x ≡ true → words (x ∷ xs) ≡ words xs
  words-white x xs blank = rw blank refl

  words_from-word :
      (cur xs : List ℕ)
      → words_from cur xs ≡ emit (cur ++ word xs) ++ words (drop (length (word xs)) xs)
  words_from-word cur [] = ap emit (sym (append-nil cur)) ∙ sym (append-nil (emit (cur ++ [])))
  words_from-word cur (x ∷ xs) = elim (Bool-cases (strchr white x)) [
    | inl blank ↦
        rw (blank, append-nil cur) (ap (λ t. emit cur ++ t) (sym (words-white x xs blank)))
    | inr other ↦ rw other (
        words_from-word (cur ++ (x ∷ [])) xs
        ∙ ap (λ c. emit c ++ words (drop (length (word xs)) xs))
            (append_assoc cur (x ∷ []) (word xs)))
  ]

  pub words-first : (xs : List ℕ) → words xs ≡ emit (first_word xs) ++ words (drop (used xs) xs)
  words-first [] = refl
  words-first (x ∷ xs) = elim (Bool-cases (strchr white x)) [
    | inl blank ↦ rw blank (words-first xs)
    | inr other ↦ rw other (words_from-word (x ∷ []) xs)
  ]

  word-le : (xs : List ℕ) → length (word xs) ≤ length xs
  word-le [] = omega arith
  word-le (x ∷ xs) = ground (arith, word-le xs)

  used-le : (xs : List ℕ) → used xs ≤ length xs
  used-le [] = omega arith
  used-le (x ∷ xs) = ground (arith, used-le xs, word-le xs)

  pub first_word-le : (xs : List ℕ) → length (first_word xs) ≤ length xs
  first_word-le [] = omega arith
  first_word-le (x ∷ xs) = ground (arith, first_word-le xs, word-le xs)

  pub used-positive : (x : ℕ) (xs : List ℕ) → 0 < used (x ∷ xs)
  used-positive x xs = ground arith
