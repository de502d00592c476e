-- ===== src/Str/Tok/Word.antt =====
-- Which word n_str_tok takes, and where it writes.
use trurlib.Prelude.{
  ℕ, suc, ◌+◌, ◌<◌, ◌≤◌, ◌≡◌, refl, ap, ◌∙◌, inl, inr, true, false, some, List, [], ◌∷◌, ◌++◌,
  append_assoc, arith, length, length-append, drop, lt→ltb, le→not_ltb, if◌then◌else◌, Bool-cases,
}
use trurlib.Run.{fault, out_of_bounds, Returns}
use trurlib.Memory.Laws.{store-append, store-beyond}
use trurlib.Str.Tok.{among, past, skip, tok_copy, str_tok}

-- The characters before the first delimiter, and those behind it
abbrev pub word : (delim s : List ℕ) → List ℕ
word delim [] = []
word delim (x ∷ xs) = if among delim x then [] else x ∷ word delim xs

abbrev pub behind : (delim s : List ℕ) → List ℕ
behind delim [] = []
behind delim (x ∷ xs) = if among delim x then xs else behind delim xs

among-drop : (delim : List ℕ) (x : ℕ) → among (drop 1 delim) x ≡ true → among delim x ≡ true
unfolding among
among-drop [] x h = h
among-drop (d ∷ ds) x h = ground (arith, h)

-- The inner loop stops within the delimiters.
past-skip :
    (delim p s : List ℕ)
    → ((x : ℕ) → among p x ≡ true → among delim x ≡ true)
    → past delim (skip delim p s) ≡ past delim s
unfolding past skip
past-skip delim p [] less = refl
past-skip delim p (x ∷ xs) less = elim (Bool-cases (among p x)) [
  | inl found ↦ rw (found, less x found) (past-skip delim (drop 1 delim) xs (among-drop delim))
  | inr other ↦ rw other refl
]

-- The word in the block, and a rest that goes on with the same word as the text behind it
pub IsWord : (delim s pre : List ℕ) → List ℕ × List ℕ → Type 0
IsWord delim s pre (rest, b) =
    (junk : List ℕ) × (b ≡ pre ++ (word delim s ++ (0 ∷ junk)))
    × (past delim rest ≡ past delim (behind delim s))

module _ (delim : List ℕ) (x : ℕ) (xs pre junk : List ℕ) (y lim : ℕ) (other : among delim x ≡ false)
    (below : length pre < lim) where
  tok_copy-next :
      tok_copy delim (x ∷ xs) (pre ++ (y ∷ junk)) (length pre) lim
      ≡ tok_copy delim xs ((pre ++ (x ∷ [])) ++ junk) (length (pre ++ (x ∷ []))) lim
  unfolding tok_copy
  tok_copy-next =
      let one_more : length (pre ++ (x ∷ [])) ≡ length pre + 1 = length-append pre (x ∷ []) in
      rw (
        lt→ltb (length pre) lim below,
        other,
        store-append pre y x junk (length pre) refl,
        one_more,
        append_assoc pre (x ∷ []) junk,
      )

  -- One character more before the word
  IsWord-next :
      (r : List ℕ × List ℕ) → IsWord delim xs (pre ++ (x ∷ [])) r → IsWord delim (x ∷ xs) pre r
  unfolding IsWord
  IsWord-next (rest, b) (left, e, same) =
      rw other (left, e ∙ append_assoc pre (x ∷ []) (word delim xs ++ (0 ∷ left)), same)

word-next :
    (delim : List ℕ) (x : ℕ) (xs : List ℕ)
    → among delim x ≡ false
    → length (word delim (x ∷ xs)) ≡ suc (length (word delim xs))
word-next delim x xs other = rw other refl

tok_copy-word :
    (delim s pre junk : List ℕ) (lim : ℕ)
    → length (word delim s) < length junk
    → length pre + length (word delim s) < lim
    → Returns (tok_copy delim s (pre ++ junk) (length pre) lim) (IsWord delim s pre)
unfolding tok_copy IsWord past
tok_copy-word delim s pre [] lim room below = absurd (omega (arith, room))
tok_copy-word delim [] pre (y ∷ junk) lim room below =
    (([], pre ++ (0 ∷ junk)), rw (store-append pre y 0 junk (length pre) refl), (junk, refl, refl))
tok_copy-word delim (x ∷ xs) pre (y ∷ junk) lim room below = elim (Bool-cases (among delim x)) [
  | inl found ↦ (
    (skip delim delim xs, pre ++ (0 ∷ junk)),
    rw (
      lt→ltb (length pre) lim (omega (arith, below)),
      found,
      store-append pre y 0 junk (length pre) refl,
    ),
    rw found (junk, refl, past-skip delim delim xs (λ c h. h)),
  )
  | inr other ↦
      let size = word-next delim x xs other in
      let one_more : length (pre ++ (x ∷ [])) ≡ length pre + 1 = length-append pre (x ∷ []) in
      let (r, run, is_word) =
        tok_copy-word delim xs (pre ++ (x ∷ [])) junk lim (omega (arith, room, size))
          (omega (arith, below, size, one_more)) in
      (
        r,
        tok_copy-next delim x xs pre junk y lim other (omega (arith, below)) ∙ run,
        IsWord-next delim x xs pre junk y lim other (omega (arith, below)) r is_word,
      )
]

-- n_str_tok on a string that is not empty, with a block that is longer than the word and a
-- `toklen` above its length: the word is that behind the leading delimiters, and stands in the
-- block with a 0 behind it. The string that is returned has, behind its leading delimiters, what
-- the string has behind the word and the delimiters there.
pub str_tok-word :
    (delim pre junk : List ℕ) (x : ℕ) (xs : List ℕ) (toklen : ℕ)
    → length (word delim (past delim (x ∷ xs))) < length junk
    → length (word delim (past delim (x ∷ xs))) < toklen
    → Returns (str_tok (x ∷ xs) (pre ++ junk) (length pre) toklen delim) (λ (rest, b).
      (r : List ℕ) × (rest ≡ some r) × IsWord delim (past delim (x ∷ xs)) pre (r, b))
unfolding str_tok
str_tok-word delim pre junk x xs toklen room below =
    let ((r, b), run, is_word) =
      tok_copy-word delim (past delim (x ∷ xs)) pre junk (length pre + toklen) room
        (omega (arith, below)) in
    ((some r, b), rw run, (r, refl, is_word))

tok_copy-full :
    (delim s pre junk : List ℕ)
    → length junk ≤ length (word delim s)
    → tok_copy delim s (pre ++ junk) (length pre) (length pre + length junk) ≡ fault out_of_bounds
unfolding tok_copy
tok_copy-full delim [] pre [] full =
    rw (store-beyond (pre ++ []) (length pre) 0 (omega (arith, length-append pre [])))
tok_copy-full delim (x ∷ xs) pre [] full = rw (
  le→not_ltb (length pre) (length pre + 0) (omega arith),
  store-beyond (pre ++ []) (length pre) 0 (omega (arith, length-append pre [])),
)
tok_copy-full delim [] pre (y ∷ junk) full = absurd (omega (arith, full))
tok_copy-full delim (x ∷ xs) pre (y ∷ junk) full = elim (Bool-cases (among delim x)) [
  | inl found ↦ absurd (omega (arith, full, no_word delim x xs found))
  | inr other ↦
      let one_more : length (pre ++ (x ∷ [])) ≡ length pre + 1 = length-append pre (x ∷ []) in
      tok_copy-next delim x xs pre junk y (length pre + suc (length junk)) other (omega arith)
      ∙ (ap (tok_copy delim xs ((pre ++ (x ∷ [])) ++ junk) (length (pre ++ (x ∷ []))))
            (omega (arith, one_more))
          ∙ tok_copy-full delim xs (pre ++ (x ∷ [])) junk
              (omega (arith, full, word-next delim x xs other)))
]
  where
    no_word :
        (delim : List ℕ) (x : ℕ) (xs : List ℕ)
        → among delim x ≡ true
        → length (word delim (x ∷ xs)) ≡ 0
    no_word delim x xs found = rw found refl

-- A word that fills the `toklen` cells of the block: the 0 behind it is written outside.
str_tok-full :
    (delim pre junk : List ℕ) (x : ℕ) (xs : List ℕ)
    → length junk ≤ length (word delim (past delim (x ∷ xs)))
    → str_tok (x ∷ xs) (pre ++ junk) (length pre) (length junk) delim ≡ fault out_of_bounds
unfolding str_tok
str_tok-full delim pre junk x xs full = rw (tok_copy-full delim (past delim (x ∷ xs)) pre junk full)
