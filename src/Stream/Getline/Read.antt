-- ===== src/Stream/Getline/Read.antt =====
-- n_stream_getline reads the first line, but for one length.
use trurlib.Prelude.{
  ℕ, zero, suc, ◌+◌, ◌*◌, ◌^◌, ◌<◌, ◌≤◌, ◌≡◌, ◌≢◌, refl, ap, ◌∙◌, subst, ◌⊎◌, inl, inr, Option,
  List, [], ◌∷◌, ◌++◌, arith, length, length-append, drop, ltb, ◌==◌, Bool-cases,
}
use trurlib.Prelude.Pieces.{drop-drop}
use trurlib.Run.{ok, Returns}
use trurlib.Buf.Host.{Host}
use trurlib.Str.Copied.{IsText}
use trurlib.Stream.{Table, Stream}
use trurlib.Stream.File.{IsFile, line_part}
use trurlib.Stream.Getline.{obtain, getline}
use trurlib.Stream.Getline.Text.{first_line, line_part-le, line_part-first_line}
use trurlib.Stream.Getline.First.{IsLine, getline-none, getline-short, getline-full}

line_part-fits : (k : ℕ) (xs : List ℕ) → length (first_line xs) ≤ k → line_part k xs ≡ first_line xs
line_part-fits k [] fits = empty k
  where
    empty : (n : ℕ) → line_part n [] ≡ []
    empty zero = refl
    empty (suc n) = refl
line_part-fits zero (x ∷ xs) fits = absurd (ground arith)
line_part-fits (suc k) (x ∷ xs) fits = elim (Bool-cases (x == 10)) [
  | inl ends ↦ rw ends
  | inr goes_on ↦ rw goes_on (ap (λ t. x ∷ t) (line_part-fits k xs (ground arith)))
]

empty_or_not : (xs : List ℕ) → (xs ≡ []) ⊎ (0 < length xs)
empty_or_not [] = inl refl
empty_or_not (x ∷ xs) = inr (omega arith)

module _ (T : Table) (host : Host) (file : IsFile T) (fuel max_canon k : ℕ) (st : Stream T)
    (bufptr : Option (List ℕ)) (size : ℕ) (block text : List ℕ) where
  -- On a file with a text without the character 0 ahead, and a block of k + 1 > 1 characters, the
  -- caller's or the one that is allocated for NULL: when the first line, its end counted, does not
  -- have k characters, n_stream_getline returns its length, the block has the line and a 0, and
  -- the text behind the line is left. The sizes are below 2 ^ 29, and the fuel is above the number
  -- of characters.
  pub getline-first_line :
      obtain T host max_canon bufptr size ≡ ok (block, suc k)
      → length block ≡ suc k
      → file.ahead st.state ≡ text
      → IsText text
      → length text < fuel
      → 0 < k
      → 2 * (k + length text + 1) < 2 ^ 29
      → length (first_line text) ≢ k
      → Returns
          (getline T fuel host max_canon st bufptr size)
          (IsLine T host file (first_line text) (drop (length (first_line text)) text))
  getline-first_line given whole e is_text enough some_room small other = elim (empty_or_not text) [
    | inl none_left ↦
        getline-none T host file fuel max_canon k st bufptr size block given whole text e is_text
          enough some_room small none_left
    | inr some_text ↦ elim (Bool-cases (ltb (length (line_part k text)) k)) [
      | inl less ↦
          getline-short T host file fuel max_canon k st bufptr size block given whole text e is_text
            enough some_room small some_text (ground arith)
      | inr more ↦
          let full : k ≤ length (line_part k text) = ground arith in
          let line = line_part-first_line k text full other in
          let rest = drop k text in
          let len : k + length (first_line rest) ≡ length (first_line text) = omega (
            arith,
            line_part-le k text,
            full,
            ap length line,
            length-append (line_part k text) (first_line rest),
          ) in
          subst
            (λ l.
              Returns (getline T fuel host max_canon st bufptr size)
                (IsLine T host file l (drop (length (first_line text)) text)))
            line
            (subst
              (λ l.
                Returns (getline T fuel host max_canon st bufptr size)
                  (IsLine T host file (line_part k text ++ first_line rest) l))
              (drop-drop (length (first_line rest)) k text ∙ ap (λ n. drop n text) len)
              (getline-full T host file fuel max_canon k st bufptr size block given whole text e
                is_text enough some_room small some_text full))
    ]
  ]

  -- When the first line has k characters, under the same conditions, the call does not stop at its
  -- end: it reads the line that follows as well, and returns both as one.
  pub getline-joined :
      obtain T host max_canon bufptr size ≡ ok (block, suc k)
      → length block ≡ suc k
      → file.ahead st.state ≡ text
      → IsText text
      → length text < fuel
      → 0 < k
      → 2 * (k + length text + 1) < 2 ^ 29
      → length (first_line text) ≡ k
      → Returns (getline T fuel host max_canon st bufptr size) (
          IsLine T host file
            (first_line text ++ first_line (drop k text))
            (drop (length (first_line (drop k text))) (drop k text)))
  getline-joined given whole e is_text enough some_room small same = elim (empty_or_not text) [
    | inl none_left ↦
        absurd (omega (arith, same, some_room, ap (λ t. length (first_line t)) none_left))
    | inr some_text ↦
        let fits = line_part-fits k text (omega (arith, same)) in
        subst
          (λ l. Returns (getline T fuel host max_canon st bufptr size) (
            IsLine T host file (l ++ first_line (drop k text))
              (drop (length (first_line (drop k text))) (drop k text))))
          fits
          (getline-full T host file fuel max_canon k st bufptr size block given whole text e is_text
            enough some_room small some_text (omega (arith, ap length fits, same)))
  ]
