-- ===== src/Tests/Strings.antt =====
-- Examples of the calls on strings.
use trurlib.Prelude.{ℕ, ◌≡◌, refl, Bool, ◌||◌, some, List, [], ◌∷◌, ◌==◌, arith}
use trurlib.Prelude.Int.{pos}
use trurlib.Run.{ok, fault, out_of_bounds, Returns}
use trurlib.Str.{strncpy}
use trurlib.Str.Copied.{IsText, strncpy-cut}
use trurlib.Str.Join.{str_vconcat, str_vlen}
use trurlib.Str.Join.Joined.{AllText, str_vconcat-concat}
use trurlib.Str.Strip.{strip_ws}
use trurlib.Str.Strip.Stripped.{strip_ws-trimmed, strip_ws-Blank}
use trurlib.Str.Tok.{str_tok, past, among}
use trurlib.Str.Tok.Word.{IsWord, str_tok-word}
use trurlib.Tests.Files.{low_first}

abc-IsText : IsText (97 ∷ 98 ∷ 99 ∷ [])
abc-IsText =
    IsText.more 97 (98 ∷ 99 ∷ []) (λ e. cc)
      (IsText.more 98 (99 ∷ []) (λ e. cc) (IsText.more 99 [] (λ e. cc) IsText.nothing))

strncpy-cut_example :
    strncpy (7 ∷ 7 ∷ 7 ∷ 7 ∷ []) (97 ∷ 98 ∷ 99 ∷ 0 ∷ []) 3 ≡ ok (2, 97 ∷ 98 ∷ 0 ∷ 7 ∷ [])
strncpy-cut_example =
    strncpy-cut (97 ∷ 98 ∷ 99 ∷ []) (7 ∷ 7 ∷ 7 ∷ 7 ∷ []) [] 3 abc-IsText (omega arith) (omega arith)
      (omega arith)

-- Blanks are the space and the line end.
abbrev blank : ℕ → Bool
blank c = c == 32 || c == 10

str_tok-word_example :
    Returns (str_tok (32 ∷ 97 ∷ 32 ∷ 98 ∷ []) (7 ∷ 7 ∷ 7 ∷ 7 ∷ []) 1 2 (32 ∷ [])) (λ (rest, b).
      (r : List ℕ) × (rest ≡ some r) × IsWord (32 ∷ []) (97 ∷ 32 ∷ 98 ∷ []) (7 ∷ []) (r, b))
unfolding past among
str_tok-word_example =
    str_tok-word (32 ∷ []) (7 ∷ []) (7 ∷ 7 ∷ 7 ∷ []) 32 (97 ∷ 32 ∷ 98 ∷ []) 2 (omega arith)
      (omega arith)

strip_ws-trimmed_example :
    strip_ws blank (32 ∷ 97 ∷ 32 ∷ 98 ∷ 10 ∷ 0 ∷ []) ≡ ok (1, 32 ∷ 97 ∷ 32 ∷ 98 ∷ 0 ∷ 0 ∷ [])
strip_ws-trimmed_example =
    strip_ws-trimmed blank (32 ∷ []) (97 ∷ 32 ∷ 98 ∷ []) (10 ∷ []) [] 97 (32 ∷ 98 ∷ [])
      (97 ∷ 32 ∷ []) 98 refl refl (refl, tt) (refl, tt) refl refl
      (IsText.more 97 (32 ∷ 98 ∷ 10 ∷ []) (λ e. cc)
        (IsText.more 32 (98 ∷ 10 ∷ []) (λ e. cc)
          (IsText.more 98 (10 ∷ []) (λ e. cc) (IsText.more 10 [] (λ e. cc) IsText.nothing))))

strip_ws-Blank_example : strip_ws blank (32 ∷ 10 ∷ 0 ∷ []) ≡ fault out_of_bounds
strip_ws-Blank_example = strip_ws-Blank blank (32 ∷ 10 ∷ []) [] (refl, (refl, tt)) refl

str_vconcat-concat_example :
    (str_vconcat low_first (97 ∷ []) ((98 ∷ 99 ∷ []) ∷ []) ≡ ok (97 ∷ 98 ∷ 99 ∷ 0 ∷ []))
    × (str_vlen (97 ∷ []) ((98 ∷ 99 ∷ []) ∷ []) ≡ pos 3)
str_vconcat-concat_example =
    str_vconcat-concat low_first (97 ∷ []) ((98 ∷ 99 ∷ []) ∷ [])
      (IsText.more 97 [] (λ e. cc) IsText.nothing)
      (AllText.one_more (98 ∷ 99 ∷ []) []
        (IsText.more 98 (99 ∷ []) (λ e. cc) (IsText.more 99 [] (λ e. cc) IsText.nothing))
        AllText.none_left)
      (omega arith)
