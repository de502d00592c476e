-- ===== src/Str/Lexer/Plain.antt =====
-- On a line of plain words n_str_etokl_ext gives the words.
use trurlib.Prelude.{ℕ, ◌≡◌, some, List, drop}
use trurlib.Run.{ok}
use trurlib.Str.Lexer.{Lexer, State, lp_parse}
use trurlib.Str.Lexer.Words.{first_word, used}
use trurlib.Str.Lexer.Loop.{at, Reads}

module _ (line white brk quote : List ℕ) (escape : ℕ) where
  abbrev lexer : ℕ → State → Lexer
  lexer = at line white brk quote escape

  abbrev Reading : ℕ → List ℕ → Type 0
  Reading = Reads line white brk quote escape

  module _ (toksize : ℕ) where
    Parses : (i : ℕ) → State → (xs : List ℕ) → Type 0
    Parses i state xs =
        (j : ℕ) × (s : State) × (lp_parse (lexer i state) toksize
          ≡ ok (some (first_word white xs), lexer j s))
        × Reading j (drop (used white xs) xs)
