-- ===== src/Str/Lexer/Loop.antt =====
-- The loop of lp_parse on plain characters: it takes the next word.
use trurlib.Prelude.{
  ℕ, zero, suc, ◌+◌, ◌<◌, ◌≡◌, sym, ap, ◌∙◌, inl, inr, true, false, not, ◌&&◌, List, [], ◌∷◌, ◌++◌,
  append-nil, append_assoc, arith, length, length-append, drop, lt→ltb, ◌==◌, Bool-cases,
}
use trurlib.Run.{ok}
use trurlib.Memory.Block.{load}
use trurlib.Memory.Laws.{load-append}
use trurlib.Str.Lexer.{
  Lexer, State, st_white, st_token, strchr, storechr, on_white, on_char, round, on_step, lp_loop,
}
use trurlib.Str.Lexer.Words.{word, first_word, used}

module _ (brk quote : List ℕ) (escape : ℕ) where
  -- Not the 0, a break, a quote or the escape character
  abbrev pub IsPlain : ℕ → Type 0
  IsPlain c =
      ((c == 0) ≡ false)
      × (strchr brk c ≡ false)
      × (strchr quote c ≡ false)
      × ((not (escape == 0) && c == escape) ≡ false)

  abbrev pub IsPlainText : List ℕ → Type 0
  IsPlainText [] = Unit {0}
  IsPlainText (x ∷ xs) = IsPlain x × IsPlainText xs

module _ (line white brk quote : List ℕ) (escape : ℕ) where
  abbrev pub at : ℕ → State → Lexer
  at i state = record {
    line = line;
    lindex = i;
    white = white;
    brk = brk;
    quote = quote;
    escape = escape;
    state = state;
    curr_quote = 0;
    is_break = 0;
  }

  -- From a place on, the line has these plain characters and the 0.
  abbrev pub Reads : ℕ → List ℕ → Type 0
  Reads i [] = load line i ≡ ok 0
  Reads i (x ∷ xs) = (load line i ≡ ok x) × IsPlain brk quote escape x × Reads (i + 1) xs

  pub Reads-text :
      (pre xs : List ℕ) (i : ℕ)
      → line ≡ pre ++ (xs ++ (0 ∷ []))
      → i ≡ length pre
      → IsPlainText brk quote escape xs
      → Reads i xs
  Reads-text pre [] i same e plain = ap (λ l. load l i) same ∙ load-append pre 0 [] i e
  Reads-text pre (x ∷ xs) i same e (plain, others) = (
    ap (λ l. load l i) same ∙ load-append pre x (xs ++ (0 ∷ [])) i e,
    plain,
    Reads-text (pre ++ (x ∷ [])) xs (i + 1)
        (same ∙ sym (append_assoc pre (x ∷ []) (xs ++ (0 ∷ []))))
        (omega (arith, length-append pre (x ∷ []))) others,
  )

  module _ (toksize : ℕ) where
    unfoldable pub Loops : (fuel i : ℕ) → State → List ℕ → List ℕ → List ℕ → Type 0
    Loops fuel i state tok taken rest =
        (j : ℕ) × (s : State) × (lp_loop fuel (at i state) tok toksize ≡ ok (at j s, taken))
        × Reads j rest

    token-white :
        (fuel i x : ℕ) (tok : List ℕ)
        → load line i ≡ ok x
        → IsPlain brk quote escape x
        → strchr white x ≡ true
        → lp_loop (suc fuel) (at i st_token) tok toksize ≡ ok (at i st_white, tok)
    unfolding lp_loop round on_white on_step
    token-white fuel i x tok read (some_char, not_brk, not_quote, _) blank =
        rw (read, some_char, not_brk, not_quote, blank)

    white-white :
        (fuel i x : ℕ) (tok : List ℕ)
        → load line i ≡ ok x
        → IsPlain brk quote escape x
        → strchr white x ≡ true
        → lp_loop (suc fuel) (at i st_white) tok toksize
          ≡ lp_loop fuel (at (i + 1) st_white) tok toksize
    unfolding lp_loop round on_white on_step
    white-white fuel i x tok read (some_char, not_brk, not_quote, _) blank =
        rw (read, some_char, not_brk, not_quote, blank)

    token-char :
        (fuel i x : ℕ) (tok : List ℕ)
        → load line i ≡ ok x
        → IsPlain brk quote escape x
        → strchr white x ≡ false
        → length tok < toksize
        → lp_loop (suc fuel) (at i st_token) tok toksize
          ≡ lp_loop fuel (at (i + 1) st_token) (tok ++ (x ∷ [])) toksize
    unfolding lp_loop round on_char on_step storechr
    token-char fuel i x tok read (some_char, not_brk, not_quote, not_escape) other fits =
        rw
          (read, some_char, not_brk, not_quote, other, not_escape, lt→ltb (length tok) toksize fits)

    white-char :
        (fuel i x : ℕ) (tok : List ℕ)
        → load line i ≡ ok x
        → IsPlain brk quote escape x
        → strchr white x ≡ false
        → length tok < toksize
        → lp_loop (suc fuel) (at i st_white) tok toksize
          ≡ lp_loop fuel (at (i + 1) st_token) (tok ++ (x ∷ [])) toksize
    unfolding lp_loop round on_char on_step storechr
    white-char fuel i x tok read (some_char, not_brk, not_quote, not_escape) other fits =
        rw
          (read, some_char, not_brk, not_quote, other, not_escape, lt→ltb (length tok) toksize fits)

    at_zero :
        (fuel i : ℕ) (state : State) (tok : List ℕ)
        → load line i ≡ ok 0
        → lp_loop (suc fuel) (at i state) tok toksize ≡ ok (at i state, tok)
    unfolding lp_loop
    at_zero fuel i state tok read = rw read

    token-loop :
        (fuel i : ℕ) (xs tok : List ℕ)
        → Reads i xs
        → length xs < fuel
        → length tok + length xs < toksize
        → Loops fuel i st_token tok (tok ++ word white xs) (drop (length (word white xs)) xs)
    unfolding Loops
    token-loop zero i xs tok reads enough fits = absurd (omega arith)
    token-loop (suc fuel) i [] tok reads enough fits = (
      i,
      st_token,
      at_zero fuel i st_token tok reads ∙ ap (λ t. ok (at i st_token, t)) (sym (append-nil tok)),
      reads,
    )
    token-loop (suc fuel) i (x ∷ xs) tok (read, plain, reads) enough fits =
        elim (Bool-cases (strchr white x)) [
          | inl blank ↦
              rw (blank, append-nil tok)
                (i, st_white, token-white fuel i x tok read plain blank, (read, plain, reads))
          | inr other ↦
              let (j, s, run, rest) =
                token-loop fuel (i + 1) xs (tok ++ (x ∷ [])) reads (omega arith)
                  (omega (arith, length-append tok (x ∷ []))) in
              rw other (
                j,
                s,
                token-char fuel i x tok read plain other (omega arith)
                    ∙ run
                    ∙ ap (λ t. ok (at j s, t)) (append_assoc tok (x ∷ []) (word white xs)),
                rest,
              )
        ]

    pub white-loop :
        (fuel i : ℕ) (xs : List ℕ)
        → Reads i xs
        → length xs < fuel
        → length xs < toksize
        → Loops fuel i st_white [] (first_word white xs) (drop (used white xs) xs)
    unfolding Loops
    white-loop zero i xs reads enough fits = absurd (omega arith)
    white-loop (suc fuel) i [] reads enough fits =
        (i, st_white, at_zero fuel i st_white [] reads, reads)
    white-loop (suc fuel) i (x ∷ xs) (read, plain, reads) enough fits =
        elim (Bool-cases (strchr white x)) [
          | inl blank ↦
              let (j, s, run, rest) =
                white-loop fuel (i + 1) xs reads (omega arith) (omega arith) in
              rw blank (j, s, white-white fuel i x [] read plain blank ∙ run, rest)
          | inr other ↦
              let (j, s, run, rest) =
                token-loop fuel (i + 1) xs (x ∷ []) reads (omega arith) (omega arith) in
              rw other (j, s, white-char fuel i x [] read plain other (omega arith) ∙ run, rest)
        ]
