-- ===== src/Str/Lexer/Taken.antt =====
-- What holds between the rounds of lp_parse: how many characters were taken, and how many rounds are
-- left.
use trurlib.Prelude.{
  ℕ, zero, suc, ◌+◌, ◌-◌, ◌*◌, ◌<◌, ◌≤◌, ◌≡◌, ◌≢◌, refl, ◌⊎◌, inl, inr, false, List, [], ◌∷◌, ◌++◌,
  arith, length, length-append, ◌==◌, Bool-cases,
}
use trurlib.Run.{ok}
use trurlib.Memory.Block.{load}
use trurlib.Str.Copied.{IsText, more}
use trurlib.Str.Lexer.{
  Lexer, State, st_white, st_token, st_quote, strchr, storechr, Step, stop, next, on_break,
  on_quote, on_white, on_char,
}

-- A line is read up to its 0.
pub text_at :
    (text : List ℕ) (i : ℕ)
    → IsText text
    → i ≤ length text
    → (c : ℕ) × (load (text ++ (0 ∷ [])) i ≡ ok c)
      × (c ≢ 0 → i < length text)
      × (i < length text → c ≢ 0)
unfolding load
text_at [] zero is_text le =
    (0, refl, λ some_char. absurd (some_char refl), λ less. absurd (omega arith))
text_at [] (suc i) is_text le = absurd (omega arith)
text_at (x ∷ xs) zero (more _ _ some_char is_text) le = (x, refl, λ h. omega arith, λ h. some_char)
text_at (x ∷ xs) (suc i) (more _ _ some_char is_text) le =
    let (c, read, inside, text) = text_at xs i is_text (omega arith) in
    (c, read, λ h. omega (arith, inside h), λ h. text (omega arith))

pub length-storechr : (tok : List ℕ) (slen c : ℕ) → length (storechr tok slen c) ≤ suc (length tok)
unfolding storechr
length-storechr tok slen c = ground (arith, length-append tok (c ∷ []))

abbrev pub weight : State → ℕ
weight st_white = 1
weight st_token = 0
weight st_quote = 0

module _ (text : List ℕ) (start : ℕ) where
  -- The token has as many characters as were taken, at most; the line is the text.
  pub record IsTaken (st : Lexer) (tok : List ℕ) : Type 0 where
    pub same : st.line ≡ text ++ (0 ∷ [])
    pub inside : st.lindex ≤ length text
    pub fewer : start + length tok ≤ st.lindex

  -- In a word, a character was taken, or the next one is not white.
  abbrev pub Moved : Lexer → Type 0
  Moved st =
      (start < st.lindex)
      ⊎ ((st.state ≡ st_white)
          ⊎ ((c : ℕ) × (load st.line st.lindex ≡ ok c) × (strchr st.white c ≡ false)))

  -- The rounds that are left
  abbrev pub rounds : Lexer → ℕ
  rounds st = 2 * (length text - st.lindex) + weight st.state

  abbrev pub IsFine : (before : ℕ) → Step → Type 0
  IsFine before (stop st tok) = IsTaken st tok × (start < st.lindex)
  IsFine before (next st tok) = IsTaken st tok × Moved st × (rounds st < before)

  pub to_next-IsFine :
      (st : Lexer) (tok taken : List ℕ) (state : State) (before : ℕ)
      → IsTaken st tok
      → st.lindex < length text
      → length taken ≤ suc (length tok)
      → 2 * (length text - st.lindex) ≤ before
      → IsFine before (next (record st { lindex = st.lindex + 1; state = state }) taken)
  to_next-IsFine st tok taken state before t less fewer enough = (
    record { same = t.same; inside = omega arith; fewer = omega (arith, t.fewer) },
    inl (omega (arith, t.fewer)),
    omega (arith, weight-le state),
  )
    where
      weight-le : (s : State) → weight s ≤ 1
      weight-le st_white = omega arith
      weight-le st_token = omega arith
      weight-le st_quote = omega arith

  module _ (st : Lexer) (tok : List ℕ) (toksize c : ℕ) (t : IsTaken st tok)
      (less : st.lindex < length text) where
    stored : length (storechr tok toksize c) ≤ suc (length tok)
    stored = length-storechr tok toksize c

    -- The same lexer with another quote character
    with_quote : (q : ℕ) → IsTaken (record st { curr_quote = q }) tok
    with_quote q = record { same = t.same; inside = t.inside; fewer = t.fewer }

    pub on_break-IsFine :
        (state : State)
        → IsFine (2 * (length text - st.lindex) + weight state) (on_break st state tok toksize c)
    unfolding on_break
    on_break-IsFine st_white = (
      record { same = t.same; inside = omega arith; fewer = omega (arith, t.fewer) },
      omega (arith, t.fewer),
    )
    on_break-IsFine st_token = (
      record { same = t.same; inside = omega arith; fewer = omega (arith, t.fewer) },
      omega (arith, t.fewer),
    )
    on_break-IsFine st_quote = to_next-IsFine st tok _ st_quote _ t less stored (omega arith)

    pub on_quote-IsFine :
        (state : State)
        → IsFine (2 * (length text - st.lindex) + weight state) (on_quote st state tok toksize c)
    unfolding on_quote
    on_quote-IsFine st_white =
        to_next-IsFine (record st { curr_quote = c }) tok tok st_quote _ (with_quote c) less
          (omega arith) (omega arith)
    on_quote-IsFine st_token =
        to_next-IsFine (record st { curr_quote = c }) tok tok st_quote _ (with_quote c) less
          (omega arith) (omega arith)
    on_quote-IsFine st_quote = elim (Bool-cases (c == st.curr_quote)) [
      | inl ends ↦ rw ends (
          to_next-IsFine (record st { curr_quote = 0 }) tok tok st_token _ (with_quote 0) less
            (omega arith) (omega arith))
      | inr other ↦ rw other (to_next-IsFine st tok _ st_quote _ t less stored (omega arith))
    ]

    pub on_char-IsFine :
        (state : State)
        → IsFine (2 * (length text - st.lindex) + weight state) (on_char st state tok toksize c)
    unfolding on_char
    on_char-IsFine st_white = to_next-IsFine st tok _ st_token _ t less stored (omega arith)
    on_char-IsFine st_token = to_next-IsFine st tok _ st_token _ t less stored (omega arith)
    on_char-IsFine st_quote = to_next-IsFine st tok _ st_quote _ t less stored (omega arith)

    pub on_white-IsFine :
        (state : State)
        → (state ≡ st_token → start < st.lindex)
        → IsFine (2 * (length text - st.lindex) + weight state) (on_white st state tok toksize c)
    unfolding on_white
    on_white-IsFine st_white moved =
        to_next-IsFine st tok tok st_white _ t less (omega arith) (omega arith)
    on_white-IsFine st_token moved =
        (record { same = t.same; inside = t.inside; fewer = t.fewer }, moved refl)
    on_white-IsFine st_quote moved = to_next-IsFine st tok _ st_quote _ t less stored (omega arith)
