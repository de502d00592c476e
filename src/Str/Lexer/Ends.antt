-- ===== src/Str/Lexer/Ends.antt =====
-- Every call of lp_parse ends: it takes a character at least, and the token has no more characters
-- than were taken.
use trurlib.Prelude.{
  ℕ, zero, suc, ◌+◌, ◌*◌, ◌<◌, ◌≤◌, ◌≡◌, ◌≢◌, refl, ap, ◌∙◌, inl, inr, false, Option, none, some,
  List, [], ◌∷◌, ◌++◌, arith, length, length-append, lt→ltb, ltb, ◌==◌, Bool-cases,
}
use trurlib.Run.{Run, ok, Returns}
use trurlib.Memory.Block.{load}
use trurlib.Str.Copied.{IsText}
use trurlib.Str.Lexer.{
  Lexer, st_white, Step, stop, next, round, on_step, lp_loop, lp_parse, etokl_loop,
}
use trurlib.Str.Lexer.Taken.{text_at, IsTaken, Moved, rounds, IsFine}
use trurlib.Str.Lexer.Round.{round-IsFine}

pub Nonempty : List (List ℕ) → Type 0
Nonempty [] = Unit {0}
Nonempty (t ∷ ts) = (0 < length t) × Nonempty ts

-- The line is the text, from a place inside.
unfoldable pub IsOn : (text : List ℕ) → Lexer → Type 0
IsOn text st = (st.line ≡ text ++ (0 ∷ [])) × (st.lindex ≤ length text)

module _ (text : List ℕ) (is_text : IsText text) (start : ℕ) (begins : start < length text)
    (toksize : ℕ) where
  HasToken : Lexer × List ℕ → Type 0
  HasToken (st, tok) = IsTaken text start st tok × (start < st.lindex)

  lp_loop_again : ℕ → Lexer → List ℕ → Run (Lexer × List ℕ)
  lp_loop_again fuel st tok = lp_loop fuel st tok toksize

  follow :
      (step : Step) (before : ℕ) (again : Lexer → List ℕ → Run (Lexer × List ℕ))
      → IsFine text start before step
      → ((st : Lexer) (tok : List ℕ)
          → IsTaken text start st tok
          → Moved text start st
          → rounds text start st < before
          → Returns (again st tok) HasToken)
      → Returns (on_step step again) HasToken
  unfolding HasToken on_step
  follow (stop st tok) before again fine go = ((st, tok), refl, fine)
  follow (next st tok) before again (t, moved, less) go = go st tok t moved less

  stopped : (st : Lexer) (c : ℕ) → c ≡ 0 → (st.lindex < length text → c ≢ 0) → start < st.lindex
  stopped st c e outside = elim (Bool-cases (ltb st.lindex (length text))) [
    | inl less ↦ absurd (outside (ground arith) e)
    | inr past ↦ ground (arith, begins)
  ]

  lp_loop-round :
      (fuel c : ℕ) (st : Lexer) (tok : List ℕ) (step : Step)
      → load st.line st.lindex ≡ ok c
      → (c == 0) ≡ false
      → round st tok toksize c ≡ ok step
      → lp_loop (suc fuel) st tok toksize
        ≡ on_step step (λ after taken. lp_loop fuel after taken toksize)
  unfolding lp_loop
  lp_loop-round fuel c st tok step read goes run = rw (read, goes, run)

  lp_loop-ends :
      (fuel : ℕ) (st : Lexer) (tok : List ℕ)
      → IsTaken text start st tok
      → Moved text start st
      → rounds text start st < fuel
      → Returns (lp_loop fuel st tok toksize) HasToken
  unfolding HasToken lp_loop lp_loop_again
  lp_loop-ends zero st tok t moved enough = absurd (omega arith)
  lp_loop-ends (suc fuel) st tok t moved enough =
      let (c, read, inside, outside) = text_at text st.lindex is_text t.inside in
      let read' : load st.line st.lindex ≡ ok c = ap (λ l. load l st.lindex) t.same ∙ read in
      elim (Bool-cases (c == 0)) [
        | inl at_end ↦
            let e : c ≡ 0 = ground arith in
            ((st, tok), rw (read', at_end), (t, stopped st c e outside))
        | inr goes ↦
            let (step, run, fine) =
              round-IsFine text start is_text st tok toksize c t (inside (ground arith)) read'
                moved in
            let (r, eq, has) =
              follow step (rounds text start st) (lp_loop_again fuel) fine
                (λ st' tok' t' m' less. lp_loop-ends fuel st' tok' t' m' (omega arith)) in
            (r, lp_loop-round fuel c st tok step read' goes run ∙ eq, has)
      ]

module _ (text : List ℕ) (is_text : IsText text) where
  -- The call that found the lexer at `start` found the end, or took a token: there, it went on, by
  -- as many characters as the token has at least.
  unfoldable pub Parsed : (start : ℕ) → Option (List ℕ) × Lexer → Type 0
  Parsed start (none, after) = start ≡ length text
  Parsed start (some tok, after) =
      IsOn text after × (start < after.lindex) × (start + length tok ≤ after.lindex)

  at_end_of : (c i : ℕ) → i ≤ length text → (i < length text → c ≢ 0) → c ≡ 0 → i ≡ length text
  at_end_of c i within outside e = elim (Bool-cases (ltb i (length text))) [
    | inl less ↦ absurd (outside (ground arith) e)
    | inr past ↦ ground arith
  ]

  parse-step :
      (st after : Lexer) (c : ℕ) (tok : List ℕ) (toksize : ℕ)
      → load st.line st.lindex ≡ ok c
      → (c == 0) ≡ false
      → lp_loop
          (2 * suc (length st.line))
          (record st { state = st_white; curr_quote = 0; is_break = 0 })
          []
          toksize
        ≡ ok (after, tok)
      → length tok < toksize
      → lp_parse st toksize ≡ ok (some tok, after)
  unfolding lp_parse
  parse-step st after c tok toksize read goes run fits =
      rw (read, goes, run, lt→ltb (length tok) toksize fits)

  -- On a text without the character 0, whatever the sets and the escape are, lp_parse returns: 0
  -- at the end of the line; else a token, which fits the block, with the lexer behind it.
  pub lp_parse-ends :
      (st : Lexer) → IsOn text st → Returns (lp_parse st (length text + 1)) (Parsed st.lindex)
  unfolding lp_parse IsOn Parsed HasToken
  lp_parse-ends st (same, within) =
      let (c, read, inside, outside) = text_at text st.lindex is_text within in
      let read' : load st.line st.lindex ≡ ok c = ap (λ l. load l st.lindex) same ∙ read in
      elim (Bool-cases (c == 0)) [
        | inl at_end ↦ (
          (none, record st { state = st_white; curr_quote = 0; is_break = 0 }),
          rw (read', at_end),
          at_end_of c st.lindex within outside (ground arith),
        )
        | inr goes ↦
            let less = inside (ground arith) in
            let fresh : Lexer = record st { state = st_white; curr_quote = 0; is_break = 0 } in
            let size : length st.line ≡ length text + 1 =
              ap length same ∙ length-append text (0 ∷ []) in
            let ((after, tok), run, (t, moved)) =
              lp_loop-ends text is_text st.lindex less (length text + 1) (2 * suc (length st.line))
                fresh [] (record { same = same; inside = within; fewer = omega arith })
                (inr (inl refl)) (omega (arith, size)) in
            (
              (some tok, after),
              parse-step st after c tok (length text + 1) read' goes run
                  (omega (arith, t.fewer, t.inside)),
              ((t.same, t.inside), moved, t.fewer),
            )
      ]

  etokl_again : ℕ → Lexer → List (List ℕ) → Run (List (List ℕ))
  etokl_again fuel after more = etokl_loop fuel after (length text + 1) more
