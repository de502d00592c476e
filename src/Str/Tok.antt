-- ===== src/Str/Tok.antt =====
-- n_str_tok of nstr_tok.c, which takes a word off a string, and n_str_tokl_n of nstr_tokl.c, which
-- takes all. A string that is only read is the list of its characters, without the 0.
pub mod Word
use trurlib.Prelude.{
  ℕ, zero, suc, ◌+◌, ◌*◌, Bool, true, false, Option, none, some, List, [], ◌∷◌, ◌++◌, ltb, ◌==◌,
  if◌then◌else◌, length, drop, replicate,
}
use trurlib.Run.{Run, ok, fault, endless, null_pointer, ◌>>=◌}
use trurlib.Memory.Block.{store}
use trurlib.Stream.Getline.{strlen}

-- Whether one of the characters is `c`
unfoldable pub among : List ℕ → ℕ → Bool
among [] c = false
among (d ∷ ds) c = if d == c then true else among ds c

-- `s + strspn(s, delim)`
unfoldable pub past : (delim s : List ℕ) → List ℕ
past delim [] = []
past delim (x ∷ xs) = if among delim x then past delim xs else x ∷ xs

-- The inner loop behind a word. When `*s` is found in `delim`, `p` is set to `delim` and then
-- stepped, so that the next character is looked up from the second of `delim` on.
unfoldable pub skip : (delim p s : List ℕ) → List ℕ
skip delim p [] = []
skip delim p (x ∷ xs) = if among p x then skip delim (drop 1 delim) xs else x ∷ xs

-- The loop of n_str_tok at the cell `t` of the block; `lim` is `tok + toklen`.
unfoldable pub tok_copy : (delim s block : List ℕ) (t lim : ℕ) → Run (List ℕ × List ℕ)
tok_copy delim [] block t lim = store block t 0 >>= λ b. ok ([], b)
tok_copy delim (x ∷ xs) block t lim =
    if ltb t lim
    then if among delim x
      then (store block t 0 >>= λ b. ok (skip delim delim xs, b))
      else (store block t x >>= λ b. tok_copy delim xs b (t + 1) lim)
    else (store block t 0 >>= λ b. ok (x ∷ xs, b))

-- n_str_tok, with `tok` the cell `t` of a block: what it returns, `none` for NULL, and the block
unfoldable pub str_tok :
    (s block : List ℕ) (t toklen : ℕ) (delim : List ℕ) → Run (Option (List ℕ) × List ℕ)
str_tok [] block t toklen delim = ok (none, block)
str_tok (x ∷ xs) block t toklen delim =
    tok_copy delim (past delim (x ∷ xs)) block t (t + toklen) >>= λ (rest, b). ok (some rest, b)

-- What the loop of n_str_tokl_n does behind a call of n_str_tok
unfoldable pub on_tok :
    (scpy : ℕ) (tokens : List ℕ)
    → (again : List ℕ → List ℕ → ℕ → List ℕ → Run (List ℕ × List ℕ)) → Option (List ℕ) × List ℕ
    → Run (List ℕ × List ℕ)
on_tok scpy tokens again (none, block) = ok (tokens ++ (scpy ∷ []), block)
on_tok scpy tokens again (some rest, block) =
    strlen (drop scpy block) >>= λ n. again rest block (scpy + n + 1) (tokens ++ (scpy ∷ []))

-- The loop of n_str_tokl_n: the places of the tokens in the block, and the block. Each round takes
-- a character at least.
unfoldable pub tokl_loop :
    (fuel : ℕ) (delim : List ℕ) (slen : ℕ) (p block : List ℕ) (scpy : ℕ) (tokens : List ℕ)
    → Run (List ℕ × List ℕ)
tokl_loop zero delim slen p block scpy tokens = fault endless
tokl_loop (suc fuel) delim slen [] block scpy tokens = ok (tokens, block)
tokl_loop (suc fuel) delim slen (x ∷ xs) block scpy tokens =
    str_tok (x ∷ xs) block scpy slen delim >>= on_tok scpy tokens (tokl_loop fuel delim slen)

-- n_str_tokl_n: the tokens behind `tokens[0]`, the block at `tokens[0]`, and how many there are
unfoldable pub tokl_n : (s delim : List ℕ) → Run (List ℕ × List ℕ × ℕ)
tokl_n s delim =
    tokl_loop (suc (length s)) delim (length s) s (replicate (length s + 1) 0) 0 []
    >>= λ (tokens, block). ok (tokens, block, length tokens)
