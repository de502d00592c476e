-- ===== src/Str.antt =====
-- The bounded copy of strings in nstr_cpy.c. A string is the cells of a block up to the first 0.
pub mod Copied
pub mod Lexer
pub mod Tok
pub mod Strip
pub mod Join
pub mod Path
use trurlib.Prelude.{ℕ, zero, suc, ◌+◌, ◌-◌, ◌%◌, ◌^◌, true, false, List, [], ◌∷◌, ◌==◌, length}
use trurlib.Run.{Run, ok, fault, endless, ◌>>=◌}
use trurlib.Memory.Block.{load, store}

-- The loop of n_strncpy: the index of the last cell that it has written, and the block
unfoldable pub copy_loop : (fuel n i : ℕ) (dest src : List ℕ) → Run (ℕ × List ℕ)
copy_loop zero n i dest src = fault endless
copy_loop (suc fuel) n i dest src = do
  c ← load src i
  dest ← store dest i c
  elim (c == 0) [
    | true ↦ ok (i, dest)
    | false ↦ elim ((n + 2 ^ 64 - 1) % 2 ^ 64 == 0) [
      | true ↦ ok (i, dest)
      | false ↦ copy_loop fuel ((n + 2 ^ 64 - 1) % 2 ^ 64) (i + 1) dest src
    ]
  ]

-- n_strncpy: the offset that is returned, and the block. Every round reads one more cell of `src`.
unfoldable pub strncpy : (dest src : List ℕ) (n : ℕ) → Run (ℕ × List ℕ)
strncpy dest src n = do
  (i, dest) ← copy_loop (suc (length src)) n 0 dest src
  dest ← store dest i 0
  ok (i, dest)
