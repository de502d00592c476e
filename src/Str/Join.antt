-- ===== src/Str/Join.antt =====
-- n_str_vlen of nstr_len.c and n_str_vconcat of nstr_concat.c. The arguments before the NULL are a
-- list of strings; the sum of the lengths is an int.
pub mod Joined
use trurlib.Prelude.{ℕ, ◌+◌, ◌%◌, ◌^◌, List, [], ◌∷◌, ◌++◌, length}
use trurlib.Prelude.Int.{ℤ, to_int}
use trurlib.Run.{Run, ok, ◌>>=◌}
use trurlib.Buf.Host.{Host, malloc}
use trurlib.Buf.State.{to_size_t}
use trurlib.Buf.Write.{copy_in}
use trurlib.Stream.Getline.{strlen}

-- The sum in the loops: `int` addition of a size_t
unfoldable pub add_lengths : (len : ℕ) → List (List ℕ) → ℕ
add_lengths len [] = len
add_lengths len (p ∷ ps) = add_lengths ((len + length p) % 2 ^ 32) ps

-- n_str_vlen, and n_str_len
unfoldable pub str_vlen : (s : List ℕ) → List (List ℕ) → ℤ
str_vlen s args = to_int (add_lengths (length s % 2 ^ 32) args)

-- `strcpy(block, s)` and `strcat(block, s)`
unfoldable pub strcpy : (block s : List ℕ) → Run (List ℕ)
strcpy block s = copy_in block 0 (s ++ (0 ∷ [])) (length s + 1)

unfoldable pub strcat : (block s : List ℕ) → Run (List ℕ)
strcat block s = strlen block >>= λ n. copy_in block n (s ++ (0 ∷ [])) (length s + 1)

unfoldable pub strcat_all : (block : List ℕ) → List (List ℕ) → Run (List ℕ)
strcat_all block [] = ok block
strcat_all block (p ∷ ps) = strcat block p >>= λ b. strcat_all b ps

-- n_str_vconcat, and n_str_concat: the block that is returned
unfoldable pub str_vconcat : Host → (s : List ℕ) → List (List ℕ) → Run (List ℕ)
str_vconcat host s args =
    malloc host (to_size_t (to_int (add_lengths (length s % 2 ^ 32) args + 1))) >>= λ block.
    strcpy block s >>= λ b. strcat_all b args
