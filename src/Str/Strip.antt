-- ===== src/Str/Strip.antt =====
-- n_str_strip_ws and n_str_in of nstr.c. `isspace` is that of the C library.
pub mod Stripped
use trurlib.Prelude.{
  ℕ, zero, suc, ◌+◌, Bool, true, false, List, [], ◌∷◌, ◌&&◌, ◌==◌, if◌then◌else◌, length, drop,
}
use trurlib.Run.{Run, ok, fault, endless, out_of_bounds, ◌>>=◌}
use trurlib.Memory.Block.{load, store}
use trurlib.Stream.Getline.{strlen}

module _ (isspace : ℕ → Bool) where
  -- `while (isspace(*p)) p++`. Every round reads one more cell of the block.
  unfoldable pub lead : (fuel : ℕ) (block : List ℕ) (p : ℕ) → Run ℕ
  lead zero block p = fault endless
  lead (suc fuel) block p =
      load block p >>= λ c. if isspace c then lead fuel block (p + 1) else ok p

  -- The second loop, where `p` is before the cell that the number counts: before the block at 0,
  -- a place that is not `str`, and not to be read.
  unfoldable pub trail : (behind str : ℕ) (block : List ℕ) → Run (List ℕ)
  trail zero str block = fault out_of_bounds
  trail (suc p) str block =
      if p == str
      then ok block
      else (load block p >>= λ c. if isspace c then (store block p 0 >>= trail p str) else ok block)

  -- n_str_strip_ws: the place that is returned, and the block
  unfoldable pub strip_ws : (block : List ℕ) → Run (ℕ × List ℕ)
  strip_ws block = lead (suc (length block)) block 0 >>= λ str.
      strlen (drop str block) >>= λ n. trail (str + n) str block >>= λ b. ok (str, b)

-- strcmp, as a test for equality
unfoldable pub same_text : List ℕ → List ℕ → Bool
same_text [] [] = true
same_text [] (y ∷ ys) = false
same_text (x ∷ xs) [] = false
same_text (x ∷ xs) (y ∷ ys) = x == y && same_text xs ys

-- n_str_in, on the arguments before the NULL
unfoldable pub str_in : (s : List ℕ) → List (List ℕ) → Bool
str_in s [] = false
str_in s (p ∷ ps) = if same_text p s then true else str_in s ps
