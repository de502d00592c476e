-- ===== src/Buf/State/View.antt =====
-- What a buffer holds, and when its fields fit each other.
use trurlib.Prelude.{ℕ, ◌≤◌, ◌≡◌, Option, none, some, List, [], arith, length, take}
use trurlib.Prelude.Pieces.{length-take}
use trurlib.Buf.State.{Buf}

abbrev pub block_of : Option (List ℕ) → List ℕ
block_of none = []
block_of (some block) = block

-- The bytes that the buffer holds
abbrev pub contents : Buf → List ℕ
contents buf = take buf.size (block_of buf.cells)

-- The block has the cells that `allocated` counts, `size` counts among them, and only a buffer
-- without cells may lack a block.
pub record IsBuf (buf : Buf) : Type 0 where
  pub counted : length (block_of buf.cells) ≡ buf.allocated
  pub within : buf.size ≤ buf.allocated

pub length-contents : (buf : Buf) → IsBuf buf → length (contents buf) ≡ buf.size
length-contents buf wf =
    length-take buf.size (block_of buf.cells) (omega (arith, wf.counted, wf.within))
