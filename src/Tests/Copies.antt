-- ===== src/Tests/Copies.antt =====
-- Examples of the calls on whole arrays.
use trurlib.Prelude.{◌≡◌, refl, false, [], ◌∷◌, arith}
use trurlib.Run.{Returns}
use trurlib.Array.View.{Models, After}
use trurlib.Array.Ends.{concat_ex}
use trurlib.Array.Ends.Concat.{given, concat_ex-append}
use trurlib.Array.Whole.{clone_ex}
use trurlib.Array.Whole.Clone.{copies, clone_ex-copies}
use trurlib.Tests.Samples.{
  code, two_items, two_shifted, two_items-Models, two_shifted-Models, two_items-IsOpen,
}

clone_ex-copies_example :
    Returns
      (clone_ex code two_shifted 11)
      (λ a. Models 0 (copies code 11 0 (7 ∷ 8 ∷ [])) 2 a × (a.free_fn ≡ 5) × (a.flags.na ≡ false))
clone_ex-copies_example =
    clone_ex-copies code 1 (7 ∷ 8 ∷ []) 1 11 two_shifted-Models refl (omega arith) (λ e. cc)

concat_ex-append_example :
    Returns
      (concat_ex code two_items two_shifted 11)
      (After two_items 0 (7 ∷ 8 ∷ given code 11 0 (7 ∷ 8 ∷ [])))
concat_ex-append_example =
    concat_ex-append code 11 1 1 (7 ∷ 8 ∷ []) (7 ∷ 8 ∷ []) 2 two_items-Models two_shifted-Models
      two_items-IsOpen (omega arith)
