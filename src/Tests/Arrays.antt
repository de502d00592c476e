-- ===== src/Tests/Arrays.antt =====
-- Examples on an array of four cells.
use trurlib.Prelude.{ℕ, ◌-◌, ◌*◌, ◌<◌, ◌≤◌, ◌≡◌, refl, inr, [], ◌∷◌, ◌++◌, arith, replicate}
use trurlib.Prelude.Int.{pos}
use trurlib.Run.{ok, fault, out_of_bounds, Returns}
use trurlib.Tests.Samples.{
  code, two_items, two_shifted, at_end, two_items-Models, two_shifted-Models, at_end-Models,
  two_shifted-IsOpen,
}
use trurlib.Array.State.{null}
use trurlib.Array.View.{Models, After}
use trurlib.Array.Grow.{grow}
use trurlib.Array.Grow.Enough.{grow-ok}
use trurlib.Array.Slots.{remove_nth}
use trurlib.Array.Slots.Remove.{remove_nth-delete}
use trurlib.Array.Ends.{push}
use trurlib.Array.Ends.Push.{push-append, push-overflow}
use trurlib.Array.Scan.{remove_ex}
use trurlib.Array.Scan.Remove.{kept, log_gone, remove_ex-kept}

grow-ok_example :
    (n : ℕ) × (5 < n)
    × (n ≤ 2 * 5)
    × (grow two_items 5
        ≡ ok
            (record two_items { cells = two_items.cells ++ replicate (n - 4) null; allocated = n }))
grow-ok_example = grow-ok two_items 5 refl (omega arith) (omega arith) (omega arith)

push-append_example : Returns (push two_shifted 9) (After two_shifted 1 (7 ∷ 8 ∷ 9 ∷ []))
push-append_example =
    push-append 1 (7 ∷ 8 ∷ []) 1 9 two_shifted-Models two_shifted-IsOpen (inr (omega arith))

push-overflow_example : push at_end 9 ≡ fault out_of_bounds
push-overflow_example = push-overflow 1 (7 ∷ 8 ∷ []) 9 at_end-Models refl

remove_ex-kept_example : Returns (remove_ex code two_items 7 null) (λ a.
    ((room : ℕ) × Models 0 (kept (code.cmp 6) 7 (7 ∷ 8 ∷ [])) room a)
    × (a.freed ≡ log_gone (code.cmp 6) 5 7 (7 ∷ 8 ∷ []) []))
remove_ex-kept_example =
    remove_ex-kept code 0 (7 ∷ 8 ∷ []) 2 7 null two_items-Models refl (omega arith) (λ e. cc)

remove_nth-delete_example :
    Returns (remove_nth two_shifted (pos 0)) (λ a. Models 1 (8 ∷ []) 2 a × (a.freed ≡ 7 ∷ []))
remove_nth-delete_example =
    remove_nth-delete 1 [] 7 (8 ∷ []) 1 two_shifted-Models refl (omega arith)
      (λ e. absurd (omega arith))
