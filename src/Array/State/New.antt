-- ===== src/Array/State/New.antt =====
-- n_array_new and n_array_init_ex: the sequence of a new array.
use trurlib.Prelude.{ℕ, zero, suc, ◌≡◌, refl, [], arith, ◌==◌, if◌then◌else◌}
use trurlib.Prelude.Int.{pos}
use trurlib.Run.{Returns}
use trurlib.Array.State.{Array, Ptr, null, Code, no_flags, init_ex, new}
use trurlib.Array.View.{Models}

-- What a new array has been given
pub record IsNew (code : Code) (freef cmpf : Ptr) (arr : Array) : Type 0 where
  pub refcnt : arr.refcnt ≡ 0
  pub flags : arr.flags ≡ no_flags
  pub free_fn : arr.free_fn ≡ freef
  pub cmp_fn : arr.cmp_fn ≡ (if cmpf == null then code.default_cmp else cmpf)
  pub freed : arr.freed ≡ []

-- n_array_new makes an empty array with room for `size` elements, or for two if `size` is 0, and with
-- the default comparison if none is given.
pub new-Models :
    (code : Code) (size : ℕ) (freef cmpf : Ptr)
    → Returns
        (new code (pos size) freef cmpf)
        (λ a. Models 0 [] (if size == 0 then 2 else size) a × IsNew code freef cmpf a)
unfolding new init_ex
new-Models code zero freef cmpf = (_, refl, (ground arith, ground arith))
new-Models code (suc n) freef cmpf = (_, refl, (ground arith, ground arith))
