-- ===== src/Array/State.antt =====
-- struct trurl_array_private of include/trurl/narray.h, and the calls that make one or change its
-- settings: n_array_new.c, n_array_clone.c and the macros of the header.
pub mod New
use trurlib.Prelude.{
  ℕ, ◌+◌, ◌-◌, ◌^◌, Bool, true, false, not, ◌||◌, Option, none, some, List, [], ◌∷◌, ◌++◌, ltb,
  ◌==◌, if◌then◌else◌, replicate,
}
use trurlib.Prelude.Int.{ℤ, is_neg, pos_part, to_int}
use trurlib.Run.{Run, ok, ◌>>=◌, ◌>>◌, n_assert, die_if, frozen}

-- `void *` and function pointers are addresses.
abbrev pub Ptr : Type 0
Ptr = ℕ

abbrev pub null : Ptr
null = 0

-- What the caller's code does: the comparison at an address, the `k`-th result of the copying
-- function at an address, and where trurl_default_cmpf lies.
pub record Code : Type 0 where
  pub cmp : Ptr → Ptr → Ptr → ℤ
  pub dup : Ptr → ℕ → Ptr → Ptr
  pub default_cmp : Ptr

-- `(size_t)a - (size_t)b`, returned as an int
unfoldable pub default_cmpf : Ptr → Ptr → ℤ
default_cmpf a b = to_int (a + 2 ^ 64 - b)

-- The bits of `flags`.
pub record Flags : Type 0 where
  pub const_size : Bool
  pub autosorted : Bool
  pub frozen : Bool
  pub is_sorted : Bool
  pub na : Bool

abbrev pub no_flags : Flags
no_flags = record {
  const_size = false;
  autosorted = false;
  frozen = false;
  is_sorted = false;
  na = false;
}

-- `cells` is the block `data` of `allocated` cells; `freed` logs the arguments of the calls of `free_fn`.
pub record Array : Type 0 where
  pub refcnt : ℕ
  pub flags : Flags
  pub items : ℕ
  pub allocated : ℕ
  pub start_index : ℕ
  pub cells : List Ptr
  pub free_fn : Ptr
  pub cmp_fn : Ptr
  pub freed : List Ptr

-- n_array_init_ex: `block` is what `data` points to, `none` for NULL.
unfoldable pub init_ex :
    Code → (size : ℤ) (freef cmpf : Ptr) (block : Option (List Ptr)) → Run Array
init_ex code size freef cmpf block = do
  n_assert (not (is_neg size))
  ok (set_up (pos_part size) block)
  where
    cmp : Ptr
    cmp = if cmpf == null then code.default_cmp else cmpf

    set_up : ℕ → Option (List Ptr) → Array
    set_up n (some given) = record {
      refcnt = 0;
      flags = no_flags;
      items = n;
      allocated = n;
      start_index = 0;
      cells = given;
      free_fn = freef;
      cmp_fn = cmp;
      freed = [];
    }
    set_up n none =
        let size = if ltb n 1 then 2 else n in
        record {
          refcnt = 0;
          flags = no_flags;
          items = 0;
          allocated = size;
          start_index = 0;
          cells = replicate size null;
          free_fn = freef;
          cmp_fn = cmp;
          freed = [];
        }

unfoldable pub new : Code → ℤ → Ptr → Ptr → Run Array
unfolding init_ex
new code size freef cmpf = init_ex code size freef cmpf none

-- n_array_new_na
unfoldable pub new_na : Code → ℤ → Ptr → Run Array
unfolding init_ex
new_na code size cmpf = do
  arr ← init_ex code size null cmpf none
  ok (record arr { flags = record arr.flags { na = true } })

-- n_array_ctl: the bits of `flags` are set in `arr->flags`.
unfoldable pub ctl : Array → Flags → Array
ctl arr f = record arr {
  flags = record {
    const_size = arr.flags.const_size || f.const_size;
    autosorted = arr.flags.autosorted || f.autosorted;
    frozen = arr.flags.frozen || f.frozen;
    is_sorted = arr.flags.is_sorted || f.is_sorted;
    na = arr.flags.na || f.na;
  };
}

unfoldable pub freeze : Array → Array
freeze arr = record arr { flags = record arr.flags { frozen = true } }

unfoldable pub unfreeze : Array → Array
unfreeze arr = record arr { flags = record arr.flags { frozen = false } }

-- The macros TN_ARRAY_set_sorted and TN_ARRAY_clr_sorted
abbrev pub set_sorted : Array → Array
set_sorted arr = record arr { flags = record arr.flags { is_sorted = true } }

abbrev pub clr_sorted : Array → Array
clr_sorted arr = record arr { flags = record arr.flags { is_sorted = false } }

unfoldable pub set_freefn : Array → Ptr → Ptr × Array
set_freefn arr fn = (arr.free_fn, record arr { free_fn = fn })

unfoldable pub set_cmpfn : Array → Ptr → Ptr × Array
set_cmpfn arr fn = (arr.cmp_fn, clr_sorted (record arr { cmp_fn = fn }))

-- n_array_size: the size_t `items` returned as an int
unfoldable pub size : Array → ℤ
size arr = to_int arr.items

-- `if (p != NULL && free_fn != NULL) free_fn(p)`, in the log of such calls
abbrev pub log_free : Ptr → Ptr → List Ptr → List Ptr
log_free fn p freed = if p == null then freed else if fn == null then freed else freed ++ (p ∷ [])

-- trurl_die__if_frozen
abbrev pub die_if_frozen : Array → Run (Unit {0})
die_if_frozen arr = die_if arr.flags.frozen frozen
