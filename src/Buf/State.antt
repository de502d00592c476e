-- ===== src/Buf/State.antt =====
-- struct trurl_buf of include/trurl/nbuf.h, and the calls of nbuf.c that make one or set its fields.
pub mod View
use trurlib.Prelude.{
  ℕ, ◌+◌, ◌-◌, ◌%◌, ◌^◌, Bool, true, false, not, ◌||◌, Option, none, some, List, ltb, ◌==◌,
  if◌then◌else◌,
}
use trurlib.Prelude.Int.{ℤ, pos, negsuc, is_zero, to_int}
use trurlib.Run.{
  Run, ok, die, fault, null_pointer, seek_end, seek_whence, ◌>>=◌, ◌>>◌, n_assert, die_if,
}
use trurlib.Memory.Block.{store}
use trurlib.Buf.Host.{Host, malloc}

-- The bits TN_BUF_CONSTSIZE and TN_BUF_CONSTDATA
pub record Flags : Type 0 where
  pub const_size : Bool
  pub const_data : Bool

abbrev pub no_flags : Flags
no_flags = record { const_size = false; const_data = false }

-- `cells` is the block at `data`, `none` when that is NULL.
pub record Buf : Type 0 where
  pub refcnt : ℕ
  pub flags : Flags
  pub cells : Option (List ℕ)
  pub allocated : ℕ
  pub size : ℕ
  pub off : ℕ

-- An int converted to size_t
abbrev pub to_size_t : ℤ → ℕ
to_size_t (pos n) = n
to_size_t (negsuc n) = 2 ^ 64 - 1 - n

-- `data[i]` and `data[i] = v`
unfoldable pub at : Option (List ℕ) → (List ℕ → Run (List ℕ)) → Run (Option (List ℕ))
at none access = fault null_pointer
at (some block) access = access block >>= λ b. ok (some b)

abbrev empty : Buf
empty = record { refcnt = 0; flags = no_flags; cells = none; allocated = 0; size = 0; off = 0 }

-- n_buf_new
unfoldable pub new : Host → (initial_size : ℤ) → Run Buf
unfolding at
new host initial_size = if is_zero initial_size then ok empty else (do
  block ← malloc host (to_size_t initial_size)
  cells ← at (some block) (λ b. store b 0 0)
  ok (record empty { cells = cells; allocated = to_size_t initial_size }))

unfoldable pub is_null : Option (List ℕ) → Bool
is_null none = true
is_null (some block) = false

-- n_buf_init
unfoldable pub init : Buf → (buffer : List ℕ) → (size : ℤ) → Run Buf
unfolding is_null
init buf buffer size = do
  n_assert (is_null buf.cells)
  ok (record buf {
    off = 0;
    cells = some buffer;
    allocated = to_size_t size;
    size = to_size_t size;
    flags = record { const_size = true; const_data = true };
  })

-- n_buf_ctl
unfoldable pub ctl : Buf → Flags → Buf
ctl buf f = record buf {
  flags = record {
    const_size = buf.flags.const_size || f.const_size;
    const_data = buf.flags.const_data || f.const_data;
  };
}

-- n_buf_clean
unfoldable pub clean : Buf → Run Buf
unfolding at
clean buf =
    if buf.flags.const_data
    then ok (record buf { cells = none; allocated = 0; flags = no_flags; off = 0 })
    else (do
      cells ← at buf.cells (λ b. store b 0 0)
      ok (record buf { size = 0; off = 0; cells = cells }))

-- What n_buf_free leaves: a buffer that others hold, or nothing, with the block freed or not.
pub data Freed : Type 0 where
  held : Buf → Freed
  gone : (block_freed : Bool) → Freed

unfoldable pub free : Buf → Freed
free buf =
    if ltb 0 buf.refcnt
    then held (record buf { refcnt = buf.refcnt - 1 })
    else gone (not buf.flags.const_data)

pub data Whence : Type 0 where
  seek_cur seek_set seek_end_of : Whence
  unknown : ℤ → Whence

-- n_buf_seek: the offset as an int, and the buffer
unfoldable pub seek : Buf → (off : ℤ) → Whence → Run (ℤ × Buf)
seek buf off seek_cur =
    let o = (buf.off + to_size_t off) % 2 ^ 64 in ok (to_int o, record buf { off = o })
seek buf off seek_set = ok (to_int (to_size_t off), record buf { off = to_size_t off })
seek buf off seek_end_of = do
  die_if (not (is_zero off)) seek_end
  ok (to_int buf.size, record buf { off = buf.size })
seek buf off (unknown whence) = die seek_whence
