-- ===== src/Buf/Write.antt =====
-- Writing to a buffer: n_buf_grow and n_buf_write_ex of nbuf.c, and the typed writers of
-- include/trurl/nbuf.h. The bytes that are written do not lie in the block of the buffer.
pub mod Room
pub mod Overwritten
pub mod Refused
pub mod Appended
use trurlib.Prelude.{
  ℕ, zero, suc, ◌+◌, ◌-◌, ◌*◌, ◌%◌, ◌^◌, Bool, true, false, ◌&&◌, Option, none, some, List, [], ◌∷◌,
  ◌++◌, ltb, leb, ◌==◌, if◌then◌else◌, length, take, drop,
}
use trurlib.Prelude.Int.{ℤ, pos, is_pos, to_int}
use trurlib.Run.{
  Run, ok, fault, endless, out_of_bounds, no_memory, buf_const_size, ◌>>=◌, ◌>>◌, n_assert, die_if,
}
use trurlib.Memory.Block.{store}
use trurlib.Buf.Host.{Host, malloc}
use trurlib.Buf.State.{Buf, to_size_t, at}

-- `memcpy(&block[i], src, n)`
unfoldable pub copy_in : (block : List ℕ) (i : ℕ) (src : List ℕ) (n : ℕ) → Run (List ℕ)
copy_in block i src n =
    if leb (i + n) (length block) && leb n (length src)
    then ok (take i block ++ (take n src ++ drop (i + n) block))
    else fault out_of_bounds

-- What n_realloc makes of a block: the bytes that come new are whatever the memory holds.
unfoldable pub bigger : Host → Option (List ℕ) → ℕ → Run (List ℕ)
bigger host none n = malloc host n
bigger host (some block) n =
    die_if (leb (2 ^ 63) n) no_memory >> ok (take n block ++ host.fresh (n - length block))

-- n_buf_realloc: `diff` is an int.
unfoldable pub realloc : Host → Buf → (new_size : ℕ) → Run Buf
realloc host buf new_size = do
  n_assert (is_pos (to_int (new_size + 2 ^ 64 - buf.allocated)))
  die_if buf.flags.const_size buf_const_size
  block ← bigger host buf.cells new_size
  ok (record buf { cells = some block; allocated = new_size })

-- The loop of n_buf_grow
unfoldable pub double_until : (fuel req_size new_size : ℕ) → Run ℕ
double_until zero req_size new_size = fault endless
double_until (suc fuel) req_size new_size =
    let rest = double_until fuel req_size (new_size * 2 % 2 ^ 64) in
    if leb new_size req_size then rest else ok new_size

-- n_buf_grow: 64 doublings take every size past 2 ^ 64 or to 0, where it stays.
unfoldable pub grow : Host → Buf → (req_size : ℕ) → Run Buf
grow host buf req_size = do
  new_size ← double_until 65 req_size (if buf.allocated == 0 then 2 else buf.allocated)
  realloc host buf new_size

abbrev pub one_if : Bool → ℕ
one_if ended = if ended then 1 else 0

-- The test of n_buf_write_ex for room: the sum is an unsigned int, the difference a size_t.
unfoldable pub is_short : Buf → ℤ → Bool → Bool
is_short buf size ended =
    ltb ((buf.allocated + 2 ^ 64 - buf.off) % 2 ^ 64)
      ((to_size_t size % 2 ^ 32 + one_if ended + 1) % 2 ^ 32)

unfoldable pub make_room : Host → Buf → ℤ → Bool → Run Buf
make_room host buf size ended =
    if is_short buf size ended
    then grow host buf ((buf.allocated + to_size_t size + one_if ended + 1) % 2 ^ 64)
    else ok buf

-- `if (zero) data[off] = '\0'`
unfoldable pub end_at : Bool → ℕ → List ℕ → Run (List ℕ)
end_at false off block = ok block
end_at true off block = store block off 0

-- The copy of n_buf_write_ex into a buffer with room
unfoldable pub put : Buf → (src : List ℕ) (size : ℤ) (ended : Bool) → Run Buf
put buf src size ended =
    let end_off = (buf.off + to_size_t size) % 2 ^ 64 in
    at buf.cells (λ b. copy_in b buf.off src (to_size_t size) >>= end_at ended end_off) >>= λ cells.
    ok (record buf {
      cells = cells;
      off = end_off;
      size = if ltb buf.size end_off then end_off else buf.size;
    })

-- n_buf_write_ex: what it returns, and the buffer
unfoldable pub write_ex : Host → Buf → (src : List ℕ) (size : ℤ) (ended : Bool) → Run (ℤ × Buf)
write_ex host buf src size ended = do
  room ← make_room host buf size ended
  done ← put room src size ended
  ok (size, done)

-- The macro n_buf_write, and n_buf_add
unfoldable pub write : Host → Buf → (src : List ℕ) (size : ℤ) → Run (ℤ × Buf)
write host buf src size = write_ex host buf src size false

-- n_buf_write_int8, n_buf_write_int16, n_buf_write_int32
unfoldable pub write_int8 : Host → Buf → ℤ → Run (ℤ × Buf)
write_int8 host buf v = write host buf ((to_size_t v % 2 ^ 8) ∷ []) (pos 1)

unfoldable pub write_int16 : Host → Buf → ℤ → Run (ℤ × Buf)
write_int16 host buf v = write host buf (host.bytes16 (host.hton16 (to_size_t v % 2 ^ 16))) (pos 2)

unfoldable pub write_int32 : Host → Buf → ℤ → Run (ℤ × Buf)
write_int32 host buf v = write host buf (host.bytes32 (host.hton32 (to_size_t v % 2 ^ 32))) (pos 4)
