-- ===== src/Buf/Iterator.antt =====
-- The iterator of a buffer: n_buf_it_init and n_buf_it_gets_ext of nbuf.c, and the inline functions
-- of include/trurl/nbuf.h. A pointer into the block is its index.
pub mod Reads
pub mod Lines
use trurlib.Prelude.{
  ℕ, zero, suc, ◌+◌, ◌-◌, ◌%◌, ◌^◌, true, false, Option, none, some, List, ltb, ◌==◌, length, take,
  drop, if◌then◌else◌, leb,
}
use trurlib.Prelude.Int.{ℤ, pos, negsuc, to_int}
use trurlib.Run.{Run, ok, fault, endless, null_pointer, out_of_bounds, ◌>>=◌}
use trurlib.Memory.Block.{load}
use trurlib.Buf.Host.{Host}
use trurlib.Buf.State.{Buf, to_size_t}

-- struct trurl_buf_iterator: its `nbuf` is the buffer that the calls take.
pub record It : Type 0 where
  pub offs : ℕ

-- n_buf_it_init
abbrev pub init : It
init = record { offs = 0 }

-- n_buf_it_get: `boff` is an int.
unfoldable pub get : Buf → It → (size : ℕ) → Option ℕ × It
get buf it size =
    let boff = to_size_t (to_int it.offs) in
    if ltb buf.size ((boff + size) % 2 ^ 64)
    then (none, it)
    else (some boff, record { offs = to_size_t (to_int (boff + size)) })

-- `memcpy(.., &data[i], n)`
unfoldable pub copy_out : Buf → (i n : ℕ) → Run (List ℕ)
copy_out buf i n = elim buf.cells [
  | none ↦ fault null_pointer
  | some block ↦
      if leb (i + n) (length block) then ok (take n (drop i block)) else fault out_of_bounds
]

-- The bytes that a call of n_buf_it_get points to, when it does not return NULL
unfoldable pub bytes_at : Buf → (n : ℕ) → Option ℕ × It → Run (Option (List ℕ) × It)
bytes_at buf n (none, it) = ok (none, it)
bytes_at buf n (some i, it) = copy_out buf i n >>= λ bytes. ok (some bytes, it)

-- n_buf_it_read
unfoldable pub read : Buf → It → (size : ℕ) → Run (ℤ × Option (List ℕ) × It)
read buf it size = do
  (bytes, it) ← bytes_at buf size (get buf it size)
  ok (elim bytes [ none ↦ negsuc 0 | some b ↦ to_int size ], bytes, it)

-- n_buf_it_get_int8, n_buf_it_get_int16 and n_buf_it_get_int32: `none` when they return 0
unfoldable pub get_int8 : Buf → It → Run (Option ℕ × It)
get_int8 buf it = byte_at (get buf it 1)
  where
    byte_at : Option ℕ × It → Run (Option ℕ × It)
    byte_at (none, after) = ok (none, after)
    byte_at (some i, after) = elim buf.cells [
      | none ↦ fault null_pointer
      | some block ↦ load block i >>= λ v. ok (some v, after)
    ]

abbrev decode : (List ℕ → ℕ) → Option (List ℕ) → Option ℕ
decode word none = none
decode word (some bytes) = some (word bytes)

unfoldable pub get_int16 : Host → Buf → It → Run (Option ℕ × It)
get_int16 host buf it = do
  (bytes, it) ← bytes_at buf 2 (get buf it 2)
  ok (decode (λ b. host.ntoh16 (host.word16 b)) bytes, it)

unfoldable pub get_int32 : Host → Buf → It → Run (Option ℕ × It)
get_int32 host buf it = do
  (bytes, it) ← bytes_at buf 4 (get buf it 4)
  ok (decode (λ b. host.ntoh32 (host.word32 b)) bytes, it)

-- The loop of n_buf_it_gets_ext: the offset at which it stops
unfoldable pub find_end : (fuel : ℕ) (block : List ℕ) (size offs endl : ℕ) → Run ℕ
find_end zero block size offs endl = fault endless
find_end (suc fuel) block size offs endl =
    let rest = find_end fuel block size (offs + 1) endl in
    if ltb offs size
    then load block offs >>= (λ c. if c == endl then ok offs else rest)
    else ok offs

-- n_buf_it_gets_ext: the index of the line and its length, `none` for NULL. Every round of the
-- loop reads one more byte of the block.
unfoldable pub gets_ext : Buf → It → (endl : ℕ) → Run (Option (ℕ × ℕ) × It)
gets_ext buf it endl =
    if ltb buf.size ((it.offs + 1) % 2 ^ 64) then ok (none, it) else elim buf.cells [
      | none ↦ fault null_pointer
      | some block ↦ (do
        stop ← find_end (suc (length block)) block buf.size it.offs endl
        ok (some (it.offs, stop - it.offs), record { offs = stop + 1 }))
    ]
