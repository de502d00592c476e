-- ===== src/Tests/Buffers.antt =====
-- Examples of buffers: a buffer of four cells that holds the bytes 1 and 2.
use trurlib.Prelude.{◌-◌, ◌^◌, ◌≡◌, refl, true, false, some, [], ◌∷◌, arith}
use trurlib.Prelude.Int.{pos}
use trurlib.Run.{ok, fault, out_of_bounds, Returns, ◌>>=◌}
use trurlib.Buf.State.{Buf, no_flags, seek, seek_set}
use trurlib.Buf.State.View.{IsBuf}
use trurlib.Buf.Write.{write_ex}
use trurlib.Buf.Write.Appended.{IsOpen}
use trurlib.Buf.Write.Overwritten.{IsWritten, write_ex-IsWritten}
use trurlib.Buf.Write.Refused.{seek-write_ex}
use trurlib.Buf.Iterator
use trurlib.Buf.Iterator.Reads.{it_at}
use trurlib.Buf.Iterator.Lines.{read_lines, read_lines-all}
use trurlib.Buf.Fields.{w8, w16, w32, write_fields, read_fields, write_fields-read_fields}
use trurlib.Buf.Store.{bits16, store_buf}
use trurlib.Buf.Store.Stored.{read_stored, IsHead, store_buf-read_stored}
use trurlib.Tests.Files.{low_first}

abbrev pub two_bytes : Buf
two_bytes = record {
  refcnt = 0;
  flags = no_flags;
  cells = some (1 ∷ 2 ∷ 0 ∷ 0 ∷ []);
  allocated = 4;
  size = 2;
  off = 2;
}

pub two_bytes-IsBuf : IsBuf two_bytes
two_bytes-IsBuf = record { counted = refl; within = omega arith }

pub two_bytes-IsOpen : IsOpen two_bytes
two_bytes-IsOpen = record { fits = two_bytes-IsBuf; at_end = refl; grows = refl }

-- "a", a line end, and "b"
abbrev two_lines : Buf
two_lines = record {
  refcnt = 0;
  flags = no_flags;
  cells = some (97 ∷ 10 ∷ 98 ∷ 0 ∷ []);
  allocated = 4;
  size = 3;
  off = 3;
}

two_lines-IsBuf : IsBuf two_lines
two_lines-IsBuf = record { counted = refl; within = omega arith }

write_ex-IsWritten_example :
    Returns
      (write_ex low_first two_bytes (7 ∷ 8 ∷ 9 ∷ []) (pos 3) true)
      (λ (n, after). (n ≡ pos 3) × IsWritten two_bytes (7 ∷ 8 ∷ 9 ∷ []) true after)
write_ex-IsWritten_example =
    write_ex-IsWritten low_first two_bytes (7 ∷ 8 ∷ 9 ∷ []) true two_bytes-IsBuf refl (omega arith)
      (omega arith)

write_fields-read_fields_example :
    Returns
      (write_fields low_first two_bytes ((w8, pos 5) ∷ (w16, pos 770) ∷ (w32, pos 9) ∷ []))
      (λ after.
        read_fields low_first after (it_at 2) (w8 ∷ w16 ∷ w32 ∷ [])
        ≡ ok (some 5 ∷ some 770 ∷ some 9 ∷ [], it_at after.size))
write_fields-read_fields_example =
    write_fields-read_fields low_first two_bytes ((w8, pos 5) ∷ (w16, pos 770) ∷ (w32, pos 9) ∷ [])
      two_bytes-IsOpen (omega arith)

read_lines-all_example : read_lines 4 two_lines Iterator.init 10 ≡ ok ((97 ∷ []) ∷ (98 ∷ []) ∷ [])
read_lines-all_example = read_lines-all two_lines 10 two_lines-IsBuf (omega arith)

store_buf-read_stored_example :
    Returns (store_buf low_first two_lines two_bytes bits16) (λ (n, after).
      (n ≡ pos 3)
      × (read_stored low_first after (it_at 2) w16
          ≡ ok (some (97 ∷ 10 ∷ 98 ∷ []), it_at after.size)))
store_buf-read_stored_example =
    store_buf-read_stored low_first two_lines two_bytes bits16 w16 (2 ^ 15 - 1) IsHead.head16
      (omega arith) two_lines-IsBuf two_bytes-IsOpen (omega arith)

seek-write_ex_example :
    (seek two_bytes (pos 9) seek_set >>= λ (at, sought).
    write_ex low_first sought (7 ∷ []) (pos 1) false)
    ≡ fault out_of_bounds
seek-write_ex_example =
    seek-write_ex low_first two_bytes (1 ∷ 2 ∷ 0 ∷ 0 ∷ []) (7 ∷ []) 9 false refl refl (omega arith)
      (omega arith) (omega arith)
