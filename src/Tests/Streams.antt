-- ===== src/Tests/Streams.antt =====
-- Examples of streams: a file in memory, on a machine with the low byte first.
use trurlib.Prelude.{ℕ, ◌≡◌, refl, true, false, none, some, List, [], ◌∷◌, ◌++◌, arith}
use trurlib.Prelude.Int.{pos, negsuc}
use trurlib.Run.{ok, Returns}
use trurlib.Buf.State.{Buf, seek_set}
use trurlib.Buf.State.View.{contents, IsBuf}
use trurlib.Buf.Store.{bits16}
use trurlib.Buf.Host.{net16, malloc}
use trurlib.Buf.Restore.{store, restore_ex}
use trurlib.Buf.Restore.RoundTrip.{IsHeader, store-restore_ex}
use trurlib.Str.Copied.{IsText}
use trurlib.Stream
use trurlib.Stream.{Stream}
use trurlib.Stream.Moves.{IsAt}
use trurlib.Stream.Getline.{obtain, getline}
use trurlib.Stream.Getline.First.{IsLine}
use trurlib.Stream.Getline.Read.{getline-first_line, getline-joined}
use trurlib.Store.{store_uint32, restore_uint32}
use trurlib.Store.RoundTrip.{number, store_uint32-restore_uint32}
use trurlib.Tests.Buffers.{two_bytes, two_bytes-IsBuf}
use trurlib.Tests.Files.{low_first, memory, memory-IsFile, Place}

abbrev stream_at : Place → Stream memory
stream_at s = record { state = s; fd = negsuc 0; write_hook = none }

-- A file that has the byte 4, at its end
abbrev one_byte : Stream memory
one_byte = stream_at (4 ∷ [], [])

one_byte-IsAt : IsAt memory memory-IsFile one_byte (4 ∷ []) []
unfolding memory-IsFile
one_byte-IsAt = record { past = refl; next = refl; unhooked = refl }

store_uint32-restore_uint32_example :
    (after back last : Stream memory) × (store_uint32 memory low_first one_byte 300 ≡ (true, after))
    × (Stream.seek memory after 1 seek_set ≡ (pos 0, back))
    × (restore_uint32 memory low_first back ≡ ok (0, 300, last))
    × IsAt memory memory-IsFile last ((4 ∷ []) ++ number 300) []
store_uint32-restore_uint32_example =
    store_uint32-restore_uint32 memory memory-IsFile low_first one_byte (4 ∷ []) 300 one_byte-IsAt
      (omega arith)

store-restore_ex_example :
    (after back last : Stream memory) × (other : Buf) × (store memory low_first two_bytes one_byte
        bits16
      ≡ ok (true, after))
    × (Stream.seek memory after 1 seek_set ≡ (pos 0, back))
    × (restore_ex memory low_first back bits16 none ≡ ok (pos 1, some other, last))
    × (contents other ≡ 1 ∷ 2 ∷ [])
    × IsBuf other
    × (other.flags ≡ record { const_size = true; const_data = false })
    × IsAt memory memory-IsFile last ((4 ∷ []) ++ (net16 2 ++ (1 ∷ 2 ∷ []))) []
store-restore_ex_example =
    store-restore_ex memory memory-IsFile low_first two_bytes one_byte (4 ∷ []) bits16 (net16 2)
      (IsHeader.in_16 (omega arith)) two_bytes-IsBuf one_byte-IsAt

-- "ab", a line end, and "cd"
abbrev text : List ℕ
text = 97 ∷ 98 ∷ 10 ∷ 99 ∷ 100 ∷ []

text-IsText : IsText text
text-IsText =
    IsText.more 97 _ (λ e. cc)
      (IsText.more 98 _ (λ e. cc)
        (IsText.more 10 _ (λ e. cc)
          (IsText.more 99 _ (λ e. cc) (IsText.more 100 _ (λ e. cc) IsText.nothing))))

getline-first_line_example :
    Returns
      (getline memory 9 low_first 5 (stream_at ([], text)) none 0)
      (IsLine memory low_first memory-IsFile (97 ∷ 98 ∷ 10 ∷ []) (99 ∷ 100 ∷ []))
unfolding obtain malloc memory-IsFile
getline-first_line_example =
    getline-first_line memory low_first memory-IsFile 9 5 4 (stream_at ([], text)) none 0
      (165 ∷ 165 ∷ 165 ∷ 165 ∷ 165 ∷ []) text refl refl refl text-IsText (omega arith) (omega arith)
      (omega arith) (λ e. cc)

getline-joined_example :
    Returns
      (getline memory 9 low_first 4 (stream_at ([], text)) none 0)
      (IsLine memory low_first memory-IsFile text [])
unfolding obtain malloc memory-IsFile
getline-joined_example =
    getline-joined memory low_first memory-IsFile 9 4 3 (stream_at ([], text)) none 0
      (165 ∷ 165 ∷ 165 ∷ 165 ∷ []) text refl refl refl text-IsText (omega arith) (omega arith)
      (omega arith) refl
