-- ===== src/Stream/Open.antt =====
-- How nstream.c opens a stream: n_stream_guess_type, n_stream_new, n_stream_open and
-- n_stream_dopen. The functions that open a file are in the table for the type.
use trurlib.Prelude.{ℕ, Bool, Option, none, some, List, [], ◌∷◌, ◌==◌, if◌then◌else◌}
use trurlib.Prelude.Int.{ℤ, pos, negsuc}
use trurlib.Run.{Run, ok, die, stream_type, ◌>>=◌}
use trurlib.Str.Strip.{same_text}
use trurlib.Stream.{Table, Stream, int_eq}

-- Which of HAVE_LIBZ and HAVE_LIBZ_NG are set
pub record Build : Type 0 where
  pub libz : Bool
  pub libz_ng : Bool

-- The functions that n_stream_new puts in the table
pub data Backend : Type 0 where
  stdio zlib zlib_ng iobuf : Backend

-- `strrchr(path, '.')`: the string from its last dot on
unfoldable pub last_dot : (path : List ℕ) → Option (List ℕ)
last_dot [] = none
last_dot (x ∷ xs) = elim (last_dot xs) [
  | some p ↦ some p
  | none ↦ if x == 46 then some (x ∷ xs) else none
]

-- n_stream_guess_type: TN_STREAM_STDIO is 1, TN_STREAM_GZIO 2, TN_STREAM_ZSTDIO 3 and
-- TN_STREAM_GZIO_NG 4.
unfoldable pub guess_type : Build → (path : List ℕ) → ℤ
guess_type build path = elim (last_dot path) [
  | none ↦ pos 1
  | some p ↦
      if same_text p (46 ∷ 103 ∷ 122 ∷ [])
      then pos 2
      else if same_text p (46 ∷ 122 ∷ 115 ∷ 116 ∷ [])
      then pos 3
      else if same_text p (46 ∷ 110 ∷ 103 ∷ 122 ∷ [])
      then (if build.libz_ng then pos 4 else pos 2)
      else pos 1
]

-- n_stream_new, as the table it chooses
unfoldable pub new : Build → (type : ℤ) → Run Backend
new build type =
    if int_eq type 1
    then ok stdio
    else if int_eq type 2
    then (if build.libz then ok zlib else if build.libz_ng then ok zlib_ng else die stream_type)
    else if int_eq type 3
    then ok iobuf
    else if int_eq type 4
    then (if build.libz_ng then ok zlib_ng else die stream_type)
    else die stream_type

module _ (T : Table) where
  abbrev opened : ℤ → Option T.State → Option (Stream T)
  opened fd none = none
  opened fd (some s) = some (record { state = s; fd = fd; write_hook = none })

  -- n_stream_open: `st_open` opens the path, or returns `none`. The type of the caller is not used.
  unfoldable pub open_path :
      Build
      → (st_open : Backend → List ℕ → List ℕ → Option T.State) → (path mode : List ℕ) (type : ℤ)
      → Run (Option (Stream T))
  open_path build st_open path mode type = new build (guess_type build path) >>= λ backend.
      ok (opened (negsuc 0) (st_open backend path mode))

  -- n_stream_dopen
  unfoldable pub dopen :
      Build
      → (st_dopen : Backend → ℤ → List ℕ → Option T.State) → (fd : ℤ) (mode : List ℕ) (type : ℤ)
      → Run (Option (Stream T))
  dopen build st_dopen fd mode type =
      new build type >>= λ backend. ok (opened fd (st_dopen backend fd mode))
