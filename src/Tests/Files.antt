-- ===== src/Tests/Files.antt =====
-- A machine with the low byte first, and a stream that is a file in memory.
use trurlib.Prelude.{
  ℕ, suc, ◌+◌, ◌-◌, ◌*◌, ◌/◌, ◌%◌, ◌^◌, ◌<◌, ◌≡◌, refl, Option, none, some, List, [], ◌∷◌, ◌++◌,
  arith, length, length-replicate, replicate, take, drop, take-append, drop-append,
}
use trurlib.Prelude.Int.{ℤ, pos, negsuc}
use trurlib.Buf.Host.{Host, net16, net32}
use trurlib.Buf.State.{Whence, seek_cur, seek_set, seek_end_of, unknown}
use trurlib.Stream.{Table}
use trurlib.Stream.File.{IsFile, line_part}

abbrev pub swap16 : ℕ → ℕ
swap16 v = v % 256 * 256 + v / 256

abbrev pub low16 : ℕ → List ℕ
low16 v = (v % 256) ∷ (v / 256) ∷ []

abbrev pub from_low : List ℕ → ℕ
from_low [] = 0
from_low (b ∷ bs) = b + 256 * from_low bs

abbrev pub swap32 : ℕ → ℕ
swap32 v = v % 256 * 2 ^ 24 + (v / 256 % 256 * 2 ^ 16 + (v / 2 ^ 16 % 256 * 256 + v / 2 ^ 24))

abbrev pub low32 : ℕ → List ℕ
low32 v = (v % 256) ∷ (v / 256 % 256) ∷ (v / 2 ^ 16 % 256) ∷ (v / 2 ^ 24) ∷ []

cells2 : {a b c d : ℕ} → a ≡ c → b ≡ d → a ∷ b ∷ [] ≡ c ∷ d ∷ []
cells2 e f = rw (e, f)

cells4 :
    {a b c d a' b' c' d' : ℕ}
    → a ≡ a'
    → b ≡ b'
    → c ≡ c'
    → d ≡ d'
    → a ∷ b ∷ c ∷ d ∷ [] ≡ a' ∷ b' ∷ c' ∷ d' ∷ []
cells4 e f g h = rw (e, f, g, h)

pub low16-swap16 : (v : ℕ) → v < 2 ^ 16 → low16 (swap16 v) ≡ net16 v
low16-swap16 v small = cells2 (omega (arith, small)) (omega (arith, small))

pub swap16-net16 : (v : ℕ) → v < 2 ^ 16 → swap16 (from_low (net16 v)) ≡ v
swap16-net16 v small = omega (arith, small)

pub low32-swap32 : (v : ℕ) → v < 2 ^ 32 → low32 (swap32 v) ≡ net32 v
low32-swap32 v small =
    cells4 (omega (arith, small)) (omega (arith, small)) (omega (arith, small))
      (omega (arith, small))

pub swap32-net32 : (v : ℕ) → v < 2 ^ 32 → swap32 (from_low (net32 v)) ≡ v
swap32-net32 v small = omega (arith, small)

-- New memory is full of the byte 165.
abbrev pub low_first : Host
low_first = record {
  fresh = λ n. replicate n 165;
  hton16 = swap16;
  ntoh16 = swap16;
  bytes16 = low16;
  word16 = from_low;
  hton32 = swap32;
  ntoh32 = swap32;
  bytes32 = low32;
  word32 = from_low;
  length-fresh = λ n. length-replicate n 165;
  bytes16-hton16 = low16-swap16;
  ntoh16-word16 = swap16-net16;
  bytes32-hton32 = low32-swap32;
  ntoh32-word32 = swap32-net32;
}

-- The bytes behind the place of the file, and those ahead of it
abbrev pub Place : Type 0
Place = List ℕ × List ℕ

abbrev pub file_gets : Place → ℕ → Option (List ℕ) × Place
file_gets (b, []) n = (none, (b, []))
file_gets (b, x ∷ xs) n =
    let line = line_part (n - 1) (x ∷ xs) in (some line, (b ++ line, drop (length line) (x ∷ xs)))

abbrev pub file_getc : Place → Option ℕ × Place
file_getc (b, []) = (none, (b, []))
file_getc (b, x ∷ xs) = (some x, (b ++ x ∷ [], xs))

abbrev pub file_seek : Place → ℕ → Whence → ℤ × Place
file_seek (b, a) n seek_cur = (pos 0, (b ++ take n a, drop n a))
file_seek (b, a) n seek_set = (pos 0, (take n (b ++ a), drop n (b ++ a)))
file_seek (b, a) n seek_end_of = (pos 0, (b ++ a, []))
file_seek (b, a) n (unknown w) = (negsuc 0, (b, a))

abbrev pub memory : Table
memory = record {
  State = Place;
  read = λ s n. (pos (length (take n (s.1))), take n (s.1), (s.0 ++ take n (s.1), drop n (s.1)));
  write = λ s bytes. (pos (length bytes), (s.0 ++ bytes, drop (length bytes) (s.1)));
  gets = file_gets;
  getc = file_getc;
  seek = file_seek;
  tell = λ s. length (s.0);
}

pub none_ahead : (a bytes : List ℕ) → a ≡ [] → drop (length bytes) a ≡ []
none_ahead a [] e = e
none_ahead a (b ∷ bs) e = rw e refl

module _ (b a : List ℕ) where
  pub read_all :
      (bytes rest : List ℕ)
      → a ≡ bytes ++ rest
      → (t : Place) × (memory.read (b, a) (length bytes) ≡ (pos (length bytes), bytes, t))
        × (t.0 ≡ b ++ bytes)
        × (t.1 ≡ rest)
  read_all bytes rest e =
      ((b ++ bytes, rest), rw (e, take-append bytes rest, drop-append bytes rest), refl, refl)

  pub skip :
      (bytes rest : List ℕ)
      → a ≡ bytes ++ rest
      → (t : Place) × (memory.seek (b, a) (length bytes) seek_cur ≡ (pos 0, t))
        × (t.0 ≡ b ++ bytes)
        × (t.1 ≡ rest)
  skip bytes rest e =
      ((b ++ bytes, rest), rw (e, take-append bytes rest, drop-append bytes rest), refl, refl)

  pub go_to :
      (before after : List ℕ)
      → b ++ a ≡ before ++ after
      → (t : Place) × (memory.seek (b, a) (length before) seek_set ≡ (pos 0, t))
        × (t.0 ≡ before)
        × (t.1 ≡ after)
  go_to before after e =
      ((before, after), rw (e, take-append before after, drop-append before after), refl, refl)

  pub gets_none : (n : ℕ) → a ≡ [] → memory.gets (b, a) n ≡ (none, (b, a))
  gets_none n e = rw e refl

  pub gets_some :
      (x : ℕ) (xs : List ℕ) (n : ℕ)
      → a ≡ x ∷ xs
      → (t : Place) × (memory.gets (b, a) (suc n) ≡ (some (line_part n (x ∷ xs)), t))
        × (t.1 ≡ drop (length (line_part n (x ∷ xs))) (x ∷ xs))
  gets_some x xs n e =
      let line = line_part n (x ∷ xs) in
      let one_less : suc n - 1 ≡ n = omega arith in
      ((b ++ line, drop (length line) (x ∷ xs)), rw (e, one_less) refl, refl)

  pub getc_none : a ≡ [] → memory.getc (b, a) ≡ (none, (b, a))
  getc_none e = rw e refl

  pub getc_some :
      (x : ℕ) (xs : List ℕ)
      → a ≡ x ∷ xs
      → (t : Place) × (memory.getc (b, a) ≡ (some x, t)) × (t.1 ≡ xs)
  getc_some x xs e = ((b ++ x ∷ [], xs), rw e refl, refl)

unfoldable pub memory-IsFile : IsFile memory
memory-IsFile = record {
  behind = λ s. s.0;
  ahead = λ s. s.1;
  write-append = λ s bytes e small.
      ((s.0 ++ bytes, drop (length bytes) (s.1)), refl, refl, none_ahead (s.1) bytes e);
  read-all = λ s bytes rest e small. read_all (s.0) (s.1) bytes rest e;
  seek-skip = λ s bytes rest e. skip (s.0) (s.1) bytes rest e;
  seek-set = λ s before after e. go_to (s.0) (s.1) before after e;
  gets-none = λ s n e. gets_none (s.0) (s.1) n e;
  gets-some = λ s x xs n e. gets_some (s.0) (s.1) x xs n e;
  getc-none = λ s e. getc_none (s.0) (s.1) e;
  getc-some = λ s x xs e. getc_some (s.0) (s.1) x xs e;
}
