-- ===== src/Stream/File.antt =====
-- What the callers rely on of a stream that is a file: it has the bytes behind its place and those
-- ahead of it.
use trurlib.Prelude.{
  ℕ, zero, suc, ◌^◌, ◌<◌, ◌≡◌, none, some, List, [], ◌∷◌, ◌++◌, length, drop, ◌==◌, if◌then◌else◌,
}
use trurlib.Prelude.Int.{pos}
use trurlib.Buf.State.{seek_cur, seek_set}
use trurlib.Stream.{Table}

-- The first `n` bytes of a text, or its first line with the end when that is shorter
abbrev pub line_part : ℕ → List ℕ → List ℕ
line_part zero xs = []
line_part (suc n) [] = []
line_part (suc n) (x ∷ xs) = if x == 10 then x ∷ [] else x ∷ line_part n xs

pub record IsFile (T : Table) : Type 0 where
  pub behind : T.State → List ℕ
  pub ahead : T.State → List ℕ
  pub write-append :
      (s : T.State) (bytes : List ℕ)
      → ahead s ≡ []
      → length bytes < 2 ^ 31
      → (t : T.State) × (T.write s bytes ≡ (pos (length bytes), t))
        × (behind t ≡ behind s ++ bytes)
        × (ahead t ≡ [])
  pub read-all :
      (s : T.State) (bytes rest : List ℕ)
      → ahead s ≡ bytes ++ rest
      → length bytes < 2 ^ 31
      → (t : T.State) × (T.read s (length bytes) ≡ (pos (length bytes), bytes, t))
        × (behind t ≡ behind s ++ bytes)
        × (ahead t ≡ rest)
  pub seek-skip :
      (s : T.State) (bytes rest : List ℕ)
      → ahead s ≡ bytes ++ rest
      → (t : T.State) × (T.seek s (length bytes) seek_cur ≡ (pos 0, t))
        × (behind t ≡ behind s ++ bytes)
        × (ahead t ≡ rest)
  pub seek-set :
      (s : T.State) (before after : List ℕ)
      → behind s ++ ahead s ≡ before ++ after
      → (t : T.State) × (T.seek s (length before) seek_set ≡ (pos 0, t))
        × (behind t ≡ before)
        × (ahead t ≡ after)
  pub gets-none : (s : T.State) (n : ℕ) → ahead s ≡ [] → T.gets s n ≡ (none, s)
  pub gets-some :
      (s : T.State) (x : ℕ) (xs : List ℕ) (n : ℕ)
      → ahead s ≡ x ∷ xs
      → (t : T.State) × (T.gets s (suc n) ≡ (some (line_part n (x ∷ xs)), t))
        × (ahead t ≡ drop (length (line_part n (x ∷ xs))) (x ∷ xs))
  pub getc-none : (s : T.State) → ahead s ≡ [] → T.getc s ≡ (none, s)
  pub getc-some :
      (s : T.State) (x : ℕ) (xs : List ℕ)
      → ahead s ≡ x ∷ xs
      → (t : T.State) × (T.getc s ≡ (some x, t)) × (ahead t ≡ xs)
