-- ===== src/Oash/Put/Data.antt =====
-- The data slots of a table: put_dentry finds an empty one, and the other data stay where they are.
use trurlib.Prelude.{
  ℕ, zero, suc, ◌+◌, ◌<◌, ◌≡◌, refl, ap, ◌∙◌, inl, inr, ◌⊎◌, Option, none, some, List, [], ◌∷◌,
  ◌++◌, arith, length, get_or, set, replicate,
}
use trurlib.Run.{ok, Returns}
use trurlib.Memory.Block.{load}
use trurlib.Memory.Laws.{load-get_or, store-set}
use trurlib.Oash.Table.{Dentry, Oash, tindex, get_dentry}
use trurlib.Oash.Probe.Ring.{IsCap, tindex-lt, tindex-next}
use trurlib.Oash.Probe.Robin.{next, ahead}
use trurlib.Oash.Probe.Used.{reach}
use trurlib.Oash.Put.{find_null, put_dentry}

-- How many data slots are in use
unfoldable pub stored : List (Option Dentry) → ℕ
stored [] = 0
stored (none ∷ ds) = stored ds
stored (some de ∷ ds) = suc (stored ds)

pub option_cases {ℓ} : {A : Type ℓ} (d : Option A) → (d ≡ none) ⊎ ((a : A) × (d ≡ some a))
option_cases none = inl refl
option_cases (some a) = inr (a, refl)

pub stored-set :
    (ds : List (Option Dentry)) (i : ℕ) (de : Dentry)
    → i < length ds
    → get_or ds i none ≡ none
    → stored (set ds i (some de)) ≡ stored ds + 1
unfolding stored
stored-set [] i de h e = absurd (omega arith)
stored-set (none ∷ ds) zero de h e = omega arith
stored-set (some d ∷ ds) zero de h e = cc
stored-set (none ∷ ds) (suc i) de h e = stored-set ds i de (omega arith) e
stored-set (some d ∷ ds) (suc i) de h e = omega (arith, stored-set ds i de (omega arith) e)

pub stored-append_none :
    (ds : List (Option Dentry)) (n : ℕ) → stored (ds ++ replicate n none) ≡ stored ds
unfolding stored
stored-append_none [] zero = refl
stored-append_none [] (suc n) = stored-append_none [] n
stored-append_none (none ∷ ds) n = stored-append_none ds n
stored-append_none (some d ∷ ds) n = ap suc (stored-append_none ds n)

empty_data :
    (ds : List (Option Dentry))
    → stored ds < length ds
    → (z : ℕ) × (z < length ds) × (get_or ds z none ≡ none)
unfolding stored
empty_data [] h = absurd (omega arith)
empty_data (none ∷ ds) h = (0, omega arith, refl)
empty_data (some d ∷ ds) h =
    let (z, hz, e) = empty_data ds (omega arith) in (suc z, omega (arith, hz), e)

-- A datum is still found when an empty slot gets another.
pub get_dentry-set :
    (ds : List (Option Dentry)) (index n : ℕ) (de other : Dentry)
    → get_or ds index none ≡ none
    → get_dentry ds n ≡ ok other
    → get_dentry (set ds index (some de)) n ≡ ok other
unfolding get_dentry load
get_dentry-set [] index n de other e h = h
get_dentry-set (none ∷ ds) zero zero de other e h = cc
get_dentry-set (some d ∷ ds) zero zero de other e h = cc
get_dentry-set (d ∷ ds) zero (suc n) de other e h = h
get_dentry-set (d ∷ ds) (suc i) zero de other e h = h
get_dentry-set (d ∷ ds) (suc i) (suc n) de other e h = get_dentry-set ds i n de other e h

pub get_dentry-own :
    (ds : List (Option Dentry)) (index : ℕ) (de : Dentry)
    → index < length ds
    → get_dentry (set ds index (some de)) index ≡ ok de
unfolding get_dentry load
get_dentry-own [] index de h = absurd (omega arith)
get_dentry-own (d ∷ ds) zero de h = refl
get_dentry-own (d ∷ ds) (suc i) de h = get_dentry-own ds i de (omega arith)

-- An index of an empty data slot
abbrev pub IsFree : List (Option Dentry) → ℕ → Type 0
IsFree ds i = (i < length ds) × (get_or ds i none ≡ none)

module _ {dcap : ℕ} (c : IsCap dcap) (ds : List (Option Dentry)) (slots : length ds ≡ dcap) where
  find_null-finds :
      (g fuel i : ℕ)
      → g < fuel
      → i < dcap
      → get_or ds (ahead dcap g i) none ≡ none
      → Returns (find_null fuel ds dcap i) (IsFree ds)
  unfolding find_null ahead
  find_null-finds g zero i enough h free = absurd (omega arith)
  find_null-finds zero (suc fuel) i enough h free =
      let hl : i < length ds = omega arith in
      (i, ground (arith, load-get_or ds i none hl, free), (hl, free))
  find_null-finds (suc g) (suc fuel) i enough h free =
      let hl : i < length ds = omega arith in
      elim (option_cases (get_or ds i none)) [
        | inl e ↦ (i, ground (arith, load-get_or ds i none hl, e), (hl, e))
        | inr (d, e) ↦
            let (r, run, found) =
              find_null-finds g fuel (next dcap i) (omega arith) (ground arith) free in
            (r, ground (arith, load-get_or ds i none hl, e, tindex-next c i h, run), found)
      ]

-- put_dentry ends while fewer data are stored than there are slots for them.
pub put_dentry-IsFree :
    (ht : Oash) (de : Dentry)
    → IsCap ht.dcap
    → length ht.dentries ≡ ht.dcap
    → stored ht.dentries < ht.dcap
    → (i : ℕ) × (put_dentry ht de
        ≡ ok (i, record ht { dentries = set ht.dentries i (some de); dsize = ht.dsize + 1 }))
      × IsFree ht.dentries i
unfolding put_dentry
put_dentry-IsFree ht de c slots room =
    let start = tindex ht.dcap ht.dsize in
    let inside = tindex-lt c ht.dsize in
    let (z, hz, free) = empty_data ht.dentries (omega arith) in
    let (g, hg, there) = reach ht.dcap start z inside (omega arith) in
    let (i, run, (hi, e)) =
      find_null-finds c ht.dentries slots g ht.dcap start hg inside
        (ap (λ s. get_or ht.dentries s none) there ∙ free) in
    (i, ground (arith, run, store-set ht.dentries i (some de) hi), (hi, e))
