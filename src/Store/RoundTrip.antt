-- ===== src/Store/RoundTrip.antt =====
-- A stored number comes back.
use trurlib.Prelude.{
  ℕ, ◌-◌, ◌%◌, ◌^◌, ◌<◌, ◌≡◌, sym, ap, subst, ◌∙◌, inl, inr, true, some, List, [], ◌∷◌, ◌++◌,
  append-nil, append_assoc, arith, ==_refl, length, ltb, if◌then◌else◌, Bool-cases,
}
use trurlib.Prelude.Int.{pos}
use trurlib.Run.{ok}
use trurlib.Buf.Host.{Host, net16, net32}
use trurlib.Buf.State.{seek_set}
use trurlib.Stream.{Table, Stream, seek, read_uint8}
use trurlib.Stream.File.{IsFile}
use trurlib.Stream.Moves.{
  IsAt, write-IsAt, seek_set-IsAt, read_uint8-IsAt, read_uint16-IsAt, read_uint32-IsAt,
}
use trurlib.Store.{packed, store_uint32, unpack, restore_uint32}

-- The three forms: the flag, and the bytes behind it
pub data IsForm (val : ℕ) : (flag : ℕ) (bytes : List ℕ) → Type 0 where
  short : val < 2 ^ 8 - 1 → IsForm val 0 (val ∷ [])
  middle : val < 2 ^ 16 - 1 → IsForm val 1 (net16 val)
  long : val < 2 ^ 32 → IsForm val 2 (net32 val)

-- The form that the writer chooses
pub number : ℕ → List ℕ
number val =
    if ltb val (2 ^ 8 - 1)
    then 0 ∷ val ∷ []
    else if ltb val (2 ^ 16 - 1)
    then 1 ∷ net16 val
    else 2 ∷ net32 val

module _ (T : Table) (file : IsFile T) (host : Host) where
  packed-IsForm :
      (val : ℕ)
      → val < 2 ^ 32
      → (flag : ℕ) × (bytes : List ℕ) × (packed T host val ≡ (flag, bytes))
        × (number val ≡ flag ∷ bytes)
        × IsForm val flag bytes
  unfolding packed number
  packed-IsForm val small = elim (Bool-cases (ltb val (2 ^ 8 - 1))) [
    | inl is_short ↦
        let less : val < 2 ^ 8 - 1 = ground arith in
        let e : val % 2 ^ 8 ≡ val = omega arith in
        (0, val ∷ [], rw (is_short, e), rw is_short, short less)
    | inr longer ↦ elim (Bool-cases (ltb val (2 ^ 16 - 1))) [
      | inl is_middle ↦
          let less : val < 2 ^ 16 - 1 = ground arith in
          let e : val % 2 ^ 16 ≡ val = omega arith in
          (
            1,
            net16 val,
            rw (longer, is_middle, e, host.bytes16-hton16 val (omega arith)),
            rw (longer, is_middle),
            middle less,
          )
      | inr longest ↦ (
        2,
        net32 val,
        rw (longer, longest, host.bytes32-hton32 val small),
        rw (longer, longest),
        long small,
      )
    ]
  ]

  length-IsForm : {val flag : ℕ} {bytes : List ℕ} → IsForm val flag bytes → length bytes < 2 ^ 31
  length-IsForm (short less) = omega arith
  length-IsForm (middle less) = omega arith
  length-IsForm (long less) = omega arith

  pub store_uint32-IsAt :
      (st : Stream T) (behind : List ℕ) (val : ℕ)
      → IsAt T file st behind []
      → val < 2 ^ 32
      → (after : Stream T) × (store_uint32 T host st val ≡ (true, after))
        × IsAt T file after (behind ++ number val) []
  unfolding store_uint32
  store_uint32-IsAt st behind val here small =
      let (flag, bytes, e, whole, form) = packed-IsForm val small in
      let (flagged, run, there) = write-IsAt T file st behind (flag ∷ []) here (omega arith) in
      let (after, run', done) =
        write-IsAt T file flagged (behind ++ flag ∷ []) bytes there (length-IsForm form) in
      (
        after,
        rw (e, run, run', ==_refl (length bytes)),
        subst (λ b. IsAt T file after b [])
            (append_assoc behind (flag ∷ []) bytes ∙ ap (λ b. behind ++ b) (sym whole)) done,
      )

  unpack-IsAt :
      (st : Stream T) (behind rest : List ℕ) {val flag : ℕ} {bytes : List ℕ}
      → IsForm val flag bytes
      → IsAt T file st behind (bytes ++ rest)
      → (after : Stream T) × (unpack T host flag st ≡ ok (some val, after))
        × IsAt T file after (behind ++ bytes) rest
  unfolding unpack
  unpack-IsAt st behind rest {val} (short less) here =
      let (after, run, done) = read_uint8-IsAt T file st behind val rest here in
      (after, ap ok run, done)
  unpack-IsAt st behind rest {val} (middle less) here =
      let (after, run, done) = read_uint16-IsAt T file st behind val rest host (omega arith) here in
      (after, ap ok run, done)
  unpack-IsAt st behind rest {val} (long less) here =
      let (after, run, done) = read_uint32-IsAt T file st behind val rest host less here in
      (after, ap ok run, done)

  restore_uint32-step :
      (st flagged after : Stream T) (flag val : ℕ)
      → read_uint8 T st ≡ (some flag, flagged)
      → unpack T host flag flagged ≡ ok (some val, after)
      → restore_uint32 T host st ≡ ok (0, val, after)
  unfolding restore_uint32
  restore_uint32-step st flagged after flag val run run' = rw (run, run')

  pub restore_uint32-IsAt :
      (st : Stream T) (behind rest : List ℕ) (val : ℕ)
      → IsAt T file st behind (number val ++ rest)
      → val < 2 ^ 32
      → (after : Stream T) × (restore_uint32 T host st ≡ ok (0, val, after))
        × IsAt T file after (behind ++ number val) rest
  restore_uint32-IsAt st behind rest val here small =
      let (flag, bytes, _, whole, form) = packed-IsForm val small in
      let here' = subst (λ b. IsAt T file st behind (b ++ rest)) whole here in
      let (flagged, run, there) = read_uint8-IsAt T file st behind flag (bytes ++ rest) here' in
      let (after, run', done) = unpack-IsAt flagged (behind ++ flag ∷ []) rest form there in
      (
        after,
        restore_uint32-step st flagged after flag val run run',
        subst (λ b. IsAt T file after b rest)
            (append_assoc behind (flag ∷ []) bytes ∙ ap (λ b. behind ++ b) (sym whole)) done,
      )

-- A uint32_t stored at the end of a stream that is a file without a hook, where the call reports
-- success, is found again behind a seek to the old end: it comes to `vptr`, and the stream is at
-- its end. The call that restores it returns 0, as it does when it fails.
pub store_uint32-restore_uint32 :
    (T : Table) (file : IsFile T) (host : Host) (st : Stream T) (behind : List ℕ) (val : ℕ)
    → IsAt T file st behind []
    → val < 2 ^ 32
    → (after back last : Stream T) × (store_uint32 T host st val ≡ (true, after))
      × (seek T after (length behind) seek_set ≡ (pos 0, back))
      × (restore_uint32 T host back ≡ ok (0, val, last))
      × IsAt T file last (behind ++ number val) []
store_uint32-restore_uint32 T file host st behind val here small =
    let (after, stored, there) = store_uint32-IsAt T file host st behind val here small in
    let (back, sought, ahead) = seek_set-IsAt T file after behind (number val) there in
    let (last, restored, done) =
      restore_uint32-IsAt T file host back behind [] val
        (subst (λ b. IsAt T file back behind b) (sym (append-nil (number val))) ahead) small in
    (after, back, last, stored, sought, restored, done)
