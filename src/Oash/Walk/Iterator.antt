-- ===== src/Oash/Walk/Iterator.antt =====
-- n_oash_it_get on a table with nothing left to find.
use trurlib.Prelude.{
  ℕ, zero, suc, ◌+◌, ◌<◌, ◌≤◌, ◌≡◌, sym, inl, inr, Bool-cases, List, arith, length, ltb,
}
use trurlib.Run.{fault, out_of_bounds}
use trurlib.Memory.Laws.{load-get_or, load-beyond}
use trurlib.Oash.Table.{Entry, empty, Oash}
use trurlib.Oash.Probe.Robin.{slot}
use trurlib.Oash.Walk.{next_slot, it_get}

next_slot-past :
    (fuel : ℕ) (t : List Entry) (cap i : ℕ)
    → cap ≡ length t
    → i ≤ cap
    → cap < fuel + i
    → ((j : ℕ) → i ≤ j → j < cap → (slot t j).hash ≡ 0)
    → next_slot fuel t cap i ≡ fault out_of_bounds
unfolding next_slot
next_slot-past zero t cap i len le enough rest = absurd (omega arith)
next_slot-past (suc fuel) t cap i len le enough rest = elim (Bool-cases (ltb i cap)) [
  | inl inside ↦
      let free = rest i (omega arith) (ground (arith, inside)) in
      let more =
        next_slot-past fuel t cap (i + 1) len (ground (arith, inside)) (omega arith)
          (λ j h hj. rest j (omega (arith, h)) hj) in
      ground (arith, load-get_or t i empty (ground (arith, inside)), free, inside, more)
  | inr outside ↦ ground (arith, load-beyond t i (ground (arith, outside)))
]

-- When no entry is left from the position of the iterator on, n_oash_it_get reads the slot behind the
-- last one of the table.
pub it_get-past :
    (ht : Oash) (pos : ℕ)
    → length ht.table ≡ ht.cap
    → pos ≤ ht.cap
    → ((j : ℕ) → pos ≤ j → j < ht.cap → (slot ht.table j).hash ≡ 0)
    → it_get ht pos ≡ fault out_of_bounds
unfolding it_get
it_get-past ht pos slots le rest =
    ground
      (arith, next_slot-past (suc ht.cap) ht.table ht.cap pos (sym slots) le (omega arith) rest)
