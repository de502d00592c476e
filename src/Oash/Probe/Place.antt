-- ===== src/Oash/Probe/Place.antt =====
-- n_oash_put_entry keeps the Robin Hood order and loses no entry.
use trurlib.Prelude.{
  ℕ, ◌+◌, ◌<◌, ◌≤◌, ◌≡◌, ◌≢◌, refl, ◌∙◌, inl, inr, ◌⊎◌, false, Bool-cases, Option, none, some, List,
  arith, length, ◌==◌, if◌then◌else◌, set, length-set, get_or-set,
}
use trurlib.Run.{ok}
use trurlib.Hash.Table.{Key}
use trurlib.Oash.Table.{Entry, empty, Dentry, get_dentry}
use trurlib.Oash.Probe.{psldiff, Placed, first_of, same_key}
use trurlib.Oash.Probe.Ring.{IsCap}
use trurlib.Oash.Probe.Used.{used, used-set}
use trurlib.Oash.Probe.Robin.{slot, next, ahead, IsRobin, psldiff-lt}

-- Two entries for the same key and data, wherever they lie.
pub record SameEntry (e e' : Entry) : Type 0 where
  pub hash : e'.hash ≡ e.hash
  pub klen : e'.klen ≡ e.klen
  pub data_index : e'.data_index ≡ e.data_index

pub SameEntry-trans : {e e' e'' : Entry} → SameEntry e e' → SameEntry e' e'' → SameEntry e e''
SameEntry-trans s s' = record {
  hash = s'.hash ∙ s.hash;
  klen = s'.klen ∙ s.klen;
  data_index = s'.data_index ∙ s.data_index;
}

pub slot-set :
    (t : List Entry) (i j : ℕ) (e : Entry)
    → i < length t
    → slot (set t i e) j ≡ (if j == i then e else slot t j)
slot-set t i j e h = get_or-set t i j e empty h

module _ {cap : ℕ} (c : IsCap cap) where
  -- An entry may lie in a slot if it is not too far behind the one in front, and the one behind not
  -- too far behind it.
  pub IsRobin-set :
      {t : List Entry} (r : IsRobin cap t) (i : ℕ) (e : Entry)
      → i < cap
      → e.hash ≢ 0
      → e.psl ≡ psldiff cap e i
      → ((j : ℕ)
          → j < cap
          → next cap j ≡ i
          → 0 < e.psl
          → ((slot t j).hash ≢ 0) × (e.psl ≤ (slot t j).psl + 1))
      → ((slot t (next cap i)).hash ≢ 0
          → 0 < (slot t (next cap i)).psl
          → (slot t (next cap i)).psl ≤ e.psl + 1)
      → IsRobin cap (set t i e)
  IsRobin-set {t} r i e h some_entry dist before after =
      let hl : i < length t = omega (arith, r.slots) in
      let far = psldiff-lt c e i h in
      record {
        slots = length-set t i e ∙ r.slots;
        dist = λ j hj some_j. ground (arith, slot-set t i j e hl, dist, r.dist j hj, some_j);
        step = λ j hj some_next away. ground (
          arith,
          slot-set t i j e hl,
          slot-set t i (next cap j) e hl,
          some_entry,
          dist,
          far,
          before j hj,
          after,
          r.step j hj,
          some_next,
          away,
        );
      }

module _ {cap : ℕ} (c : IsCap cap) (dentries : List (Option Dentry)) (key : Option Key) where
  -- The way of an entry from a slot to an empty one, `m` slots ahead
  pub record IsWay (t : List Entry) (entry : Entry) (index m : ℕ) : Type 0 where
    pub robin : IsRobin cap t
    pub inside : index < cap
    pub short : m + entry.psl < cap
    pub free : (slot t (ahead cap m index)).hash ≡ 0
    pub some_entry : entry.hash ≢ 0
    pub dist : entry.psl ≡ psldiff cap entry index
    pub before :
        (j : ℕ)
        → j < cap
        → next cap j ≡ index
        → 0 < entry.psl
        → ((slot t j).hash ≢ 0) × (entry.psl ≤ (slot t j).psl + 1)
    pub held :
        (k : ℕ)
        → k < m
        → (slot t (ahead cap k index)).hash ≢ 0
        → (de : Dentry) × (get_dentry dentries (slot t (ahead cap k index)).data_index ≡ ok de)
    pub safe :
        (k : ℕ) (de : Dentry)
        → k < m
        → get_dentry dentries (slot t (ahead cap k index)).data_index ≡ ok de
        → same_key key (slot t (ahead cap k index)) entry.hash entry.klen de ≡ false
    pub apart :
        (k l : ℕ) (de : Dentry)
        → k < l
        → l < m
        → get_dentry dentries (slot t (ahead cap l index)).data_index ≡ ok de
        → same_key key
            (slot t (ahead cap l index))
            (slot t (ahead cap k index)).hash
            (slot t (ahead cap k index)).klen
            de
          ≡ false

  -- One of the entries that were in the table before, in its slot or moved on the way from `index`
  pub record IsOld (t : List Entry) (index m j : ℕ) (e : Entry) : Type 0 where
    pub at : ℕ
    pub inside : at < cap
    pub some_entry : (slot t at).hash ≢ 0
    pub same : SameEntry (slot t at) e
    pub near : (at ≡ j) ⊎ ((k : ℕ) × (k ≤ m) × (ahead cap k index ≡ at))

  -- What n_oash_put_entry leaves: the entry has its place, and the others have theirs.
  pub record IsPlaced (t : List Entry) (size : ℕ) (entry : Entry) (index m : ℕ) (re : Option ℕ)
      (p : Placed) : Type 0 where
    pub robin : IsRobin cap p.table
    pub counted : p.size ≡ size + 1
    pub filled : used p.table ≡ used t + 1
    pub fresh : p.found ≡ false
    pub own : ℕ
    pub own_inside : own < cap
    pub own_way : (k : ℕ) × (k ≤ m) × (ahead cap k index ≡ own)
    pub own_entry : SameEntry entry (slot p.table own)
    pub known : (s : ℕ) → re ≡ some s → p.slot ≡ s
    pub returned : re ≡ none → p.slot ≡ own
    pub kept :
        (i : ℕ)
        → i < cap
        → (slot t i).hash ≢ 0
        → (j : ℕ) × (j < cap)
          × (j ≢ own)
          × ((i ≡ j) ⊎ ((k : ℕ) × (k ≤ m) × (ahead cap k index ≡ j)))
          × SameEntry (slot t i) (slot p.table j)
    pub nothing_else :
        (j : ℕ)
        → j < cap
        → (slot p.table j).hash ≢ 0
        → (j ≡ own) ⊎ IsOld t index m j (slot p.table j)
    pub untouched : (j : ℕ) → ((k : ℕ) → k ≤ m → ahead cap k index ≢ j) → slot p.table j ≡ slot t j

  pub IsPlaced-here :
      {t : List Entry} {entry : Entry} {index m : ℕ} (w : IsWay t entry index m) (size : ℕ)
      (re : Option ℕ)
      → (slot t index).hash ≡ 0
      → IsPlaced t size entry index m re (record {
        table = set t index entry;
        size = size + 1;
        slot = first_of re index;
        found = false;
      })
  unfolding ahead
  IsPlaced-here {t} {entry} {index} {m} w size re empty_here =
      let hl : index < length t = omega (arith, w.inside, (w.robin).slots) in
      record {
        robin =
            IsRobin-set c w.robin index entry w.inside w.some_entry w.dist w.before
              (λ there away. absurd (((w.robin).step index w.inside there away).0 empty_here));
        counted = refl;
        filled = ground (arith, used-set t index entry hl, empty_here, w.some_entry);
        fresh = refl;
        own = index;
        own_inside = w.inside;
        own_way = (0, omega arith, refl);
        own_entry = ground (arith, slot-set t index index entry hl);
        known = λ s e. ground (arith, e);
        returned = λ e. ground (arith, e);
        kept = λ i h there. (
          i,
          h,
          ground (arith, there, empty_here),
          inl refl,
          ground (arith, slot-set t index i entry hl, there, empty_here),
        );
        nothing_else = λ j h there. elim (Bool-cases (j == index)) [
          | inl e ↦ inl (ground (arith, e))
          | inr e ↦
              let same : slot (set t index entry) j ≡ slot t j =
                ground (arith, slot-set t index j entry hl, e) in
              inr (record {
                at = j;
                inside = h;
                some_entry = ground (arith, same, there);
                same = ground (arith, same);
                near = inl refl;
              })
        ];
        untouched = λ j away. ground (arith, slot-set t index j entry hl, away 0 (omega arith));
      }
