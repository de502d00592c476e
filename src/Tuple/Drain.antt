-- ===== src/Tuple/Drain.antt =====
-- n_tuple_new_fromarray moves the elements of an array into a tuple.
use trurlib.Prelude.{
  none, ℕ, suc, ◌+◌, ◌<◌, ◌≡◌, refl, ap, sym, ◌∙◌, false, List, [], ◌∷◌, ◌++◌, arith, subst, length,
  replicate, length-append, append_assoc,
}
use trurlib.Prelude.Int.{pos, to_int, to_int-small}
use trurlib.Run.{ok}
use trurlib.Memory.Block.{store}
use trurlib.Memory.Laws.{store-append}
use trurlib.Array.State.{Array, Ptr, null}
use trurlib.Array.State as State
use trurlib.Array.View.{Models}
use trurlib.Array.Ends.Take.{shift-cons}
use trurlib.Tuple.{new, drain, new_fromarray}

drain-all :
    (before : ℕ) (xs done : List Ptr) (room : ℕ) (arr : Array)
    → Models before xs room arr
    → arr.flags.frozen ≡ false
    → (arr' : Array) × (drain (length xs) (length done) arr (done ++ replicate (length xs) null)
        ≡ ok (arr', done ++ xs))
      × Models (before + length xs) [] room arr'
unfolding drain
drain-all before [] done room arr m thawed = (
  arr,
  ground (arith, m.count),
  record {
    start = omega (arith, m.start);
    layout = m.layout ∙ ap (λ n. replicate n null ++ replicate room null) (omega arith);
    count = m.count;
    extent = omega (arith, m.extent);
    nonempty = m.nonempty;
  },
)
drain-all before (x ∷ xs) done room arr m thawed =
    let ((p, arr2), run, (got, m2, same)) = shift-cons before xs x room m thawed in
    let thawed2 : arr2.flags.frozen ≡ false = same.frozen ∙ thawed in
    let (arr3, rest, m3) = drain-all (suc before) xs (done ++ x ∷ []) room arr2 m2 thawed2 in
    let count = m.count in
    let put = store-append done null x (replicate (length xs) null) (length done) refl in
    let one_more : length (done ++ x ∷ []) ≡ length done + 1 =
      omega (arith, length-append done (x ∷ [])) in
    let rest2 : drain (length xs) (length done + 1) arr2 (done ++ (x ∷ replicate (length xs) null))
        ≡ ok (arr3, done ++ (x ∷ xs)) =
      subst
        (λ n.
          drain (length xs) n arr2 (done ++ (x ∷ replicate (length xs) null))
          ≡ ok (arr3, done ++ (x ∷ xs)))
        one_more
        (ap (drain (length xs) (length (done ++ x ∷ [])) arr2)
            (sym (append_assoc done (x ∷ []) (replicate (length xs) null)))
          ∙ (rest ∙ ap (λ c. ok (arr3, c)) (append_assoc done (x ∷ []) xs))) in
    let stored = ap (store (done ++ (null ∷ replicate (length xs) null)) (length done)) got ∙ put in
    let deeper : suc before + length xs ≡ before + suc (length xs) = omega arith in
    (arr3, ground (arith, count, run, stored, rest2), subst (λ b. Models b [] room arr3) deeper m3)

new-nulls :
    (n : ℕ)
    → n < 65535
    → new (pos n) none ≡ ok (record { refcnt = 0; size = n; cells = replicate n null })
unfolding new
new-nulls n h = ground (arith, h)

-- On an array of fewer than 65535 elements that is not frozen n_tuple_new_fromarray ends with a
-- tuple of its elements in their order, and the array is empty.
pub new_fromarray-moves :
    (before : ℕ) (xs : List Ptr) (room : ℕ) (arr : Array)
    → Models before xs room arr
    → arr.flags.frozen ≡ false
    → length xs < 65535
    → (arr' : Array) × (new_fromarray arr
        ≡ ok (record { refcnt = 0; size = length xs; cells = xs }, arr'))
      × Models (before + length xs) [] room arr'
unfolding new_fromarray State.size
new_fromarray-moves before xs room arr m thawed small =
    let (arr2, run, m2) = drain-all before xs [] room arr m thawed in
    let count = m.count in
    let size : State.size arr ≡ pos (length xs) =
      ap to_int count ∙ to_int-small (length xs) (omega (arith, small)) in
    let made = new-nulls (length xs) small in
    let run2 = ap (λ n. drain n 0 arr (replicate (length xs) null)) count ∙ run in
    (arr2, ground (arith, size, made, run2), m2)
