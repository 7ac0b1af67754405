-- ===== src/Persistence/DeadLetters.antt =====
-- The dead letter queue as `get_dlq` shows it.
use mathlib.Core.List.{Perm}
use mathlib.Core.List.Perm
use agents_protocol.Prelude.{
  ℕ, ◌≡◌, List, ◌++◌, arith, take, drop, take-append-drop, pos, true, length, length-take, min, ap,
  ◌∙◌,
}
use agents_protocol.Dict
use agents_protocol.Sorting.{
  All, sort, IsSorted, All-sort, sort-perm, length-sort, sort-IsSorted, take-before-drop,
}
use agents_protocol.Persistence.{DeadLetter, Store, newer, older, get_dlq}

-- What is shown and what is left out: together the whole queue, the shown ones in the order of
-- their failures, and none that is left out failed later than one that is shown.
pub record Shows (items shown : List DeadLetter) (limit : ℕ) : Type 0 where
  pub hidden : List DeadLetter
  pub whole : Perm (shown ++ hidden) items
  pub chronological : IsSorted older shown
  pub newest : All (λ x. All (λ y. newer x y ≡ true) hidden) shown
  pub as_many : length shown ≡ min limit (length items)

-- `get_dlq` with a limit that is not negative shows the newest entries, as many as the limit lets,
-- from the oldest of them to the newest, and leaves out the rest of the queue.
pub get_dlq-Shows : (n : ℕ) (s : Store) → Shows (Dict.values s.dlq) (get_dlq (pos n) s) n
unfolding get_dlq
get_dlq-Shows n s =
    let items = Dict.values s.dlq in
    let sorted = sort newer items in
    record {
      hidden = drop n sorted;
      whole =
          Perm.trans (Perm.append (sort-perm older (take n sorted)) (Perm.refl (drop n sorted)))
            (rw (take-append-drop n sorted) (sort-perm newer items));
      chronological =
          sort-IsSorted older (λ x y e. ground arith) (λ x y z e f. ground arith) (take n sorted);
      newest = All-sort older _ (take n sorted) (
          take-before-drop newer n sorted
            (sort-IsSorted newer (λ x y e. ground arith) (λ x y z e f. ground arith) items));
      as_many =
          length-sort older (take n sorted)
          ∙ (length-take n sorted ∙ ap (min n) (length-sort newer items));
    }
