-- ===== src/Tests/Stores.antt =====
-- The store's histories and dead letters, and the inboxes.
use agents_protocol.Prelude.{
  ℕ, String, List, ◌++◌, length, ◌≡◌, refl, none, some, [], ◌∷◌, map, pos, keep, arith,
}
use agents_protocol.Persistence
use agents_protocol.Persistence.{
  Slot, DeadLetter, Store, push_id, last_ids, get_history, get_conversation, get_dlq,
}
use agents_protocol.Persistence.History.{Log, save_all, latest, concerns, recent}
use agents_protocol.Persistence.Views.{kept_length, get_history-recent}
use agents_protocol.Sorting.{insert}
use agents_protocol.Inbox.{Entry, put, maxsize}
use agents_protocol.Inbox.Fifo.{has_priority, put_all, put_all-fifo, IsDescending, IsArrival}
use agents_protocol.Tests.Data.{question, notice}

-- Two messages, the first saved again as another object.
abbrev log : Log
log = (1, question) ∷ (2, notice) ∷ (3, question) ∷ []

get_history-recent_example :
    let ids = recent (concerns "scout") log [] in
    (older : List String) × (kept : List String) × (ids ≡ older ++ kept)
    × (length kept ≡ kept_length (pos 1) (length ids))
    × (map some (get_history "scout" (pos 1) (save_all log Persistence.new))
        ≡ map (λ i. latest i log none) kept)
get_history-recent_example = get_history-recent "scout" (pos 1) log refl

-- Entries of two priorities, in the order of their arrival.
abbrev first : Entry
first = record { priority = 1; time_ns = 100; counter = 0; message = 1 }

abbrev urgent : Entry
urgent = record { priority = 3; time_ns = 100; counter = 1; message = 2 }

abbrev second : Entry
second = record { priority = 1; time_ns = 100; counter = 2; message = 3 }

abbrev urgent_too : Entry
urgent_too = record { priority = 3; time_ns = 200; counter = 3; message = 4 }

abbrev arrived : List Entry
arrived = first ∷ urgent ∷ second ∷ urgent_too ∷ []

abbrev in_turn : List Entry
in_turn = urgent ∷ urgent_too ∷ first ∷ second ∷ []

put_arrived : put_all arrived [] ≡ some in_turn
unfolding put put_all insert maxsize
put_arrived = refl

arrived-IsArrival : IsArrival arrived
arrived-IsArrival = (
  ((omega arith, omega arith), ((omega arith, omega arith), ((omega arith, omega arith), tt))),
  (
    ((omega arith, omega arith), ((omega arith, omega arith), tt)),
    (((omega arith, omega arith), tt), (tt, tt)),
  ),
)

put_all-fifo_example :
    IsDescending in_turn × ((p : ℕ) → keep (has_priority p) in_turn ≡ keep (has_priority p) arrived)
put_all-fifo_example = put_all-fifo arrived in_turn put_arrived arrived-IsArrival
