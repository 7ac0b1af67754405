-- ===== src/Inbox.antt =====
-- An agent's inbox: the `asyncio.PriorityQueue(maxsize=10000)` of messaging.py and the entries
-- `(-priority, time_ns, counter, message)` that `_deliver_locally` puts into it. The queue is the
-- list of its entries in the order in which `get` takes them.
pub mod Fifo
pub mod Numbers
use agents_protocol.Prelude.{
  ℕ, Bool, true, false, Option, none, some, List, [], ◌∷◌, ltb, leb, eqb, if◌then◌else◌, length,
}
use agents_protocol.Sorting.{insert}
use agents_protocol.Objects.{Ref}

-- `priority` is the number behind the minus sign of the first component.
pub record Entry : Type 0 where
  pub priority : ℕ
  pub time_ns : ℕ
  pub counter : ℕ
  pub message : Ref

abbrev pub Inbox : Type 0
Inbox = List Entry

-- The order of the tuples. Counters differ, so the messages themselves are never compared.
abbrev pub before : Entry → Entry → Bool
before a b =
    if ltb b.priority a.priority
    then true
    else if ltb a.priority b.priority
    then false
    else if ltb a.time_ns b.time_ns
    then true
    else if ltb b.time_ns a.time_ns
    then false
    else leb a.counter b.counter

unfoldable pub maxsize : ℕ
maxsize = 10000

-- `queue.put`; `none` stands for a full queue, where the caller waits.
unfoldable pub put : Entry → Inbox → Option Inbox
unfolding insert maxsize
put e q = if ltb (length q) maxsize then some (insert before e q) else none

-- `queue.get` within the timeout; `none` stands for an inbox that stays empty.
unfoldable pub get : Inbox → Option (Entry × Inbox)
get [] = none
get (e ∷ q) = some (e, q)
