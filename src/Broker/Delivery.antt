-- ===== src/Broker/Delivery.antt =====
-- `_deliver_locally`, the copies for several recipients, `_broadcast`, and the reading end.
use agents_protocol.Prelude.{
  ◌+◌, String, Bool, true, false, not, Option, none, some, List, [], ◌∷◌, ◌==◌, keep,
}
use agents_protocol.Dict
use agents_protocol.Protocol.{delivered, failed, level}
use agents_protocol.Objects.{Ref, Heap, copy_to}
use agents_protocol.Inbox
use agents_protocol.Inbox.{Inbox, Entry}
use agents_protocol.Broker.World.{
  World, Outcome, Act, done, raised, blocked, fields, mark, now, dead_letter, update_stored,
  count_delivered, count_failed,
}

-- The copies that are made for the recipients, one each, before any delivery runs.
unfoldable pub make_copies : List String → Ref → Heap → List (String × Ref) × Heap
make_copies [] r h = ([], h)
make_copies (rid ∷ rids) r h =
    let (copy, h') = copy_to r rid h in
    let (tasks, h'') = make_copies rids r h' in ((rid, copy) ∷ tasks, h'')

module _ {C : Type 0} where
  -- The entry that is made for a delivery of the object `r`.
  abbrev pub entry : Ref → World C → Entry
  entry r w = record {
    priority = level (fields r w).priority;
    time_ns = now w;
    counter = w.counter;
    message = r;
  }

  -- `time.time_ns()` and `next(self._counter)` were evaluated.
  abbrev pub numbered : World C → World C
  numbered w = record w { counter = w.counter + 1; readings = w.readings + 1 }

  -- After the put.
  unfoldable pub put_done : String → Ref → Inbox → World C → Outcome C Bool
  unfolding mark update_stored
  put_done agent_id r q w =
      let w' : World C = record w { inboxes = Dict.put agent_id q w.inboxes } in
      done true (update_stored (fields r w').id delivered (count_delivered (mark r delivered w')))

  -- The handler of an exception of the put.
  unfoldable pub put_failed : String → Ref → World C → Outcome C Bool
  unfolding mark update_stored dead_letter
  put_failed reason r w =
      let w' = update_stored (fields r w).id failed (count_failed (mark r failed w)) in
      done false (dead_letter r reason w')

  -- `_deliver_locally`
  unfoldable pub deliver_locally : String → Ref → World C → Outcome C Bool
  unfolding put_done put_failed
  deliver_locally agent_id r w = elim (Dict.get agent_id w.inboxes) [
    | none ↦ done false w
    | some q ↦ elim (w.put_error w.counter) [
      | some reason ↦ put_failed reason r (numbered w)
      | none ↦ elim (Inbox.put (entry r w) q) [
        | none ↦ blocked (numbered w)
        | some q' ↦ put_done agent_id r q' (numbered w)
      ]
    ]
  ]

  -- The rest of a gather after a delivery that waits: the gather waits too.
  abbrev pub waits : Outcome C (Unit {0}) → Outcome C (Unit {0})
  waits (done a w) = blocked w
  waits (raised e w) = raised e w
  waits (blocked w) = blocked w

  abbrev pub go_on : Outcome C Bool → Act C (Unit {0}) → Outcome C (Unit {0})
  go_on (done b w) rest = rest w
  go_on (raised e w) rest = raised e w
  go_on (blocked w) rest = waits (rest w)

  -- `asyncio.gather` of the deliveries: each runs until it ends or waits, in order. One that waits
  -- does not hold up the others, and the gather waits for it.
  unfoldable pub gather : List (String × Ref) → Act C (Unit {0})
  unfolding deliver_locally
  gather [] w = done tt w
  gather ((rid, copy) ∷ tasks) w = go_on (deliver_locally rid copy w) (gather tasks)

  -- The copies for the recipients, and their deliveries.
  unfoldable pub deliver_copies : List String → Ref → World C → Outcome C (Unit {0})
  unfolding make_copies gather
  deliver_copies rids r w =
      let (tasks, h) = make_copies rids r w.heap in gather tasks (record w { heap = h })

  -- The agents that a broadcast goes to.
  abbrev pub audience : Ref → World C → List String
  audience r w = keep (λ a. not (a == (fields r w).sender_id)) (Dict.keys w.agents)

  -- `_broadcast`
  unfoldable pub broadcast : Ref → World C → Outcome C (Unit {0})
  unfolding deliver_copies
  broadcast r w = deliver_copies (audience r w) r w

  -- `get_next_message_for_agent`; the wait of 0.1 s for an empty inbox ends without a message.
  unfoldable pub get_next_message_for_agent : String → World C → Option Ref × World C
  get_next_message_for_agent agent_id w = elim (Dict.get agent_id w.inboxes) [
    | none ↦ (none, w)
    | some q ↦ elim (Inbox.get q) [
      | none ↦ (none, w)
      | some (e, q') ↦ (some e.message, record w { inboxes = Dict.put agent_id q' w.inboxes })
    ]
  ]
