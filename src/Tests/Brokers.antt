-- ===== src/Tests/Brokers.antt =====
-- A broker that sends, refuses, broadcasts, replays and answers.
use agents_protocol.Prelude.{
  ◌≢◌, ◌⊎◌, false, ◌+◌, String, ◌≡◌, refl, true, ◌==◌, none, some, [], ◌∷◌, eq_iff, arith, inl, inr,
  Bool-cases, IsNodup, ℕ, ◌≤◌, ◌++◌, length, keep,
}
use Prim.Native.String.{◌++◌ as text_append}
use agents_protocol.Dict
use agents_protocol.Protocol.{delivered}
use agents_protocol.Persistence
use agents_protocol.Persistence.{Store}
use agents_protocol.Security.{unauthorized, verify_message}
use agents_protocol.Extensions.{validate_message}
use agents_protocol.Inbox.Fifo.{maxsize-pos}
use agents_protocol.Broker.World.{World, mark, no_metrics, register_agent}
use agents_protocol.Broker.{done, after, fields, unregister_agent, do_send, broadcast, status_text}
use agents_protocol.Broker.Refusals.{Refused, do_send-denied}
use agents_protocol.Broker.Direct.{Placed, do_send-Placed}
use agents_protocol.Broker.Accounting.{Counted, do_send-Counted}
use agents_protocol.Broker.Gathering.{HasRoom}
use agents_protocol.Broker.Broadcasts.{HasCopy, broadcast-Spread}
use agents_protocol.Broker.Registration.{IsBroker, here, next, registers, Reach-IsBroker}
use agents_protocol.Broker.Requests.{replay_message}
use agents_protocol.Broker.Replay.{cleaned, replay_message-delivers}
use agents_protocol.Registry.{empty}
use agents_protocol.Broker.Sending.{ClusterLink, is_direct}
use agents_protocol.Router
use agents_protocol.Router.{route}
use agents_protocol.Cluster
use agents_protocol.Cluster.{ClusterManager}
use agents_protocol.Broker.Handover.{HandedOver, do_send-HandedOver}
use agents_protocol.Broker.Delivery.{get_next_message_for_agent}
use agents_protocol.Sorting.{IsSorted}
use agents_protocol.Inbox.{Inbox, before, maxsize}
use agents_protocol.Inbox.Numbers.{total}
use agents_protocol.Broker.Queues.{times}
use agents_protocol.Broker.Handouts
use agents_protocol.Broker.Handouts.{
  Run, begins, sends, takes, Run-IsQueued, Run-once, get_next_message_for_agent-first,
}
use agents_protocol.Broker.Taking.{head_entry, numbers}
use agents_protocol.Broker.Arrivals.{is_older, do_send-Grows}
use agents_protocol.Protocol.{AgentMessage}
use agents_protocol.Broker.Unknown.{not_registered, do_send-unregistered}
use agents_protocol.Tests.Data.{
  idle-IsQueued, question, planner, no_link, idle, idle-IsBroker, staffed,
}

abbrev B : Type 0
B = World (Unit {0})

-- `scout` may write to nobody.
abbrev locked : B
locked = record staffed {
  security_manager =
      some (record { secret_key = none; allowed_agents = ("scout", []) ∷ []; agent_keys = [] });
}

do_send-denied_example :
    Refused 0
      (text_append "Security check failed: " (status_text unauthorized))
      (record (locked.metrics) { security_denied = 1 })
      locked
      (do_send no_link [] 0 locked)
unfolding validate_message verify_message Dict.get
do_send-denied_example =
    do_send-denied no_link [] 0 locked unauthorized refl refl (λ e. ground (arith, e))

do_send-Placed_example : Placed "planner" 0 [] staffed (do_send no_link [] 0 staffed)
unfolding validate_message verify_message Dict.get
do_send-Placed_example =
    do_send-Placed no_link [] 0 staffed "planner" planner [] refl refl refl refl refl maxsize-pos
      refl

do_send-Counted_example : Counted staffed (do_send no_link [] 0 staffed)
unfolding Dict.get mark
do_send-Counted_example = do_send-Counted no_link [] "planner" 0 staffed refl refl (inl refl)

two-IsNodup : IsNodup ("planner" ∷ "scout" ∷ [])
two-IsNodup a = elim (Bool-cases ("planner" == a)) [
  | inl e ↦ let k : "planner" ≡ a = ground (arith, eq_iff "planner" a) in rw (← k) (omega arith)
  | inr e ↦ ground arith
]

staffed-HasRoom : HasRoom ("planner" ∷ "scout" ∷ []) staffed
unfolding Dict.get
staffed-HasRoom = λ a h. (ground arith, ground (arith, maxsize-pos))

broadcast-Spread_example :
    (v : B) × (broadcast 0 staffed ≡ done tt v)
    × ((a : String) → Dict.has a staffed.agents ≡ true → a ≢ "scout" → HasCopy a 0 staffed v)
    × ((a : String)
        → (Dict.has a staffed.agents ≡ false) ⊎ (a ≡ "scout")
        → Dict.get a v.inboxes ≡ Dict.get a staffed.inboxes)
broadcast-Spread_example =
    broadcast-Spread 0 staffed two-IsNodup staffed-HasRoom (λ n. refl) (omega arith)

Reach-IsBroker_example :
    IsBroker (register_agent planner idle)
    × ((i : String) → (u : B) × (unregister_agent i (register_agent planner idle) ≡ done tt u))
Reach-IsBroker_example = Reach-IsBroker no_link idle-IsBroker (next here (registers planner idle))

-- A store with a message that failed before.
abbrev failing : Store
failing = record (Persistence.new) {
  messages = ("m1", 0) ∷ [];
  dlq = ("m1", record { message = 0; reason = "x"; failed_at = 1 }) ∷ [];
}

abbrev recovered : B
recovered = record staffed { store = some failing }

replay_message-delivers_example :
    (v : B) × (replay_message no_link
        (record { middleware = []; validation_rules = [] })
        "m1"
        recovered
      ≡ done true v)
    × ((fields 0 v).status ≡ delivered)
    × ((t : Store) × (v.store ≡ some t) × (Dict.get "m1" t.dlq ≡ none))
    × Placed "planner" 0 []
        (cleaned "m1" failing 0 recovered)
        (do_send no_link [] 0 (cleaned "m1" failing 0 recovered))
unfolding validate_message verify_message Dict.get
replay_message-delivers_example =
    replay_message-delivers no_link [] "m1" "planner" failing 0 planner [] recovered refl refl refl
      refl refl refl refl maxsize-pos refl

-- Nobody here is called `planner`, but the cluster has a peer for it.
abbrev clustered : World ClusterManager
clustered = record {
  heap = record { next = 1; cell = λ r. question };
  agents = [];
  inboxes = [];
  registry = empty;
  store = some Persistence.new;
  security_manager = none;
  cluster_manager = some (Cluster.new (some "n0") "u" none);
  router = Router.new;
  pending_messages = [];
  futures = λ f. none;
  next_future = 0;
  counter = 0;
  metrics = no_metrics;
  clock = λ n. n;
  readings = 0;
  put_error = λ n. none;
}

-- A peer takes every message.
abbrev taking : ClusterLink ClusterManager
taking = record { forward = λ a m c. some (true, c) }

do_send-HandedOver_example :
    HandedOver true (Cluster.new (some "n0") "u" none) 0 clustered (do_send taking [] 0 clustered)
unfolding validate_message verify_message Dict.get route is_direct
do_send-HandedOver_example =
    do_send-HandedOver taking [] "planner" 0 clustered (Cluster.new (some "n0") "u" none)
      (Cluster.new (some "n0") "u" none) true refl refl refl refl refl refl refl refl

-- The planner registers, the scout sends it a message, and the planner takes it.
abbrev hired : B
hired = register_agent planner idle

abbrev mailed : B
mailed = after (do_send no_link [] 0 hired)

abbrev read : B
read = (get_next_message_for_agent "planner" mailed).1

reads : Run no_link idle (head_entry (Dict.get "planner" mailed.inboxes) ++ []) read
reads = takes "planner" (sends [] 0 (Handouts.registers planner begins))

Run-once_example :
    ((n : ℕ)
      → total n read.inboxes
          + times n (numbers (head_entry (Dict.get "planner" mailed.inboxes) ++ []))
        ≤ 1)
    × ((a : String) (q : Inbox)
        → Dict.get a read.inboxes ≡ some q
        → IsSorted before q × (length q ≤ maxsize))
Run-once_example = Run-once no_link idle-IsQueued reads

do_send-Grows_example :
    (p : Inbox) × (Dict.get "planner" (after (do_send no_link [] 0 hired)).inboxes ≡ some p)
    × (keep (is_older hired.counter) p ≡ [])
unfolding Dict.get Dict.put register_agent
do_send-Grows_example =
    do_send-Grows no_link [] [] 0 hired "planner" []
      (Run-IsQueued no_link idle-IsQueued (Handouts.registers planner begins)) refl

-- A message to nobody.
abbrev lost : AgentMessage
lost = record question { recipient_id = some "nobody" }

abbrev losing : B
losing = record staffed { heap = record { next = 1; cell = λ r. lost } }

do_send-unregistered_example :
    Refused 0
      (not_registered "nobody")
      (record (losing.metrics) { failed = 1 })
      losing
      (do_send no_link [] 0 losing)
unfolding validate_message verify_message Dict.get route is_direct
do_send-unregistered_example =
    do_send-unregistered no_link [] "nobody" 0 losing refl refl refl refl refl refl refl
