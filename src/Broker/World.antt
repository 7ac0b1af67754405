-- ===== src/Broker/World.antt =====
-- The state of a `MessageBroker`, with the objects that it shares with its agents and its store.
use agents_protocol.Prelude.{
  ℕ, ◌+◌, String, Option, none, some, List, [], is_some, or_else, if◌then◌else◌,
}
use mathlib.Core.Option
use agents_protocol.Dict
use agents_protocol.Dict.{Dict}
use agents_protocol.Protocol.{AgentMessage, MessageStatus}
use agents_protocol.Objects.{Ref, Heap, set_status}
use agents_protocol.Persistence
use agents_protocol.Persistence.{Store}
use agents_protocol.Registry
use agents_protocol.Registry.{Agent, AgentRegistry}
use agents_protocol.Router
use agents_protocol.Router.{MessageRouter}
use agents_protocol.Security.{SecurityManager}
use agents_protocol.Inbox.{Inbox}

pub record Metrics : Type 0 where
  pub delivered : ℕ
  pub failed : ℕ
  pub broadcast : ℕ
  pub forwarded : ℕ
  pub security_denied : ℕ
  pub validation_failed : ℕ

abbrev pub no_metrics : Metrics
no_metrics = record {
  delivered = 0;
  failed = 0;
  broadcast = 0;
  forwarded = 0;
  security_denied = 0;
  validation_failed = 0;
}

-- `C` is the state of the cluster manager. `clock` gives the successive readings of the clock, of
-- which `readings` were taken. A future is a number, `futures` has the results that were set. `put_error` gives the exception that the put with a counter raises.
pub record World (C : Type 0) : Type 0 where
  pub heap : Heap
  pub agents : Dict Agent
  pub inboxes : Dict Inbox
  pub registry : AgentRegistry
  pub store : Option Store
  pub security_manager : Option SecurityManager
  pub cluster_manager : Option C
  pub router : MessageRouter
  pub pending_messages : Dict ℕ
  pub futures : ℕ → Option Ref
  pub next_future : ℕ
  pub counter : ℕ
  pub metrics : Metrics
  pub clock : ℕ → ℕ
  pub readings : ℕ
  pub put_error : ℕ → Option String

-- How an awaited method ends: it returns, it raises, or it waits for room in an inbox.
pub data Outcome (C : Type 0) (A : Type 0) : Type 0 where
  done : A → World C → Outcome C A
  raised : String → World C → Outcome C A
  blocked : World C → Outcome C A

-- The objects after `update_message_status` of the store, if there is one.
unfoldable pub updated : Option Store → String → MessageStatus → Heap → Heap
updated none id status h = h
updated (some s) id status h = Persistence.update_message_status id status s h

-- The world that an outcome leaves.
abbrev pub after : {C A : Type 0} → Outcome C A → World C
after (done a w) = w
after (raised e w) = w
after (blocked w) = w

-- An awaited method. What was written before a raise or a wait stays written.
abbrev pub Act : Type 0 → Type 0 → Type 0
Act C A = World C → Outcome C A

module _ {C A B : Type 0} where
  abbrev pub bind : Outcome C A → (A → Act C B) → Outcome C B
  bind (done a w) f = f a w
  bind (raised e w) f = raised e w
  bind (blocked w) f = blocked w

  infixl 5 ◌>>=◌ ◌>>◌
  abbrev pub ◌>>=◌ : Act C A → (A → Act C B) → Act C B
  ◌>>=◌ m f w = bind (m w) f

  abbrev pub ◌>>◌ : Act C A → Act C B → Act C B
  ◌>>◌ m n w = bind (m w) (λ _. n)

-- A write that neither raises nor waits.
abbrev pub modify : {C : Type 0} → (World C → World C) → Act C Unit
modify f w = done tt (f w)

module _ {C : Type 0} where
  -- The message's fields as they are now.
  abbrev pub fields : Ref → World C → AgentMessage
  fields r w = w.heap.cell r

  -- msg.status = status
  unfoldable pub mark : Ref → MessageStatus → World C → World C
  mark r status w = record w { heap = set_status r status w.heap }

  -- A reading of the clock.
  abbrev pub now : World C → ℕ
  now w = w.clock w.readings

  -- `if self._store: await self._store.save_message(msg)`
  unfoldable pub save : Ref → World C → World C
  save r w = record w { store = Option.map (Persistence.save_message r (fields r w)) w.store }

  -- `if self._store: await self._store.add_to_dlq(msg, reason)`, which reads the clock
  unfoldable pub dead_letter : Ref → String → World C → World C
  dead_letter r reason w = record w {
    store = Option.map (Persistence.add_to_dlq r (fields r w) reason (now w)) w.store;
    readings = if is_some w.store then w.readings + 1 else w.readings;
  }

  -- `if self._store: await self._store.update_message_status(id, status)`
  unfoldable pub update_stored : String → MessageStatus → World C → World C
  unfolding updated
  update_stored id status w = record w { heap = updated w.store id status w.heap }

  -- self.metrics[...] += 1
  abbrev pub count_delivered : World C → World C
  count_delivered w = record w {
    metrics = record (w.metrics) { delivered = w.metrics.delivered + 1 };
  }

  abbrev pub count_failed : World C → World C
  count_failed w = record w { metrics = record (w.metrics) { failed = w.metrics.failed + 1 } }

  abbrev pub count_broadcast : World C → World C
  count_broadcast w = record w {
    metrics = record (w.metrics) { broadcast = w.metrics.broadcast + 1 };
  }

  abbrev pub count_forwarded : World C → World C
  count_forwarded w = record w {
    metrics = record (w.metrics) { forwarded = w.metrics.forwarded + 1 };
  }

  abbrev pub count_denied : World C → World C
  count_denied w = record w {
    metrics = record (w.metrics) { security_denied = w.metrics.security_denied + 1 };
  }

  abbrev pub count_invalid : World C → World C
  count_invalid w = record w {
    metrics = record (w.metrics) { validation_failed = w.metrics.validation_failed + 1 };
  }

  -- `register_agent`
  unfoldable pub register_agent : Agent → World C → World C
  register_agent a w = record w {
    agents = Dict.put a.agent_id a w.agents;
    inboxes = if Dict.has a.agent_id w.inboxes then w.inboxes else Dict.put a.agent_id [] w.inboxes;
    registry =
        if Dict.has a.agent_id w.registry.agents
        then w.registry
        else Registry.register a w.registry;
  }

  -- `unregister_agent`; the registry's `ValueError`, if any, passes through.
  unfoldable pub unregister_agent : String → World C → Outcome C Unit
  unregister_agent agent_id w =
      let (registry, failed) = Registry.unregister agent_id w.registry in
      let w' : World C = record w {
        agents = Dict.remove agent_id w.agents;
        inboxes = Dict.remove agent_id w.inboxes;
        registry = registry;
      } in
      if failed then raised "ValueError" w' else done tt w'

  unfoldable pub set_router : MessageRouter → World C → World C
  set_router router w = record w { router = router }

  unfoldable pub get_agent_ids : World C → List String
  get_agent_ids w = Dict.keys w.agents

  unfoldable pub get_agent : String → World C → Option Agent
  get_agent agent_id w = Dict.get agent_id w.agents

  -- `__init__` of a broker among the objects of `heap`.
  unfoldable pub new :
      Heap
      → (ℕ → ℕ)
      → (ℕ → Option String)
      → Option AgentRegistry
      → Option Store
      → Option SecurityManager
      → Option C
      → Option MessageRouter
      → World C
  new heap clock put_error registry store security_manager cluster_manager router = record {
    heap = heap;
    agents = [];
    inboxes = [];
    registry = or_else registry Registry.empty;
    store = store;
    security_manager = security_manager;
    cluster_manager = cluster_manager;
    router = or_else router Router.new;
    pending_messages = [];
    futures = λ n. none;
    next_future = 0;
    counter = 0;
    metrics = no_metrics;
    clock = clock;
    readings = 0;
    put_error = put_error;
  }
