-- ===== src/Tests/Data.antt =====
-- Messages, agents and a broker to try the theorems on.
use agents_protocol.Prelude.{none, some, [], ◌∷◌, refl, arith}
use agents_protocol.Json.{no_fields}
use agents_protocol.Protocol.{AgentMessage, MessageType, normal, high, pending}
use agents_protocol.Registry.{Agent, empty}
use agents_protocol.Router
use agents_protocol.Persistence
use agents_protocol.Security
use agents_protocol.Broker.{ClusterLink, no_metrics}
use agents_protocol.Broker.World.{World}
use agents_protocol.Broker.Registration.{IsBroker}
use agents_protocol.Registry.Index.{empty-IsIndexed}
use agents_protocol.Dict
use agents_protocol.Broker.Queues.{IsQueued}

-- From `scout` to `planner`.
abbrev pub question : AgentMessage
question = record {
  id = "m1";
  type = MessageType.request;
  sender_id = "scout";
  recipient_id = some "planner";
  priority = high;
  status = pending;
  timestamp = 7;
  correlation_id = some "c1";
  reply_to = none;
  content = no_fields;
  metadata = no_fields;
  security = none;
}

-- From `scout` to everybody.
abbrev pub notice : AgentMessage
notice = record question { id = "m2"; recipient_id = none; priority = normal }

abbrev pub planner : Agent
planner = record {
  agent_id = "planner";
  name = "Planner";
  capabilities = "plan" ∷ "search" ∷ [];
  metadata = no_fields;
}

abbrev pub scout : Agent
scout = record {
  agent_id = "scout";
  name = "Scout";
  capabilities = "search" ∷ [];
  metadata = no_fields;
}

-- No cluster manager.
abbrev pub no_link : ClusterLink (Unit {0})
no_link = record { forward = λ a m c. none }

abbrev pub idle : World (Unit {0})
idle = record {
  heap = record { next = 1; cell = λ r. question };
  agents = [];
  inboxes = [];
  registry = empty;
  store = some Persistence.new;
  security_manager = some (Security.new none);
  cluster_manager = none;
  router = Router.new;
  pending_messages = [];
  futures = λ f. none;
  next_future = 0;
  counter = 0;
  metrics = no_metrics;
  clock = λ n. n;
  readings = 0;
  put_error = λ n. none;
}

pub idle-IsBroker : IsBroker idle
unfolding Dict.get
idle-IsBroker = record {
  distinct = λ a. omega arith;
  same_keys = λ a. refl;
  indexed = empty-IsIndexed;
}

-- A broker with two agents, their inboxes empty.
abbrev pub staffed : World (Unit {0})
staffed = record idle {
  agents = ("planner", planner) ∷ ("scout", scout) ∷ [];
  inboxes = ("planner", []) ∷ ("scout", []) ∷ [];
}

pub idle-IsQueued : IsQueued [] idle
unfolding Dict.get
idle-IsQueued = record {
  sorted = λ a q e. absurd (ground (arith, e));
  bounded = λ a q e. absurd (ground (arith, e));
  once = λ n. omega arith;
  fresh = λ n l. refl;
}
