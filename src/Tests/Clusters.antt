-- ===== src/Tests/Clusters.antt =====
-- A broker whose cluster has a peer with an open breaker.
use agents_protocol.Prelude.{
  ℕ, ◌+◌, ◌≡◌, Bool, true, List, eqb, if◌then◌else◌, refl, false, none, some, [], ◌∷◌, arith, ◌≢◌,
}
use agents_protocol.Dict
use agents_protocol.Registry.{empty}
use agents_protocol.Router
use agents_protocol.Router.{route}
use agents_protocol.Persistence
use agents_protocol.Extensions.{validate_message}
use agents_protocol.Resilience.Breaker
use agents_protocol.Resilience.Breaker.{CircuitBreaker, opened}
use agents_protocol.Broker.World.{World, no_metrics}
use agents_protocol.Broker.Sending.{is_direct, do_send}
use agents_protocol.Broker.Handover.{HandedOver}
use agents_protocol.Cluster
use agents_protocol.Cluster.{
  ClusterNodeInfo, Network, ClusterPeer, ClusterManager, response, Client, transport_error,
  forward_message, send_heartbeat,
}
use agents_protocol.Cluster.Peer.{new_peer}
use agents_protocol.Cluster.Manager.{get_peer_for_agent, start, stop, add_peer}
use agents_protocol.Cluster.Restart.{IsClosing, start-stop}
use agents_protocol.Protocol.{AgentMessage}
use agents_protocol.Cluster.Link.{update_peer, cluster_link}
use agents_protocol.Cluster.EndToEnd.{do_send-opened}
use agents_protocol.Tests.Data.{question}

-- A network that answers 200 to everything, its state being the time.
abbrev ready : Network ℕ
ready = record {
  post = λ k url m t. (response 200, t + 1);
  aclose = λ k s. s;
  get_health = λ k url t. (response 200, t + 1);
  time = λ t. t;
  loop_time = λ t. t;
  sleep = λ d t. t + d;
  draw = λ k. 0;
}

abbrev other : ClusterNodeInfo
other = record {
  node_id = "n2";
  endpoint = "http://10.0.0.3:8080";
  capabilities = [];
  last_seen = 0;
}

abbrev broken : ClusterPeer
broken = record (new_peer other 0) {
  circuit_breaker = record (Breaker.new 3 60000 "peer-n2") {
    state = opened;
    failure_count = 3;
    last_failure_time = 10;
  };
}

abbrev pair : ClusterManager
pair = record (Cluster.new (some "n0") "u" none) {
  peers = ("n2", broken) ∷ [];
  remote_agents = ("planner", "n2") ∷ [];
}

abbrev joined : World (ClusterManager × ℕ)
joined = record {
  heap = record { next = 1; cell = λ r. question };
  agents = [];
  inboxes = [];
  registry = empty;
  store = some Persistence.new;
  security_manager = none;
  cluster_manager = some (pair, 20);
  router = Router.new;
  pending_messages = [];
  futures = λ f. none;
  next_future = 0;
  counter = 0;
  metrics = no_metrics;
  clock = λ n. n;
  readings = 0;
  put_error = λ n. none;
}

do_send-opened_example :
    HandedOver false
      (update_peer "planner" broken pair, 20)
      0
      joined
      (do_send (cluster_link ready) [] 0 joined)
unfolding validate_message Dict.get route is_direct get_peer_for_agent
do_send-opened_example =
    do_send-opened ready [] "planner" 0 joined broken pair 20 refl refl refl refl refl refl refl
      refl refl (omega arith)

abbrev has_client : Client → List Client → Bool
has_client k [] = false
has_client k (x ∷ xs) = let rest = has_client k xs in if eqb x k then true else rest

-- A network that knows which clients were closed.
abbrev closing : Network (List Client)
closing = record {
  post = λ k url m ks. (if has_client k ks then transport_error "closed" else response 200, ks);
  aclose = λ k ks. k ∷ ks;
  get_health = λ k url ks. (if has_client k ks then transport_error "closed" else response 200, ks);
  time = λ ks. 0;
  loop_time = λ ks. 0;
  sleep = λ d ks. ks;
  draw = λ k. 0;
}

closing-IsClosing : IsClosing closing (λ k ks. has_client k ks ≡ true)
closing-IsClosing = record {
  closes = λ k s. ground arith;
  refuses_post = λ k url m s c. ("closed", rw c refl, c);
  refuses_get = λ k url s c. ("closed", rw c refl);
  sleeps = λ k d s c. c;
}

-- A manager that runs, and the peer that was added to it.
abbrev running : ClusterManager
running = add_peer other (start (Cluster.new (some "n0") "u" none))

start-stop_example :
    let (d, t) = stop closing running [] in
    (Dict.get "n2" (start d).peers ≡ some (new_peer other 0))
    × ((k : Client) × ((start d).client ≡ some k) × (k ≢ 0))
    × (has_client 0 t ≡ true)
    × ((m : AgentMessage) (u : List Client)
        → has_client 0 u ≡ true
        → ((forward_message closing m (new_peer other 0) u).0 ≡ false)
          × ((send_heartbeat closing (new_peer other 0) u).0 ≡ (false, new_peer other 0)))
unfolding Dict.get Dict.put add_peer start stop new_peer
start-stop_example =
    start-stop closing (λ k ks. has_client k ks ≡ true) closing-IsClosing running "n2"
      (new_peer other 0) [] (λ k e. ground arith) refl refl
