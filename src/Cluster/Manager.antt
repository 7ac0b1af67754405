-- ===== src/Cluster/Manager.antt =====
-- `ClusterManager`.
use agents_protocol.Prelude.{
  ℕ, ◌+◌, String, Bool, true, false, Option, none, some, List, [], ◌∷◌, ◌==◌, ltb, if◌then◌else◌,
}
use agents_protocol.Dict
use agents_protocol.Dict.{Dict}
use agents_protocol.Protocol.{AgentMessage}
use agents_protocol.Cluster.Peer.{
  ClusterNodeInfo, Client, ClusterPeer, Network, new_peer, forward_message, send_heartbeat,
}

-- `clients` is how many clients were made; the next one has this number.
pub record ClusterManager : Type 0 where
  pub node_id : String
  pub endpoint : Option String
  pub peers : Dict ClusterPeer
  pub remote_agents : Dict String
  pub running : Bool
  pub heartbeat_task : Bool
  pub client : Option Client
  pub clients : ℕ

-- `node_id or str(uuid.uuid4())`
abbrev id_or : Option String → String → String
id_or none drawn = drawn
id_or (some n) drawn = if n == "" then drawn else n

-- `__init__`; `drawn` is the uuid.
abbrev pub new : Option String → String → Option String → ClusterManager
new node_id drawn endpoint = record {
  node_id = id_or node_id drawn;
  endpoint = endpoint;
  peers = [];
  remote_agents = [];
  running = false;
  heartbeat_task = false;
  client = none;
  clients = 0;
}

unfoldable pub start : ClusterManager → ClusterManager
start c = if c.running then c else record c {
  client = some c.clients;
  clients = c.clients + 1;
  running = true;
  heartbeat_task = true;
}

-- `if not self._client`: the manager with a client, and the client.
unfoldable pub with_client : ClusterManager → ClusterManager × Client
with_client c = elim c.client [
  | none ↦ (record c { client = some c.clients; clients = c.clients + 1 }, c.clients)
  | some k ↦ (c, k)
]

unfoldable pub add_peer : ClusterNodeInfo → ClusterManager → ClusterManager
unfolding with_client
add_peer info c =
    if info.node_id == c.node_id
    then c
    else (let (d, k) = with_client c in
        record d { peers = Dict.put info.node_id (new_peer info k) d.peers })

unfoldable pub register_remote_agent : String → String → ClusterManager → ClusterManager
register_remote_agent agent_id node_id c = record c {
  remote_agents = Dict.put agent_id node_id c.remote_agents;
}

unfoldable pub get_peer_for_agent : String → ClusterManager → Option ClusterPeer
get_peer_for_agent agent_id c = elim (Dict.get agent_id c.remote_agents) [
  | none ↦ none
  | some node_id ↦ if node_id == "" then none else Dict.get node_id c.peers
]

-- `now - last_seen > 30.0`
abbrev pub is_stale : ℕ → ClusterPeer → Bool
is_stale now p = ltb (p.node_info.last_seen + 30000) now

-- The comprehension of `to_remove`.
unfoldable pub stale_nodes : ℕ → Dict ClusterPeer → List String
stale_nodes now [] = []
stale_nodes now ((n, p) ∷ peers) =
    let rest = stale_nodes now peers in if is_stale now p then n ∷ rest else rest

-- The remote agents without those of a node.
unfoldable pub forget_node : String → Dict String → Dict String
forget_node node_id [] = []
forget_node node_id ((a, n) ∷ agents) =
    let rest = forget_node node_id agents in if n == node_id then rest else (a, n) ∷ rest

-- The loop over `to_remove`.
unfoldable pub remove_nodes : List String → ClusterManager → ClusterManager
unfolding forget_node
remove_nodes [] c = c
remove_nodes (n ∷ ns) c =
    remove_nodes ns
      (record c { peers = Dict.remove n c.peers; remote_agents = forget_node n c.remote_agents })

-- The cleanup of the heartbeat loop at the time `now`.
unfoldable pub prune : ℕ → ClusterManager → ClusterManager
unfolding stale_nodes remove_nodes
prune now c = remove_nodes (stale_nodes now c.peers) c

module _ {S : Type 0} (net : Network S) where
  abbrev pub close_client : Option Client → S → S
  close_client none s = s
  close_client (some k) s = net.aclose k s

  -- `stop`: the task is cancelled and the client closed; both fields keep their objects.
  unfoldable pub stop : ClusterManager → S → ClusterManager × S
  stop c s = (record c { running = false }, close_client c.client s)

  -- The heartbeats of all peers.
  unfoldable pub beat_all : Dict ClusterPeer → S → Dict ClusterPeer × S
  unfolding send_heartbeat
  beat_all [] s = ([], s)
  beat_all ((n, p) ∷ peers) s =
      let out = send_heartbeat net p s in
      let rest = beat_all peers out.1 in ((n, out.0.1) ∷ rest.0, rest.1)

  -- One round of `_heartbeat_loop`, without the sleep after it.
  unfoldable pub heartbeat_round : ClusterManager → S → ClusterManager × S
  unfolding beat_all prune
  heartbeat_round c s =
      let out = beat_all c.peers s in
      (prune (net.loop_time out.1) (record c { peers = out.0 }), out.1)

  unfoldable pub forward_all : AgentMessage → Dict ClusterPeer → S → Dict ClusterPeer × S
  unfolding forward_message
  forward_all m [] s = ([], s)
  forward_all m ((n, p) ∷ peers) s =
      let out = forward_message net m p s in
      let rest = forward_all m peers out.2 in ((n, out.1) ∷ rest.0, rest.1)

  -- `broadcast_to_peers`, each peer's forward run to its end before the next one
  unfoldable pub broadcast_to_peers : AgentMessage → ClusterManager → S → ClusterManager × S
  unfolding forward_all
  broadcast_to_peers m c s =
      let out = forward_all m c.peers s in (record c { peers = out.0 }, out.1)
