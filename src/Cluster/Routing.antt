-- ===== src/Cluster/Routing.antt =====
-- Finding the peer of a remote agent.
use agents_protocol.Prelude.{String, ◌≡◌, ◌≢◌, some, arith, eq_iff, eq_refl}
use agents_protocol.Cluster.Peer.{ClusterNodeInfo, new_peer}
use agents_protocol.Cluster.Manager.{
  ClusterManager, with_client, add_peer, register_remote_agent, get_peer_for_agent,
}
use agents_protocol.Dict.Laws.{get-put}

-- Once a node with an id of its own, neither empty nor that of this node, is added as a peer and an
-- agent is registered as remote on it, the agent's peer is that node's new peer: connections to
-- other peers and earlier registrations do not matter.
pub get_peer_for_agent-added :
    (info : ClusterNodeInfo) (agent_id : String) (c : ClusterManager)
    → info.node_id ≢ c.node_id
    → info.node_id ≢ ""
    → get_peer_for_agent agent_id (register_remote_agent agent_id info.node_id (add_peer info c))
      ≡ some (new_peer info (with_client c).1)
unfolding get_peer_for_agent register_remote_agent add_peer with_client
get_peer_for_agent-added info agent_id c h e = ground (
  arith,
  get-put agent_id agent_id info.node_id c.remote_agents,
  get-put info.node_id info.node_id (new_peer info (with_client c).1) c.peers,
  eq_iff info.node_id c.node_id,
  eq_iff info.node_id "",
  eq_refl agent_id,
  eq_refl info.node_id,
)
