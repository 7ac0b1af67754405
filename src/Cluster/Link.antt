-- ===== src/Cluster/Link.antt =====
-- The cluster manager as the broker uses it in `_do_send`, together with the network.
use agents_protocol.Prelude.{String, Bool, Option, none, some}
use agents_protocol.Dict
use agents_protocol.Protocol.{AgentMessage}
use agents_protocol.Broker.{ClusterLink}
use agents_protocol.Cluster.Peer.{Network, ClusterPeer, forward_message}
use agents_protocol.Cluster.Manager.{ClusterManager, get_peer_for_agent}

-- The peer that hosts the agent is the same object in `peers`, so what the forward does to it shows.
unfoldable pub update_peer : String → ClusterPeer → ClusterManager → ClusterManager
update_peer agent_id p c = elim (Dict.get agent_id c.remote_agents) [
  | none ↦ c
  | some node_id ↦ record c { peers = Dict.put node_id p c.peers }
]

module _ {S : Type 0} (net : Network S) where
  -- The forward to the peer that was found.
  unfoldable pub forward_to :
      Option ClusterPeer
      → String
      → AgentMessage
      → ClusterManager × S
      → Option (Bool × (ClusterManager × S))
  unfolding forward_message update_peer
  forward_to none agent_id m (c, s) = none
  forward_to (some p) agent_id m (c, s) =
      let out = forward_message net m p s in some (out.0, (update_peer agent_id out.1 c, out.2))

  unfoldable pub cluster_link : ClusterLink (ClusterManager × S)
  unfolding forward_to get_peer_for_agent
  cluster_link = record {
    forward = λ agent_id m cs. forward_to (get_peer_for_agent agent_id cs.0) agent_id m cs;
  }
