-- ===== src/Cluster/EndToEnd.antt =====
-- A broker with a cluster manager as its cluster.
use agents_protocol.Prelude.{String, ◌≤◌, ◌+◌, ◌≡◌, ap, true, false, some, none, List}
use agents_protocol.Dict
use agents_protocol.Protocol.{AgentMessage}
use agents_protocol.Objects.{Ref}
use agents_protocol.Extensions.{ValidationRule, validate_message}
use agents_protocol.Router.{route}
use agents_protocol.Security.{status, success}
use agents_protocol.Resilience.Breaker.{opened}
use agents_protocol.Broker.World.{World, fields}
use agents_protocol.Broker.Sending.{verdict, is_direct, do_send}
use agents_protocol.Broker.Refusals.{as_sent}
use agents_protocol.Broker.Handover.{HandedOver, do_send-HandedOver}
use agents_protocol.Cluster.Peer.{Network, ClusterPeer}
use agents_protocol.Cluster.Manager.{ClusterManager, get_peer_for_agent}
use agents_protocol.Cluster.Link.{update_peer, forward_to, cluster_link}
use agents_protocol.Cluster.Forwarding.{forward_message-opened}

module _ {S : Type 0} (net : Network S) where
  forward-opened :
      (rid : String) (m : AgentMessage) (p : ClusterPeer) (c : ClusterManager) (s : S)
      → get_peer_for_agent rid c ≡ some p
      → p.circuit_breaker.state ≡ opened
      → net.time s ≤ p.circuit_breaker.last_failure_time + p.circuit_breaker.recovery_timeout
      → (cluster_link net).forward rid m (c, s) ≡ some (false, (update_peer rid p c, s))
  unfolding cluster_link forward_to
  forward-opened rid m p c s known tripped early = rw known (
      ap (λ out. some (out.0, (update_peer rid out.1 c, out.2)))
        (forward_message-opened net m p s tripped early))

  -- Let a message pass the rules and the security check, for a recipient that is no agent of the broker,
  -- has no inbox, and for which the router finds nobody else, and let the cluster manager have a peer
  -- for it whose breaker is open, its recovery timeout not over. Then the send returns `failed`, the
  -- message is marked and counted so, and the network is not used: its state is the same.
  pub do_send-opened :
      (rules : List ValidationRule) (rid : String) (r : Ref) (w : World (ClusterManager × S))
      (p : ClusterPeer) (c : ClusterManager) (s : S)
      → validate_message rules (as_sent (fields r w)) ≡ none
      → verdict w.security_manager (as_sent (fields r w)) ≡ status success
      → (fields r w).recipient_id ≡ some rid
      → Dict.get rid w.agents ≡ none
      → Dict.get rid w.inboxes ≡ none
      → is_direct rid (route w.router (as_sent (fields r w)) (Dict.keys w.agents)) ≡ true
      → w.cluster_manager ≡ some (c, s)
      → get_peer_for_agent rid c ≡ some p
      → p.circuit_breaker.state ≡ opened
      → net.time s ≤ p.circuit_breaker.last_failure_time + p.circuit_breaker.recovery_timeout
      → HandedOver false (update_peer rid p c, s) r w (do_send (cluster_link net) rules r w)
  do_send-opened rules rid r w p c s valid secure to away inbox direct cluster known tripped early =
      do_send-HandedOver (cluster_link net) rules rid r w (c, s) (update_peer rid p c, s) false
        valid secure to away inbox direct cluster
        (forward-opened rid (as_sent (fields r w)) p c s known tripped early)
