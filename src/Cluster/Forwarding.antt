-- ===== src/Cluster/Forwarding.antt =====
-- What a forward to a peer does with the circuit breaker and the network.
use agents_protocol.Prelude.{◌≤◌, ◌≡◌, ap, ◌+◌, false}
use agents_protocol.Protocol.{AgentMessage}
use agents_protocol.Resilience.Breaker.{opened}
use agents_protocol.Resilience.Breaker.Tripping.{opened-rejects}
use agents_protocol.Cluster.Peer.{
  Network, ClusterPeer, forward_with_retries, forward_message, as_success,
}

-- While a peer's breaker is open and its recovery timeout is not over, a forward to it answers false,
-- and nothing is sent, awaited or changed: the network and the peer are as before.
pub forward_message-opened :
    {S : Type 0} (net : Network S) (m : AgentMessage) (p : ClusterPeer) (s : S)
    → p.circuit_breaker.state ≡ opened
    → net.time s ≤ p.circuit_breaker.last_failure_time + p.circuit_breaker.recovery_timeout
    → forward_message net m p s ≡ (false, p, s)
unfolding forward_message
forward_message-opened net m p s e h =
    let refused =
      opened-rejects (net.time s) net.time (forward_with_retries net p m) p.circuit_breaker s e h in
    ap (λ out. (as_success out.0, record p { circuit_breaker = out.1 }, out.2)) refused
