-- ===== src/Cluster/Restart.antt =====
-- What a stop and a start of the cluster manager mean for the peers that it has.
use mathlib.Core.Path.{transport}
use Prim.Native.String.{◌++◌ as text_append}
use agents_protocol.Prelude.{
  ℕ, String, ◌≡◌, refl, ap, sym, ◌∙◌, false, some, Option, ◌<◌, ◌≢◌, arith,
}
use agents_protocol.Dict
use agents_protocol.Protocol.{AgentMessage}
use agents_protocol.Cluster.Peer.{
  ClusterNodeInfo, Client, transport_error, ForwardError, Network, ClusterPeer, judge, forward_once,
  forward_message, seen, send_heartbeat,
}
use agents_protocol.Cluster.Manager.{
  ClusterManager, close_client, start, stop, add_peer, with_client,
}
use agents_protocol.Cluster.Manager
use agents_protocol.Cluster.Failing.{Raises, forward_message-fails}

-- What httpx says of a client that was closed: its calls raise, and it stays closed.
pub record IsClosing {S : Type 0} (net : Network S) (Closed : Client → S → Type 0) : Type 0 where
  pub closes : (k : Client) (s : S) → Closed k (net.aclose k s)
  pub refuses_post :
      (k : Client) (url : String) (m : AgentMessage) (s : S)
      → Closed k s
      → (e : String) × ((net.post k url m s).0 ≡ transport_error e)
        × Closed k (net.post k url m s).1
  pub refuses_get :
      (k : Client) (url : String) (s : S)
      → Closed k s
      → (e : String) × ((net.get_health k url s).0 ≡ transport_error e)
  pub sleeps : (k : Client) (d : ℕ) (s : S) → Closed k s → Closed k (net.sleep d s)

-- The manager's client, if it has one, is one of those that were made.
abbrev pub IsNumbered : ClusterManager → Type 0
IsNumbered c = (k : Client) → c.client ≡ some k → k < c.clients

new-IsNumbered :
    (node_id : Option String) (drawn : String) (endpoint : Option String)
    → IsNumbered (Manager.new node_id drawn endpoint)
new-IsNumbered node_id drawn endpoint k e = absurd (cc e)

start-IsNumbered : (c : ClusterManager) → IsNumbered c → IsNumbered (start c)
unfolding start
start-IsNumbered c n k e = ground (arith, n k)

add_peer-IsNumbered :
    (info : ClusterNodeInfo) (c : ClusterManager) → IsNumbered c → IsNumbered (add_peer info c)
unfolding add_peer with_client
add_peer-IsNumbered info c n k e = ground (arith, n k)

stop-IsNumbered :
    {S : Type 0} (net : Network S) (c : ClusterManager) (s : S)
    → IsNumbered c
    → IsNumbered (stop net c s).0
unfolding stop
stop-IsNumbered net c s n k e = n k e

module _ {S : Type 0} (net : Network S) (Closed : Client → S → Type 0)
    (closing : IsClosing net Closed) where
  forward_once-Closed :
      (p : ClusterPeer) (m : AgentMessage) → Raises (Closed p.client) (forward_once net p m)
  unfolding forward_once
  forward_once-Closed p m s c =
      let url = text_append p.node_info.endpoint "/internal/forward" in
      let (e, k, d) = closing.refuses_post p.client url m s c in
      (ForwardError.transport e, ap judge k ∙ (unfold judge in refl), d)

  send_heartbeat-Closed :
      (p : ClusterPeer) (s : S) → Closed p.client s → (send_heartbeat net p s).0 ≡ (false, p)
  send_heartbeat-Closed p s c =
      let url = text_append p.node_info.endpoint "/health" in
      let (e, k) = closing.refuses_get p.client url s c in
      unfold send_heartbeat in rw k (unfold seen in refl)

  -- Let a peer have the client of a manager that runs, as the peers have that are added while it runs,
  -- and let the manager's client be one that was made. If the manager is stopped and started again, the
  -- peer is still there with the old client, which is closed, and the manager has another client. From
  -- then on, as long as the old client is closed, every forward to the peer answers false, and so does
  -- every heartbeat, which does not note that the peer was seen.
  pub start-stop :
      (c : ClusterManager) (node_id : String) (p : ClusterPeer) (s : S)
      → IsNumbered c
      → Dict.get node_id c.peers ≡ some p
      → c.client ≡ some p.client
      → let (d, t) = stop net c s in
        (Dict.get node_id (start d).peers ≡ some p)
        × ((k : Client) × ((start d).client ≡ some k) × (k ≢ p.client))
        × Closed p.client t
        × ((m : AgentMessage) (u : S)
            → Closed p.client u
            → ((forward_message net m p u).0 ≡ false) × ((send_heartbeat net p u).0 ≡ (false, p)))
  unfolding start stop
  start-stop c node_id p s n e k = (
    e,
    (c.clients, refl, λ x. omega (arith, n p.client k)),
    transport (ap (λ o. Closed p.client (close_client net o s)) (sym k))
        (closing.closes p.client s),
    λ m u x. (
      forward_message-fails net p m (Closed p.client) (closing.sleeps p.client) u x
          (forward_once-Closed p m),
      send_heartbeat-Closed p u x,
    ),
  )
