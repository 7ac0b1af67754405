-- ===== src/Channel/Unserved.antt =====
-- What a cluster's peer gets from a node whose endpoint is served by the HTTP channel.
use Prim.Native.String.{◌++◌ as text_append}
use agents_protocol.Prelude.{String, ◌≡◌, refl, false, Option, [], ◌∷◌, arith, ◌⊎◌, inl, inr}
use agents_protocol.Protocol.{AgentMessage, MessageStatus}
use agents_protocol.Objects.{Ref}
use agents_protocol.Extensions.{ExtensionManager}
use agents_protocol.Broker.World.{World, Outcome, Act, done, raised, blocked}
use agents_protocol.Broker.Sending.{ClusterLink}
use agents_protocol.Cluster.Peer.{
  Client, Response, response, transport_error, ForwardError, Network, ClusterPeer, judge,
  forward_once, forward_message, seen, send_heartbeat,
}
use agents_protocol.Cluster.Failing.{Raises, forward_message-fails}
use agents_protocol.Channel.Stream.{Bytes}
use agents_protocol.Channel.Http.{Request}
use agents_protocol.Channel.Serving.{
  same, post_method, message_path, Written, ok, not_found, nothing, respond,
}

-- "GET"
abbrev pub get_method : Bytes
get_method = 71 ∷ 69 ∷ 84 ∷ []

-- What a client makes of what the handler wrote.
abbrev pub answered : {C : Type 0} → Outcome C Written → Response × World C
answered (done (ok id) w) = (response 200, w)
answered (done not_found w) = (response 404, w)
answered (done nothing w) = (transport_error "no response", w)
answered (raised e w) = (transport_error e, w)
answered (blocked w) = (transport_error "time is over", w)

-- A client whose requests are answered by the handler of the HTTP channel; `path_of` and `body_of` are
-- what it makes of an address and of a message.
pub record IsServed {C : Type 0} (net : Network (World C)) (link : ClusterLink C)
    (ext : ExtensionManager Ref (Act C MessageStatus)) (read_message : Bytes → Option AgentMessage)
    (path_of : String → Bytes) (body_of : AgentMessage → Bytes) : Type 0 where
  pub posts :
      (k : Client) (url : String) (m : AgentMessage) (w : World C)
      → net.post k url m w
        ≡ answered (
            respond link ext read_message
              (record { method = post_method; path = path_of url; body = body_of m })
              w)
  pub gets :
      (k : Client) (url : String) (w : World C)
      → net.get_health k url w
        ≡ answered (
            respond link ext read_message
              (record { method = get_method; path = path_of url; body = [] })
              w)

module _ {C : Type 0} (net : Network (World C)) (link : ClusterLink C)
    (ext : ExtensionManager Ref (Act C MessageStatus)) (read_message : Bytes → Option AgentMessage)
    (path_of : String → Bytes) (body_of : AgentMessage → Bytes) where
  respond_other :
      (q : Request) (w : World C)
      → (same q.method post_method ≡ false) ⊎ (same q.path message_path ≡ false)
      → respond link ext read_message q w ≡ done not_found w
  unfolding respond
  respond_other q w (inl e) = ground (arith, e)
  respond_other q w (inr e) = ground (arith, e)

  forward_once-Raises :
      (p : ClusterPeer) (m : AgentMessage)
      → IsServed net link ext read_message path_of body_of
      → same (path_of (text_append p.node_info.endpoint "/internal/forward")) message_path ≡ false
      → Raises (λ w. Unit {0}) (forward_once net p m)
  forward_once-Raises p m h e w always =
      let url = text_append p.node_info.endpoint "/internal/forward" in
      let q : Request = record { method = post_method; path = path_of url; body = body_of m } in
      (
        ForwardError.http_status 404,
        (unfold forward_once in
            rw (h.posts p.client url m w, respond_other q w (inr e)) (unfold judge in refl)),
        tt,
      )

  forward_message-false :
      (p : ClusterPeer) (m : AgentMessage) (w : World C)
      → IsServed net link ext read_message path_of body_of
      → same (path_of (text_append p.node_info.endpoint "/internal/forward")) message_path ≡ false
      → (forward_message net m p w).0 ≡ false
  forward_message-false p m w h e =
      forward_message-fails net p m (λ v. Unit {0}) (λ d v always. tt) w tt
        (forward_once-Raises p m h e)

  send_heartbeat-false :
      (p : ClusterPeer) (w : World C)
      → IsServed net link ext read_message path_of body_of
      → send_heartbeat net p w ≡ ((false, p), w)
  send_heartbeat-false p w h =
      let url = text_append p.node_info.endpoint "/health" in
      let q : Request = record { method = get_method; path = path_of url; body = [] } in
      unfold send_heartbeat in
      rw (h.gets p.client url w, respond_other q w (inl (unfold same in refl)))
        (unfold seen in refl)

  -- Let the requests to a peer be answered by the HTTP channel's handler, and let the path of a forward
  -- not be "/message". Then, whatever the peer's breaker and retry policy are, a forward answers false,
  -- and a heartbeat answers false and changes neither the peer nor the broker that serves.
  pub forward_message-unserved :
      (p : ClusterPeer) (m : AgentMessage) (w : World C)
      → IsServed net link ext read_message path_of body_of
      → same (path_of (text_append p.node_info.endpoint "/internal/forward")) message_path ≡ false
      → ((forward_message net m p w).0 ≡ false) × (send_heartbeat net p w ≡ ((false, p), w))
  forward_message-unserved p m w h e = (forward_message-false p m w h e, send_heartbeat-false p w h)
