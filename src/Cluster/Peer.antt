-- ===== src/Cluster/Peer.antt =====
-- `ClusterNodeInfo` and `ClusterPeer`.
use agents_protocol.Prelude.{
  ℕ, String, Bool, true, false, ◌&&◌, List, [], ◌∷◌, leb, eqb, if◌then◌else◌, pos,
}
use Prim.Native.String.{◌++◌ as text_append}
use agents_protocol.Protocol.{AgentMessage}
use agents_protocol.Resilience.Breaker
use agents_protocol.Resilience.Breaker.{
  CircuitBreaker, Attempt, returned, raised, Answer, result, failure, circuit_open, call,
}
use agents_protocol.Resilience.Retry.{RetryPolicy, Run, Ending, value, failed, no_attempt, execute}

pub record ClusterNodeInfo : Type 0 where
  pub node_id : String
  pub endpoint : String
  pub capabilities : List String
  pub last_seen : ℕ

-- What a call of the HTTP client brings: a response with its status code, or an exception.
pub data Response : Type 0 where
  response : ℕ → Response
  transport_error : String → Response

-- The exceptions that a forward raises: that of the client, that of `raise_for_status`, and that of a
-- retry policy without attempts.
pub data ForwardError : Type 0 where
  transport : String → ForwardError
  http_status : ℕ → ForwardError
  no_attempts : ForwardError

-- An `httpx.AsyncClient`.
abbrev pub Client : Type 0
Client = ℕ

-- What the cluster uses of the world: a client's calls, the two clocks, `asyncio.sleep` and the random
-- draws of the jitter, in thousandths.
pub record Network (S : Type 0) : Type 0 where
  pub post : Client → String → AgentMessage → S → Response × S
  pub get_health : Client → String → S → Response × S
  pub aclose : Client → S → S
  pub time : S → ℕ
  pub loop_time : S → ℕ
  pub sleep : ℕ → S → S
  pub draw : ℕ → ℕ

pub record ClusterPeer : Type 0 where
  pub node_info : ClusterNodeInfo
  pub client : Client
  pub connected : Bool
  pub circuit_breaker : CircuitBreaker
  pub retry_policy : RetryPolicy ForwardError

-- `RetryPolicy(max_retries=2, base_delay=0.5, jitter=True)`
abbrev pub peer_policy : RetryPolicy ForwardError
peer_policy = record {
  max_retries = pos 2;
  base_delay = 500;
  max_delay = 10000;
  exponential_base = 2;
  jitter = true;
  retry_on = (λ e. true) ∷ [];
}

-- `ClusterPeer.__init__`
unfoldable pub new_peer : ClusterNodeInfo → Client → ClusterPeer
new_peer info client = record {
  node_info = info;
  client = client;
  connected = false;
  circuit_breaker = Breaker.new 3 60000 (text_append "peer-" info.node_id);
  retry_policy = peer_policy;
}

-- `raise_for_status` and `status_code == 200`
unfoldable pub judge : Response → Attempt Bool ForwardError
judge (transport_error e) = raised (transport e)
judge (response code) =
    if leb 200 code && leb code 299 then returned (eqb code 200) else raised (http_status code)

-- How the retried call ends, for the circuit breaker.
abbrev pub as_attempt : Ending Bool ForwardError → Attempt Bool ForwardError
as_attempt (value b) = returned b
as_attempt (failed e) = raised e
as_attempt no_attempt = raised no_attempts

-- The handlers of `forward_message`.
abbrev pub as_success : Answer Bool ForwardError → Bool
as_success (result b) = b
as_success (failure e) = false
as_success circuit_open = false

module _ {S : Type 0} (net : Network S) where
  -- `_forward`
  unfoldable pub forward_once : ClusterPeer → AgentMessage → S → Attempt Bool ForwardError × S
  unfolding judge
  forward_once p m s =
      let out = net.post p.client (text_append p.node_info.endpoint "/internal/forward") m s in
      (judge out.0, out.1)

  -- `self.retry_policy.execute(_forward)`
  unfoldable pub attempts : ClusterPeer → AgentMessage → S → Run S Bool ForwardError
  unfolding forward_once execute
  attempts p m = execute p.retry_policy net.draw net.sleep (forward_once p m)

  unfoldable pub forward_with_retries :
      ClusterPeer → AgentMessage → S → Attempt Bool ForwardError × S
  unfolding attempts
  forward_with_retries p m s = let r = attempts p m s in (as_attempt r.ending, r.state)

  -- `forward_message`: whether the message was forwarded, the peer and the network after it.
  unfoldable pub forward_message : AgentMessage → ClusterPeer → S → Bool × ClusterPeer × S
  unfolding forward_with_retries call
  forward_message m p s =
      let out = call (net.time s) net.time (forward_with_retries p m) p.circuit_breaker s in
      (as_success out.0, record p { circuit_breaker = out.1 }, out.2)

  -- The peer after a health check.
  unfoldable pub seen : Response → ℕ → ClusterPeer → Bool × ClusterPeer
  seen (transport_error e) now p = (false, p)
  seen (response code) now p =
      if eqb code 200
      then (true, record p { node_info = record (p.node_info) { last_seen = now } })
      else (false, p)

  -- `send_heartbeat`
  unfoldable pub send_heartbeat : ClusterPeer → S → (Bool × ClusterPeer) × S
  unfolding seen
  send_heartbeat p s =
      let out = net.get_health p.client (text_append p.node_info.endpoint "/health") s in
      (seen out.0 (net.loop_time out.1) p, out.1)
