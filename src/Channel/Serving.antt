-- ===== src/Channel/Serving.antt =====
-- `HTTPChannel`: what the handler does with a request, and how the channel sends. The channel's broker
-- is the world that the handler acts on; `read_message` stands for the parsing of a body as a message,
-- `none` for an exception of it.
use agents_protocol.Prelude.{
  ℕ, ◌+◌, ◌-◌, String, Bool, true, false, ◌&&◌, Option, none, some, [], ◌∷◌, eqb, pos,
  if◌then◌else◌,
}
use agents_protocol.Protocol.{AgentMessage, MessageStatus, delivered, failed}
use agents_protocol.Objects.{Ref, Heap, write}
use agents_protocol.Extensions.{ExtensionManager}
use agents_protocol.Resilience.Breaker.{Attempt}
use agents_protocol.Resilience.Retry.{
  RetryPolicy, Run, Ending, value, failed as gave_up, no_attempt, execute, Timed, in_time,
  timed_out, run_with_timeout,
}
use agents_protocol.Broker.World.{Outcome, Act, done, raised, blocked, fields}
use agents_protocol.Broker.Sending.{ClusterLink, send}
use agents_protocol.Cluster.Peer.{Response, ForwardError, judge}
use agents_protocol.Channel.Stream.{Bytes}
use agents_protocol.Channel.Http.{Request, read_request}

-- Equality of bytes, for the method and the path.
unfoldable pub same : Bytes → Bytes → Bool
same [] [] = true
same [] (c ∷ cs) = false
same (b ∷ bs) [] = false
same (b ∷ bs) (c ∷ cs) = let rest = same bs cs in if eqb b c then rest else false

-- "POST"
abbrev pub post_method : Bytes
post_method = 80 ∷ 79 ∷ 83 ∷ 84 ∷ []

-- "/message"
abbrev pub message_path : Bytes
message_path = 47 ∷ 109 ∷ 101 ∷ 115 ∷ 115 ∷ 97 ∷ 103 ∷ 101 ∷ []

-- What the handler writes before it closes the connection: 200 with the message's id, 404, or nothing,
-- where an exception is logged.
pub data Written : Type 0 where
  ok : String → Written
  not_found : Written
  nothing : Written

module _ {C : Type 0} (link : ClusterLink C) (ext : ExtensionManager Ref (Act C MessageStatus))
    (read_message : Bytes → Option AgentMessage) where
  -- After the broker's send: its status is not looked at.
  unfoldable pub acknowledge : Ref → Outcome C MessageStatus → Outcome C Written
  acknowledge r (done s w) = done (ok (fields r w).id) w
  acknowledge r (raised e w) = done nothing w
  acknowledge r (blocked w) = blocked w

  -- The message of a body is a new object.
  unfoldable pub accept : Option AgentMessage → Act C Written
  unfolding acknowledge write send
  accept none w = done nothing w
  accept (some m) w =
      let r = w.heap.next in
      let h : Heap = record (w.heap) { next = r + 1 } in
      acknowledge r (send link ext r (record w { heap = write r m h }))

  -- `method == "POST" and path == "/message"`
  unfoldable pub respond : Request → Act C Written
  unfolding accept same
  respond q w =
      if same q.method post_method && same q.path message_path
      then accept (read_message q.body) w
      else done not_found w

  -- `_handle_request`
  unfoldable pub handle : Option Request → Act C Written
  unfolding respond
  handle none w = done nothing w
  handle (some q) w = respond q w

  unfoldable pub handle_request : Bytes → Act C Written
  unfolding handle read_request
  handle_request bytes w = handle (read_request bytes) w

-- What the sending side uses of the world: the client's call, the clock, `asyncio.sleep`, the random
-- draws of the jitter, and what is left where the work is cancelled after a time.
pub record Session (S : Type 0) : Type 0 where
  pub post : String → AgentMessage → S → Response × S
  pub time : S → ℕ
  pub sleep : ℕ → S → S
  pub draw : ℕ → ℕ
  pub cut_off : ℕ → S → S

-- `session` is whether a session was made.
pub record HttpChannel : Type 0 where
  pub running : Bool
  pub session : Bool
  pub timeout : ℕ

-- `__init__`
abbrev pub new : ℕ → HttpChannel
new timeout = record { running = false; session = false; timeout = timeout }

unfoldable pub start : HttpChannel → HttpChannel
start c = record c { running = true; session = true }

-- `stop`: the session is closed, and its object stays.
unfoldable pub stop : HttpChannel → HttpChannel
stop c = record c { running = false }

-- `RetryPolicy(max_retries=3, base_delay=1.0)`
abbrev pub channel_policy : RetryPolicy ForwardError
channel_policy = record {
  max_retries = pos 3;
  base_delay = 1000;
  max_delay = 10000;
  exponential_base = 2;
  jitter = true;
  retry_on = (λ e. true) ∷ [];
}

-- The value of the retried call, or `False` for its exception.
abbrev pub succeeded : Ending Bool ForwardError → Bool
succeeded (value b) = b
succeeded (gave_up e) = false
succeeded no_attempt = false

module _ {S : Type 0} (net : Session S) where
  -- `_send`
  unfoldable pub post_once : String → AgentMessage → S → Attempt Bool ForwardError × S
  unfolding judge
  post_once endpoint m s = let out = net.post endpoint m s in (judge out.0, out.1)

  unfoldable pub attempts : String → AgentMessage → S → Run S Bool ForwardError
  unfolding post_once execute
  attempts endpoint m = execute channel_policy net.draw net.sleep (post_once endpoint m)

  -- The end of the attempts, or their cancellation.
  unfoldable pub within : Run S Bool ForwardError → S → Timed (Ending Bool ForwardError) → Bool × S
  within r s (in_time e) = (succeeded e, r.state)
  within r s (timed_out t) = (false, net.cut_off t s)

  unfoldable pub send_message : HttpChannel → String → AgentMessage → S → Bool × S
  unfolding attempts within run_with_timeout
  send_message c endpoint m s =
      let r = attempts endpoint m s in
      if c.session
      then within r s
          (run_with_timeout c.timeout (net.time r.state - net.time s) r.ending (some c.timeout))
      else (false, s)

  -- `send`, with the status that the message is set to and that is returned; `none` stands for the
  -- `RuntimeError` of a channel that does not run.
  unfoldable pub send_http : HttpChannel → String → AgentMessage → S → Option (MessageStatus × S)
  unfolding send_message
  send_http c destination m s =
      let out = send_message c destination m s in
      if c.running && c.session then some (if out.0 then delivered else failed, out.1) else none
