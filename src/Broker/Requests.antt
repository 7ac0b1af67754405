-- ===== src/Broker/Requests.antt =====
-- `request`, `set_response`, `get_history` and `replay_message` of the broker. A request has two
-- parts, since other tasks run while it awaits its future: `open_request` and the send before the
-- await, and `close_request` when the future has a result or the timeout is over.
use agents_protocol.Prelude.{
  ℕ, ◌+◌, String, ◌≡◌, Bool, true, false, Option, none, some, List, [], arith, ℤ, eqb,
  if◌then◌else◌, eq_refl,
}
use agents_protocol.Dict
use agents_protocol.Dict.Laws.{get-remove}
use agents_protocol.Json.{Fields}
use agents_protocol.Protocol.{
  AgentMessage, MessageType, MessagePriority, MessageStatus, pending, delivered, normal, or_empty,
  set_correlation_id_if_none,
}
use agents_protocol.Objects.{Ref, Heap, write}
use agents_protocol.Persistence
use agents_protocol.Persistence.{Store}
use agents_protocol.Extensions.{ValidationRule, ExtensionManager}
use agents_protocol.Broker.World.{World, Act, done, after, mark, ◌>>=◌, ◌>>◌, modify}
use agents_protocol.Broker.Sending.{ClusterLink, do_send, send}
use agents_protocol.Broker.Isolation.{do_send-Kept}

-- The arguments of `request`, with the two uuids and the time that it draws.
pub record NewRequest : Type 0 where
  pub recipient_id : String
  pub content : Fields
  pub message_type : MessageType
  pub priority : Option MessagePriority
  pub metadata : Option Fields
  pub correlation_id : String
  pub id : String
  pub timestamp : ℕ

abbrev priority_or : Option MessagePriority → MessagePriority
priority_or none = normal
priority_or (some p) = p

-- The message of the request.
unfoldable pub request_message : NewRequest → AgentMessage
unfolding set_correlation_id_if_none
request_message q = set_correlation_id_if_none (record {
  id = q.id;
  type = q.message_type;
  sender_id = "";
  recipient_id = some q.recipient_id;
  priority = priority_or q.priority;
  status = pending;
  timestamp = q.timestamp;
  correlation_id = some q.correlation_id;
  reply_to = none;
  content = q.content;
  metadata = or_empty q.metadata;
  security = none;
})

module _ {C : Type 0} where
  -- `request` up to the send: the message object, a new future, and the entry for it.
  unfoldable pub open_request : NewRequest → World C → Ref × World C
  unfolding request_message write
  open_request q w =
      let h : Heap = record (w.heap) { next = w.heap.next + 1 } in
      (
        w.heap.next,
        record w {
          heap = write w.heap.next (request_message q) h;
          pending_messages = Dict.put q.correlation_id w.next_future w.pending_messages;
          futures = λ n. if eqb w.next_future n then none else w.futures n;
          next_future = w.next_future + 1;
        },
      )

  -- The end of `request`: the future's result, or `None` at the timeout, and the `finally` block.
  unfoldable pub close_request : String → ℕ → World C → Option Ref × World C
  close_request correlation_id future w = (
    w.futures future,
    record w { pending_messages = Dict.remove correlation_id w.pending_messages },
  )

  -- `future.set_result(response)` unless the future is done
  unfoldable pub resolve : Option Ref → ℕ → Ref → World C → World C
  resolve (some r) future response w = w
  resolve none future response w = record w {
    futures = λ n. if eqb future n then some response else w.futures n;
  }

  unfoldable pub set_response : String → Ref → World C → World C
  unfolding resolve
  set_response correlation_id response w = elim (Dict.get correlation_id w.pending_messages) [
    | none ↦ w
    | some future ↦
        resolve (w.futures future) future response
          (record w { pending_messages = Dict.remove correlation_id w.pending_messages })
  ]

  -- A response that is set while the request is open is what the request returns, whatever is set
  -- after it, and the request is then no longer pending.
  pub request-set_response :
      (correlation_id : String) (future : ℕ) (response late : Ref) (w : World C)
      → Dict.get correlation_id w.pending_messages ≡ some future
      → w.futures future ≡ none
      → let v = set_response correlation_id late (set_response correlation_id response w) in
        ((close_request correlation_id future v).0 ≡ some response)
        × (Dict.get correlation_id v.pending_messages ≡ none)
  unfolding set_response resolve close_request
  request-set_response correlation_id future response late w e f =
      ground
        (arith, get-remove correlation_id correlation_id w.pending_messages, eq_refl correlation_id)

  -- No part of a send sets a response: a request whose message was sent by `_do_send`, and for which
  -- nobody calls `set_response`, ends without a response, however the send ended.
  pub request-do_send :
      (link : ClusterLink C) (rules : List ValidationRule) (q : NewRequest) (w : World C)
      → let (r, v) = open_request q w in
        (close_request q.correlation_id w.next_future (after (do_send link rules r v))).0 ≡ none
  unfolding open_request close_request
  request-do_send link rules q w =
      let (r, v) = open_request q w in
      let k = do_send-Kept link rules r v in ground (arith, k.futures)

  -- `get_history`
  unfoldable pub get_history : String → ℤ → World C → List Ref
  get_history agent_id limit w = elim w.store [
    | none ↦ []
    | some s ↦ Persistence.get_history agent_id limit s
  ]

abbrev pub is_delivered : MessageStatus → Bool
is_delivered delivered = true
is_delivered _ = false

module _ {C : Type 0} (link : ClusterLink C)
    (ext : ExtensionManager Ref (Act C MessageStatus)) where
  -- The end of `replay_message`, for the stored object `r`.
  unfoldable pub resend : String → Store → Ref → Act C Bool
  unfolding send mark
  resend message_id s r = do
    modify (mark r pending)
    modify (λ w. record w { store = some (Persistence.remove_from_dlq message_id s) })
    status ← send link ext r
    λ w. done (is_delivered status) w

  unfoldable pub replay_message : String → Act C Bool
  unfolding resend
  replay_message message_id w = elim w.store [
    | none ↦ done false w
    | some s ↦ elim (Persistence.get_message message_id s) [
      | none ↦ done false w
      | some r ↦ resend message_id s r w
    ]
  ]
