-- ===== src/Agent/Answers.antt =====
-- From a request that one agent sends to the response in its inbox.
use agents_protocol.Prelude.{
  String, ◌≡◌, refl, ap, sym, ◌∙◌, true, Option, none, some, or_else, List, [], ◌∷◌, arith, eq_refl,
}
use agents_protocol.Dict
use agents_protocol.Dict.Laws.{get-put}
use agents_protocol.Json.{Value, Fields, field}
use agents_protocol.Protocol.{
  AgentMessage, MessageType, delivered, create_reply, set_correlation_id_if_none,
}
use agents_protocol.Objects.{Ref}
use agents_protocol.Extensions.{ValidationRule, validate_message}
use agents_protocol.Sorting.{insert}
use agents_protocol.Inbox.{Inbox}
use agents_protocol.Inbox.Fifo.{maxsize-pos}
use agents_protocol.Registry
use agents_protocol.Security.{status, success}
use agents_protocol.Broker.World.{World, done, after, fields}
use agents_protocol.Broker.Sending.{ClusterLink, verdict, do_send}
use agents_protocol.Broker.Refusals.{as_sent}
use agents_protocol.Broker.Direct.{placed_entry, do_send-Placed}
use agents_protocol.Agent.{
  Handler, LiveAgent, sign, send_message, receive_message, after_receive, message_loop,
}
use agents_protocol.Agent.Sends.{reply_of, CanAnswer, Answered, send_unwrapped}
use agents_protocol.Agent.Replies.{IsPlain, plain, process, process_message-response}
use agents_protocol.Agent.Receiving.{
  taken, receive_message-head, message_loop-round, after_receive-done,
}

-- What it takes for a message, signed by its sender, to reach the empty inbox of the agent.
pub record CanReach {C : Type 0} (rules : List ValidationRule) (agent_id : String) (r : Ref)
    (w : World C) : Type 0 where
  pub valid : validate_message rules (as_sent (fields r w)) ≡ none
  pub secure : verdict w.security_manager (as_sent (fields r w)) ≡ status success
  pub addressed : (fields r w).recipient_id ≡ some agent_id
  pub agent : Registry.Agent
  pub known : Dict.get agent_id w.agents ≡ some agent
  pub inbox : Dict.get agent_id w.inboxes ≡ some []
  pub calm : w.put_error w.counter ≡ none

-- A reply is for the sender of the message, refers to it, and has its correlation id, or its own id
-- where the message has none.
pub record IsReplyTo (m reply : AgentMessage) : Type 0 where
  pub recipient : reply.recipient_id ≡ some m.sender_id
  pub reply_to : reply.reply_to ≡ some m.id
  pub correlation : reply.correlation_id ≡ some (or_else m.correlation_id reply.id)

module _ {C : Type 0} (link : ClusterLink C) (rules : List ValidationRule) (uuid : World C → String)
    (error_type : String → String) where
  pub send_message-do_send :
      (s : LiveAgent C) (r : Ref) (w : World C)
      → s.connected ≡ true
      → send_message link (plain link rules uuid error_type) uuid error_type s r w
        ≡ do_send link rules r (sign s.info.agent_id r w)
  unfolding send_message
  send_message-do_send s r w c = rw c (send_unwrapped link rules r (sign s.info.agent_id r w))

  reply_of-IsReplyTo :
      (a : LiveAgent C) (type : MessageType) (r : Ref) (content : Fields) (metadata : Option Fields)
      (w : World C)
      → IsReplyTo (fields r w) (reply_of uuid a type r content metadata w)
  unfolding create_reply set_correlation_id_if_none
  reply_of-IsReplyTo a type r content metadata w = record {
    recipient = ground arith;
    reply_to = ground arith;
    correlation = ground arith;
  }

  -- The message is delivered, and the head of the agent's inbox.
  send_message-head :
      (s a : LiveAgent C) (r : Ref) (w : World C)
      → s.connected ≡ true
      → a.connected ≡ true
      → CanReach rules a.info.agent_id r (sign s.info.agent_id r w)
      → let o = send_message link (plain link rules uuid error_type) uuid error_type s r w in
        (o ≡ done delivered (after o))
        × (receive_message a (after o) ≡ (some r, (a, taken a.info.agent_id [] (after o))))
  unfolding insert
  send_message-head s a r w c d h =
      let v = sign s.info.agent_id r w in
      let p =
        do_send-Placed link rules r v a.info.agent_id h.agent [] h.valid h.secure h.addressed
          h.known h.inbox maxsize-pos h.calm in
      let (u, e) = p.returns in
      let i : Dict.get a.info.agent_id (after (do_send link rules r v)).inboxes
          ≡ some (placed_entry (fields r v) r v ∷ []) =
        ap (Dict.get a.info.agent_id) p.inboxes ∙ rw (get-put, eq_refl a.info.agent_id) refl in
      rw (send_message-do_send s r w c) (
        e ∙ ap (λ o. done delivered (after o)) (sym e),
        receive_message-head a (placed_entry (fields r v) r v) [] (after (do_send link rules r v)) d
            i,
      )

  -- One round of the loop for a message at the head of the inbox, whose processing returns.
  pub message_loop-one :
      (a : LiveAgent C) (r : Ref) (w v u : World C)
      → a.running ≡ true
      → receive_message a w ≡ (some r, (a, v))
      → process link rules uuid error_type a r v ≡ done tt u
      → message_loop link (plain link rules uuid error_type) uuid error_type 1 a [] w
        ≡ done (a, r ∷ []) u
  message_loop-one a r w v u on e p =
      let ext = plain link rules uuid error_type in
      message_loop-round link ext uuid error_type 0 a [] w on
      ∙ (ap (after_receive link ext uuid error_type (message_loop link ext uuid error_type 0) []) e
          ∙ (after_receive-done link ext uuid error_type 0 a r [] v u p
              ∙ (unfold message_loop in refl)))

  -- Let two agents be connected to a broker without middleware, the second running and without hooks
  -- around the processing. Let the first send a request that passes the checks to the second, an agent
  -- of the broker whose inbox is empty, and let the second's handler return a content that is not empty
  -- and leave the message a request. Let the response with that content pass the checks too, let the
  -- request's sender be an agent of the broker whose inbox has room, and let neither put raise. Then
  -- the request is delivered, one round of the second agent's loop
  -- processes it, and the response is delivered to the sender's inbox, changing no other inbox; it
  -- refers to the request and has its correlation id, or its own id where the request has none.
  pub message_loop-send_message :
      (s a : LiveAgent C) (handler : Handler C) (r : Ref) (q : Inbox) (w v : World C) (k : String)
      (x : Value) (fs : Fields)
      → s.connected ≡ true
      → a.connected ≡ true
      → a.running ≡ true
      → IsPlain a
      → CanReach rules a.info.agent_id r (sign s.info.agent_id r w)
      → let ext = plain link rules uuid error_type in
        let o = send_message link ext uuid error_type s r w in
        let t = taken a.info.agent_id [] (after o) in
        let reply = reply_of uuid a MessageType.response r (field k x fs) none v in
        (fields r t).type ≡ MessageType.request
        → a.message_handlers MessageType.request ≡ some handler
        → handler r t ≡ done (some (field k x fs)) v
        → (fields r v).type ≡ MessageType.request
        → CanAnswer rules reply r q v
        → (o ≡ done delivered (after o))
          × ((u : World C) × (message_loop link ext uuid error_type 1 a [] (after o)
                ≡ done (a, r ∷ []) u)
              × Answered reply r q v (done tt u))
          × IsReplyTo (fields r v) reply
  message_loop-send_message s a handler r q w v k x fs c d on p h e known f g can =
      let ext = plain link rules uuid error_type in
      let o = send_message link ext uuid error_type s r w in
      let t = taken a.info.agent_id [] (after o) in
      let (sent_it, taken_it) = send_message-head s a r w c d h in
      let out =
        process_message-response link rules uuid error_type a handler r q t v k x fs p d e known f g
          can in
      let (u, returned) = out.returns in
      (
        sent_it,
        (u, message_loop-one a r (after o) t u on taken_it returned, rw returned at out),
        reply_of-IsReplyTo a MessageType.response r (field k x fs) none v,
      )
