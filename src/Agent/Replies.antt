-- ===== src/Agent/Replies.antt =====
-- What `_process_message` does with a request, and with what is no request.
use agents_protocol.Prelude.{
  String, ◌≡◌, refl, ap, ◌∙◌, true, false, Option, none, some, List, [], inl, inr, ◌⊎◌,
}
use agents_protocol.Json.{Value, Fields, no_fields, field}
use agents_protocol.Protocol.{AgentMessage, MessageType, MessageStatus, same_type}
use agents_protocol.Objects.{Ref}
use agents_protocol.Extensions.{
  AgentHook, pre_message_process, post_message_process, HookManager, trigger, run_all,
  ValidationRule, ExtensionManager,
}
use agents_protocol.Inbox.{Inbox}
use agents_protocol.Broker.World.{World, Outcome, Act, done, raised, blocked, fields}
use agents_protocol.Broker.Sending.{ClusterLink}
use agents_protocol.Agent.{
  Handler, LiveAgent, answer, handle, recover, finally, attempt, process_message,
}
use agents_protocol.Agent.Sends.{reply_of, CanAnswer, Answered, send_reply-Answered}

-- No callback is registered around the processing of a message.
pub record IsPlain {C : Type 0} (a : LiveAgent C) : Type 0 where
  pub before_it : a.hooks pre_message_process ≡ []
  pub after_it : a.hooks post_message_process ≡ []

module _ {C : Type 0} where
  pub trigger-none :
      (hook : AgentHook) (hooks : HookManager (Option Ref) (World C)) (x : Option Ref) (w : World C)
      → hooks hook ≡ []
      → trigger hook hooks x w ≡ (none, w)
  unfolding trigger run_all
  trigger-none hook hooks x w e = rw e

module _ {C : Type 0} (link : ClusterLink C) (rules : List ValidationRule) (uuid : World C → String)
    (error_type : String → String) where
  abbrev pub plain : ExtensionManager Ref (Act C MessageStatus)
  plain = record { middleware = []; validation_rules = rules }

  abbrev pub process : LiveAgent C → Ref → Act C (Unit {0})
  process = process_message link plain uuid error_type

  finally_none :
      (a : LiveAgent C) (r : Ref) (o : Outcome C (Unit {0}))
      → a.hooks post_message_process ≡ []
      → finally link plain uuid error_type a r o ≡ o
  unfolding finally
  finally_none a r (done x w) e = rw (trigger-none post_message_process a.hooks (some r) w e)
  finally_none a r (raised x w) e = rw (trigger-none post_message_process a.hooks (some r) w e)
  finally_none a r (blocked w) e = refl

  pub process-recover :
      (a : LiveAgent C) (r : Ref) (w : World C)
      → IsPlain a
      → process a r w
        ≡ recover link plain uuid error_type a r
            (handle link plain uuid error_type a (a.message_handlers (fields r w).type) r w)
  unfolding process_message
  process-recover a r w h =
      rw (trigger-none pre_message_process a.hooks (some r) w h.before_it)
        (unfold attempt in finally_none a r _ h.after_it)

  -- A reply that was delivered leaves nothing to recover from.
  recovered :
      {reply : AgentMessage} {r : Ref} {q : Inbox} {v : World C} {o : Outcome C (Unit {0})}
      (a : LiveAgent C) (i : Ref)
      → Answered reply r q v o
      → Answered reply r q v (recover link plain uuid error_type a i o)
  unfolding recover
  recovered {o = done x w} a i h = h
  recovered {o = raised e w} a i h = absurd (let (v, d) = h.returns in cc d)
  recovered {o = blocked w} a i h = absurd (let (v, d) = h.returns in cc d)

  -- Let a plain agent, connected to a broker without middleware, process a request, and let its handler
  -- return a content that is not empty and leave the message a request. If the response with that
  -- content passes the checks, the agent that asked is an agent of the broker whose inbox has room, and
  -- the put does not raise, the response is delivered to it, and nothing else changes in the inboxes.
  pub process_message-response :
      (a : LiveAgent C) (handler : Handler C) (r : Ref) (q : Inbox) (w v : World C) (k : String)
      (x : Value) (fs : Fields)
      → IsPlain a
      → a.connected ≡ true
      → (fields r w).type ≡ MessageType.request
      → a.message_handlers MessageType.request ≡ some handler
      → handler r w ≡ done (some (field k x fs)) v
      → (fields r v).type ≡ MessageType.request
      → let reply = reply_of uuid a MessageType.response r (field k x fs) none v in
        CanAnswer rules reply r q v → Answered reply r q v (process a r w)
  process_message-response a handler r q w v k x fs plain c t h e u can =
      let known : a.message_handlers (fields r w).type ≡ some handler =
        ap a.message_handlers t ∙ h in
      let request : same_type (fields r v).type MessageType.request ≡ true = rw u refl in
      rw (process-recover a r w plain, known)
        (unfold handle in
          rw e (
            unfold answer in
            rw request (
              recovered a r (
                send_reply-Answered link rules uuid error_type a MessageType.response r
                  (field k x fs) none q v c can))))

  -- What is no request gets no reply: where the handler of a plain agent returns or raises, and the
  -- message is no request after that, the processing ends in the state that the handler left, and an
  -- exception of the handler goes no further.
  pub process_message-silent :
      (a : LiveAgent C) (handler : Handler C) (r : Ref) (w v : World C) (o : Option Fields)
      (e : String)
      → IsPlain a
      → a.message_handlers (fields r w).type ≡ some handler
      → same_type (fields r v).type MessageType.request ≡ false
      → (handler r w ≡ done o v) ⊎ (handler r w ≡ raised e v)
      → process a r w ≡ done tt v
  process_message-silent a handler r w v none e plain known other (inl h) =
      rw (process-recover a r w plain, known)
        (unfold handle in rw h (unfold answer recover in refl))
  process_message-silent a handler r w v (some no_fields) e plain known other (inl h) =
      rw (process-recover a r w plain, known)
        (unfold handle in rw h (unfold answer recover in refl))
  process_message-silent a handler r w v (some (field k x fs)) e plain known other (inl h) =
      rw (process-recover a r w plain, known)
        (unfold handle in rw h (unfold answer recover in rw other refl))
  process_message-silent a handler r w v o e plain known other (inr h) =
      rw (process-recover a r w plain, known)
        (unfold handle in rw h (unfold recover in rw other refl))
