-- ===== src/Agent/Results.antt =====
-- The results of the broker's requests under the sends and the processing of an agent.
use agents_protocol.Prelude.{
  ℕ, String, ◌≡◌, refl, ap, ◌∙◌, Option, none, some, List, Bool-cases, inl, inr,
}
use agents_protocol.Json.{Fields, no_fields, field, str}
use agents_protocol.Protocol.{MessageType, same_type, create_reply}
use agents_protocol.Objects.{Ref}
use agents_protocol.Extensions.{ValidationRule}
use agents_protocol.Broker.World.{World, Outcome, done, raised, blocked, after, bind, fields, now}
use agents_protocol.Broker.Sending.{ClusterLink}
use agents_protocol.Broker.Isolation.{do_send-Kept}
use agents_protocol.Broker.Frame.{Kept}
use agents_protocol.Agent.{
  Handler, LiveAgent, construct, sign, send_message, send_reply, answer, handle, recover,
}
use agents_protocol.Agent.Sends.{send_unwrapped}
use agents_protocol.Agent.Replies.{IsPlain, plain, process, process-recover}

-- The results of the requests, and the number of the next one.
abbrev pub results : {C : Type 0} → World C → (ℕ → Option Ref) × ℕ
results w = (w.futures, w.next_future)

-- The handlers of the agent set no result of a request.
abbrev pub IsTidy : {C : Type 0} → LiveAgent C → Type 0
IsTidy {C} a =
    (t : MessageType) (h : Handler C) (r : Ref) (w : World C)
    → a.message_handlers t ≡ some h
    → results (after (h r w)) ≡ results w

pub Kept-results : {C : Type 0} {w v : World C} → Kept w v → results v ≡ results w
Kept-results h = rw (h.futures, h.next_future) refl

module _ {C : Type 0} (link : ClusterLink C) (rules : List ValidationRule) (uuid : World C → String)
    (error_type : String → String) where
  send_message-results :
      (a : LiveAgent C) (r : Ref) (w : World C)
      → results (after (send_message link (plain link rules uuid error_type) uuid error_type a r w))
        ≡ results w
  unfolding send_message
  send_message-results a r w = elim (Bool-cases a.connected) [
    | inr e ↦ rw e refl
    | inl e ↦
        rw (e, send_unwrapped link rules r (sign a.info.agent_id r w))
          (Kept-results (do_send-Kept link rules r (sign a.info.agent_id r w))
            ∙ (unfold sign in refl))
  ]

  -- An outcome whose value is not needed leaves the same world.
  after-forget : {A : Type 0} (o : Outcome C A) → after (bind o (λ x. done tt)) ≡ after o
  after-forget (done x w) = refl
  after-forget (raised e w) = refl
  after-forget (blocked w) = refl

  send_reply-results :
      (a : LiveAgent C) (type : MessageType) (r : Ref) (content : Fields) (metadata : Option Fields)
      (w : World C)
      → results (
          after (
            send_reply link
              (plain link rules uuid error_type)
              uuid
              error_type
              a
              type
              r
              content
              metadata
              w))
        ≡ results w
  unfolding send_reply construct
  send_reply-results a type r content metadata w =
      let reply = create_reply (uuid w) (now w) (fields r w) content metadata none in
      let x = (construct (record reply { type = type }) w).1 in
      let ext = plain link rules uuid error_type in
      ap results (after-forget (send_message link ext uuid error_type a w.heap.next x))
      ∙ send_message-results a w.heap.next x

  answer-results :
      (a : LiveAgent C) (r : Ref) (o : Option Fields) (w : World C)
      → results (after (answer link (plain link rules uuid error_type) uuid error_type a r o w))
        ≡ results w
  unfolding answer
  answer-results a r none w = refl
  answer-results a r (some no_fields) w = refl
  answer-results a r (some (field k v fs)) w =
      elim (Bool-cases (same_type (fields r w).type MessageType.request)) [
        | inl e ↦ rw e (send_reply-results a MessageType.response r (field k v fs) none w)
        | inr e ↦ rw e refl
      ]

  recover-results :
      (a : LiveAgent C) (r : Ref) (o : Outcome C (Unit {0}))
      → results (after (recover link (plain link rules uuid error_type) uuid error_type a r o))
        ≡ results (after o)
  unfolding recover
  recover-results a r (done x w) = refl
  recover-results a r (blocked w) = refl
  recover-results a r (raised e w) =
      elim (Bool-cases (same_type (fields r w).type MessageType.request)) [
        | inl k ↦ rw k (
            send_reply-results a MessageType.error r (field "error" (str e) no_fields)
              (some (field "error_type" (str (error_type e)) no_fields)) w)
        | inr k ↦ rw k refl
      ]

  after-bind-results :
      (a : LiveAgent C) (r : Ref) (o : Outcome C (Option Fields))
      → results
          (after (bind o (answer link (plain link rules uuid error_type) uuid error_type a r)))
        ≡ results (after o)
  after-bind-results a r (done x w) = answer-results a r x w
  after-bind-results a r (raised e w) = refl
  after-bind-results a r (blocked w) = refl

  handle-results :
      (a : LiveAgent C) (o : Option (Handler C)) (r : Ref) (w : World C)
      → ((h : Handler C) → o ≡ some h → results (after (h r w)) ≡ results w)
      → results (after (handle link (plain link rules uuid error_type) uuid error_type a o r w))
        ≡ results w
  unfolding handle
  handle-results a none r w k = refl
  handle-results a (some h) r w k = after-bind-results a r (h r w) ∙ k h refl

  pub process-results :
      (a : LiveAgent C) (r : Ref) (w : World C)
      → IsPlain a
      → IsTidy a
      → results (after (process link rules uuid error_type a r w)) ≡ results w
  process-results a r w p t =
      ap (λ o. results (after o)) (process-recover link rules uuid error_type a r w p)
      ∙ (recover-results a r _
          ∙ handle-results a (a.message_handlers (fields r w).type) r w
              (λ h e. t (fields r w).type h r w e))
