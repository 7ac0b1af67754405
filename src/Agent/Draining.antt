-- ===== src/Agent/Draining.antt =====
-- What an agent does that works off its inbox.
use agents_protocol.Prelude.{◌≡◌, refl, ◌∙◌, false, Option, none, some, [], ◌∷◌, eq_refl}
use agents_protocol.Dict
use agents_protocol.Dict.Laws.{get-put}
use agents_protocol.Json.{Fields}
use agents_protocol.Protocol.{MessageType, same_type}
use agents_protocol.Objects.{Ref}
use agents_protocol.Extensions.{AgentHook, pre_message_process, post_message_process, trigger}
use agents_protocol.Inbox.{Inbox}
use agents_protocol.Broker.World.{World, Outcome, done, raised, blocked, after, fields}
use agents_protocol.Agent.{Handler, LiveAgent}
use agents_protocol.Agent.Receiving.{taken}

-- The handler has ended, and asks for no reply to the message: it returned nothing, or the message is no
-- request.
abbrev pub IsSilent : {C : Type 0} → Ref → Outcome C (Option Fields) → Type 0
IsSilent r (done none v) = Unit {0}
IsSilent r (done (some fs) v) = same_type (fields r v).type MessageType.request ≡ false
IsSilent r (raised e v) = same_type (fields r v).type MessageType.request ≡ false
IsSilent r (blocked v) = ⊥

module _ {C : Type 0} where
  -- Whatever message the agent's callbacks get in whatever state of the broker, none raises, and they do
  -- not touch the agent's inbox.
  abbrev pub IsCalling : AgentHook → LiveAgent C → Type 0
  IsCalling hook a =
      (r : Ref) (w : World C)
      → let out = trigger hook a.hooks (some r) w in
        (out.0 ≡ none)
        × (Dict.get a.info.agent_id out.1.inboxes ≡ Dict.get a.info.agent_id w.inboxes)

  -- The agent's handlers end and ask for no reply, its callbacks do not raise, and none of them touches
  -- the agent's inbox.
  pub record IsAtWork (a : LiveAgent C) : Type 0 where
    pub before_it : IsCalling pre_message_process a
    pub after_it : IsCalling post_message_process a
    pub handlers :
        (type : MessageType) (handler : Handler C) (r : Ref) (w : World C)
        → a.message_handlers type ≡ some handler
        → IsSilent r (handler r w)
          × (Dict.get a.info.agent_id (after (handler r w)).inboxes
              ≡ Dict.get a.info.agent_id w.inboxes)

  -- What the handler for the message leaves.
  abbrev pub called : Option (Handler C) → Ref → World C → World C
  called none r w = w
  called (some handler) r w = after (handler r w)

  -- The callbacks before it, the handler for the message's type, and the callbacks after it.
  abbrev pub handled : LiveAgent C → Ref → World C → World C
  handled a r w =
      let u = (trigger pre_message_process a.hooks (some r) w).1 in
      let v = called (a.message_handlers (fields r u).type) r u in
      (trigger post_message_process a.hooks (some r) v).1

  -- The messages are taken out of the inbox and handled, one after the other.
  pub drain : LiveAgent C → Inbox → World C → World C
  drain a [] w = w
  drain a (e ∷ q) w = drain a q (handled a e.message (taken a.info.agent_id q w))

  called-inbox :
      (a : LiveAgent C) (type : MessageType) (o : Option (Handler C)) (r : Ref) (w : World C)
      → IsAtWork a
      → a.message_handlers type ≡ o
      → Dict.get a.info.agent_id (called o r w).inboxes ≡ Dict.get a.info.agent_id w.inboxes
  called-inbox a type none r w h e = refl
  called-inbox a type (some handler) r w h e = (h.handlers type handler r w e).1

  handled-inbox :
      (a : LiveAgent C) (r : Ref) (w : World C)
      → IsAtWork a
      → Dict.get a.info.agent_id (handled a r w).inboxes ≡ Dict.get a.info.agent_id w.inboxes
  handled-inbox a r w h =
      let u = (trigger pre_message_process a.hooks (some r) w).1 in
      let type = (fields r u).type in
      let v = called (a.message_handlers type) r u in
      (h.after_it r v).1
      ∙ (called-inbox a type (a.message_handlers type) r u h refl ∙ (h.before_it r w).1)

  pub drain-inbox :
      (a : LiveAgent C) (q : Inbox) (w : World C)
      → IsAtWork a
      → Dict.get a.info.agent_id w.inboxes ≡ some q
      → Dict.get a.info.agent_id (drain a q w).inboxes ≡ some []
  unfolding drain
  drain-inbox a [] w h e = e
  drain-inbox a (x ∷ q) w h e =
      let id = a.info.agent_id in
      drain-inbox a q (handled a x.message (taken id q w)) h
        (handled-inbox a x.message (taken id q w) h ∙ rw (get-put, eq_refl id))
