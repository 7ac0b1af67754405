-- ===== src/Agent/Sends.antt =====
-- The way of a reply: from the agent that answers to the inbox of the agent that asked.
use agents_protocol.Prelude.{
  ℕ, ◌+◌, ◌<◌, String, ◌≡◌, refl, ap, sym, ◌∙◌, Option, none, some, List, [], arith, length, true,
}
use agents_protocol.Dict
use agents_protocol.Json.{Fields}
use agents_protocol.Protocol.{
  AgentMessage, MessageType, MessageStatus, delivered, level, create_reply,
  set_correlation_id_if_none,
}
use agents_protocol.Objects.{Ref, write}
use agents_protocol.Extensions.{
  ValidationRule, ExtensionManager, validate_message, process_with_middleware,
}
use agents_protocol.Sorting.{insert}
use agents_protocol.Inbox.{Inbox, Entry, before, maxsize}
use agents_protocol.Registry
use agents_protocol.Security.{status, success}
use agents_protocol.Broker.World.{World, Outcome, Act, done, after, bind, fields, now}
use agents_protocol.Broker.Sending.{ClusterLink, verdict, do_send, send}
use agents_protocol.Broker.Refusals.{as_sent}
use agents_protocol.Broker.Direct.{Placed, placed_entry, do_send-Placed}
use agents_protocol.Agent.{LiveAgent, construct, sign, send_message, send_reply}

-- The reply as it is sent, by what `create_reply` makes of the message.
abbrev pub reply_of :
    {C : Type 0}
    → (World C → String)
    → LiveAgent C
    → MessageType
    → Ref
    → Fields
    → Option Fields
    → World C
    → AgentMessage
reply_of uuid a type r content metadata w =
    record (create_reply (uuid w) (now w) (fields r w) content metadata none) {
      type = type;
      sender_id = a.info.agent_id;
    }

-- The entry of the reply in the inbox of the agent that asked.
abbrev pub reply_entry : {C : Type 0} → Ref → World C → Entry
reply_entry r w = record {
  priority = level (fields r w).priority;
  time_ns = w.clock (w.readings + 1);
  counter = w.counter;
  message = w.heap.next;
}

-- The reply, a new object, is delivered: the asker's inbox `q` has it, and no other inbox changes.
pub record Answered {C : Type 0} (reply : AgentMessage) (r : Ref) (q : Inbox) (w : World C)
    (o : Outcome C (Unit {0})) : Type 0 where
  pub returns : (v : World C) × (o ≡ done tt v)
  pub inboxes :
      (after o).inboxes
      ≡ Dict.put (fields r w).sender_id (insert before (reply_entry r w) q) w.inboxes
  pub message : fields w.heap.next (after o) ≡ record reply { status = delivered }

-- What it takes for the reply to be delivered.
pub record CanAnswer {C : Type 0} (rules : List ValidationRule) (reply : AgentMessage) (r : Ref)
    (q : Inbox) (w : World C) : Type 0 where
  pub valid : validate_message rules (as_sent reply) ≡ none
  pub secure : verdict w.security_manager (as_sent reply) ≡ status success
  pub asker : Registry.Agent
  pub known : Dict.get (fields r w).sender_id w.agents ≡ some asker
  pub inbox : Dict.get (fields r w).sender_id w.inboxes ≡ some q
  pub room : length q < maxsize
  pub calm : w.put_error w.counter ≡ none

-- A reply goes to the sender, at the message's priority.
create_reply-addressed :
    (new_id : String) (now : ℕ) (m : AgentMessage) (content : Fields) (metadata : Option Fields)
    → let reply = create_reply new_id now m content metadata none in
      (reply.recipient_id ≡ some m.sender_id) × (reply.priority ≡ m.priority)
unfolding create_reply set_correlation_id_if_none
create_reply-addressed new_id now m content metadata = ground arith

module _ {C : Type 0} where
  -- A new object that was signed.
  pub fields-signed :
      (agent_id : String) (m : AgentMessage) (w : World C)
      → fields w.heap.next (sign agent_id w.heap.next (construct m w).1)
        ≡ record m { sender_id = agent_id }
  unfolding sign construct write
  fields-signed agent_id m w = ground arith

  pub send_unwrapped :
      (link : ClusterLink C) (rules : List ValidationRule) (r : Ref) (w : World C)
      → send link (record { middleware = []; validation_rules = rules }) r w
        ≡ do_send link rules r w
  unfolding send process_with_middleware
  send_unwrapped link rules r w = refl

module _ {C : Type 0} (link : ClusterLink C) (rules : List ValidationRule) (uuid : World C → String)
    (error_type : String → String) where
  abbrev ext : ExtensionManager Ref (Act C MessageStatus)
  ext = record { middleware = []; validation_rules = rules }

  -- What the delivery of the signed reply leaves.
  Placed-Answered :
      (a : LiveAgent C) (type : MessageType) (r : Ref) (content : Fields) (metadata : Option Fields)
      (q : Inbox) (w v : World C) (o : Outcome C MessageStatus)
      → fields w.heap.next v ≡ reply_of uuid a type r content metadata w
      → v.inboxes ≡ w.inboxes
      → placed_entry (fields w.heap.next v) w.heap.next v ≡ reply_entry r w
      → Placed (fields r w).sender_id w.heap.next q v o
      → Answered (reply_of uuid a type r content metadata w) r q w (bind o (λ s. done tt))
  Placed-Answered a type r content metadata q w v o f i e p =
      let (u, d) = p.returns in
      let asker = (fields r w).sender_id in
      rw d (record {
        returns = (u, refl);
        inboxes =
            ap (λ x. (after x).inboxes) (sym d)
            ∙ (p.inboxes
                ∙ (ap (λ x. Dict.put asker (insert before x q) v.inboxes) e
                    ∙ ap (Dict.put asker (insert before (reply_entry r w) q)) i));
        message =
            ap (λ x. fields w.heap.next (after x)) (sym d)
            ∙ (p.message ∙ ap (λ (m : AgentMessage). record m { status = delivered }) f);
      })

  send_reply-do_send :
      (a : LiveAgent C) (type : MessageType) (r : Ref) (content : Fields) (metadata : Option Fields)
      (w : World C)
      → a.connected ≡ true
      → let reply = create_reply (uuid w) (now w) (fields r w) content metadata none in
        let v = sign a.info.agent_id w.heap.next (construct (record reply { type = type }) w).1 in
        send_reply link ext uuid error_type a type r content metadata w
        ≡ bind (do_send link rules w.heap.next v) (λ s. done tt)
  unfolding send_reply construct
  send_reply-do_send a type r content metadata w c =
      let reply = create_reply (uuid w) (now w) (fields r w) content metadata none in
      let x = (construct (record reply { type = type }) w).1 in
      let v = sign a.info.agent_id w.heap.next x in
      let k : send_message link ext uuid error_type a w.heap.next x ≡ send link ext w.heap.next v =
        unfold send_message in rw c in
      ap (λ o. bind o (λ s. done tt)) (k ∙ send_unwrapped link rules w.heap.next v)

  -- Where the reply passes the checks, and its recipient is an agent of the broker whose inbox has room,
  -- it is delivered.
  pub send_reply-Answered :
      (a : LiveAgent C) (type : MessageType) (r : Ref) (content : Fields) (metadata : Option Fields)
      (q : Inbox) (w : World C)
      → a.connected ≡ true
      → CanAnswer rules (reply_of uuid a type r content metadata w) r q w
      → Answered
          (reply_of uuid a type r content metadata w)
          r
          q
          w
          (send_reply link ext uuid error_type a type r content metadata w)
  send_reply-Answered a type r content metadata q w c h =
      let reply = create_reply (uuid w) (now w) (fields r w) content metadata none in
      let v = sign a.info.agent_id w.heap.next (construct (record reply { type = type }) w).1 in
      let f : fields w.heap.next v ≡ reply_of uuid a type r content metadata w =
        fields-signed a.info.agent_id (record reply { type = type }) w in
      let n = create_reply-addressed (uuid w) (now w) (fields r w) content metadata in
      let p : Placed (fields r w).sender_id w.heap.next q v (do_send link rules w.heap.next v) =
        do_send-Placed link rules w.heap.next v (fields r w).sender_id h.asker q
          (ap (λ m. validate_message rules (as_sent m)) f ∙ h.valid)
          (ap (λ m. verdict v.security_manager (as_sent m)) f ∙ (unfold sign construct in h.secure))
          (ap (λ (m : AgentMessage). m.recipient_id) f ∙ n.0) (unfold sign construct in h.known)
          (unfold sign construct in h.inbox) h.room (unfold sign construct in h.calm) in
      rw (send_reply-do_send a type r content metadata w c) (
        Placed-Answered a type r content metadata q w v (do_send link rules w.heap.next v) f
          (unfold sign construct in refl)
          (ap (λ (m : AgentMessage). placed_entry m w.heap.next v) f
            ∙ (unfold sign construct in
                ap
                  (λ p. record {
                    priority = level p;
                    time_ns = w.clock (w.readings + 1);
                    counter = w.counter;
                    message = w.heap.next;
                  })
                  n.1))
          p)
