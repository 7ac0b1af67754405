-- ===== src/Protocol/Replies.antt =====
-- What a reply has from the message that it answers (`create_reply` of protocol.py).
use agents_protocol.Prelude.{ℕ, String, ◌≡◌, refl, Option, some, arith}
use agents_protocol.Json.{Fields}
use agents_protocol.Protocol.{MessageType, AgentMessage, create_reply}

-- The messages of an exchange that begins with `m`: each is a reply to one before it, sent under
-- any sender id and as any type (the agent that answers sets both).
pub data Exchange (m : AgentMessage) : AgentMessage → Type 0 where
  opening : Exchange m m
  answer :
      {q : AgentMessage}
      → Exchange m q
      → (new_id : String) (now : ℕ) (content : Fields) (metadata security : Option Fields)
      → (sender : String) (type : MessageType)
      → Exchange m (record (create_reply new_id now q content metadata security) {
        sender_id = sender;
        type = type;
      })

-- The fields that tie a message to its conversation.
pub record SameThread (m r : AgentMessage) (c : String) : Type 0 where
  pub correlation : r.correlation_id ≡ some c
  pub priority : r.priority ≡ m.priority

reply-SameThread :
    (m q : AgentMessage) (c new_id : String) (now : ℕ) (content : Fields)
    (metadata security : Option Fields)
    → SameThread m q c
    → SameThread m (create_reply new_id now q content metadata security) c
unfolding create_reply
reply-SameThread m q c new_id now content metadata security h = record {
  correlation = ground (arith, h.correlation);
  priority = ground (arith, h.correlation, h.priority);
}

-- Every message of an exchange that begins with a message of correlation id `c` has the
-- correlation id `c` and the priority of the first message, whoever answers and as whatever type.
pub Exchange-SameThread :
    (m : AgentMessage) (c : String) {r : AgentMessage}
    → m.correlation_id ≡ some c
    → Exchange m r
    → SameThread m r c
Exchange-SameThread m c e opening = record { correlation = e; priority = refl }
Exchange-SameThread m c e (answer {q = q} x new_id now content metadata security sender type) =
    let h = Exchange-SameThread m c e x in
    let k = reply-SameThread m q c new_id now content metadata security h in
    record { correlation = k.correlation; priority = k.priority }
