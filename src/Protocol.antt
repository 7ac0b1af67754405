-- ===== src/Protocol.antt =====
-- src/agents_protocol/protocol.py: the message format. Times are numbers and ids are texts; where
-- the code draws a uuid or reads the clock, the draw is an argument.
pub mod Replies
use agents_protocol.Prelude.{ℕ, String, Bool, true, false, Option, none, some}
use agents_protocol.Json.{Fields, no_fields}

pub data MessageType : Type 0 where
  request response notification error heartbeat : MessageType

abbrev pub same_type : MessageType → MessageType → Bool
same_type MessageType.request MessageType.request = true
same_type MessageType.response MessageType.response = true
same_type MessageType.notification MessageType.notification = true
same_type MessageType.error MessageType.error = true
same_type MessageType.heartbeat MessageType.heartbeat = true
same_type _ _ = false

pub data MessagePriority : Type 0 where
  low normal high critical : MessagePriority

-- The `int` values of the enum.
unfoldable pub level : MessagePriority → ℕ
level low = 1
level normal = 5
level high = 10
level critical = 20

pub data MessageStatus : Type 0 where
  pending sent delivered processing completed failed timeout : MessageStatus

pub record AgentMessage : Type 0 where
  pub id : String
  pub type : MessageType
  pub sender_id : String
  pub recipient_id : Option String
  pub priority : MessagePriority
  pub status : MessageStatus
  pub timestamp : ℕ
  pub correlation_id : Option String
  pub reply_to : Option String
  pub content : Fields
  pub metadata : Fields
  pub security : Option Fields

-- The validator that runs after every construction.
unfoldable pub set_correlation_id_if_none : AgentMessage → AgentMessage
set_correlation_id_if_none m = elim m.correlation_id [
  | none ↦ record m { correlation_id = some m.id }
  | some c ↦ m
]

-- `metadata or {}`
abbrev pub or_empty : Option Fields → Fields
or_empty none = no_fields
or_empty (some fs) = fs

-- `create_reply`; `new_id` is the uuid and `now` the time that the constructor's defaults read.
unfoldable pub create_reply :
    (new_id : String) (now : ℕ)
    → AgentMessage
    → Fields
    → Option Fields
    → Option Fields
    → AgentMessage
unfolding set_correlation_id_if_none
create_reply new_id now m content metadata security = set_correlation_id_if_none (record {
  id = new_id;
  type = MessageType.response;
  sender_id = "";
  recipient_id = some m.sender_id;
  priority = m.priority;
  status = pending;
  timestamp = now;
  correlation_id = m.correlation_id;
  reply_to = some m.id;
  content = content;
  metadata = or_empty metadata;
  security = security;
})
