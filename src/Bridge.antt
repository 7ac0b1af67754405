-- ===== src/Bridge.antt =====
-- src/agents_protocol/bridge.py: the state of a `BridgeAgent` and its two directions. What goes out is
-- the argument of `send_to_external`, and what comes in the argument of `send_message`; the stream and
-- the broker behind them are not part of the state.
pub mod Requests
pub mod Stream
pub mod Lines
use agents_protocol.Prelude.{
  ℕ, String, Bool, true, false, Option, none, some, List, [], ◌∷◌, ◌==◌, ltb, drop, length,
  if◌then◌else◌,
}
use agents_protocol.Dict
use agents_protocol.Dict.{Dict}
use agents_protocol.Json.{Fields}
use agents_protocol.Protocol.{AgentMessage, MessageType, same_type}

-- The adapter: `none` stands for an exception.
pub record BaseAdapter (E : Type 0) : Type 0 where
  pub to_protocol : E → Option AgentMessage
  pub from_protocol : AgentMessage → Option Fields

-- `request_map` is in the order of insertion, as an `OrderedDict`.
pub record BridgeAgent : Type 0 where
  pub agent_id : String
  pub request_map : Dict String

-- `__init__`
abbrev pub new : String → BridgeAgent
new agent_id = record { agent_id = agent_id; request_map = [] }

pub max_requests : ℕ
max_requests = 1000

-- A request is remembered, and the oldest one forgotten when they are too many.
unfoldable pub remember_request : String → String → Dict String → Dict String
unfolding max_requests
remember_request id sender d =
    let d' = Dict.put id sender d in if ltb max_requests (length d') then drop 1 d' else d'

-- The message as it is sent on, with the recipient that was found, if it is true.
abbrev pub addressed : Option String → AgentMessage → AgentMessage
addressed none m = m
addressed (some recipient) m =
    if recipient == "" then m else record m { recipient_id = some recipient }

-- `internal_msg.type == MessageType.RESPONSE and internal_msg.correlation_id`
abbrev pub response_id : AgentMessage → Option String
response_id m = if same_type m.type MessageType.response then m.correlation_id else none

-- The part of `handle_external_message` for a response.
unfoldable pub route_back : Option String → AgentMessage → BridgeAgent → AgentMessage × BridgeAgent
route_back none m b = (m, b)
route_back (some c) m b = if c == "" then (m, b) else (
  addressed (Dict.get c b.request_map) m,
  record b { request_map = Dict.remove c b.request_map },
)

-- What is made of the message that the adapter read.
unfoldable pub pass_on : Option AgentMessage → BridgeAgent → Option AgentMessage × BridgeAgent
unfolding route_back
pass_on none b = (none, b)
pass_on (some m) b =
    let own = record m { sender_id = b.agent_id } in
    let out = route_back (response_id own) own b in (some out.0, out.1)

module _ {E : Type 0} (adapter : BaseAdapter E) where
  -- `_process_message`: what is sent to the external system, and the bridge after it.
  unfoldable pub process_message : AgentMessage → BridgeAgent → Option Fields × BridgeAgent
  unfolding remember_request
  process_message m b = (
    adapter.from_protocol m,
    if same_type m.type MessageType.request
        then record b { request_map = remember_request m.id m.sender_id b.request_map }
        else b,
  )

  -- `handle_external_message`: what is sent to the broker, and the bridge after it.
  unfoldable pub handle_external_message : E → BridgeAgent → Option AgentMessage × BridgeAgent
  unfolding pass_on
  handle_external_message data_ b = pass_on (adapter.to_protocol data_) b
