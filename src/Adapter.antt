-- ===== src/Adapter.antt =====
-- src/agents_protocol/adapters.py: `JSONRPCAdapter`. `loads` stands for `json.loads` and `text_of` for
-- `str`; an exception on the way is `none`.
pub mod RoundTrip
use agents_protocol.Prelude.{ℕ, String, Bool, true, false, Option, none, some, ◌==◌, if◌then◌else◌}
use agents_protocol.Json.{Value, null, str, obj, Fields, no_fields, field, find_or, is_not_null}
use agents_protocol.Protocol.{
  AgentMessage, MessageType, normal, pending, set_correlation_id_if_none,
}

-- What comes from the external side: a text, or a dict.
pub data External : Type 0 where
  text : String → External
  data_ : Fields → External

-- `data.get` raises on what is no dict.
abbrev pub as_fields : Option Value → Option Fields
as_fields (some (obj fs)) = some fs
as_fields _ = none

-- `isinstance(external_message, str)`
unfoldable pub data_of : (String → Option Value) → External → Option Fields
data_of loads (text t) = as_fields (loads t)
data_of loads (data_ fs) = some fs

-- `data.get("jsonrpc") != "2.0"`, negated
abbrev pub is_version : Value → Bool
is_version (str v) = v == "2.0"
is_version _ = false

-- `{"method": method, "params": params}`
abbrev pub call_content : Value → Value → Fields
call_content method params = field "method" method (field "params" params no_fields)

-- `str(msg_id) if msg_id is not None else None`
abbrev pub correlation_of : (Value → String) → Value → Option String
correlation_of text_of msg_id = if is_not_null msg_id then some (text_of msg_id) else none

-- The type and the content of the message, by the fields of the external one.
unfoldable pub classify : Fields → MessageType × Value
classify fs =
    let result = find_or "result" null fs in
    let error = find_or "error" null fs in
    let method = find_or "method" null fs in
    if is_not_null result
    then (MessageType.response, result)
    else if is_not_null error
    then (MessageType.response, error)
    else if is_not_null method
    then (
      if is_not_null (find_or "id" null fs) then MessageType.request else MessageType.notification,
      obj (call_content method (find_or "params" (obj no_fields) fs)),
    )
    else (MessageType.notification, obj fs)

-- The construction of the message, which raises where the content is no dict. `id` is the uuid and
-- `now` the time that the constructor's defaults read.
unfoldable pub construct :
    (id : String) (now : ℕ) → MessageType → Option Fields → Option String → Option AgentMessage
unfolding set_correlation_id_if_none
construct id now type none correlation_id = none
construct id now type (some content) correlation_id = some (
    set_correlation_id_if_none (record {
      id = id;
      type = type;
      sender_id = "external";
      recipient_id = none;
      priority = normal;
      status = pending;
      timestamp = now;
      correlation_id = correlation_id;
      reply_to = none;
      content = content;
      metadata = no_fields;
      security = none;
    }))

module _ (loads : String → Option Value) (text_of : Value → String) (id : String) (now : ℕ) where
  -- `to_protocol` for a dict
  unfoldable pub translate : Fields → Option AgentMessage
  unfolding classify construct
  translate fs =
      let (type, content) = classify fs in
      if is_version (find_or "jsonrpc" null fs)
      then construct id now type (as_fields (some content))
          (correlation_of text_of (find_or "id" null fs))
      else none

  unfoldable pub to_protocol : External → Option AgentMessage
  unfolding data_of translate
  to_protocol external_message = elim (data_of loads external_message) [
    | none ↦ none
    | some fs ↦ translate fs
  ]

abbrev pub or_null : Option String → Value
or_null none = null
or_null (some s) = str s

-- `from_protocol`; the content is always a dict.
unfoldable pub from_protocol : AgentMessage → Fields
from_protocol m = elim m.type [
  | MessageType.response ↦
      field "jsonrpc" (str "2.0")
        (field "id" (or_null m.correlation_id) (field "result" (obj m.content) no_fields))
  | MessageType.request ↦ field "jsonrpc" (str "2.0") (
      field "method" (find_or "method" (str "call") m.content) (
        field "params" (find_or "params" (obj no_fields) m.content)
          (field "id" (str m.id) no_fields)))
  | _ ↦ field "jsonrpc" (str "2.0") (
      field "method" (find_or "method" (str "notify") m.content)
        (field "params" (find_or "params" (obj m.content) m.content) no_fields))
]
