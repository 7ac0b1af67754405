-- ===== src/Examples/Ping.antt =====
-- A ping through a bridge to the external service, and the way back.
use agents_protocol.Prelude.{
  ℕ, String, ◌≡◌, refl, ap, ◌∙◌, false, Option, none, some, [], ◌∷◌, ◌==◌, length, ◌≤◌,
  length-append, append-nil, arith,
}
use agents_protocol.Json.{Value, null, str, obj, Fields, no_fields, field, find_or, find}
use agents_protocol.Protocol.{
  AgentMessage, MessageType, normal, pending, set_correlation_id_if_none,
}
use agents_protocol.Dict
use agents_protocol.Adapter.{
  External, text, data_, to_protocol, from_protocol, translate, data_of, classify, construct,
}
use agents_protocol.Channel.Stream.{Bytes}
use agents_protocol.Bridge.{
  BaseAdapter, BridgeAgent, max_requests, process_message, handle_external_message,
}
use agents_protocol.Bridge.Requests.{handle_external_message-process_message}
use agents_protocol.Bridge.Stream.{
  send_to_external, lines_of, is_long, and_then, outgoing, external_message_loop, handle_lines,
}
use agents_protocol.Bridge.Lines.{IsWire, lines_of-line, handle_lines-wire, handle_all}
use agents_protocol.Examples.Service.{response, respond, serve, handle_client}

-- What `json.loads` returned, as `handle_external_message` gets it; `get` raises on all else.
abbrev pub external : Option Value → Option External
external (some (str s)) = some (text s)
external (some (obj fs)) = some (data_ fs)
external _ = none

-- The response to a ping, as it is sent to the broker.
pub record IsPong (agent_id : String) (m r : AgentMessage) : Type 0 where
  pub type : r.type ≡ MessageType.response
  pub sender : r.sender_id ≡ agent_id
  pub recipient : r.recipient_id ≡ some m.sender_id
  pub correlation : r.correlation_id ≡ some m.id
  pub content :
      r.content
      ≡ field "status"
          (str "pong")
          (field "echo" (find_or "params" (obj no_fields) m.content) no_fields)

handle_all-one :
    {E : Type 0} (adapter : BaseAdapter E) (x : E) (b : BridgeAgent) (r : AgentMessage)
    → (handle_external_message adapter x b).0 ≡ some r
    → handle_all adapter (x ∷ []) b ≡ (r ∷ [], (handle_external_message adapter x b).1)
unfolding handle_all
handle_all-one adapter x b r e =
    ap (λ o. and_then o ([], (handle_external_message adapter x b).1)) e

module _ (dumps : Fields → Bytes) (loads : Bytes → Option Value) (limit : ℕ)
    (loads_text : String → Option Value) (text_of : Value → String) (id : String) (now : ℕ) where
  -- The adapter of the bridge.
  abbrev pub json_rpc : BaseAdapter External
  json_rpc = record {
    to_protocol = to_protocol loads_text text_of id now;
    from_protocol = λ m. some (from_protocol m);
  }

  -- A text that one side writes, and the other can read.
  abbrev pub IsReadable : Fields → Type 0
  IsReadable = IsWire dumps loads limit obj

  short : (f : Fields) → IsReadable f → is_long limit (send_to_external dumps f) ≡ false
  short f h = ground (arith, length-append (dumps f) (10 ∷ []), h.fits)

  respond-ping :
      (f : Fields)
      → find_or "method" null f ≡ str "ping"
      → respond dumps loads limit (some (obj f)) ≡ send_to_external dumps (response f)
  unfolding respond
  respond-ping f p = rw p refl

  handle_client-ping :
      (f : Fields)
      → IsReadable f
      → find_or "method" null f ≡ str "ping"
      → handle_client dumps loads limit (send_to_external dumps f)
        ≡ send_to_external dumps (response f)
  unfolding handle_client serve lines_of
  handle_client-ping f h p =
      ap (serve dumps loads limit) (lines_of-line (dumps f) [] h.one_line)
      ∙ (rw (short f h, h.reads, respond-ping f p)
          (append-nil (send_to_external dumps (response f))))

  -- A readable text comes to the bridge as one message.
  external_message_loop-line :
      (g : Fields) (b : BridgeAgent)
      → IsReadable g
      → external_message_loop json_rpc
          (λ line. external (loads line))
          limit
          (send_to_external dumps g)
          b
        ≡ handle_all json_rpc (data_ g ∷ []) b
  unfolding external_message_loop lines_of
  external_message_loop-line g b h =
      let loads_external : Bytes → Option External = λ line. external (loads line) in
      let k : IsWire dumps loads_external limit data_ g = record {
        one_line = h.one_line;
        fits = h.fits;
        reads = ap external h.reads;
      } in
      ap (λ l. handle_lines json_rpc loads_external limit l b)
        (lines_of-line (dumps g) [] h.one_line)
      ∙ handle_lines-wire dumps json_rpc loads_external limit data_ (g ∷ []) b (k, tt)

  module _ (text_of_str : (s : String) → text_of (str s) ≡ s) where
    -- The response as the adapter reads it.
    abbrev pong : AgentMessage → AgentMessage
    pong m = record {
      id = id;
      type = MessageType.response;
      sender_id = "external";
      recipient_id = none;
      priority = normal;
      status = pending;
      timestamp = now;
      correlation_id = some m.id;
      reply_to = none;
      content =
          field "status" (str "pong")
            (field "echo" (find_or "params" (obj no_fields) m.content) no_fields);
      metadata = no_fields;
      security = none;
    }

    to_protocol-response :
        (m : AgentMessage)
        → m.type ≡ MessageType.request
        → to_protocol loads_text text_of id now (data_ (response (from_protocol m))) ≡ some (pong m)
    unfolding to_protocol from_protocol translate data_of classify construct find_or find response
        set_correlation_id_if_none
    to_protocol-response m t = rw (t, text_of_str m.id)

    from_protocol-ping :
        (m : AgentMessage)
        → m.type ≡ MessageType.request
        → find_or "method" (str "call") m.content ≡ str "ping"
        → find_or "method" null (from_protocol m) ≡ str "ping"
    unfolding from_protocol find_or find
    from_protocol-ping m t p = rw t p

    -- Let a bridge with the JSON-RPC adapter, which remembers at most `max_requests` requests, process a
    -- request to ping, with an id and a sender that are not empty, and let the external service
    -- read what the bridge writes, where both texts are on one line, not longer than the limit, and can
    -- be read. Then the service writes one response, and the bridge makes one message of it: a
    -- response for the request's sender in the bridge's name, with the request's id as correlation id
    -- and its parameters as echo. The request is no longer remembered.
    pub handle_client-process_message :
        (m : AgentMessage) (b : BridgeAgent)
        → length b.request_map ≤ max_requests
        → m.type ≡ MessageType.request
        → find_or "method" (str "call") m.content ≡ str "ping"
        → (m.id == "") ≡ false
        → (m.sender_id == "") ≡ false
        → IsReadable (from_protocol m)
        → IsReadable (response (from_protocol m))
        → let (f, a) = process_message json_rpc m b in
          let back = handle_client dumps loads limit (outgoing json_rpc dumps f) in
          let out = external_message_loop json_rpc (λ line. external (loads line)) limit back a in
          (r : AgentMessage) × (out.0 ≡ r ∷ [])
          × IsPong b.agent_id m r
          × (Dict.get m.id out.1.request_map ≡ none)
    handle_client-process_message m b room t p i s there back =
        let f = from_protocol m in
        let a = (process_message json_rpc m b).1 in
        let loads_external : Bytes → Option External = λ line. external (loads line) in
        let x : handle_client dumps loads limit
              (outgoing json_rpc dumps (process_message json_rpc m b).0)
            ≡ send_to_external dumps (response f) =
          unfold outgoing process_message in
          handle_client-ping f there (from_protocol-ping m t p) in
        let (sent, gone) =
          handle_external_message-process_message json_rpc b m (pong m) (data_ (response f)) room t
            i s (to_protocol-response m t) refl refl in
        let y =
          ap (λ bytes. external_message_loop json_rpc loads_external limit bytes a) x
          ∙ (external_message_loop-line (response f) a back
              ∙ handle_all-one json_rpc (data_ (response f)) a _ sent) in
        (
          record (pong m) { sender_id = b.agent_id; recipient_id = some m.sender_id },
          ap (λ z. z.0) y,
          record {
            type = refl;
            sender = refl;
            recipient = refl;
            correlation = refl;
            content = refl;
          },
          ap (λ z. Dict.get m.id z.1.request_map) y ∙ gone,
        )
