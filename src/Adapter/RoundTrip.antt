-- ===== src/Adapter/RoundTrip.antt =====
-- What comes back when a message goes out through the adapter and is read in again.
use agents_protocol.Prelude.{ℕ, String, ◌≡◌, Option, some, true}
use agents_protocol.Json.{Value, str, obj, no_fields, find, find_or, is_not_null}
use agents_protocol.Protocol.{AgentMessage, MessageType}
use agents_protocol.Adapter.{
  data_, call_content, to_protocol, from_protocol, translate, data_of, classify, construct,
}

module _ (loads : String → Option Value) (text_of : Value → String) (id : String) (now : ℕ)
    (text_of_str : (s : String) → text_of (str s) ≡ s) where
  -- Let `str` leave a text as it is. A response with a correlation id that goes out and is read in is a
  -- response with the same content and correlation id. A request whose method is not null comes back as
  -- a request with its method, or `call` where it has none, and its parameters, or none, and the
  -- correlation id of the message that is read is the request's own id.
  pub to_protocol-from_protocol :
      (m : AgentMessage)
      → ((c : String)
          → m.type ≡ MessageType.response
          → m.correlation_id ≡ some c
          → to_protocol loads text_of id now (data_ (from_protocol m))
            ≡ construct id now MessageType.response (some m.content) (some c))
        × (m.type ≡ MessageType.request
            → is_not_null (find_or "method" (str "call") m.content) ≡ true
            → to_protocol loads text_of id now (data_ (from_protocol m))
              ≡ construct id now MessageType.request
                  (some (
                    call_content
                      (find_or "method" (str "call") m.content)
                      (find_or "params" (obj no_fields) m.content)))
                  (some m.id))
  unfolding to_protocol from_protocol translate data_of classify find_or find
  to_protocol-from_protocol m =
      (λ c t e. rw (t, e, text_of_str c), λ t e. rw (t, e, text_of_str m.id))
