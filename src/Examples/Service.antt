-- ===== src/Examples/Service.antt =====
-- The external service of examples/client_b_bridge.py, which speaks JSON-RPC over a stream of lines.
-- Bytes, `dumps`, `loads` and `limit` are those of the bridge's stream.
use agents_protocol.Prelude.{ℕ, Bool, false, Option, some, List, [], ◌∷◌, ◌++◌, ◌==◌, if◌then◌else◌}
use agents_protocol.Json.{Value, null, str, obj, Fields, no_fields, field, find_or}
use agents_protocol.Channel.Stream.{Bytes}
use agents_protocol.Bridge.Stream.{send_to_external, lines_of, is_long}

-- `request.get("method") == "ping"`
abbrev pub is_ping : Value → Bool
is_ping (str method) = method == "ping"
is_ping _ = false

-- `response`
unfoldable pub response : Fields → Fields
response request = field "jsonrpc" (str "2.0") (
    field "id" (find_or "id" null request) (
      field "result"
        (obj (field "status" (str "pong") (field "echo" (find_or "params" null request) no_fields)))
        no_fields))

module _ (dumps : Fields → Bytes) (loads : Bytes → Option Value) (limit : ℕ) where
  -- The `try` block after `json.loads`: an exception, as that of `get` on what is no dict, is logged.
  unfoldable pub respond : Option Value → Bytes
  unfolding response
  respond (some (obj request)) =
      if is_ping (find_or "method" null request)
      then send_to_external dumps (response request)
      else []
  respond _ = []

  -- The loop over the lines; `readline` raises for one that is too long, and that ends the handler.
  unfoldable pub serve : List Bytes → Bytes
  unfolding respond
  serve [] = []
  serve (line ∷ lines) =
      let rest = serve lines in if is_long limit line then [] else respond (loads line) ++ rest

  -- What `handle_client` writes for a stream that ends after these bytes
  unfoldable pub handle_client : Bytes → Bytes
  unfolding serve lines_of
  handle_client bytes = serve (lines_of bytes)
