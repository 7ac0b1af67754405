-- ===== src/Bridge/Stream.antt =====
-- `StreamBridgeAgent` of src/agents_protocol/bridge.py: what it writes to its stream, and the loop over
-- the lines that it reads. Bytes are numbers. `dumps` stands for `json.dumps` with the encoding, `loads`
-- for `json.loads` with the decoding, `none` for an exception of it, and `limit` for the reader's limit:
-- `readline` raises for a line that is longer, which is then gone.
use agents_protocol.Prelude.{
  ℕ, ◌+◌, Bool, true, false, Option, none, some, List, [], ◌∷◌, ◌++◌, ltb, eqb, length,
  if◌then◌else◌,
}
use agents_protocol.Json.{Fields}
use agents_protocol.Protocol.{AgentMessage}
use agents_protocol.Bridge.{BaseAdapter, BridgeAgent, process_message, handle_external_message}
use agents_protocol.Agent.Connecting
use agents_protocol.Agent.{LiveAgent}
use agents_protocol.Broker.World.{World, Outcome, done, raised, blocked}
use agents_protocol.Channel.Stream.{Bytes}
use agents_protocol.Channel.Http.{push}

-- `(json.dumps(message) + "\n").encode()`
abbrev pub send_to_external : (Fields → Bytes) → Fields → Bytes
send_to_external dumps message = dumps message ++ 10 ∷ []

-- What `readline` returns until the stream ends: each line with its line feed, the last one maybe without.
unfoldable pub lines_of : Bytes → List Bytes
unfolding push
lines_of [] = []
lines_of (b ∷ bytes) =
    let rest = lines_of bytes in if eqb b 10 then (10 ∷ []) ∷ rest else push b rest

-- Whether `readline` raises, its line feed not counted.
abbrev pub is_long : ℕ → Bytes → Bool
is_long limit line = ltb (limit + 1) (length line)

-- A message that is sent to the broker before the others.
abbrev pub and_then :
    Option AgentMessage → List AgentMessage × BridgeAgent → List AgentMessage × BridgeAgent
and_then none (ms, b) = (ms, b)
and_then (some m) (ms, b) = (m ∷ ms, b)

module _ {E : Type 0} (adapter : BaseAdapter E) (dumps : Fields → Bytes) where
  -- What goes out on the stream for messages that the bridge processes: nothing for one that the adapter
  -- does not translate.
  unfoldable pub outgoing : Option Fields → Bytes
  outgoing none = []
  outgoing (some message) = send_to_external dumps message

  unfoldable pub process_all : List AgentMessage → BridgeAgent → Bytes × BridgeAgent
  unfolding outgoing process_message
  process_all [] b = ([], b)
  process_all (m ∷ ms) b =
      let out = process_message adapter m b in
      let later = process_all ms out.1 in (outgoing out.0 ++ later.0, later.1)

module _ {E : Type 0} (adapter : BaseAdapter E) (loads : Bytes → Option E) (limit : ℕ) where
  -- A line as `handle_external_message` gets it, if nothing raises before.
  unfoldable pub read : Bytes → Option E
  read line = if is_long limit line then none else loads line

  -- A round of the loop: an exception is logged, and the loop goes on.
  unfoldable pub round : Option E → BridgeAgent → Option AgentMessage × BridgeAgent
  unfolding handle_external_message
  round none b = (none, b)
  round (some data_) b = handle_external_message adapter data_ b

  -- The loop over the lines; what is sent to the broker, in order, and the bridge after it.
  unfoldable pub handle_lines : List Bytes → BridgeAgent → List AgentMessage × BridgeAgent
  unfolding round read
  handle_lines [] b = ([], b)
  handle_lines (line ∷ lines) b =
      let out = round (read line) b in and_then out.0 (handle_lines lines out.1)

  -- `_external_message_loop` of a bridge that runs, for a stream that ends after these bytes
  unfoldable pub external_message_loop : Bytes → BridgeAgent → List AgentMessage × BridgeAgent
  unfolding handle_lines lines_of
  external_message_loop bytes b = handle_lines (lines_of bytes) b

-- `StreamBridgeAgent` as an agent: whether its task listens to the stream, and whether its writer is
-- closed.
pub record StreamBridgeAgent (C : Type 0) : Type 0 where
  pub base : LiveAgent C
  pub listening : Bool
  pub closed : Bool

module _ {C : Type 0} where
  -- After the base class has connected, the task is made; an exception comes before that.
  unfoldable pub listen :
      StreamBridgeAgent C → Outcome C (Unit {0}) → StreamBridgeAgent C × Outcome C (Unit {0})
  listen a (done x w) = (record a { listening = true }, done x w)
  listen a (raised e w) = (a, raised e w)
  listen a (blocked w) = (a, blocked w)

  unfoldable pub connect :
      StreamBridgeAgent C → World C → StreamBridgeAgent C × Outcome C (Unit {0})
  unfolding Connecting.connect listen
  connect a w = let out = Connecting.connect a.base w in listen (record a { base = out.0 }) out.1

  -- `disconnect`: the task and the writer first, then the base class.
  unfoldable pub disconnect :
      StreamBridgeAgent C → World C → StreamBridgeAgent C × Outcome C (Unit {0})
  unfolding Connecting.disconnect
  disconnect a w =
      let out = Connecting.disconnect a.base w in
      (record a { base = out.0; listening = false; closed = true }, out.1)
