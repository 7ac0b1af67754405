-- ===== src/Channel/WebSocket.antt =====
-- `WebSocketChannel`. A connection is a number. The handler of a connection has two parts, since other
-- handlers run while it awaits: `identify` with the first message, and `leave` when it ends.
use agents_protocol.Prelude.{
  ℕ, String, Bool, true, false, Option, none, some, [], ◌==◌, if◌then◌else◌,
}
use agents_protocol.Dict
use agents_protocol.Dict.{Dict}
use agents_protocol.Protocol.{MessageStatus, delivered, failed}

abbrev pub Connection : Type 0
Connection = ℕ

-- `anonymous` is the entry of `_connections` under `None`.
pub record WebSocketChannel : Type 0 where
  pub running : Bool
  pub serving : Bool
  pub connections : Dict Connection
  pub anonymous : Option Connection

-- `__init__`
abbrev pub new : WebSocketChannel
new = record { running = false; serving = false; connections = []; anonymous = none }

unfoldable pub start : WebSocketChannel → WebSocketChannel
start c = record c { running = true; serving = true }

-- `stop`: all connections are closed, and the server object stays.
unfoldable pub stop : WebSocketChannel → WebSocketChannel
stop c = record c { running = false; connections = []; anonymous = none }

-- The first message of a connection: an identification, whose agent id is a text or missing, a message
-- of another type, or one whose reading raises.
pub data First : Type 0 where
  identification : Option String → First
  other : First
  unreadable : First

-- `self._connections[agent_id] = websocket`
unfoldable pub enter : Option String → Connection → WebSocketChannel → WebSocketChannel
enter none ws c = record c { anonymous = some ws }
enter (some agent_id) ws c = record c { connections = Dict.put agent_id ws c.connections }

-- The `finally` block, with the agent id that the handler has.
unfoldable pub leave : Option String → WebSocketChannel → WebSocketChannel
leave none c = c
leave (some agent_id) c =
    if agent_id == "" then c else record c { connections = Dict.remove agent_id c.connections }

-- What becomes of a handler: it listens under an agent id, or has ended.
pub data Phase : Type 0 where
  listening : Option String → Phase
  ended : Phase

-- The handler up to its first wait for a further message; `acknowledged` is whether the
-- acknowledgment could be sent.
unfoldable pub identify : First → Bool → Connection → WebSocketChannel → Phase × WebSocketChannel
unfolding enter leave
identify (identification agent_id) true ws c = (listening agent_id, enter agent_id ws c)
identify (identification agent_id) false ws c = (ended, leave agent_id (enter agent_id ws c))
identify other acknowledged ws c = (ended, c)
identify unreadable acknowledged ws c = (ended, c)

-- `send`, with the status that the message is set to and that is returned: `none` stands for the
-- `RuntimeError` of a channel that does not run, and `reaches` is whether a connection takes what is sent
-- to it.
unfoldable pub send : (Connection → Bool) → String → WebSocketChannel → Option MessageStatus
send reaches destination c =
    if c.running
    then elim (Dict.get destination c.connections) [
      | none ↦ some failed
      | some ws ↦ if reaches ws then some delivered else some failed
    ]
    else none
