-- ===== src/Examples/Echo.antt =====
-- The agents of examples/basic_usage.py.
use Prim.Native.String.{◌++◌ as text_append}
use agents_protocol.Prelude.{String, some, [], ◌∷◌, true}
use agents_protocol.Json.{Value, str, Fields, no_fields, field, find_or}
use agents_protocol.Protocol.{MessageType}
use agents_protocol.Broker.World.{done, fields}
use agents_protocol.Agent
use agents_protocol.Agent.{LiveAgent, Handler, register_handler}

-- The dict that `handle_echo` returns; `format` is what an f-string makes of a value.
abbrev pub echo_of : (Value → String) → String → Value → Fields
echo_of format agent_id received = field "echo" received (
    field "from" (str agent_id)
      (field "message" (str (text_append "Echo: " (format received))) no_fields))

module _ {C : Type 0} (format : Value → String) where
  unfoldable pub handle_echo : String → Handler C
  unfolding find_or
  handle_echo agent_id r w =
      done (some (echo_of format agent_id (find_or "text" (str "") (fields r w).content))) w

  -- `EchoAgent.__init__`
  unfoldable pub echo_agent : String → String → LiveAgent C
  unfolding register_handler handle_echo
  echo_agent agent_id name = register_handler MessageType.request (handle_echo agent_id) (
      Agent.new (record {
        agent_id = agent_id;
        name = name;
        capabilities = "echo" ∷ [];
        metadata = no_fields;
      }))

  -- An echo agent after its `connect`.
  abbrev pub online : String → String → LiveAgent C
  online agent_id name = record (echo_agent agent_id name) { running = true; connected = true }
