-- ===== src/Tests/Bridges.antt =====
-- The adapter, the bridge and the frames of the TCP channel.
use agents_protocol.Prelude.{[], ◌∷◌, String, ◌≡◌, refl, Option, none, some, arith}
use agents_protocol.Dict
use agents_protocol.Json.{no_fields}
use agents_protocol.Protocol.{AgentMessage, MessageType}
use agents_protocol.Bridge
use agents_protocol.Bridge.{
  BaseAdapter, BridgeAgent, max_requests, process_message, handle_external_message,
}
use agents_protocol.Bridge.Requests.{handle_external_message-process_message}
use agents_protocol.Json.{Fields}
use agents_protocol.Bridge.Stream.{process_all, external_message_loop}
use agents_protocol.Bridge.Lines.{handle_all, translated, external_message_loop-process_all}
use agents_protocol.Channel.Stream.{Bytes}
use agents_protocol.Tests.Data.{question}

abbrev answer : AgentMessage
answer = record question { id = "m5"; type = MessageType.response; correlation_id = some "m1" }

-- An external system that answers the question whatever comes.
abbrev echo : BaseAdapter String
echo = record { to_protocol = λ t. some answer; from_protocol = λ m. some no_fields }

handle_external_message-process_message_example :
    let out = handle_external_message echo "x" (process_message echo question (Bridge.new "b")).1 in
    (out.0 ≡ some (record answer { sender_id = "b"; recipient_id = some "scout" }))
    × (Dict.get "m1" out.1.request_map ≡ none)
handle_external_message-process_message_example =
    handle_external_message-process_message echo (Bridge.new "b") question answer "x" (omega arith)
      refl refl refl refl refl refl

-- "{}"
abbrev dumps : Fields → Bytes
dumps f = 123 ∷ 125 ∷ []

abbrev loads : Bytes → Option String
loads line = some "x"

external_message_loop-process_all_example :
    external_message_loop echo loads 65536
      (process_all echo dumps (question ∷ answer ∷ []) (Bridge.new "b")).0
      (Bridge.new "c")
    ≡ handle_all echo ("x" ∷ "x" ∷ []) (Bridge.new "c")
unfolding translated
external_message_loop-process_all_example =
    external_message_loop-process_all dumps echo loads 65536 (λ f. "x") echo
      (question ∷ answer ∷ []) (Bridge.new "b") (Bridge.new "c")
      (
        record { one_line = (refl, (refl, tt)); fits = omega arith; reads = refl },
        (record { one_line = (refl, (refl, tt)); fits = omega arith; reads = refl }, tt),
      )
