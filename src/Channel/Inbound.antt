-- ===== src/Channel/Inbound.antt =====
-- What the receiving channels give to their broker: `_process_stream` of the TCP channel and the
-- listening of `_handle_connection` of the WebSocket channel. `read_message` stands for the parsing of a
-- payload as a message, `none` for an exception of it.
use agents_protocol.Prelude.{◌+◌, Option, none, some, List, [], ◌∷◌}
use agents_protocol.Protocol.{AgentMessage, MessageStatus}
use agents_protocol.Objects.{Ref, Heap, write}
use agents_protocol.Extensions.{ExtensionManager}
use agents_protocol.Broker.World.{World, Outcome, Act, done, raised, blocked, bind}
use agents_protocol.Broker.Sending.{ClusterLink, send}
use agents_protocol.Channel.Stream.{Bytes, process_stream}

-- `AgentMessage(**data)`: the message is a new object.
unfoldable pub adopt : {C : Type 0} → AgentMessage → World C → Ref × World C
unfolding write
adopt m w =
    let h : Heap = record (w.heap) { next = w.heap.next + 1 } in
    (w.heap.next, record w { heap = write w.heap.next m h })

module _ {C : Type 0} (link : ClusterLink C) (ext : ExtensionManager Ref (Act C MessageStatus))
    (read_message : Bytes → Option AgentMessage) where
  -- What was read goes to the broker; the status is not looked at.
  unfoldable pub pass_in : Option AgentMessage → Act C (Unit {0})
  unfolding adopt send
  pass_in none w = raised "the payload is no message" w
  pass_in (some m) w = let (r, v) = adopt m w in bind (send link ext r v) (λ s. done tt)

  -- The inner `try` of `_process_stream`: an exception is logged, and the loop goes on.
  abbrev pub logged : Outcome C (Unit {0}) → Act C (Unit {0}) → Outcome C (Unit {0})
  logged (done x w) rest = rest w
  logged (raised e w) rest = rest w
  logged (blocked w) rest = blocked w

  unfoldable pub deliver_all : List Bytes → Act C (Unit {0})
  unfolding pass_in
  deliver_all [] w = done tt w
  deliver_all (p ∷ ps) w = logged (pass_in (read_message p) w) (deliver_all ps)

  -- `_process_stream` of a channel that runs, for a stream that ends after these bytes
  unfoldable pub handle_stream : Bytes → Act C (Unit {0})
  unfolding deliver_all process_stream
  handle_stream bytes w = deliver_all (process_stream bytes) w

  -- `async for message in websocket`: an exception ends the connection.
  unfoldable pub listen : List Bytes → Act C (Unit {0})
  unfolding pass_in
  listen [] w = done tt w
  listen (p ∷ ps) w = bind (pass_in (read_message p) w) (λ x. listen ps)
