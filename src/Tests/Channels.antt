-- ===== src/Tests/Channels.antt =====
-- Connections that come and go, and streams that are written and read.
use agents_protocol.Prelude.{
  ◌↔◌, eqb, ℕ, zero, suc, String, ◌≡◌, refl, ap, true, false, none, some, [], ◌∷◌, ◌++◌, Option,
  length, arith, ℤ, pos, or_else, ◌==◌, if◌then◌else◌,
}
use agents_protocol.Dict
use agents_protocol.Protocol.{MessageStatus, failed}
use agents_protocol.Channel.Stream.{Bytes, frame, process_stream}
use agents_protocol.Channel.Framing.{write_all}
use agents_protocol.Channel.WebSocket
use agents_protocol.Channel.WebSocket.{WebSocketChannel, identification, identify, leave}
use agents_protocol.Channel.Reconnects.{Event, begins, run, answer, send-reconnected}
use agents_protocol.Channel.Tcp
use agents_protocol.Channel.Tcp.{Sockets, TcpSocketChannel, address, cut_colon, has_colon}
use agents_protocol.Channel.Connections.{Settled, send-Settled}
use agents_protocol.Channel.Arrival.{send_all}
use agents_protocol.Channel.Ends.{process_stream-long}
use agents_protocol.Channel.Reading.{Reads, process_stream-Reads}
use agents_protocol.Channel.Http.{
  starts, length_name, content_length, length_value, strip_left, strip_right, int_of, digits,
}
use agents_protocol.Channel.Serving.{same, post_method, message_path, respond}
use agents_protocol.Channel.Unserved.{get_method, answered, forward_message-unserved}
use agents_protocol.Cluster.Peer.{Network, ClusterPeer, new_peer, forward_message, send_heartbeat}
use agents_protocol.Protocol.{AgentMessage}
use agents_protocol.Objects.{Ref}
use agents_protocol.Extensions.{ExtensionManager}
use agents_protocol.Broker.World.{World, Act}
use agents_protocol.Channel.Inbound.{handle_stream}
use agents_protocol.Channel.EndToEnd.{bare, Arrived, handle_stream-send_all}
use agents_protocol.Extensions.{validate_message}
use agents_protocol.Security.{verify_message}
use agents_protocol.Inbox.Fifo.{maxsize-pos}
use agents_protocol.Channel.Posting.{Posted, handle_request-written}
use agents_protocol.Channel.Serving.{handle_request}
use agents_protocol.Tests.Data.{question, planner, no_link, staffed}
use agents_protocol.Channel.Requests.{written}

abbrev hub : WebSocketChannel
hub = record { running = true; serving = true; connections = []; anonymous = none }

abbrev scout_comes : Event
scout_comes = begins (identification (some "scout")) true 6

send-reconnected_example :
    let v = run (scout_comes ∷ []) (identify (identification (some "planner")) true 5 hub).1 in
    let u = run [] (identify (identification (some "planner")) true 7 v).1 in
    (WebSocket.send (λ ws. true) "planner" u ≡ some (answer (λ ws. true) (some 7)))
    × (WebSocket.send (λ ws. true) "planner" (leave (some "planner") u) ≡ some failed)
send-reconnected_example =
    send-reconnected (λ ws. true) "planner" 5 7 (scout_comes ∷ []) [] hub refl refl (refl, tt) tt

-- One connection for all, and what was written to it.
abbrev pipe : Sockets Bytes
pipe = record {
  open_connection = λ host port s. (some 1, s);
  write = λ w bytes s. (true, s ++ bytes);
  is_closing = λ w s. false;
  close = λ w s. s;
}

abbrev port_of : String → Option ℤ
port_of s = if s == "80" then some (pos 80) else none

abbrev open_channel : TcpSocketChannel
open_channel = record {
  running = true;
  serving = true;
  connections = [];
  outgoing_connections = ("h:80", 1) ∷ [];
}

send-Settled_example :
    (out : MessageStatus × (TcpSocketChannel × Bytes)) × (Tcp.send pipe port_of
        (123 ∷ 125 ∷ [])
        "h:80"
        open_channel
        []
      ≡ some out)
    × Settled "h:80" open_channel out.0 out.1.0
unfolding address cut_colon has_colon
send-Settled_example =
    send-Settled pipe "h:80" open_channel port_of (123 ∷ 125 ∷ []) [] ("h", pos 80) refl refl

unfoldable zeros : ℕ → Bytes
zeros zero = []
zeros (suc n) = 0 ∷ zeros n

-- Two payloads, the first of 258 bytes, and a length whose payload is missing.
abbrev two_payloads : Bytes
two_payloads = 0 ∷ 0 ∷ 1 ∷ 2 ∷ zeros 258 ++ (0 ∷ 0 ∷ 0 ∷ 1 ∷ 91 ∷ 0 ∷ 0 ∷ 0 ∷ 2 ∷ 7 ∷ [])

process_stream-Reads_example :
    (process_stream two_payloads ≡ zeros 258 ∷ (91 ∷ []) ∷ [])
    ↔ Reads two_payloads (zeros 258 ∷ (91 ∷ []) ∷ [])
process_stream-Reads_example = process_stream-Reads two_payloads (zeros 258 ∷ (91 ∷ []) ∷ [])

length-zeros : (n : ℕ) → length (zeros n) ≡ n
unfolding zeros
length-zeros zero = refl
length-zeros (suc n) = ap suc (length-zeros n)

process_stream-long_example :
    process_stream (write_all ((91 ∷ []) ∷ []) ++ (or_else (frame (zeros 10485761)) [] ++ (0 ∷ [])))
    ≡ (91 ∷ []) ∷ []
process_stream-long_example =
    process_stream-long ((91 ∷ []) ∷ []) (zeros 10485761) (0 ∷ []) (omega arith, tt)
      (omega (arith, length-zeros 10485761)) (omega (arith, length-zeros 10485761))

-- "HTTP" and "content-length: 2"
abbrev version : Bytes
version = 72 ∷ 84 ∷ 84 ∷ 80 ∷ []

abbrev header : Bytes
header = length_name ++ 32 ∷ 50 ∷ []

abbrev no_middleware : ExtensionManager Ref (Act (Unit {0}) MessageStatus)
no_middleware = record { middleware = []; validation_rules = [] }

-- Any body is read as the question.
abbrev reads : Bytes → Option AgentMessage
reads body = some question

-- "/" and the first letter of what follows
abbrev paths : String → Bytes
paths url = if url == "http://n1/internal/forward" then 47 ∷ 105 ∷ [] else 47 ∷ 104 ∷ []

abbrev client : Network (World (Unit {0}))
client = record {
  post = λ k url m w. answered (
      respond no_link no_middleware reads
        (record { method = post_method; path = paths url; body = [] }) w);
  aclose = λ k s. s;
  get_health = λ k url w. answered (
      respond no_link no_middleware reads
        (record { method = get_method; path = paths url; body = [] }) w);
  time = λ w. w.readings;
  loop_time = λ w. w.readings;
  sleep = λ d w. w;
  draw = λ n. 500;
}

abbrev peer : ClusterPeer
peer =
    new_peer (record { node_id = "n1"; endpoint = "http://n1"; capabilities = []; last_seen = 0 }) 0

forward_message-unserved_example :
    ((forward_message client question peer staffed).0 ≡ false)
    × (send_heartbeat client peer staffed ≡ ((false, peer), staffed))
unfolding same new_peer
forward_message-unserved_example =
    forward_message-unserved client no_link no_middleware reads paths (λ m. []) peer question
      staffed (record { posts = λ k url m w. refl; gets = λ k url w. refl }) refl

-- What begins with a brace is read as the question.
abbrev parses : Bytes → Option AgentMessage
parses [] = none
parses (b ∷ bytes) = if eqb b 123 then some question else none

handle_stream-send_all_example :
    (t : Bytes) × (send_all pipe port_of "h:80" ((91 ∷ []) ∷ (123 ∷ 125 ∷ []) ∷ []) open_channel []
      ≡ some (open_channel, t))
    × Arrived no_link [] parses question "planner" [] staffed
        (handle_stream no_link (bare no_link [] parses) parses t staffed)
unfolding address cut_colon has_colon Dict.get validate_message verify_message
handle_stream-send_all_example =
    handle_stream-send_all no_link [] parses pipe port_of "h:80" 1 (λ s. s)
      (record { takes = λ bytes s. (s ++ bytes, refl, refl); stays = λ s. refl }) open_channel
      ("h", pos 80) refl refl refl ((91 ∷ []) ∷ []) (123 ∷ 125 ∷ []) [] question "planner" []
      staffed (omega arith, (omega arith, tt)) refl (refl, tt) refl
      (record {
        valid = refl;
        secure = refl;
        addressed = refl;
        agent = planner;
        known = refl;
        inbox = refl;
        room = maxsize-pos;
        calm = refl;
      })

handle_request-written_example : Posted no_link [] parses question "planner" [] staffed (
    handle_request no_link
      (bare no_link [] parses)
      parses
      (written
        ((post_method ++ 32 ∷ (message_path ++ 32 ∷ version)) ∷ header ∷ [])
        ((123 ∷ 125 ∷ []) ++ []))
      staffed)
unfolding content_length starts length_value strip_left strip_right int_of digits Dict.get
    validate_message verify_message
handle_request-written_example =
    handle_request-written no_link [] parses version (header ∷ []) (123 ∷ 125 ∷ []) [] question
      "planner" [] staffed (ground arith) (ground arith) refl (omega arith) refl
      (record {
        valid = refl;
        secure = refl;
        addressed = refl;
        agent = planner;
        known = refl;
        inbox = refl;
        room = maxsize-pos;
        calm = refl;
      })
