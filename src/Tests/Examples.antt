-- ===== src/Tests/Examples.antt =====
-- The programs of examples/ at work.
use agents_protocol.Prelude.{
  String, ◌≡◌, ◌↔◌, refl, Option, none, some, [], ◌∷◌, arith, true, eqb, if◌then◌else◌,
}
use agents_protocol.Dict
use agents_protocol.Json.{Value, str, obj, Fields, no_fields, field, find, find_or}
use agents_protocol.Protocol.{AgentMessage, delivered}
use agents_protocol.Inbox.Fifo.{maxsize-pos}
use agents_protocol.Adapter.{External, from_protocol}
use agents_protocol.Channel.Stream.{Bytes}
use agents_protocol.Broker.World.{World, after, fields}
use agents_protocol.Agent.Replies.{plain}
use agents_protocol.Bridge
use agents_protocol.Bridge.{process_message}
use agents_protocol.Bridge.Stream.{outgoing, external_message_loop}
use agents_protocol.Examples.Secure
use agents_protocol.Examples.Secure.{SecureAgent, send_secure, manager}
use agents_protocol.Examples.Policy.{Admits}
use agents_protocol.Examples.Access.{send_secure-delivered_iff}
use agents_protocol.Examples.Service.{response, handle_client}
use agents_protocol.Examples.Ping.{external, json_rpc, IsPong, handle_client-process_message}
use agents_protocol.Objects.{Ref}
use agents_protocol.Broker.World.{done}
use agents_protocol.Agent.{send_message, receive_message, message_loop}
use agents_protocol.Examples.Echo.{echo_of, online}
use agents_protocol.Examples.Met.{AreMet}
use agents_protocol.Examples.Missed.{receive_message-missed}
use agents_protocol.Tests.Data.{scout, question, planner, no_link, staffed}

abbrev B : Type 0
B = World (Unit {0})

abbrev uuid : B → String
uuid w = "r1"

abbrev error_type : String → String
error_type e = "ValueError"

abbrev watched : B
watched = record staffed { security_manager = some manager }

-- An agent that the security manager does not know, connected.
abbrev worker_b : SecureAgent (Unit {0})
worker_b = record {
  live = record ((Secure.new "worker_b" "Worker B" "no_key").live) { connected = true };
  token = "no_key";
  received_count = 0;
}

send_secure-delivered_iff_example :
    let o =
      send_secure no_link
        (plain no_link [] uuid error_type)
        uuid
        error_type
        worker_b
        "planner"
        no_fields
        watched in
    ((fields 1 (after o)).status ≡ delivered)
    ↔ Admits worker_b.live.info.agent_id worker_b.token "planner"
unfolding Dict.get
send_secure-delivered_iff_example =
    send_secure-delivered_iff no_link uuid error_type worker_b "planner" no_fields watched planner
      [] refl refl refl refl maxsize-pos refl

abbrev ping : AgentMessage
ping = record question { content = field "method" (str "ping") no_fields }

-- "1" for what has a method, "2" for all else.
abbrev dumps : Fields → Bytes
dumps f = elim (find "method" f) [ none ↦ 50 ∷ [] | some v ↦ 49 ∷ [] ]

abbrev loads : Bytes → Option Value
loads [] = none
loads (b ∷ bytes) =
    if eqb b 49 then some (obj (from_protocol ping)) else some (obj (response (from_protocol ping)))

abbrev loads_text : String → Option Value
loads_text s = none

abbrev text_of : Value → String
text_of (str s) = s
text_of _ = ""

abbrev rpc : Bridge.BaseAdapter External
rpc = json_rpc dumps loads 65536 loads_text text_of "r2" 9

handle_client-process_message_example :
    let (f, a) = process_message rpc ping (Bridge.new "b") in
    let back = handle_client dumps loads 65536 (outgoing rpc dumps f) in
    let out = external_message_loop rpc (λ line. external (loads line)) 65536 back a in
    (r : AgentMessage) × (out.0 ≡ r ∷ [])
    × IsPong "b" ping r
    × (Dict.get "m1" out.1.request_map ≡ none)
unfolding Dict.get find find_or from_protocol response
handle_client-process_message_example =
    handle_client-process_message dumps loads 65536 loads_text text_of "r2" 9 (λ s. refl) ping
      (Bridge.new "b") (omega arith) refl refl refl refl
      (record { one_line = (refl, tt); fits = omega arith; reads = refl })
      (record { one_line = (refl, tt); fits = omega arith; reads = refl })

abbrev unwatched : B
unwatched = record staffed { security_manager = none }

met : AreMet "scout" "planner" 0 unwatched
unfolding Dict.get
met = record {
  apart = refl;
  first = scout;
  first_known = refl;
  first_inbox = refl;
  second = planner;
  second_known = refl;
  second_inbox = refl;
  unchecked = refl;
  calm = λ n. refl;
  request = refl;
  addressed = refl;
}

receive_message-missed_example :
    let ext = plain no_link [] uuid error_type in
    let s = online text_of "scout" "Scout" in
    let a = online text_of "planner" "Planner" in
    let o = send_message no_link ext uuid error_type s 0 unwatched in
    (o ≡ done delivered (after o))
    × (u : B) × (message_loop no_link ext uuid error_type 1 a [] (after o) ≡ done (a, 0 ∷ []) u)
    × (q : Ref) × ((fields q u).content
        ≡ echo_of text_of "planner" (find_or "text" (str "") (fields 0 unwatched).content))
    × (x : B) × (message_loop no_link ext uuid error_type 1 s [] u ≡ done (s, q ∷ []) x)
    × (receive_message s x ≡ (none, (s, x)))
receive_message-missed_example =
    receive_message-missed no_link uuid error_type text_of "scout" "planner" "Scout" "Planner" 0
      unwatched met
