-- ===== src/Tests/Agents.antt =====
-- Agents that answer, fail, keep silent, work off their inbox, and come and go.
use agents_protocol.Prelude.{◌+◌, ap, sym, String, ◌≡◌, refl, true, none, some, [], ◌∷◌, length}
use agents_protocol.Dict
use agents_protocol.Json.{str, Fields, no_fields, field}
use agents_protocol.Protocol.{MessageType, MessageStatus}
use agents_protocol.Objects.{Ref, set_status}
use agents_protocol.Inbox
use agents_protocol.Persistence.{save_message, update_message_status}
use agents_protocol.Extensions.{ExtensionManager, validate_message, trigger, run_all}
use agents_protocol.Security.{verify_message}
use agents_protocol.Inbox.{Inbox}
use agents_protocol.Inbox.Fifo.{maxsize-pos}
use agents_protocol.Broker.World.{World, Act, done, raised}
use agents_protocol.Agent.{LiveAgent, Handler, new, message_loop}
use agents_protocol.Agent.Sends.{Answered, reply_of}
use agents_protocol.Agent.Replies.{process, process_message-response}
use agents_protocol.Agent.Connecting.{connect, disconnect}
use agents_protocol.Agent.Lifecycle.{IsMember, HasLeft, disconnect-connect}
use agents_protocol.Agent.Answers.{IsReplyTo, message_loop-send_message}
use agents_protocol.Agent.Replies.{plain}
use agents_protocol.Agent.Receiving.{messages, taken}
use agents_protocol.Agent.{send_message}
use agents_protocol.Protocol.{delivered}
use agents_protocol.Agent.Results.{IsTidy, results}
use agents_protocol.Agent.Requests.{request-process_message, rests, sends, takes, processes}
use agents_protocol.Broker.World.{after, fields}
use agents_protocol.Broker.Delivery.{get_next_message_for_agent}
use agents_protocol.Broker.Sending.{do_send}
use agents_protocol.Broker.Requests.{NewRequest, open_request, close_request}
use agents_protocol.Inbox.{Entry}
use agents_protocol.Agent.Hooking.{IsEmptied, message_loop-barred}
use agents_protocol.Tests.Data.{planner, scout, no_link, idle, idle-IsBroker, staffed}

abbrev B : Type 0
B = World (Unit {0})

abbrev uuid : B → String
uuid w = "r1"

abbrev error_type : String → String
error_type e = "ValueError"

-- The planner at work, with one handler for every message.
abbrev working : Handler (Unit {0}) → LiveAgent (Unit {0})
working handler = record (new planner) {
  message_handlers = λ t. some handler;
  running = true;
  connected = true;
}

abbrev plan : Fields
plan = field "plan" (str "go") no_fields

abbrev obliging : Handler (Unit {0})
obliging r w = done (some plan) w

abbrev failing : Handler (Unit {0})
failing r w = raised "no plan" w

process_message-response_example :
    Answered
      (reply_of uuid (working obliging) MessageType.response 0 plan none staffed)
      0
      []
      staffed
      (process no_link [] uuid error_type (working obliging) 0 staffed)
unfolding validate_message verify_message Dict.get
process_message-response_example =
    process_message-response no_link [] uuid error_type (working obliging) obliging 0 [] staffed
      staffed "plan" (str "go") no_fields (record { before_it = refl; after_it = refl }) refl refl
      refl refl refl
      (record {
        valid = refl;
        secure = refl;
        asker = scout;
        known = refl;
        inbox = refl;
        room = maxsize-pos;
        calm = refl;
      })

abbrev no_middleware : ExtensionManager Ref (Act (Unit {0}) MessageStatus)
no_middleware = record { middleware = []; validation_rules = [] }

abbrev waiting : Inbox
waiting =
    record { priority = 2; time_ns = 1; counter = 0; message = 4 }
    ∷ record { priority = 1; time_ns = 2; counter = 1; message = 3 }
    ∷ []

abbrev busy : B
busy = record staffed { inboxes = ("planner", waiting) ∷ [] }

-- A handler that reads the clock and returns nothing.
abbrev timing : Handler (Unit {0})
timing r w = done none (record w { readings = w.readings + 1 })

disconnect-connect_example :
    let (b, o) = connect (new planner) idle in
    let v = after o in
    (o ≡ done tt v)
    × IsMember b v
    × (u : B) × ((disconnect b v).1 ≡ done tt u)
    × HasLeft (disconnect b v).0 idle u
unfolding Dict.get
disconnect-connect_example = disconnect-connect (new planner) idle (λ h. refl) idle-IsBroker refl

abbrev asked : NewRequest
asked = record {
  recipient_id = "planner";
  content = no_fields;
  message_type = MessageType.request;
  priority = none;
  metadata = none;
  correlation_id = "c7";
  id = "m7";
  timestamp = 3;
}

obliging-IsTidy : IsTidy (working obliging)
obliging-IsTidy t h r w e =
    ap (λ o. elim o [ none ↦ results w | some h ↦ results (after (h r w)) ]) (sym e)

abbrev request_sent : B
request_sent = after (do_send no_link [] 1 (open_request asked staffed).1)

abbrev request_taken : B
request_taken = (get_next_message_for_agent "planner" request_sent).1

abbrev request_answered : B
request_answered = after (process no_link [] uuid error_type (working obliging) 1 request_taken)

-- The planner takes the request from its inbox and answers it.
request-process_message_example : (close_request "c7" 0 request_answered).0 ≡ none
request-process_message_example =
    request-process_message no_link [] uuid error_type asked staffed request_answered (
      sends 1 (open_request asked staffed).1 request_answered (
        takes "planner" request_sent request_answered (
          processes (working obliging) 1 request_taken request_answered
            (record { before_it = refl; after_it = refl }) obliging-IsTidy
            (rests request_answered))))

abbrev asking : LiveAgent (Unit {0})
asking = record (new scout) { running = true; connected = true }

abbrev question_sent : B
question_sent =
    after (send_message no_link (plain no_link [] uuid error_type) uuid error_type asking 0 staffed)

abbrev question_taken : B
question_taken = taken "planner" [] question_sent

-- The scout asks the planner.
message_loop-send_message_example :
    let ext = plain no_link [] uuid error_type in
    let o = send_message no_link ext uuid error_type asking 0 staffed in
    let reply = reply_of uuid (working obliging) MessageType.response 0 plan none question_taken in
    (o ≡ done delivered (after o))
    × ((u : B) × (message_loop no_link ext uuid error_type 1 (working obliging) [] (after o)
          ≡ done (working obliging, 0 ∷ []) u)
        × Answered reply 0 [] question_taken (done tt u))
    × IsReplyTo (fields 0 question_taken) reply
unfolding send_message validate_message verify_message Dict.get Dict.put set_status Inbox.put
    save_message update_message_status
message_loop-send_message_example =
    message_loop-send_message no_link [] uuid error_type asking (working obliging) obliging 0 []
      staffed question_taken "plan" (str "go") no_fields refl refl refl
      (record { before_it = refl; after_it = refl })
      (record {
        valid = refl;
        secure = refl;
        addressed = refl;
        agent = planner;
        known = refl;
        inbox = refl;
        calm = refl;
      })
      refl refl refl refl
      (record {
        valid = refl;
        secure = refl;
        asker = scout;
        known = refl;
        inbox = refl;
        room = maxsize-pos;
        calm = refl;
      })

-- An agent whose callback before the processing raises.
abbrev barred : LiveAgent (Unit {0})
barred = record (working obliging) { hooks = λ h. (λ x w. (some "closed", w)) ∷ [] }

message_loop-barred_example :
    (v : B) × (message_loop no_link no_middleware uuid error_type (length waiting) barred [] busy
      ≡ done (barred, messages waiting) v)
    × IsEmptied "planner" busy v
unfolding Dict.get trigger run_all
message_loop-barred_example =
    message_loop-barred no_link no_middleware uuid error_type barred waiting busy
      (λ r w. ("closed", refl)) refl refl refl
