-- ===== src/Agent.antt =====
-- `Agent` of src/agents_protocol/agents.py while it runs: its handlers and hooks, and what it does with
-- a broker. The broker it is connected to is the world that its methods act on. A handler acts on that
-- world; a hook's callback does so too, and gets the
-- message where one is processed.
pub mod Sends
pub mod Replies
pub mod Receiving
pub mod Draining
pub mod Connecting
pub mod Lifecycle
pub mod Answers
pub mod Results
pub mod Requests
pub mod Hooking
use Prim.Native.String.{◌++◌ as text_append}
use agents_protocol.Prelude.{
  ℕ, zero, suc, ◌+◌, ◌++◌, String, Bool, true, false, ◌&&◌, Option, none, some, List, [], ◌∷◌,
  if◌then◌else◌,
}
use agents_protocol.Json.{str, Fields, no_fields, field}
use agents_protocol.Protocol.{AgentMessage, MessageType, MessageStatus, same_type, create_reply}
use agents_protocol.Objects.{Ref, Heap, write}
use agents_protocol.Extensions.{
  AgentHook, pre_connect, post_connect, pre_disconnect, post_disconnect, pre_message_process,
  post_message_process, Callback, HookManager, no_hooks, register_hook, trigger, ExtensionManager,
}
use agents_protocol.Registry
use agents_protocol.Broker.World.{
  World, Outcome, Act, done, raised, blocked, bind, fields, now, register_agent, unregister_agent,
}
use agents_protocol.Broker.Delivery.{get_next_message_for_agent}
use agents_protocol.Broker.Sending.{ClusterLink, send}

-- What a hook's callbacks leave, where `e` is the exception that goes on if they raise none.
abbrev pub unless_raised :
    {C : Type 0} → Option String → Option String × World C → Outcome C (Unit {0})
unless_raised e (some e', w) = raised e' w
unless_raised (some e) (none, w) = raised e w
unless_raised none (none, w) = done tt w

-- A registered handler: what it returns is `None` or the content of the answer.
abbrev pub Handler : Type 0 → Type 0
Handler C = Ref → Act C (Option Fields)

-- `connected` is whether `_broker` is set, and `inbox` the agent's own queue.
pub record LiveAgent (C : Type 0) : Type 0 where
  pub info : Registry.Agent
  pub message_handlers : MessageType → Option (Handler C)
  pub inbox : List Ref
  pub running : Bool
  pub connected : Bool
  pub hooks : HookManager (Option Ref) (World C)

module _ {C : Type 0} where
  -- `__init__`
  abbrev pub new : Registry.Agent → LiveAgent C
  new info = record {
    info = info;
    message_handlers = λ t. none;
    inbox = [];
    running = false;
    connected = false;
    hooks = no_hooks;
  }

  unfoldable pub register_handler : MessageType → Handler C → LiveAgent C → LiveAgent C
  register_handler message_type handler a = record a {
    message_handlers = λ t. if same_type t message_type then some handler else a.message_handlers t;
  }

  unfoldable pub add_hook : AgentHook → Callback (Option Ref) (World C) → LiveAgent C → LiveAgent C
  unfolding register_hook
  add_hook hook callback a = record a { hooks = register_hook hook callback a.hooks }

  abbrev pub set_broker : LiveAgent C → LiveAgent C
  set_broker a = record a { connected = true }

  unfoldable pub is_connected : LiveAgent C → Bool
  is_connected a = a.running && a.connected

  -- `receive_message`; where the own queue is empty too, the wait of a second ends without a message.
  unfoldable pub from_own_inbox : LiveAgent C → Option Ref × LiveAgent C
  from_own_inbox a = elim a.inbox [ [] ↦ (none, a) | r ∷ rs ↦ (some r, record a { inbox = rs }) ]

  unfoldable pub received :
      LiveAgent C → Option Ref × World C → Option Ref × (LiveAgent C × World C)
  unfolding from_own_inbox
  received a (some r, w) = (some r, (a, w))
  received a (none, w) = let (o, a') = from_own_inbox a in (o, (a', w))

  unfoldable pub receive_message : LiveAgent C → World C → Option Ref × (LiveAgent C × World C)
  unfolding received get_next_message_for_agent
  receive_message a w =
      if a.connected
      then received a (get_next_message_for_agent a.info.agent_id w)
      else received a (none, w)

  -- A new message object, whose construction read the clock.
  unfoldable pub construct : AgentMessage → World C → Ref × World C
  unfolding write
  construct m w =
      let h : Heap = record (w.heap) { next = w.heap.next + 1 } in
      (w.heap.next, record w { heap = write w.heap.next m h; readings = w.readings + 1 })

  -- `message.sender_id = self.agent_id`
  unfoldable pub sign : String → Ref → World C → World C
  unfolding write
  sign agent_id r w = record w {
    heap = write r (record (fields r w) { sender_id = agent_id }) w.heap;
  }

  -- The end of a broadcast's writes: `message.recipient_id = None`.
  unfoldable pub unaddress : Ref → World C → World C
  unfolding write
  unaddress r w = record w { heap = write r (record (fields r w) { recipient_id = none }) w.heap }

  -- `f"Agent {self.agent_id} is not connected to a broker"`
  abbrev pub not_connected : LiveAgent C → String
  not_connected a =
      text_append "Agent " (text_append a.info.agent_id " is not connected to a broker")

-- `uuid` is the id that is drawn in a state of the world, and `error_type` the class name of the
-- exception with a text.
module _ {C : Type 0} (link : ClusterLink C) (ext : ExtensionManager Ref (Act C MessageStatus))
    (uuid : World C → String) (error_type : String → String) where
  unfoldable pub send_message : LiveAgent C → Ref → Act C MessageStatus
  unfolding sign send
  send_message a r w =
      if a.connected then send link ext r (sign a.info.agent_id r w) else raised (not_connected a) w

  unfoldable pub broadcast : LiveAgent C → Ref → Act C MessageStatus
  unfolding sign unaddress send
  broadcast a r w =
      if a.connected
      then send link ext r (unaddress r (sign a.info.agent_id r w))
      else raised (not_connected a) w

  abbrev pub forget : {A : Type 0} → Outcome C A → Outcome C (Unit {0})
  forget o = bind o (λ x. done tt)

  -- A reply to the message, sent under the agent's name; `type` is what the reply's type is set to.
  unfoldable pub send_reply :
      LiveAgent C → MessageType → Ref → Fields → Option Fields → Act C (Unit {0})
  unfolding create_reply construct send_message
  send_reply a type r content metadata w =
      let reply = create_reply (uuid w) (now w) (fields r w) content metadata none in
      let (q, w') = construct (record reply { type = type }) w in forget (send_message a q w')

  -- `if response and message.type == MessageType.REQUEST`: an empty dict is false.
  unfoldable pub answer : LiveAgent C → Ref → Option Fields → Act C (Unit {0})
  unfolding send_reply
  answer a r none w = done tt w
  answer a r (some no_fields) w = done tt w
  answer a r (some (field k v fs)) w =
      if same_type (fields r w).type MessageType.request
      then send_reply a MessageType.response r (field k v fs) none w
      else done tt w

  -- The `try` block.
  unfoldable pub handle : LiveAgent C → Option (Handler C) → Ref → Act C (Unit {0})
  unfolding answer
  handle a none r w = done tt w
  handle a (some handler) r w = bind (handler r w) (answer a r)

  -- The `except` block.
  unfoldable pub recover : LiveAgent C → Ref → Outcome C (Unit {0}) → Outcome C (Unit {0})
  unfolding send_reply
  recover a r (done x w) = done x w
  recover a r (blocked w) = blocked w
  recover a r (raised e w) =
      if same_type (fields r w).type MessageType.request
      then send_reply a MessageType.error r (field "error" (str e) no_fields)
          (some (field "error_type" (str (error_type e)) no_fields)) w
      else done tt w

  -- The `finally` block: an exception of its own takes the place of the one before.
  unfoldable pub finally : LiveAgent C → Ref → Outcome C (Unit {0}) → Outcome C (Unit {0})
  unfolding trigger
  finally a r (done x w) = unless_raised none (trigger post_message_process a.hooks (some r) w)
  finally a r (raised e w) =
      unless_raised (some e) (trigger post_message_process a.hooks (some r) w)
  finally a r (blocked w) = blocked w

  -- The `try` statement.
  unfoldable pub attempt : LiveAgent C → Ref → Act C (Unit {0})
  unfolding handle recover finally
  attempt a r w = finally a r (recover a r (handle a (a.message_handlers (fields r w).type) r w))

  -- `_process_message`
  unfoldable pub process_message : LiveAgent C → Ref → Act C (Unit {0})
  unfolding attempt trigger
  process_message a r w =
      bind (unless_raised none (trigger pre_message_process a.hooks (some r) w)) (λ x. attempt a r)

  -- After a message was processed: an exception is logged, and the loop goes on.
  abbrev pub go_on : {A : Type 0} → Outcome C (Unit {0}) → Act C A → Outcome C A
  go_on (done x w) rest = rest w
  go_on (raised e w) rest = rest w
  go_on (blocked w) rest = blocked w

  -- A round of the loop after the receive; `rest` is the rest of the loop.
  unfoldable pub after_receive :
      (LiveAgent C → List Ref → Act C (LiveAgent C × List Ref))
      → List Ref
      → Option Ref × (LiveAgent C × World C)
      → Outcome C (LiveAgent C × List Ref)
  unfolding process_message
  after_receive rest processed (none, (a, w)) = rest a processed w
  after_receive rest processed (some r, (a, w)) =
      go_on (process_message a r w) (rest a (processed ++ r ∷ []))

  -- `n` rounds of `_message_loop`; `processed` lists the messages that were processed, first to last.
  unfoldable pub message_loop : ℕ → LiveAgent C → List Ref → Act C (LiveAgent C × List Ref)
  unfolding receive_message after_receive
  message_loop zero a processed w = done (a, processed) w
  message_loop (suc n) a processed w =
      if a.running
      then after_receive (message_loop n) processed (receive_message a w)
      else done (a, processed) w
