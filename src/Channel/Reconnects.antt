-- ===== src/Channel/Reconnects.antt =====
-- To which connection a message for an agent goes, while agents come and go.
use agents_protocol.Prelude.{
  String, ◌≡◌, refl, ◌∙◌, Bool, true, false, Option, none, some, List, [], ◌∷◌, ◌==◌, eq_refl,
  arith, if◌then◌else◌,
}
use agents_protocol.Dict
use agents_protocol.Dict.Laws.{get-put, get-remove}
use agents_protocol.Protocol.{MessageStatus, delivered, failed}
use agents_protocol.Sorting.{All}
use agents_protocol.Channel.WebSocket.{
  Connection, WebSocketChannel, First, identification, other, unreadable, enter, leave, identify,
  send,
}

-- A connection that begins with its first message, or a handler that ends under the agent id that it
-- has.
pub data Event : Type 0 where
  begins : First → Bool → Connection → Event
  ends : Option String → Event

unfoldable pub apply : Event → WebSocketChannel → WebSocketChannel
apply (begins first acknowledged ws) c = (identify first acknowledged ws c).1
apply (ends agent_id) c = leave agent_id c

unfoldable pub run : List Event → WebSocketChannel → WebSocketChannel
run [] c = c
run (e ∷ es) c = run es (apply e c)

-- The event is not about the agent.
abbrev pub IsOther : String → Event → Type 0
IsOther agent_id (begins (identification (some i)) acknowledged ws) = (i == agent_id) ≡ false
IsOther agent_id (begins _ acknowledged ws) = Unit
IsOther agent_id (ends (some i)) = (i == agent_id) ≡ false
IsOther agent_id (ends none) = Unit

apply_other :
    (agent_id : String) (e : Event) (c : WebSocketChannel)
    → IsOther agent_id e
    → (Dict.get agent_id (apply e c).connections ≡ Dict.get agent_id c.connections)
      × ((apply e c).running ≡ c.running)
unfolding apply identify enter leave
apply_other a (begins (identification (some i)) true ws) c h =
    ground (arith, get-put a i ws c.connections)
apply_other a (begins (identification (some i)) false ws) c h =
    ground (arith, get-put a i ws c.connections, get-remove a i (Dict.put i ws c.connections))
apply_other a (ends (some i)) c h = ground (arith, get-remove a i c.connections)
apply_other a (begins (identification none) true ws) c h = (refl, refl)
apply_other a (begins (identification none) false ws) c h = (refl, refl)
apply_other a (begins other acknowledged ws) c h = (refl, refl)
apply_other a (begins unreadable acknowledged ws) c h = (refl, refl)
apply_other a (ends none) c h = (refl, refl)

run_other :
    (agent_id : String) (es : List Event) (c : WebSocketChannel)
    → All (IsOther agent_id) es
    → (Dict.get agent_id (run es c).connections ≡ Dict.get agent_id c.connections)
      × ((run es c).running ≡ c.running)
unfolding run
run_other a [] c h = (refl, refl)
run_other a (e ∷ es) c h =
    let (x, y) = apply_other a e c h.0 in
    let (z, t) = run_other a es (apply e c) h.1 in (z ∙ x, t ∙ y)

-- What `send` answers by the entry of the agent.
abbrev pub answer : (Connection → Bool) → Option Connection → MessageStatus
answer reaches none = failed
answer reaches (some ws) = if reaches ws then delivered else failed

send-answer :
    (reaches : Connection → Bool) (a : String) (c : WebSocketChannel) (o : Option Connection)
    → c.running ≡ true
    → Dict.get a c.connections ≡ o
    → send reaches a c ≡ some (answer reaches o)
unfolding send
send-answer reaches a c none r e = rw (r, e)
send-answer reaches a c (some ws) r e = rw (r, e) (ground arith)

-- Let the channel run, and let a connection identify itself as an agent and be acknowledged. As long as
-- only connections of other agents come and go, a message for the agent is sent to that connection:
-- it is delivered if the connection takes it, and else it has failed.
pub send-identify :
    (reaches : Connection → Bool) (a : String) (ws : Connection) (es : List Event)
    (c : WebSocketChannel)
    → c.running ≡ true
    → All (IsOther a) es
    → send reaches a (run es (identify (identification (some a)) true ws c).1)
      ≡ some (answer reaches (some ws))
send-identify reaches a ws es c r h =
    let v = (identify (identification (some a)) true ws c).1 in
    let (e, s) = run_other a es v h in
    let k : Dict.get a v.connections ≡ some ws = unfold identify enter in rw (get-put, eq_refl a) in
    send-answer reaches a (run es v) (some ws) (s ∙ (unfold identify enter in r)) (e ∙ k)

-- Let the channel run, and let an agent whose id is not empty connect again before the handler of its
-- old connection has ended, while connections of other agents come and go. Once that handler ends, a
-- message for the agent fails, although its new connection is open and would take it.
pub send-reconnected :
    (reaches : Connection → Bool) (a : String) (old fresh : Connection) (es fs : List Event)
    (c : WebSocketChannel)
    → (a == "") ≡ false
    → c.running ≡ true
    → All (IsOther a) es
    → All (IsOther a) fs
    → let v = run es (identify (identification (some a)) true old c).1 in
      let u = run fs (identify (identification (some a)) true fresh v).1 in
      (send reaches a u ≡ some (answer reaches (some fresh)))
      × (send reaches a (leave (some a) u) ≡ some failed)
send-reconnected reaches a old fresh es fs c named r h k =
    let v = run es (identify (identification (some a)) true old c).1 in
    let on : v.running ≡ true =
      (run_other a es (identify (identification (some a)) true old c).1 h).1
      ∙ (unfold identify enter in r) in
    let first = send-identify reaches a fresh fs v on k in
    let x = (identify (identification (some a)) true fresh v).1 in
    let u = run fs x in
    let still : u.running ≡ true = (run_other a fs x k).1 ∙ (unfold identify enter in on) in
    let gone : Dict.get a (leave (some a) u).connections ≡ none =
      unfold leave in rw (named, get-remove, eq_refl a) in
    (first, send-answer reaches a (leave (some a) u) none (unfold leave in rw (named, still)) gone)
