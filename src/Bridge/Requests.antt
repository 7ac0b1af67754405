-- ===== src/Bridge/Requests.antt =====
-- The bridge's open requests: how many it remembers, and where a response goes.
use agents_protocol.Prelude.{
  ◌≤◌, ◌+◌, String, ◌≡◌, refl, arith, Option, none, some, [], ◌∷◌, false, ◌==◌, eq_refl,
  if◌then◌else◌, length, drop, length-drop, Option-cases, inl, inr, ◌<◌,
}
use agents_protocol.Dict
use agents_protocol.Dict.{Dict}
use agents_protocol.Dict.Laws.{get-put, get-remove}
use agents_protocol.Protocol.{AgentMessage, MessageType}
use agents_protocol.Bridge.{
  BaseAdapter, BridgeAgent, new, max_requests, remember_request, process_message, route_back,
  handle_external_message, response_id, pass_on,
}

-- One message in one of the two directions.
pub data Step {E : Type 0} (adapter : BaseAdapter E) : BridgeAgent → BridgeAgent → Type 0 where
  goes_out : (m : AgentMessage) (b : BridgeAgent) → Step adapter b (process_message adapter m b).1
  comes_in : (e : E) (b : BridgeAgent) → Step adapter b (handle_external_message adapter e b).1

pub data Traffic {E : Type 0} (adapter : BaseAdapter E) (b : BridgeAgent)
    : BridgeAgent → Type 0 where
  here : Traffic adapter b b
  next : {c d : BridgeAgent} → Traffic adapter b c → Step adapter c d → Traffic adapter b d

length-put :
    (k v : String) (d : Dict String)
    → length (Dict.put k v d) ≡ (if Dict.has k d then length d else length d + 1)
unfolding Dict.put Dict.get
length-put k v [] = refl
length-put k v ((j, w) ∷ d) = ground (arith, length-put k v d)

length-remove : (k : String) (d : Dict String) → length (Dict.remove k d) ≤ length d
unfolding Dict.remove
length-remove k [] = omega arith
length-remove k ((j, w) ∷ d) = ground (arith, length-remove k d)

length-remember_request :
    (k v : String) (d : Dict String)
    → length d ≤ max_requests
    → length (remember_request k v d) ≤ max_requests
unfolding remember_request
length-remember_request k v d h = ground (arith, length-put k v d, length-drop 1 (Dict.put k v d))

route_back_bounded :
    (o : Option String) (m : AgentMessage) (b : BridgeAgent)
    → length b.request_map ≤ max_requests
    → length (route_back o m b).1.request_map ≤ max_requests
unfolding route_back
route_back_bounded none m b h = h
route_back_bounded (some c) m b h = ground (arith, length-remove c b.request_map)

pass_on_bounded :
    (o : Option AgentMessage) (b : BridgeAgent)
    → length b.request_map ≤ max_requests
    → length (pass_on o b).1.request_map ≤ max_requests
unfolding pass_on
pass_on_bounded none b h = h
pass_on_bounded (some m) b h =
    let own = record m { sender_id = b.agent_id } in route_back_bounded (response_id own) own b h

module _ {E : Type 0} {adapter : BaseAdapter E} where
  Step-bounded :
      {b c : BridgeAgent}
      → Step adapter b c
      → length b.request_map ≤ max_requests
      → length c.request_map ≤ max_requests
  unfolding process_message handle_external_message
  Step-bounded (goes_out m b) h =
      ground (arith, length-remember_request m.id m.sender_id b.request_map)
  Step-bounded (comes_in e b) h = pass_on_bounded (adapter.to_protocol e) b h

-- Whatever messages go out through a new bridge and come in, in whatever order, it never remembers more
-- than `max_requests` requests.
pub Traffic-bounded :
    {E : Type 0} (adapter : BaseAdapter E) (agent_id : String) {b : BridgeAgent}
    → Traffic adapter (new agent_id) b
    → length b.request_map ≤ max_requests
Traffic-bounded adapter agent_id here = omega arith
Traffic-bounded adapter agent_id (next x s) = Step-bounded s (Traffic-bounded adapter agent_id x)

get-drop_head :
    (k : String) (d : Dict String)
    → Dict.get k d ≡ none
    → (v : String) → 0 < length d
    → Dict.get k (drop 1 (Dict.put k v d)) ≡ some v
unfolding Dict.get Dict.put
get-drop_head k [] h v p = absurd (omega arith)
get-drop_head k ((j, w) ∷ d) h v p = ground (arith, get-put k k v d, eq_refl k)

max_requests-pos : 0 < max_requests
unfolding max_requests
max_requests-pos = omega arith

-- A request that was just remembered is found, also if an older one had to go.
get-remember_request :
    (k v : String) (d : Dict String)
    → length d ≤ max_requests
    → Dict.get k (remember_request k v d) ≡ some v
unfolding remember_request
get-remember_request k v d h = elim (Option-cases (Dict.get k d)) [
  | inl e ↦
      ground (
        arith,
        length-put k v d,
        max_requests-pos,
        get-drop_head k d e v,
        get-put k k v d,
        eq_refl k,
      )
  | inr (u, e) ↦ ground (arith, length-put k v d, get-put k k v d, eq_refl k)
]

-- Let a bridge that remembers at most `max_requests` requests send a request with an id and a sender
-- that are not empty to the external system, and let the next that comes in be a response with the
-- request's id as correlation id. Then the response goes to the request's sender, in the bridge's name
-- and otherwise as it came, and the request is no longer remembered.
pub handle_external_message-process_message :
    {E : Type 0} (adapter : BaseAdapter E) (b : BridgeAgent) (m r : AgentMessage) (e : E)
    → length b.request_map ≤ max_requests
    → m.type ≡ MessageType.request
    → (m.id == "") ≡ false
    → (m.sender_id == "") ≡ false
    → adapter.to_protocol e ≡ some r
    → r.type ≡ MessageType.response
    → r.correlation_id ≡ some m.id
    → let out = handle_external_message adapter e (process_message adapter m b).1 in
      (out.0 ≡ some (record r { sender_id = b.agent_id; recipient_id = some m.sender_id }))
      × (Dict.get m.id out.1.request_map ≡ none)
unfolding handle_external_message pass_on process_message route_back
handle_external_message-process_message adapter b m r e h t i s f u c =
    let k = get-remember_request m.id m.sender_id b.request_map h in
    let g = get-remove m.id m.id (remember_request m.id m.sender_id b.request_map) in
    (rw (t, f, u, c, i, k, s), rw (t, f, u, c, i, g, eq_refl m.id))
