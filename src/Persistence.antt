-- ===== src/Persistence.antt =====
-- `InMemoryMessageStore` of src/agents_protocol/persistence.py. The store holds references to the
-- message objects; a method that reads a message's fields is given their present values.
pub mod Tracking
pub mod Tracks
pub mod History
pub mod Views
pub mod DeadLetters
use agents_protocol.Prelude.{
  ℕ, zero, suc, ◌+◌, ◌-◌, String, Bool, true, false, not, Option, none, some, List, [], ◌∷◌, ◌++◌,
  ◌==◌, ℤ, pos, negsuc, or_else, if◌then◌else◌, ltb, leb, eqb, contains, length, take, drop, keep,
}
use agents_protocol.Dict
use agents_protocol.Dict.{Dict}
use agents_protocol.Sorting.{sort}
use agents_protocol.Protocol.{AgentMessage, MessageStatus}
use agents_protocol.Objects.{Ref, Heap, set_status}

-- MAX_HISTORY
pub max_history : ℕ
max_history = 1000

-- One of the two pairs of dictionaries, a deque and a set of message ids for each key.
pub record Track : Type 0 where
  pub deques : Dict (List String)
  pub sets : Dict (List String)

-- An entry of the dead letter queue.
pub record DeadLetter : Type 0 where
  pub message : Ref
  pub reason : String
  pub failed_at : ℕ

pub record Store : Type 0 where
  pub messages : Dict Ref
  pub agent_history : Track
  pub conversations : Track
  pub dlq : Dict DeadLetter

abbrev pub no_track : Track
no_track = record { deques = []; sets = [] }

-- `__init__`
abbrev pub new : Store
new = record { messages = []; agent_history = no_track; conversations = no_track; dlq = [] }

-- The deque and the set of one key.
pub record Slot : Type 0 where
  pub ids : List String
  pub seen : List String

-- `set.add` and `set.discard`
abbrev pub set_add : String → List String → List String
set_add x s = if contains x s then s else s ++ x ∷ []

abbrev pub discard : String → List String → List String
discard x = keep (λ y. not (y == x))

-- `deque.append` at `maxlen=MAX_HISTORY`: a full deque loses its head.
unfoldable pub deque_append : List String → String → List String
unfolding max_history
deque_append ids x = if ltb (length ids) max_history then ids ++ x ∷ [] else drop 1 (ids ++ x ∷ [])

-- `old_id = popleft()` and `discard(old_id)`
unfoldable pub evict : List String → List String → Slot
evict [] seen = record { ids = []; seen = seen }
evict (old_id ∷ ids) seen = record { ids = ids; seen = discard old_id seen }

-- The body of `_add_to_history` for a key that is there.
unfoldable pub push_id : String → Slot → Slot
unfolding evict
push_id msg_id s =
    if contains msg_id s.seen
    then s
    else (let room = if eqb (length s.ids) max_history then evict s.ids s.seen else s in
        record { ids = deque_append room.ids msg_id; seen = set_add msg_id room.seen })

-- The deque and the set of a key, new ones if the key is not there.
abbrev pub slot : String → Track → Slot
slot key t =
    if Dict.has key t.deques
    then record {
      ids = or_else (Dict.get key t.deques) [];
      seen = or_else (Dict.get key t.sets) [];
    }
    else record { ids = []; seen = [] }

unfoldable pub add_to_history : String → String → Track → Track
unfolding push_id
add_to_history key msg_id t =
    let s = push_id msg_id (slot key t) in
    record { deques = Dict.put key s.ids t.deques; sets = Dict.put key s.seen t.sets }

-- `if key: self._add_to_history(...)`: `None` and the empty text are skipped.
unfoldable pub track : Option String → String → Track → Track
unfolding add_to_history
track none msg_id t = t
track (some key) msg_id t = if key == "" then t else add_to_history key msg_id t

-- `save_message` of the object `r`, whose fields are `m` at this time
unfoldable pub save_message : Ref → AgentMessage → Store → Store
unfolding track
save_message r m s = record s {
  messages = Dict.put m.id r s.messages;
  agent_history = track m.recipient_id m.id (track (some m.sender_id) m.id s.agent_history);
  conversations = track m.correlation_id m.id s.conversations;
}

-- `update_message_status` writes to the stored object.
unfoldable pub update_message_status : String → MessageStatus → Store → Heap → Heap
update_message_status message_id status s h = elim (Dict.get message_id s.messages) [
  | none ↦ h
  | some r ↦ set_status r status h
]

unfoldable pub get_message : String → Store → Option Ref
get_message message_id s = Dict.get message_id s.messages

-- `ids[-limit:]`
unfoldable pub last_ids : ℤ → List String → List String
last_ids (pos zero) ids = ids
last_ids (pos (suc n)) ids = drop (length ids - suc n) ids
last_ids (negsuc n) ids = drop (suc n) ids

-- `[self._messages[i] for i in ids if i in self._messages]`
unfoldable pub fetch : List String → Dict Ref → List Ref
fetch [] messages = []
fetch (i ∷ ids) messages =
    let rest = fetch ids messages in elim (Dict.get i messages) [ none ↦ rest | some r ↦ r ∷ rest ]

unfoldable pub get_history : String → ℤ → Store → List Ref
unfolding fetch last_ids
get_history agent_id limit s = elim (Dict.get agent_id s.agent_history.deques) [
  | none ↦ []
  | some ids ↦ fetch (last_ids limit ids) s.messages
]

unfoldable pub get_conversation : String → Store → List Ref
unfolding fetch
get_conversation correlation_id s = elim (Dict.get correlation_id s.conversations.deques) [
  | none ↦ []
  | some ids ↦ fetch ids s.messages
]

-- `add_to_dlq` at the time `now`
unfoldable pub add_to_dlq : Ref → AgentMessage → String → ℕ → Store → Store
unfolding save_message
add_to_dlq r m reason now s =
    let s' = save_message r m s in
    record s' {
      dlq = Dict.put m.id (record { message = r; reason = reason; failed_at = now }) s'.dlq;
    }

unfoldable pub remove_from_dlq : String → Store → Store
remove_from_dlq message_id s = record s { dlq = Dict.remove message_id s.dlq }

-- The orders of the two sorts by `failed_at`.
abbrev pub newer : DeadLetter → DeadLetter → Bool
newer a b = leb b.failed_at a.failed_at

abbrev pub older : DeadLetter → DeadLetter → Bool
older a b = leb a.failed_at b.failed_at

-- `heapq.nlargest(limit, items)`: the first `limit` of the items sorted from the newest on
unfoldable pub nlargest : ℤ → List DeadLetter → List DeadLetter
unfolding sort
nlargest (pos n) items = take n (sort newer items)
nlargest (negsuc n) items = []

unfoldable pub get_dlq : ℤ → Store → List DeadLetter
unfolding nlargest sort
get_dlq limit s = sort older (nlargest limit (Dict.values s.dlq))
