-- ===== src/Persistence/History.antt =====
-- The store against a log of what was saved: histories and conversations are bounded lists of
-- distinct ids, each with a saved object.
use agents_protocol.Prelude.{
  ◌-◌, String, ◌≡◌, refl, ap, Bool, true, false, Option, none, some, List, [], ◌∷◌, ◌==◌, map, ◌||◌,
  ◌∙◌, eq_refl, arith, if◌then◌else◌, is_some, contains, length, ℤ, pos, negsuc, zero, suc,
}
use agents_protocol.Dict
use agents_protocol.Dict.{Dict}
use agents_protocol.Dict.Laws.{get-put}
use agents_protocol.Protocol.{AgentMessage}
use agents_protocol.Objects.{Ref}
use agents_protocol.Persistence.{Store, new, slot, track, save_message, last_ids, fetch}
use agents_protocol.Persistence.Tracking.{remember}
use agents_protocol.Persistence.Tracks.{
  IsTrack, no_track-IsTrack, track-IsTrack, names, track-remember, remember-remember, contains-drop,
  contains-remember,
}

-- What was saved: the objects with the fields that they had, oldest first.
abbrev pub Log : Type 0
Log = List (Ref × AgentMessage)

pub save_all : Log → Store → Store
save_all [] s = s
save_all ((r, m) ∷ log) s = save_all log (save_message r m s)

-- The object that was saved last under an id.
abbrev pub latest : String → Log → Option Ref → Option Ref
latest i [] found = found
latest i ((r, m) ∷ log) found = latest i log (if m.id == i then some r else found)

-- The message is from the agent or to it.
abbrev pub concerns : String → AgentMessage → Bool
concerns agent_id m = names m.recipient_id agent_id || m.sender_id == agent_id

-- The ids that are kept of the log's messages that pass a test: an id that is not among those kept goes
-- to the end, also where it was there before, and the oldest goes when there are more than 1000.
abbrev pub recent : (AgentMessage → Bool) → Log → List String → List String
recent p [] ids = ids
recent p ((r, m) ∷ log) ids = recent p log (if p m then remember m.id ids else ids)

pub record IsStore (s : Store) : Type 0 where
  pub agents_in_order : IsTrack s.agent_history
  pub conversations_in_order : IsTrack s.conversations

save_message-IsStore :
    (r : Ref) (m : AgentMessage) (s : Store) → IsStore s → IsStore (save_message r m s)
unfolding save_message
save_message-IsStore r m s h = record {
  agents_in_order =
      track-IsTrack m.recipient_id m.id _
        (track-IsTrack (some m.sender_id) m.id s.agent_history h.agents_in_order);
  conversations_in_order =
      track-IsTrack m.correlation_id m.id s.conversations h.conversations_in_order;
}

pub new-IsStore : IsStore new
new-IsStore = record {
  agents_in_order = no_track-IsTrack;
  conversations_in_order = no_track-IsTrack;
}

-- What the two indexes hold for a key that is not empty.
abbrev pub history_ids : String → Store → List String
history_ids agent_id s = (slot agent_id s.agent_history).ids

abbrev pub conversation_ids : String → Store → List String
conversation_ids c s = (slot c s.conversations).ids

save_message-history :
    (a : String) (r : Ref) (m : AgentMessage) (s : Store)
    → IsStore s
    → (a == "") ≡ false
    → history_ids a (save_message r m s)
      ≡ (if concerns a m then remember m.id (history_ids a s) else history_ids a s)
unfolding save_message
save_message-history a r m s h e =
    let t = track (some m.sender_id) m.id s.agent_history in
    let t-order = track-IsTrack (some m.sender_id) m.id s.agent_history h.agents_in_order in
    ground (
      arith,
      track-remember m.recipient_id m.id a t t-order e,
      track-remember (some m.sender_id) m.id a s.agent_history h.agents_in_order e,
      remember-remember m.id (history_ids a s),
    )

save_message-conversation :
    (c : String) (r : Ref) (m : AgentMessage) (s : Store)
    → IsStore s
    → (c == "") ≡ false
    → conversation_ids c (save_message r m s) ≡ (
        if names m.correlation_id c
        then remember m.id (conversation_ids c s)
        else conversation_ids c s)
unfolding save_message
save_message-conversation c r m s h e =
    track-remember m.correlation_id m.id c s.conversations h.conversations_in_order e

pub save_all-history :
    (a : String) (log : Log) (s : Store)
    → IsStore s
    → (a == "") ≡ false
    → history_ids a (save_all log s) ≡ recent (concerns a) log (history_ids a s)
unfolding save_all
save_all-history a [] s h e = refl
save_all-history a ((r, m) ∷ log) s h e =
    save_all-history a log (save_message r m s) (save_message-IsStore r m s h) e
    ∙ ap (recent (concerns a) log) (save_message-history a r m s h e)

pub save_all-conversation :
    (c : String) (log : Log) (s : Store)
    → IsStore s
    → (c == "") ≡ false
    → conversation_ids c (save_all log s)
      ≡ recent (λ m. names m.correlation_id c) log (conversation_ids c s)
unfolding save_all
save_all-conversation c [] s h e = refl
save_all-conversation c ((r, m) ∷ log) s h e =
    save_all-conversation c log (save_message r m s) (save_message-IsStore r m s h) e
    ∙ ap (recent (λ m. names m.correlation_id c) log) (save_message-conversation c r m s h e)

pub get-save_all :
    (i : String) (log : Log) (s : Store)
    → Dict.get i (save_all log s).messages ≡ latest i log (Dict.get i s.messages)
unfolding save_all save_message
get-save_all i [] s = refl
get-save_all i ((r, m) ∷ log) s =
    get-save_all i log (save_message r m s) ∙ ap (latest i log) (get-put i m.id r s.messages)

-- Every id of the list has a saved object.
abbrev pub AllKnown : List String → Log → Type 0
AllKnown ids log = (i : String) → contains i ids ≡ true → is_some (latest i log none) ≡ true

pub recent-known :
    (p : AgentMessage → Bool) (log : Log) (ids : List String) (i : String) (found : Option Ref)
    → (contains i ids ≡ true → is_some found ≡ true)
    → contains i (recent p log ids) ≡ true
    → is_some (latest i log found) ≡ true
recent-known p [] ids i found k h = k h
recent-known p ((r, m) ∷ log) ids i found k h =
    recent-known p log (if p m then remember m.id ids else ids) i
      (if m.id == i then some r else found) (λ c. ground (arith, k, contains-remember m.id i ids)) h

pub last_ids-contains :
    (limit : ℤ) (ids : List String) (i : String)
    → contains i (last_ids limit ids) ≡ true
    → contains i ids ≡ true
unfolding last_ids
last_ids-contains (pos zero) ids i h = h
last_ids-contains (pos (suc n)) ids i h = contains-drop i (length ids - suc n) ids h
last_ids-contains (negsuc n) ids i h = contains-drop i (suc n) ids h

pub fetch_known :
    (ids : List String) (messages : Dict Ref)
    → ((i : String) → contains i ids ≡ true → Dict.has i messages ≡ true)
    → map some (fetch ids messages) ≡ map (λ i. Dict.get i messages) ids
unfolding fetch
fetch_known [] messages h = refl
fetch_known (x ∷ ids) messages h =
    let ih = fetch_known ids messages (λ i e. h i (ground arith)) in
    ground (arith, ih, h x (ground (arith, eq_refl x)))
