-- ===== src/Persistence/Views.antt =====
-- What `get_history` and `get_conversation` return, for every log of saved messages.
use agents_protocol.Prelude.{
  ℕ, ◌-◌, ◌≤◌, String, ◌≡◌, refl, ap, Bool, true, false, Option, none, some, List, [], ◌==◌, map,
  ◌∙◌, arith, contains, length, drop, length-drop, length-map, sym, ℤ, pos, negsuc, zero, suc,
  Option-cases, inl, inr, min, ◌++◌, take, take-append-drop,
}
use mathlib.Core.Path.{fun_ext}
use agents_protocol.Dict
use agents_protocol.Dict.{Dict}
use agents_protocol.Dict.Laws.{get-nil}
use agents_protocol.Protocol.{AgentMessage}
use agents_protocol.Objects.{Ref}
use agents_protocol.Persistence.{Store, new, last_ids, fetch, get_history, get_conversation}
use agents_protocol.Persistence.Tracks.{names}
use agents_protocol.Persistence.History.{
  Log, save_all, latest, concerns, recent, history_ids, conversation_ids, new-IsStore,
  save_all-history, save_all-conversation, get-save_all, recent-known, last_ids-contains,
  fetch_known,
}

drop-nil : (k : ℕ) → drop {A = String} k [] ≡ []
drop-nil zero = refl
drop-nil (suc k) = refl

last_ids-nil : (limit : ℤ) → last_ids limit [] ≡ []
unfolding last_ids
last_ids-nil (pos zero) = refl
last_ids-nil (pos (suc n)) = drop-nil (0 - suc n)
last_ids-nil (negsuc n) = refl

get_history-slot :
    (a : String) (limit : ℤ) (s : Store)
    → get_history a limit s ≡ fetch (last_ids limit (history_ids a s)) s.messages
unfolding get_history
get_history-slot a limit s = elim (Option-cases (Dict.get a s.agent_history.deques)) [
  | inl e ↦ ground (arith, last_ids-nil limit)
  | inr (ids, e) ↦ ground arith
]

get_conversation-slot :
    (c : String) (s : Store) → get_conversation c s ≡ fetch (conversation_ids c s) s.messages
unfolding get_conversation
get_conversation-slot c s = ground arith

get-latest : (i : String) (log : Log) → Dict.get i (save_all log new).messages ≡ latest i log none
get-latest i log = get-save_all i log new ∙ ap (latest i log) (get-nil i)

slot-new : (a : String) → history_ids a new ≡ []
unfolding Dict.get
slot-new a = refl

fetch-latest :
    (p : AgentMessage → Bool) (log : Log) (ids : List String)
    → ((i : String) → contains i ids ≡ true → contains i (recent p log []) ≡ true)
    → map some (fetch ids (save_all log new).messages) ≡ map (λ i. latest i log none) ids
fetch-latest p log ids within =
    let known : (i : String)
        → contains i ids ≡ true
        → Dict.has i (save_all log new).messages ≡ true =
      λ i h. rw get-latest (recent-known p log [] i none (λ c. cc) (within i h)) in
    fetch_known ids (save_all log new).messages known
    ∙ ap (λ (f : String → Option Ref). map f ids) (fun_ext λ i. get-latest i log)

get_history-last_ids :
    (a : String) (limit : ℤ) (log : Log)
    → (a == "") ≡ false
    → map some (get_history a limit (save_all log new))
      ≡ map (λ i. latest i log none) (last_ids limit (recent (concerns a) log []))
get_history-last_ids a limit log e =
    let ids : history_ids a (save_all log new) ≡ recent (concerns a) log [] =
      save_all-history a log new new-IsStore e ∙ ap (recent (concerns a) log) (slot-new a) in
    rw (get_history-slot, ids)
      (fetch-latest (concerns a) log (last_ids limit (recent (concerns a) log []))
        (λ i h. last_ids-contains limit (recent (concerns a) log []) i h))

-- How many of `n` ids `ids[-limit:]` keeps.
abbrev pub kept_length : ℤ → ℕ → ℕ
kept_length (pos zero) n = n
kept_length (pos (suc k)) n = min (suc k) n
kept_length (negsuc k) n = n - suc k

-- The list ends with the ids that are kept of it.
record IsCut (limit : ℤ) (ids : List String) : Type 0 where
  older : List String
  split : ids ≡ older ++ last_ids limit ids
  counted : length (last_ids limit ids) ≡ kept_length limit (length ids)

last_ids-IsCut : (limit : ℤ) (ids : List String) → IsCut limit ids
unfolding last_ids
last_ids-IsCut (pos zero) ids = record { older = []; split = refl; counted = refl }
last_ids-IsCut (pos (suc k)) ids =
    let n = length ids - suc k in
    record {
      older = take n ids;
      split = sym (take-append-drop n ids);
      counted = omega (arith, length-drop n ids);
    }
last_ids-IsCut (negsuc k) ids = record {
  older = take (suc k) ids;
  split = sym (take-append-drop (suc k) ids);
  counted = omega (arith, length-drop (suc k) ids);
}

-- For every log of saved messages, every limit and every agent id but the empty one: take the ids of the
-- messages from or to the agent in the order of the saves, where an id goes to the end if it is not
-- among those that are kept, and the oldest goes when there are more than 1000. These ids end with as
-- many as `ids[-limit:]` keeps, and the history is the objects that were saved last under those, in
-- their order. No id is without an object.
pub get_history-recent :
    (a : String) (limit : ℤ) (log : Log)
    → (a == "") ≡ false
    → let ids = recent (concerns a) log [] in
      (older : List String) × (kept : List String) × (ids ≡ older ++ kept)
      × (length kept ≡ kept_length limit (length ids))
      × (map some (get_history a limit (save_all log new)) ≡ map (λ i. latest i log none) kept)
get_history-recent a limit log e =
    let ids = recent (concerns a) log [] in
    let cut = last_ids-IsCut limit ids in
    (cut.older, last_ids limit ids, cut.split, cut.counted, get_history-last_ids a limit log e)

-- For every log of saved messages and every correlation id but the empty one: the conversation is
-- the objects that were saved last under the ids that are kept of the messages with that correlation
-- id: an id goes to the end if it is not among those kept, and the oldest goes when there are more than
-- 1000.
pub get_conversation-recent :
    (c : String) (log : Log)
    → (c == "") ≡ false
    → map some (get_conversation c (save_all log new))
      ≡ map (λ i. latest i log none) (recent (λ m. names m.correlation_id c) log [])
get_conversation-recent c log e =
    let p : AgentMessage → Bool = λ m. names m.correlation_id c in
    let ids : conversation_ids c (save_all log new) ≡ recent p log [] =
      save_all-conversation c log new new-IsStore e ∙ ap (recent p log) (slot-new c) in
    rw (get_conversation-slot, ids) (fetch-latest p log (recent p log []) (λ i h. h))

-- For every log and every agent id but the empty one: with a positive limit at most that many
-- messages come back, and with the limit 0 the whole history comes back.
pub length-get_history :
    (a : String) (log : Log)
    → (a == "") ≡ false
    → ((n : ℕ) → length (get_history a (pos (suc n)) (save_all log new)) ≤ suc n)
      × (length (get_history a (pos zero) (save_all log new)) ≡ length (recent (concerns a) log []))
unfolding last_ids
length-get_history a log e = (
  λ n. omega (arith, counted (pos (suc n)), length-drop (length all_ids - suc n) all_ids),
  counted (pos zero),
)
  where
    all_ids : List String
    all_ids = recent (concerns a) log []

    counted :
        (limit : ℤ)
        → length (get_history a limit (save_all log new)) ≡ length (last_ids limit all_ids)
    counted limit =
        sym (length-map some (get_history a limit (save_all log new)))
        ∙ (ap length (get_history-last_ids a limit log e)
            ∙ length-map (λ i. latest i log none) (last_ids limit all_ids))
