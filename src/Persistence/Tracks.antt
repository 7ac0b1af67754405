-- ===== src/Persistence/Tracks.antt =====
-- All the deques and sets of one of the store's two indexes.
use agents_protocol.Prelude.{
  ℕ, zero, suc, ◌-◌, ◌≤◌, String, ◌≡◌, refl, Bool, true, false, Option, none, some, List, [], ◌∷◌,
  ◌++◌, ◌==◌, eq_iff, eq_refl, arith, if◌then◌else◌, contains, length, drop, length-append,
  contains-append, Bool-cases, inl, inr,
}
use agents_protocol.Dict
use agents_protocol.Dict.{Dict}
use agents_protocol.Dict.Laws.{get-put, get-nil}
use agents_protocol.Persistence.{Track, no_track, push_id, slot, add_to_history, track}
use agents_protocol.Persistence.Tracking.{remember, IsTracked, push_id-remember, max_history-value}

-- Each key has a slot in order, and a set exactly if it has a deque.
pub record IsTrack (t : Track) : Type 0 where
  pub slots : (key : String) → IsTracked (slot key t)
  pub paired : (key : String) → Dict.has key t.sets ≡ Dict.has key t.deques

pub no_track-IsTrack : IsTrack no_track
no_track-IsTrack = record {
  slots = λ key.
      rw (get-nil key)
        (record { bounded = omega arith; distinct = λ a. omega arith; agree = λ a. refl });
  paired = λ key. simp get-nil;
}

slot-add_to_history :
    (j k i : String) (t : Track)
    → slot j (add_to_history k i t) ≡ (if k == j then push_id i (slot k t) else slot j t)
unfolding add_to_history
slot-add_to_history j k i t =
    let s = push_id i (slot k t) in
    ground (arith, get-put j k s.ids t.deques, get-put j k s.seen t.sets)

add_to_history-IsTrack : (k i : String) (t : Track) → IsTrack t → IsTrack (add_to_history k i t)
add_to_history-IsTrack k i t h = record {
  slots = λ j. rw slot-add_to_history (elim (Bool-cases (k == j)) [
    | inl e ↦ rw e (push_id-remember i (slot k t) (h.slots k)).1
    | inr e ↦ rw e (h.slots j)
  ]);
  paired = λ j.
      let s = push_id i (slot k t) in
      unfold add_to_history in
      ground (arith, get-put j k s.ids t.deques, get-put j k s.seen t.sets, h.paired j);
}

pub track-IsTrack : (o : Option String) (i : String) (t : Track) → IsTrack t → IsTrack (track o i t)
unfolding track
track-IsTrack none i t h = h
track-IsTrack (some k) i t h = elim (Bool-cases (k == "")) [
  | inl e ↦ rw e h
  | inr e ↦ rw e (add_to_history-IsTrack k i t h)
]

-- `key` names the agent or conversation.
abbrev pub names : Option String → String → Bool
names none key = false
names (some k) key = k == key

-- What a key's deque is after a message was tracked, for a key that is not empty.
pub track-remember :
    (o : Option String) (i key : String) (t : Track)
    → IsTrack t
    → (key == "") ≡ false
    → (slot key (track o i t)).ids
      ≡ (if names o key then remember i (slot key t).ids else (slot key t).ids)
unfolding track
track-remember none i key t h e = refl
track-remember (some k) i key t h e = ground (
  arith,
  slot-add_to_history key k i t,
  (push_id-remember i (slot k t) (h.slots k)).0,
  eq_iff k key,
  eq_iff k "",
  eq_iff key "",
)

contains_last :
    (k : ℕ) (i : String) (ids : List String)
    → k ≤ length ids
    → contains i (drop k (ids ++ i ∷ [])) ≡ true
contains_last zero i [] h = rw eq_refl
contains_last zero i (x ∷ ids) h =
    ground (arith, contains_last zero i ids (omega arith), eq_iff x i)
contains_last (suc k) i [] h = absurd (omega arith)
contains_last (suc k) i (x ∷ ids) h = contains_last k i ids (omega arith)

contains-remember_self : (i : String) (ids : List String) → contains i (remember i ids) ≡ true
contains-remember_self i ids = elim (Bool-cases (contains i ids)) [
  | inl e ↦ rw e e
  | inr e ↦ rw e (
      contains_last (length (ids ++ i ∷ []) - 1000) i ids
        (omega (arith, length-append ids (i ∷ []), max_history-value)))
]

-- To remember an id a second time changes nothing.
pub remember-remember :
    (i : String) (ids : List String) → remember i (remember i ids) ≡ remember i ids
remember-remember i ids = rw (contains-remember_self i ids)

pub contains-drop :
    (i : String) (k : ℕ) (ids : List String)
    → contains i (drop k ids) ≡ true
    → contains i ids ≡ true
contains-drop i zero ids h = h
contains-drop i (suc k) [] h = h
contains-drop i (suc k) (x ∷ ids) h = ground (arith, contains-drop i k ids h)

-- What is remembered was there or is the id.
pub contains-remember :
    (i j : String) (ids : List String)
    → contains j (remember i ids) ≡ true
    → (if i == j then true else contains j ids) ≡ true
contains-remember i j ids h = elim (Bool-cases (contains i ids)) [
  | inl e ↦ ground arith
  | inr e ↦
      let more = ids ++ i ∷ [] in
      let k : contains j (drop (length more - 1000) more) ≡ true = ground arith in
      ground (arith, contains-drop j (length more - 1000) more k, contains-append j ids (i ∷ []))
]
