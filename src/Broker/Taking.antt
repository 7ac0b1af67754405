-- ===== src/Broker/Taking.antt =====
-- The single steps of a broker, and what they do to its inboxes.
use agents_protocol.Prelude.{
  ℕ, ◌≤◌, String, ◌≡◌, refl, ap, sym, ◌∙◌, Option, none, some, List, [], ◌∷◌, ◌++◌, map, length,
  arith, Option-cases, inl, inr, ◌⊎◌,
}
use agents_protocol.Dict
use agents_protocol.Objects.{Ref}
use agents_protocol.Registry.{Agent}
use agents_protocol.Sorting.{IsSorted}
use agents_protocol.Inbox
use agents_protocol.Inbox.{Inbox, Entry, before, maxsize}
use agents_protocol.Inbox.Numbers.{total-put, total-put_new, total-remove}
use agents_protocol.Broker.World.{World, after, register_agent, unregister_agent}
use agents_protocol.Broker.Delivery.{get_next_message_for_agent}
use agents_protocol.Broker.Requests.{NewRequest, open_request, close_request, set_response, resolve}
use agents_protocol.Broker.Queues.{IsQueued, put-Each, remove-Each}

-- The entry that the agent would get next.
abbrev pub head_entry : Option Inbox → List Entry
head_entry none = []
head_entry (some []) = []
head_entry (some (e ∷ q)) = e ∷ []

abbrev pub numbers : List Entry → List ℕ
numbers = map (λ e. e.counter)

module _ {C : Type 0} where
  -- Only the inboxes and the next number count.
  pub IsQueued-same :
      (ns : List ℕ) (w v : World C)
      → v.inboxes ≡ w.inboxes
      → v.counter ≡ w.counter
      → IsQueued ns w
      → IsQueued ns v
  IsQueued-same ns w v e f h = record {
    sorted = λ a q x. h.sorted a q (ap (Dict.get a) (sym e) ∙ x);
    bounded = λ a q x. h.bounded a q (ap (Dict.get a) (sym e) ∙ x);
    once = λ n. rw e (h.once n);
    fresh = λ n l. rw e (h.fresh n (omega (arith, f)));
  }

  pub register_agent-IsQueued :
      (ns : List ℕ) (a : Agent) (w : World C) → IsQueued ns w → IsQueued ns (register_agent a w)
  unfolding register_agent
  register_agent-IsQueued ns a w h = elim (Option-cases (Dict.get a.agent_id w.inboxes)) [
    | inr (q, e) ↦
        rw e (record { sorted = h.sorted; bounded = h.bounded; once = h.once; fresh = h.fresh })
    | inl e ↦ rw e (record {
      sorted = put-Each (IsSorted before) a.agent_id [] w.inboxes tt h.sorted;
      bounded = put-Each (λ p. length p ≤ maxsize) a.agent_id [] w.inboxes (omega arith) h.bounded;
      once = λ n. omega (arith, total-put_new n a.agent_id w.inboxes e, h.once n);
      fresh = λ n l. omega (arith, total-put_new n a.agent_id w.inboxes e, h.fresh n l);
    })
  ]

  pub unregister_agent-inboxes :
      (i : String) (w : World C)
      → let v = after (unregister_agent i w) in
        (v.inboxes ≡ Dict.remove i w.inboxes) × (v.counter ≡ w.counter)
  unfolding unregister_agent
  unregister_agent-inboxes i w = ground arith

  pub removed-IsQueued :
      (ns : List ℕ) (i : String) (w : World C)
      → IsQueued ns w
      → IsQueued ns (record w { inboxes = Dict.remove i w.inboxes })
  removed-IsQueued ns i w h = record {
    sorted = remove-Each (IsSorted before) i w.inboxes h.sorted;
    bounded = remove-Each (λ p. length p ≤ maxsize) i w.inboxes h.bounded;
    once = λ n. omega (arith, total-remove n i w.inboxes, h.once n);
    fresh = λ n l. omega (arith, total-remove n i w.inboxes, h.fresh n l);
  }

  pub unregister_agent-IsQueued :
      (ns : List ℕ) (i : String) (w : World C)
      → IsQueued ns w
      → IsQueued ns (after (unregister_agent i w))
  unregister_agent-IsQueued ns i w h =
      let (e, f) = unregister_agent-inboxes i w in
      IsQueued-same ns (record w { inboxes = Dict.remove i w.inboxes })
        (after (unregister_agent i w)) e f (removed-IsQueued ns i w h)

  -- The entry at the head is taken, and its number joins those that were taken.
  pub take-IsQueued :
      (ns : List ℕ) (i : String) (e : Entry) (q : Inbox) (w : World C)
      → Dict.get i w.inboxes ≡ some (e ∷ q)
      → IsQueued ns w
      → IsQueued (e.counter ∷ ns) (record w { inboxes = Dict.put i q w.inboxes })
  take-IsQueued ns i e q w k h =
      let t = λ (n : ℕ). total-put n i (e ∷ q) q w.inboxes k in
      record {
        sorted = put-Each (IsSorted before) i q w.inboxes (h.sorted i (e ∷ q) k).1 h.sorted;
        bounded =
            put-Each (λ p. length p ≤ maxsize) i q w.inboxes
              (let b = h.bounded i (e ∷ q) k in omega arith) h.bounded;
        once = λ n. ground (arith, t n, h.once n);
        fresh = λ n l. ground (arith, t n, h.fresh n l);
      }

  pub get_next_message_for_agent-head :
      (i : String) (e : Entry) (q : Inbox) (w : World C)
      → Dict.get i w.inboxes ≡ some (e ∷ q)
      → get_next_message_for_agent i w
        ≡ (some e.message, record w { inboxes = Dict.put i q w.inboxes })
  unfolding get_next_message_for_agent
  get_next_message_for_agent-head i e q w k =
      rw (k, get_next_message_for_agent) (unfold Inbox.get in refl)

  pub get_next_message_for_agent-empty :
      (i : String) (w : World C)
      → (Dict.get i w.inboxes ≡ none) ⊎ (Dict.get i w.inboxes ≡ some [])
      → get_next_message_for_agent i w ≡ (none, w)
  unfolding get_next_message_for_agent
  get_next_message_for_agent-empty i w (inl k) = rw (k, get_next_message_for_agent) refl
  get_next_message_for_agent-empty i w (inr k) =
      rw (k, get_next_message_for_agent) (unfold Inbox.get in refl)

  pub handed-IsQueued :
      (ns : List Entry) (i : String) (w : World C)
      → IsQueued (numbers ns) w
      → IsQueued
          (numbers (head_entry (Dict.get i w.inboxes) ++ ns))
          (get_next_message_for_agent i w).1
  handed-IsQueued ns i w h = elim (Option-cases (Dict.get i w.inboxes)) [
    | inl k ↦ rw (get_next_message_for_agent-empty i w (inl k), k) h
    | inr ([], k) ↦ rw (get_next_message_for_agent-empty i w (inr k), k) h
    | inr (e ∷ q, k) ↦
        rw (get_next_message_for_agent-head i e q w k, k) (take-IsQueued (numbers ns) i e q w k h)
  ]

  pub open_request-inboxes :
      (q : NewRequest) (w : World C)
      → let v = (open_request q w).1 in (v.inboxes ≡ w.inboxes) × (v.counter ≡ w.counter)
  unfolding open_request
  open_request-inboxes q w = (refl, refl)

  pub close_request-inboxes :
      (c : String) (f : ℕ) (w : World C)
      → let v = (close_request c f w).1 in (v.inboxes ≡ w.inboxes) × (v.counter ≡ w.counter)
  unfolding close_request
  close_request-inboxes c f w = (refl, refl)

  pub set_response-IsQueued :
      (ns : List ℕ) (c : String) (r : Ref) (w : World C)
      → IsQueued ns w
      → IsQueued ns (set_response c r w)
  set_response-IsQueued ns c r w h =
      IsQueued-same ns w (set_response c r w) (unfold set_response resolve in ground arith)
        (unfold set_response resolve in ground arith) h
