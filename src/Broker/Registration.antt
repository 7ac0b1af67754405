-- ===== src/Broker/Registration.antt =====
-- Agents, inboxes and the registry of a broker stay in step, whatever happens and in whatever order.
use agents_protocol.Prelude.{
  String, ◌≡◌, refl, ◌∙◌, sym, none, some, List, [], ◌∷◌, arith, eq_iff, if◌then◌else◌, IsNodup,
  Option-cases, inl, inr, ap,
}
use agents_protocol.Dict
use agents_protocol.Dict.Laws.{get-put, get-remove, put-IsNodup, remove-IsNodup}
use agents_protocol.Objects.{Ref, Heap}
use agents_protocol.Extensions.{ValidationRule}
use agents_protocol.Registry
use agents_protocol.Registry.{Agent, AgentRegistry}
use agents_protocol.Registry.Index.{IsIndexed, register-IsIndexed, unregister-IsIndexed}
use agents_protocol.Inbox
use agents_protocol.Broker.World.{World, done, after, register_agent, unregister_agent}
use agents_protocol.Broker.Delivery.{get_next_message_for_agent}
use agents_protocol.Broker.Sending.{ClusterLink, do_send}
use agents_protocol.Broker.Frame.{Kept, Kept-refl, put-Kept}
use agents_protocol.Broker.Isolation.{do_send-Kept}

-- The agents are distinct and are those that have an inbox, and the registry's index is right.
pub record IsBroker {C : Type 0} (w : World C) : Type 0 where
  pub distinct : IsNodup (Dict.keys w.agents)
  pub same_keys : (a : String) → Dict.has a w.inboxes ≡ Dict.has a w.agents
  pub indexed : IsIndexed w.registry

-- What may happen to a broker: its methods, and the program's own writes to message objects.
pub data Step {C : Type 0} (link : ClusterLink C) : World C → World C → Type 0 where
  registers : (a : Agent) (w : World C) → Step link w (register_agent a w)
  unregisters : (i : String) (w : World C) → Step link w (after (unregister_agent i w))
  sends :
      (rules : List ValidationRule) (r : Ref) (w : World C)
      → Step link w (after (do_send link rules r w))
  takes : (i : String) (w : World C) → Step link w (get_next_message_for_agent i w).1
  writes : (h : Heap) (w : World C) → Step link w (record w { heap = h })

pub data Reach {C : Type 0} (link : ClusterLink C) (w : World C) : World C → Type 0 where
  here : Reach link w w
  next : {u v : World C} → Reach link w u → Step link u v → Reach link w v

module _ {C : Type 0} where
  pub register_agent-IsBroker :
      (a : Agent) (w : World C) → IsBroker w → IsBroker (register_agent a w)
  unfolding register_agent
  register_agent-IsBroker a w h = record {
    distinct = put-IsNodup a.agent_id a w.agents h.distinct;
    same_keys = λ j. ground (
      arith,
      get-put j a.agent_id a w.agents,
      get-put j a.agent_id [] w.inboxes,
      h.same_keys j,
      h.same_keys a.agent_id,
      eq_iff a.agent_id j,
    );
    indexed = registered a w.registry h.indexed;
  }
    where
      registered :
          (b : Agent) (r : AgentRegistry)
          → IsIndexed r
          → IsIndexed (if Dict.has b.agent_id r.agents then r else Registry.register b r)
      registered b r k = elim (Option-cases (Dict.get b.agent_id r.agents)) [
        | inl e ↦ rw e (register-IsIndexed b r e k)
        | inr (c, e) ↦ rw e k
      ]

  pub unregister_agent-done :
      (i : String) (w : World C)
      → IsBroker w
      → unregister_agent i w
        ≡ done tt (record w {
          agents = Dict.remove i w.agents;
          inboxes = Dict.remove i w.inboxes;
          registry = (Registry.unregister i w.registry).0;
        })
  unfolding unregister_agent
  unregister_agent-done i w h = rw (unregister-IsIndexed i w.registry h.indexed).0

  pub unregister_agent-IsBroker :
      (i : String) (w : World C) → IsBroker w → IsBroker (after (unregister_agent i w))
  unregister_agent-IsBroker i w h = rw (unregister_agent-done i w h) (record {
    distinct = remove-IsNodup i w.agents h.distinct;
    same_keys =
        λ j. ground (arith, get-remove j i w.agents, get-remove j i w.inboxes, h.same_keys j);
    indexed = (unregister-IsIndexed i w.registry h.indexed).1;
  })

  pub take-Kept : (i : String) (w : World C) → Kept w (get_next_message_for_agent i w).1
  take-Kept i w = elim (Option-cases (Dict.get i w.inboxes)) [
    | inl e ↦
        let k : get_next_message_for_agent i w ≡ (none, w) =
          unfold get_next_message_for_agent in ground arith in
        rw k (Kept-refl w)
    | inr ([], e) ↦
        let k : get_next_message_for_agent i w ≡ (none, w) =
          unfold get_next_message_for_agent in
          rw (e, get_next_message_for_agent) (unfold Inbox.get in refl) in
        rw k (Kept-refl w)
    | inr (x ∷ q, e) ↦
        let k : get_next_message_for_agent i w
            ≡ (some x.message, record w { inboxes = Dict.put i q w.inboxes }) =
          unfold get_next_message_for_agent in
          rw (e, get_next_message_for_agent) (unfold Inbox.get in refl) in
        rw k (put-Kept w i (x ∷ q) q e)
  ]

  Kept-IsBroker : {w v : World C} → Kept w v → IsBroker w → IsBroker v
  Kept-IsBroker k h = record {
    distinct = rw k.agents h.distinct;
    same_keys = λ j. k.inbox_keys j ∙ (h.same_keys j ∙ ap (λ d. Dict.has j d) (sym k.agents));
    indexed = rw k.registry h.indexed;
  }

  Step-IsBroker : {link : ClusterLink C} {w v : World C} → Step link w v → IsBroker w → IsBroker v
  Step-IsBroker (registers a w) h = register_agent-IsBroker a w h
  Step-IsBroker (unregisters i w) h = unregister_agent-IsBroker i w h
  Step-IsBroker {link} (sends rules r w) h = Kept-IsBroker (do_send-Kept link rules r w) h
  Step-IsBroker (takes i w) h = Kept-IsBroker (take-Kept i w) h
  Step-IsBroker (writes x w) h = record {
    distinct = h.distinct;
    same_keys = h.same_keys;
    indexed = h.indexed;
  }

  -- In every state that a broker reaches from one in order, by registering, unregistering, sending,
  -- reading and writes to messages in any order: the agents are distinct, they are exactly the ids
  -- that have an inbox, the registry's index is right, and to unregister any id raises nothing.
  pub Reach-IsBroker :
      (link : ClusterLink C) {w v : World C}
      → IsBroker w
      → Reach link w v
      → IsBroker v × ((i : String) → (u : World C) × (unregister_agent i v ≡ done tt u))
  Reach-IsBroker link h here = (h, λ i. (_, unregister_agent-done i _ h))
  Reach-IsBroker link h (next x s) =
      let k = Step-IsBroker s (Reach-IsBroker link h x).0 in
      (k, λ i. (_, unregister_agent-done i _ k))
