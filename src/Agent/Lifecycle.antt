-- ===== src/Agent/Lifecycle.antt =====
-- Connecting to a broker and disconnecting from it.
use agents_protocol.Prelude.{
  String, ◌≡◌, refl, ap, sym, ◌∙◌, true, false, none, some, [], eq_iff, eq_refl, arith, is_some,
}
use agents_protocol.Dict
use agents_protocol.Dict.Laws.{get-put, get-remove}
use agents_protocol.Extensions.{
  AgentHook, pre_connect, post_connect, pre_disconnect, post_disconnect,
}
use agents_protocol.Registry
use agents_protocol.Broker.World.{World, done, after, register_agent, unregister_agent}
use agents_protocol.Broker.Registration.{
  IsBroker, register_agent-IsBroker, unregister_agent-done, unregister_agent-IsBroker,
}
use agents_protocol.Agent.{LiveAgent, is_connected}
use agents_protocol.Agent.Connecting.{enrol, connected, connect, leave, disconnect, disconnected}
use agents_protocol.Agent.Replies.{trigger-none}

get-unput :
    {V : Type 0} (j k : String) (v : V) (d : Dict.Dict V)
    → Dict.get k d ≡ none
    → Dict.get j (Dict.remove k (Dict.put k v d)) ≡ Dict.get j d
get-unput j k v d e = ground (arith, get-remove j k (Dict.put k v d), get-put j k v d, eq_iff k j)

absent : {V : Type 0} (k : String) (d : Dict.Dict V) → Dict.has k d ≡ false → Dict.get k d ≡ none
absent k d h = ground arith

module _ {C : Type 0} where
  -- No callback is registered for any hook.
  abbrev pub IsHookless : LiveAgent C → Type 0
  IsHookless a = (h : AgentHook) → a.hooks h ≡ []

  connect_plain :
      (a : LiveAgent C) (w : World C)
      → IsHookless a
      → connect a w ≡ (record a { connected = true; running = true }, done tt (enrol a.info w))
  unfolding connect connected
  connect_plain a w h = rw (
    trigger-none pre_connect a.hooks none w (h pre_connect),
    trigger-none post_connect a.hooks none (enrol a.info w) (h post_connect),
  )

  enrol-register_agent :
      (info : Registry.Agent) (w : World C)
      → Dict.get info.agent_id w.agents ≡ none
      → enrol info w ≡ register_agent info w
  unfolding enrol
  enrol-register_agent info w e = rw e

  disconnect_plain :
      (a : LiveAgent C) (w v : World C)
      → IsHookless a
      → a.connected ≡ true
      → unregister_agent a.info.agent_id w ≡ done tt v
      → disconnect a w ≡ (record a { connected = false; running = false }, done tt v)
  unfolding disconnect
  disconnect_plain a w v h c e =
      rw (trigger-none pre_disconnect a.hooks none w (h pre_disconnect)) (
        unfold leave in
        rw (c, e)
          (unfold disconnected in
            rw (trigger-none post_disconnect a.hooks none v (h post_disconnect))))

  -- What holds of an agent and its broker while it is connected.
  pub record IsMember (a : LiveAgent C) (w : World C) : Type 0 where
    pub connected : is_connected a ≡ true
    pub known : Dict.get a.info.agent_id w.agents ≡ some a.info
    pub reachable : Dict.get a.info.agent_id w.inboxes ≡ some []
    pub ordered : IsBroker w

  -- What holds of an agent and its broker, which was `w` before, once it is disconnected.
  pub record HasLeft (a : LiveAgent C) (w v : World C) : Type 0 where
    pub disconnected : is_connected a ≡ false
    pub agents : (i : String) → Dict.get i v.agents ≡ Dict.get i w.agents
    pub inboxes : (i : String) → Dict.get i v.inboxes ≡ Dict.get i w.inboxes
    pub ordered : IsBroker v

  connect-IsMember :
      (a : LiveAgent C) (w : World C)
      → IsHookless a
      → IsBroker w
      → Dict.get a.info.agent_id w.agents ≡ none
      → IsMember (connect a w).0 (after (connect a w).1)
  connect-IsMember a w h b e =
      let id = a.info.agent_id in
      let away : Dict.has id w.inboxes ≡ false = b.same_keys id ∙ ap is_some e in
      rw (connect_plain a w h, enrol-register_agent a.info w e)
        (record {
          connected = unfold is_connected in refl;
          known = unfold register_agent in rw (get-put, eq_refl id);
          reachable = unfold register_agent in rw (away, get-put, eq_refl id);
          ordered = register_agent-IsBroker a.info w b;
        })

  -- A registration that is undone.
  without-register_agent :
      (info : Registry.Agent) (w u : World C)
      → IsBroker w
      → Dict.get info.agent_id w.agents ≡ none
      → unregister_agent info.agent_id (register_agent info w) ≡ done tt u
      → IsBroker u
        × ((i : String) → Dict.get i u.agents ≡ Dict.get i w.agents)
        × ((i : String) → Dict.get i u.inboxes ≡ Dict.get i w.inboxes)
  unfolding register_agent
  without-register_agent info w u b e d =
      let id = info.agent_id in
      let v = register_agent info w in
      let k = unregister_agent-done id v (register_agent-IsBroker info w b) in
      let away : Dict.has id w.inboxes ≡ false = b.same_keys id ∙ ap is_some e in
      let x = ap after (sym k ∙ d) in
      (
        rw (ap after d) at (unregister_agent-IsBroker id v (register_agent-IsBroker info w b)),
        λ i. ap (λ y. Dict.get i y.agents) (sym x) ∙ get-unput i id info w.agents e,
        λ i.
            ap (λ y. Dict.get i y.inboxes) (sym x)
            ∙ (rw away (get-unput i id [] w.inboxes (absent id w.inboxes away))),
      )

  -- Let an agent without hooks connect to a broker in order that does not know its id. That does not raise,
  -- and it is connected and registered, with an empty inbox, and the broker is in order. If it disconnects then, that does
  -- not raise, it is not connected, the broker is in order, and all agents and inboxes are as they
  -- were before.
  pub disconnect-connect :
      (a : LiveAgent C) (w : World C)
      → IsHookless a
      → IsBroker w
      → Dict.get a.info.agent_id w.agents ≡ none
      → let (b, o) = connect a w in
        let v = after o in
        (o ≡ done tt v)
        × IsMember b v
        × (u : World C) × ((disconnect b v).1 ≡ done tt u)
        × HasLeft (disconnect b v).0 w u
  disconnect-connect a w h b e =
      let id = a.info.agent_id in
      let v = register_agent a.info w in
      let k = unregister_agent-done id v (register_agent-IsBroker a.info w b) in
      let u = after (unregister_agent id v) in
      let d : unregister_agent id v ≡ done tt u = rw k refl in
      let c =
        connect_plain a w h
        ∙ ap (λ x. (record a { connected = true; running = true }, done tt x))
            (enrol-register_agent a.info w e) in
      let l = disconnect_plain (record a { connected = true; running = true }) v u h refl d in
      let (ordered, agents, inboxes) = without-register_agent a.info w u b e d in
      (
        rw c refl,
        connect-IsMember a w h b e,
        u,
        rw (c, l) refl,
        rw (c, l)
            (record {
              disconnected = unfold is_connected in refl;
              agents = agents;
              inboxes = inboxes;
              ordered = ordered;
            }),
      )
