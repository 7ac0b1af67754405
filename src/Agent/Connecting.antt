-- ===== src/Agent/Connecting.antt =====
-- `connect` and `disconnect` of the agent.
use agents_protocol.Prelude.{none, true, false, if◌then◌else◌}
use agents_protocol.Dict
use agents_protocol.Extensions.{pre_connect, post_connect, pre_disconnect, post_disconnect, trigger}
use agents_protocol.Registry
use agents_protocol.Broker.World.{
  World, Outcome, done, raised, blocked, register_agent, unregister_agent,
}
use agents_protocol.Agent.{LiveAgent, unless_raised}

module _ {C : Type 0} where
  -- `broker._agents[self.agent_id] = self` for an id that is there, else a registration
  unfoldable pub enrol : Registry.Agent → World C → World C
  unfolding register_agent
  enrol info w =
      if Dict.has info.agent_id w.agents
      then record w { agents = Dict.put info.agent_id info w.agents }
      else register_agent info w

  -- After the first hook: where it raised, the agent has no broker yet; where the last one does, it
  -- is connected all the same.
  unfoldable pub connected : LiveAgent C → Outcome C (Unit {0}) → LiveAgent C × Outcome C (Unit {0})
  unfolding trigger enrol
  connected a (done x w) = (
    record a { connected = true; running = true },
    unless_raised none (trigger post_connect a.hooks none (enrol a.info w)),
  )
  connected a (raised e w) = (a, raised e w)
  connected a (blocked w) = (a, blocked w)

  unfoldable pub connect : LiveAgent C → World C → LiveAgent C × Outcome C (Unit {0})
  unfolding trigger connected
  connect a w = connected a (unless_raised none (trigger pre_connect a.hooks none w))

  -- After `unregister_agent`; an exception of it leaves the agent with its broker.
  unfoldable pub disconnected :
      LiveAgent C → Outcome C (Unit {0}) → LiveAgent C × Outcome C (Unit {0})
  unfolding trigger
  disconnected a (done x w) =
      (record a { connected = false }, unless_raised none (trigger post_disconnect a.hooks none w))
  disconnected a (raised e w) = (a, raised e w)
  disconnected a (blocked w) = (a, blocked w)

  -- After the first hook: where it raised, the agent runs on.
  unfoldable pub leave : LiveAgent C → Outcome C (Unit {0}) → LiveAgent C × Outcome C (Unit {0})
  unfolding disconnected unregister_agent
  leave a (done x w) =
      let stopped = record a { running = false } in
      if a.connected
      then disconnected stopped (unregister_agent a.info.agent_id w)
      else disconnected stopped (done tt w)
  leave a (raised e w) = (a, raised e w)
  leave a (blocked w) = (a, blocked w)

  unfoldable pub disconnect : LiveAgent C → World C → LiveAgent C × Outcome C (Unit {0})
  unfolding trigger leave
  disconnect a w = leave a (unless_raised none (trigger pre_disconnect a.hooks none w))
