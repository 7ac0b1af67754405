-- ===== src/Registry/Discovery.antt =====
-- What `find_by_capability` finds, after any history of registrations, and what goes wrong when an
-- agent is registered a second time without the broker's guard.
use agents_protocol.Prelude.{
  ◌*◌, String, ◌≡◌, false, none, some, List, [], ◌∷◌, map, eq_iff, eq_refl, arith, if◌then◌else◌,
  count, Option-cases, inl, inr,
}
use agents_protocol.Dict
use agents_protocol.Dict.{Dict}
use agents_protocol.Dict.Laws.{get-put}
use agents_protocol.Registry.{
  Agent, AgentRegistry, empty, indexed, register, unregister, present, find_by_capability,
}
use agents_protocol.Registry.Index.{
  IsIndexed, offered, empty-IsIndexed, register-IsIndexed, unregister-IsIndexed, count-index_add,
}

-- The ids of the agents that a search shows.
abbrev pub ids : List Agent → List String
ids = map (λ a. a.agent_id)

pub data Op : Type 0 where
  registers : Agent → Op
  unregisters : String → Op
  clears : Op

-- One use of the registry by a broker, which registers an agent only if its id is not there.
unfoldable pub apply : Op → AgentRegistry → AgentRegistry
apply (registers a) r = if Dict.has a.agent_id r.agents then r else register a r
apply (unregisters i) r = (unregister i r).0
apply clears r = empty

unfoldable pub run : List Op → AgentRegistry → AgentRegistry
run [] r = r
run (o ∷ os) r = run os (apply o r)

apply-IsIndexed : (o : Op) (r : AgentRegistry) → IsIndexed r → IsIndexed (apply o r)
unfolding apply
apply-IsIndexed (registers a) r h = elim (Option-cases (Dict.get a.agent_id r.agents)) [
  | inl e ↦ rw e (register-IsIndexed a r e h)
  | inr (b, e) ↦ rw e h
]
apply-IsIndexed (unregisters i) r h = (unregister-IsIndexed i r h).1
apply-IsIndexed clears r h = empty-IsIndexed

run-IsIndexed : (os : List Op) (r : AgentRegistry) → IsIndexed r → IsIndexed (run os r)
unfolding run
run-IsIndexed [] r h = h
run-IsIndexed (o ∷ os) r h = run-IsIndexed os (apply o r) (apply-IsIndexed o r h)

count-ids-present :
    (i : String) (js : List String) (agents : Dict Agent)
    → ((j : String) (a : Agent) → Dict.get j agents ≡ some a → a.agent_id ≡ j)
    → count i (ids (present js agents)) ≡ (if Dict.has i agents then count i js else 0)
unfolding present
count-ids-present i [] agents keyed = ground arith
count-ids-present i (j ∷ js) agents keyed = elim (Option-cases (Dict.get j agents)) [
  | inl e ↦ ground (arith, count-ids-present i js agents keyed, eq_iff j i)
  | inr (a, e) ↦ ground (arith, count-ids-present i js agents keyed, eq_iff j i, keyed j a e)
]

-- In an indexed registry a search shows each agent as often as its capability list has the word.
pub count-find_by_capability :
    (i c : String) (r : AgentRegistry)
    → IsIndexed r
    → count i (ids (find_by_capability c r)) ≡ offered (Dict.get i r.agents) c
unfolding find_by_capability
count-find_by_capability i c r h =
    ground
      (arith, count-ids-present i (indexed c r.capabilities_index) r.agents h.keyed, h.counted i c)

-- After any sequence of guarded registrations, removals (also of unknown ids) and clears, a search
-- for a capability shows the registered agents that offer it, each as often as its own capability
-- list has the word, and no other agent; and the next removal of any id raises nothing.
pub discovery_exact :
    (os : List Op) (i c : String)
    → let r = run os empty in
      (count i (ids (find_by_capability c r)) ≡ offered (Dict.get i r.agents) c)
      × ((unregister i r).1 ≡ false)
discovery_exact os i c =
    let h = run-IsIndexed os empty empty-IsIndexed in
    (count-find_by_capability i c (run os empty) h, (unregister-IsIndexed i (run os empty) h).0)

register-keyed :
    (a : Agent) (r : AgentRegistry)
    → ((j : String) (b : Agent) → Dict.get j r.agents ≡ some b → b.agent_id ≡ j)
    → (j : String) (b : Agent) → Dict.get j (register a r).agents ≡ some b
    → b.agent_id ≡ j
unfolding register
register-keyed a r keyed j b e =
    ground (arith, get-put j a.agent_id a r.agents, keyed j b, eq_iff a.agent_id j)

-- The guard matters: with a right index, `register` called twice for a new agent makes each search for
-- one of its capabilities show the agent twice for each time that its list has the word.
pub register_twice :
    (a : Agent) (c : String) (r : AgentRegistry)
    → IsIndexed r
    → Dict.get a.agent_id r.agents ≡ none
    → count a.agent_id (ids (find_by_capability c (register a (register a r))))
      ≡ 2 * count c a.capabilities
unfolding find_by_capability register
register_twice a c r h fresh =
    let once = register a r in
    let keyed = register-keyed a once (register-keyed a r h.keyed) in
    ground (
      arith,
      count-ids-present a.agent_id (indexed c (register a once).capabilities_index)
          (register a once).agents keyed,
      count-index_add a.agent_id c a.agent_id a.capabilities once.capabilities_index,
      count-index_add a.agent_id c a.agent_id a.capabilities r.capabilities_index,
      h.counted a.agent_id c,
      get-put a.agent_id a.agent_id a once.agents,
      eq_refl a.agent_id,
    )
