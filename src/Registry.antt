-- ===== src/Registry.antt =====
-- `AgentRegistry` of src/agents_protocol/agents.py, and what discovery needs of an `Agent`.
pub mod Index
pub mod Discovery
use agents_protocol.Prelude.{
  String, Bool, true, false, Option, none, some, List, [], ◌∷◌, ◌++◌, ◌==◌, or_else, if◌then◌else◌,
}
use agents_protocol.Dict
use agents_protocol.Dict.{Dict}
use agents_protocol.Json.{Fields}

-- The fields of an agent that `get_info` shows.
pub record Agent : Type 0 where
  pub agent_id : String
  pub name : String
  pub capabilities : List String
  pub metadata : Fields

pub record AgentRegistry : Type 0 where
  pub agents : Dict Agent
  pub capabilities_index : Dict (List String)

-- `__init__`, `clear`
abbrev pub empty : AgentRegistry
empty = record { agents = []; capabilities_index = [] }

-- The ids that the index has for a capability.
abbrev pub indexed : String → Dict (List String) → List String
indexed c index = or_else (Dict.get c index) []

-- The loop of `register`: each capability's list gets the id at its end.
unfoldable pub index_add : String → List String → Dict (List String) → Dict (List String)
index_add agent_id [] index = index
index_add agent_id (c ∷ cs) index =
    index_add agent_id cs (Dict.put c (indexed c index ++ agent_id ∷ []) index)

unfoldable pub register : Agent → AgentRegistry → AgentRegistry
unfolding index_add
register a r = record {
  agents = Dict.put a.agent_id a r.agents;
  capabilities_index = index_add a.agent_id a.capabilities r.capabilities_index;
}

-- `list.remove`: the first occurrence goes; `none` stands for the `ValueError` where there is none.
unfoldable pub remove_first : String → List String → Option (List String)
remove_first a [] = none
remove_first a (x ∷ xs) =
    let rest = remove_first a xs in
    if x == a then some xs else elim rest [ none ↦ none | some ys ↦ some (x ∷ ys) ]

-- `if not index[c]: del index[c]`
unfoldable pub store_ids : String → List String → Dict (List String) → Dict (List String)
store_ids c [] index = Dict.remove c index
store_ids c (x ∷ xs) index = Dict.put c (x ∷ xs) index

-- The loop of `unregister`: the index after it, and whether `list.remove` raised on the way.
unfoldable pub index_remove : String → List String → Dict (List String) → Dict (List String) × Bool
unfolding remove_first store_ids
index_remove agent_id [] index = (index, false)
index_remove agent_id (c ∷ cs) index = elim (Dict.get c index) [
  | none ↦ index_remove agent_id cs index
  | some ids ↦ elim (remove_first agent_id ids) [
    | none ↦ (index, true)
    | some left ↦ index_remove agent_id cs (store_ids c left index)
  ]
]

-- `unregister`: the registry after it, and whether it raised.
unfoldable pub unregister : String → AgentRegistry → AgentRegistry × Bool
unfolding index_remove
unregister agent_id r = elim (Dict.get agent_id r.agents) [
  | none ↦ (r, false)
  | some a ↦
      let (index, raised) = index_remove agent_id a.capabilities r.capabilities_index in
      if raised
      then (record r { capabilities_index = index }, true)
      else (record { agents = Dict.remove agent_id r.agents; capabilities_index = index }, false)
]

unfoldable pub get_agent : String → AgentRegistry → Option Agent
get_agent agent_id r = Dict.get agent_id r.agents

unfoldable pub list_agents : AgentRegistry → List Agent
list_agents r = Dict.values r.agents

-- The comprehension of `find_by_capability`.
unfoldable pub present : List String → Dict Agent → List Agent
present [] agents = []
present (i ∷ ids) agents =
    let rest = present ids agents in elim (Dict.get i agents) [ none ↦ rest | some a ↦ a ∷ rest ]

unfoldable pub find_by_capability : String → AgentRegistry → List Agent
unfolding present
find_by_capability c r = present (indexed c r.capabilities_index) r.agents
