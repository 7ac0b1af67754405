-- ===== src/Router.antt =====
-- `MessageRouter` and `RouterRegistry` of src/agents_protocol/messaging.py.
pub mod Routes
use text.Mathlib.Text.{starts_with}
use agents_protocol.Prelude.{
  String, Bool, true, false, Option, none, some, List, [], ◌∷◌, ◌++◌, ◌==◌, if◌then◌else◌, contains,
  keep, all,
}
use agents_protocol.Dict
use agents_protocol.Dict.{Dict}
use agents_protocol.Protocol.{AgentMessage}

pub record MessageRouter : Type 0 where
  pub routes : Dict (List String)
  pub filters : List (AgentMessage → Bool)

-- `__init__`
abbrev pub new : MessageRouter
new = record { routes = []; filters = [] }

unfoldable pub add_route : String → List String → MessageRouter → MessageRouter
add_route pattern_ agent_ids r = record r { routes = Dict.put pattern_ agent_ids r.routes }

unfoldable pub add_filter : (AgentMessage → Bool) → MessageRouter → MessageRouter
add_filter filter_func r = record r { filters = r.filters ++ filter_func ∷ [] }

-- `message.recipient_id == pattern`
abbrev is_recipient : Option String → String → Bool
is_recipient none p = false
is_recipient (some r) p = r == p

-- `_match_pattern`
unfoldable pub match_pattern : String → AgentMessage → Bool
match_pattern p m = if starts_with p "capability:" then is_recipient m.recipient_id p else false

-- The loop over the routes.
unfoldable pub collect : Dict (List String) → AgentMessage → List String → List String
unfolding match_pattern
collect [] m available = []
collect ((p, agent_ids) ∷ routes) m available =
    let rest = collect routes m available in
    if match_pattern p m then keep (λ a. contains a available) agent_ids ++ rest else rest

unfoldable pub route : MessageRouter → AgentMessage → List String → List String
unfolding collect
route r m available = keep (λ a. all (λ f. f m) r.filters) (collect r.routes m available)

-- `RouterRegistry`: `R` is what a router class builds. `create` of an unknown name raises, `none`.
module _ {R : Type 0} where
  unfoldable pub register : String → R → Dict R → Dict R
  register name router_class routers = Dict.put name router_class routers

  unfoldable pub create : String → Dict R → Option R
  create name routers = Dict.get name routers

  -- `clear`: the default class is the only one left.
  unfoldable pub clear : R → Dict R
  unfolding register
  clear default_class = register "default" default_class []
