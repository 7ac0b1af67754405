-- ===== src/Tests/Messages.antt =====
-- Replies, checks, registries, extensions and routes.
use agents_protocol.Prelude.{
  String, ◌≡◌, false, none, some, List, [], ◌∷◌, ◌++◌, count, keep, contains, all, if◌then◌else◌,
  arith,
}
use agents_protocol.Dict
use agents_protocol.Protocol.{AgentMessage}
use agents_protocol.Registry.{empty, unregister, find_by_capability}
use agents_protocol.Registry.Index.{offered}
use agents_protocol.Registry.Discovery.{Op, registers, unregisters, run, ids, discovery_exact}
use agents_protocol.Extensions.{Middleware, process_with_middleware}
use agents_protocol.Extensions.Chain.{wrap, process_with_middleware-wrap}
use agents_protocol.Router.{MessageRouter, route}
use agents_protocol.Router.Routes.{routed, route-routed}
use agents_protocol.Tests.Data.{question, planner, scout}

abbrev history : List Op
history = registers planner ∷ registers scout ∷ unregisters "planner" ∷ unregisters "nobody" ∷ []

discovery_exact_example :
    (count "scout" (ids (find_by_capability "search" (run history empty)))
      ≡ offered (Dict.get "scout" (run history empty).agents) "search")
    × ((unregister "scout" (run history empty)).1 ≡ false)
discovery_exact_example = discovery_exact history "scout" "search"

-- Middlewares that leave a mark on the way in, and one that also leaves one on the way out.
abbrev marks : String → Middleware String (List String)
marks name m next = name ∷ next m

abbrev marks_twice : String → Middleware String (List String)
marks_twice name m next = (name ∷ next m) ++ name ∷ []

abbrev handle : String → List String
handle m = m ∷ []

process_with_middleware-wrap_example :
    process_with_middleware (marks "a" ∷ marks_twice "b" ∷ []) "m" handle
    ≡ wrap (marks "a" ∷ marks_twice "b" ∷ []) handle "m"
process_with_middleware-wrap_example =
    process_with_middleware-wrap (marks "a" ∷ marks_twice "b" ∷ []) "m" handle

abbrev router : MessageRouter
router = record { routes = ("capability:plan", "planner" ∷ "other" ∷ []) ∷ []; filters = [] }

abbrev wanted : AgentMessage
wanted = record question { recipient_id = some "capability:plan" }

route-routed_example :
    (wanted.recipient_id ≡ none → route router wanted ("planner" ∷ []) ≡ [])
    × ((name : String)
        → wanted.recipient_id ≡ some name
        → route router wanted ("planner" ∷ []) ≡ (
            if all (λ f. f wanted) router.filters
            then keep (λ a. contains a ("planner" ∷ [])) (routed router.routes name)
            else []))
route-routed_example = route-routed router wanted ("planner" ∷ []) (λ a. ground arith)
