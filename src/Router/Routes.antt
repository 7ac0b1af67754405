-- ===== src/Router/Routes.antt =====
-- What `route` returns.
use text.Mathlib.Text.{starts_with}
use agents_protocol.Prelude.{
  String, ◌≡◌, refl, Bool, false, none, some, List, [], ◌∷◌, ◌==◌, eq_iff, append-nil, arith,
  if◌then◌else◌, or_else, contains, keep, all, IsNodup, count_present, keep_const, Bool-cases, inl,
  inr,
}
use agents_protocol.Dict
use agents_protocol.Dict.{Dict}
use agents_protocol.Protocol.{AgentMessage}
use agents_protocol.Router.{MessageRouter, collect, route}

-- The agents of the one route for the text, if it is a capability pattern.
abbrev pub routed : Dict (List String) → String → List String
routed routes p = if starts_with p "capability:" then or_else (Dict.get p routes) [] else []

collect_broadcast :
    (routes : Dict (List String)) (m : AgentMessage) (available : List String)
    → m.recipient_id ≡ none
    → collect routes m available ≡ []
unfolding collect
collect_broadcast [] m available e = refl
collect_broadcast ((p, ids) ∷ routes) m available e =
    ground (arith, collect_broadcast routes m available e)

collect_missing :
    (routes : Dict (List String)) (m : AgentMessage) (r : String) (available : List String)
    → m.recipient_id ≡ some r
    → contains r (Dict.keys routes) ≡ false
    → collect routes m available ≡ []
unfolding collect
collect_missing [] m r available e h = refl
collect_missing ((p, ids) ∷ routes) m r available e h =
    ground (arith, collect_missing routes m r available e, eq_iff r p, eq_iff p r)

collect-routed :
    (routes : Dict (List String)) (m : AgentMessage) (r : String) (available : List String)
    → m.recipient_id ≡ some r
    → IsNodup (Dict.keys routes)
    → collect routes m available ≡ keep (λ a. contains a available) (routed routes r)
unfolding collect Dict.get
collect-routed [] m r available e h = ground arith
collect-routed ((p, ids) ∷ routes) m r available e h = elim (Bool-cases (p == r)) [
  | inl hit ↦
      let p≡r : p ≡ r = (eq_iff p r).0 hit in
      let once : contains r (Dict.keys routes) ≡ false =
        ground (arith, h r, count_present r (Dict.keys routes)) in
      ground (
        arith,
        p≡r,
        collect_missing routes m r available e once,
        append-nil (keep (λ a. contains a available) ids),
        eq_iff r p,
      )
  | inr miss ↦ ground (
    arith,
    collect-routed routes m r available e (λ a. ground (arith, h a)),
    eq_iff r p,
    eq_iff p r,
  )
]

collected : (b : Bool) {xs ys : List String} → xs ≡ ys → keep (λ _. b) xs ≡ (if b then ys else [])
collected b {xs} e = rw (← e) (keep_const b xs)

-- With the default router, its routes having distinct names, a message with no recipient is routed to
-- nobody. A message with a recipient goes to the agents of the route of exactly that name, if the name
-- is a capability pattern and all filters let the message pass, as far as they are available; else to
-- nobody.
pub route-routed :
    (r : MessageRouter) (m : AgentMessage) (available : List String)
    → IsNodup (Dict.keys r.routes)
    → (m.recipient_id ≡ none → route r m available ≡ [])
      × ((name : String)
          → m.recipient_id ≡ some name
          → route r m available ≡ (
              if all (λ f. f m) r.filters
              then keep (λ a. contains a available) (routed r.routes name)
              else []))
unfolding route
route-routed r m available h = (
  λ e. ground (arith, collect_broadcast r.routes m available e),
  λ name e. collected (all (λ f. f m) r.filters) (collect-routed r.routes m name available e h),
)
