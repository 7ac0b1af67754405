-- ===== src/Registry/Index.antt =====
-- The capability index agrees with the registered agents.
use agents_protocol.Prelude.{
  ℕ, ◌+◌, ◌≤◌, ◌<◌, String, ◌≡◌, refl, false, Option, none, some, List, [], ◌∷◌, ◌++◌, ◌==◌, eq_iff,
  arith, Bool-cases, eq_refl, if◌then◌else◌, count, count-append, Option-cases, inl, inr,
}
use agents_protocol.Dict
use agents_protocol.Dict.{Dict}
use agents_protocol.Dict.Laws.{get-put, get-remove, get-nil}
use agents_protocol.Registry.{
  Agent, AgentRegistry, empty, indexed, index_add, register, remove_first, store_ids, index_remove,
  unregister,
}

-- How often the capability stands in the list of the agent that is registered under the id.
abbrev pub offered : Option Agent → String → ℕ
offered none c = 0
offered (some a) c = count c a.capabilities

pub record IsIndexed (r : AgentRegistry) : Type 0 where
  pub keyed : (i : String) (a : Agent) → Dict.get i r.agents ≡ some a → a.agent_id ≡ i
  pub counted :
      (i c : String) → count i (indexed c r.capabilities_index) ≡ offered (Dict.get i r.agents) c

pub count-index_add :
    (i c a : String) (cs : List String) (index : Dict (List String))
    → count i (indexed c (index_add a cs index))
      ≡ (if a == i then count i (indexed c index) + count c cs else count i (indexed c index))
unfolding index_add
count-index_add i c a [] index = ground arith
count-index_add i c a (x ∷ cs) index =
    let index' : Dict (List String) = Dict.put x (indexed x index ++ a ∷ []) index in
    ground (
      arith,
      count-index_add i c a cs index',
      get-put c x (indexed x index ++ a ∷ []) index,
      count-append i (indexed x index) (a ∷ []),
      eq_iff x c,
      eq_iff a i,
    )

remove_first-count :
    (a : String) (xs : List String)
    → 0 < count a xs
    → (ys : List String) × (remove_first a xs ≡ some ys)
      × ((i : String) → count i xs ≡ (if a == i then count i ys + 1 else count i ys))
unfolding remove_first
remove_first-count a [] h = absurd (omega arith)
remove_first-count a (x ∷ xs) h = elim (Bool-cases (x == a)) [
  | inl hit ↦ (xs, ground arith, λ i. ground (arith, eq_iff x a, eq_iff x i, eq_iff a i))
  | inr miss ↦
      let (ys, e, k) = remove_first-count a xs (ground arith) in
      (x ∷ ys, ground arith, λ i. ground (arith, k i, eq_iff x a, eq_iff x i, eq_iff a i))
]

count-store_ids :
    (i c d : String) (ids : List String) (index : Dict (List String))
    → count i (indexed c (store_ids d ids index))
      ≡ (if d == c then count i ids else count i (indexed c index))
unfolding store_ids
count-store_ids i c d [] index = ground (arith, get-remove c d index)
count-store_ids i c d (x ∷ xs) index = ground (arith, get-put c d (x ∷ xs) index)

count-present :
    (i c : String) (index : Dict (List String)) (ids : List String)
    → Dict.get c index ≡ some ids
    → count i (indexed c index) ≡ count i ids
count-present i c index ids e = ground arith

-- Where the index has the id often enough, the loop of `unregister` does not raise, and takes out
-- what the loop of `register` put in.
pub index_remove-count :
    (a : String) (cs : List String) (index : Dict (List String))
    → ((c : String) → count c cs ≤ count a (indexed c index))
    → ((index_remove a cs index).1 ≡ false)
      × ((i c : String)
          → count i (indexed c index) ≡ (
              if a == i
              then count i (indexed c (index_remove a cs index).0) + count c cs
              else count i (indexed c (index_remove a cs index).0)))
unfolding index_remove
index_remove-count a [] index h = (refl, λ i c. ground arith)
index_remove-count a (x ∷ cs) index h = elim (Option-cases (Dict.get x index)) [
  | inl e ↦ absurd (ground (arith, h x, eq_refl x))
  | inr (ids, e) ↦
      let (left, r, k) = remove_first-count a ids (ground (arith, h x, eq_refl x)) in
      let index' : Dict (List String) = store_ids x left index in
      let ih =
        index_remove-count a cs index' (λ c.
          ground (arith, h c, k a, eq_refl a, eq_iff x c, count-store_ids a c x left index)) in
      (
        ground (arith, ih.0),
        λ i c. ground (arith, ih.1 i c, k i, eq_iff x c, count-store_ids i c x left index),
      )
]

pub empty-IsIndexed : IsIndexed empty
empty-IsIndexed = record {
  keyed = λ i a e. cc (get-nil {V = Agent} i);
  counted = λ i c. simp get-nil;
}

-- A new id is entered under each of its capabilities.
pub register-IsIndexed :
    (a : Agent) (r : AgentRegistry)
    → Dict.get a.agent_id r.agents ≡ none
    → IsIndexed r
    → IsIndexed (register a r)
unfolding register
register-IsIndexed a r fresh h = record {
  keyed =
      λ i b e. ground (arith, get-put i a.agent_id a r.agents, h.keyed i b, eq_iff a.agent_id i);
  counted = λ i c. ground (
    arith,
    get-put i a.agent_id a r.agents,
    count-index_add i c a.agent_id a.capabilities r.capabilities_index,
    h.counted i c,
    eq_iff a.agent_id i,
  );
}

-- The registry that `unregister` leaves for a known id where nothing raises.
abbrev without : String → Agent → AgentRegistry → AgentRegistry
without i a r = record {
  agents = Dict.remove i r.agents;
  capabilities_index = (index_remove i a.capabilities r.capabilities_index).0;
}

unregister_known :
    (i : String) (a : Agent) (r : AgentRegistry)
    → Dict.get i r.agents ≡ some a
    → IsIndexed r
    → unregister i r ≡ (without i a r, false)
unfolding unregister
unregister_known i a r e h =
    let k =
      index_remove-count i a.capabilities r.capabilities_index
        (λ c. ground (arith, h.counted i c)) in
    ground (arith, k.0)

without-IsIndexed :
    (i : String) (a : Agent) (r : AgentRegistry)
    → Dict.get i r.agents ≡ some a
    → IsIndexed r
    → IsIndexed (without i a r)
without-IsIndexed i a r e h =
    let k =
      index_remove-count i a.capabilities r.capabilities_index
        (λ c. ground (arith, h.counted i c)) in
    record {
      keyed = λ j b g. ground (arith, get-remove j i r.agents, h.keyed j b);
      counted = λ j c. ground (arith, get-remove j i r.agents, k.1 j c, h.counted j c, eq_iff i j);
    }

-- To unregister an id, known or not, raises nothing and keeps the index right.
pub unregister-IsIndexed :
    (i : String) (r : AgentRegistry)
    → IsIndexed r
    → ((unregister i r).1 ≡ false) × IsIndexed (unregister i r).0
unregister-IsIndexed i r h = elim (Option-cases (Dict.get i r.agents)) [
  | inl e ↦
      let k : unregister i r ≡ (r, false) = unfold unregister in ground arith in rw k (refl, h)
  | inr (a, e) ↦ rw (unregister_known i a r e h) (refl, without-IsIndexed i a r e h)
]
