-- ===== src/Cluster/Pruning.antt =====
-- What the cleanup of the heartbeat loop removes.
use agents_protocol.Prelude.{
  ℕ, String, Bool, ◌≡◌, refl, arith, Option, none, some, List, [], ◌∷◌, ◌==◌, false, eq_iff,
  if◌then◌else◌, contains, count, IsNodup, ◌∙◌, ◌≤◌, ◌+◌, ◌↔◌, Bool-cases, Option-cases, inl, inr,
  sym,
}
use agents_protocol.Cluster.Peer.{ClusterPeer}
use agents_protocol.Cluster.Manager.{
  ClusterManager, is_stale, stale_nodes, forget_node, remove_nodes, prune,
}
use agents_protocol.Dict
use agents_protocol.Dict.{Dict}
use agents_protocol.Dict.Laws.{get-remove}

-- An entry, unless the test says that it goes.
abbrev unless {ℓ} : {V : Type ℓ} → (V → Bool) → Option V → Option V
unless gone none = none
unless gone (some v) = if gone v then none else some v

contains-stale_nodes-absent :
    (now : ℕ) (k : String) (peers : Dict ClusterPeer)
    → Dict.get k peers ≡ none
    → contains k (stale_nodes now peers) ≡ false
unfolding stale_nodes Dict.get
contains-stale_nodes-absent now k [] h = refl
contains-stale_nodes-absent now k ((n, p) ∷ peers) h =
    ground (arith, contains-stale_nodes-absent now k peers)

get-absent :
    {V : Type 0} (k : String) (d : Dict V) → count k (Dict.keys d) ≡ 0 → Dict.get k d ≡ none
unfolding Dict.get
get-absent k [] h = refl
get-absent k ((j, v) ∷ d) h = ground (arith, get-absent k d)

IsNodup-tail : (x : String) (xs : List String) → IsNodup (x ∷ xs) → IsNodup xs
IsNodup-tail x xs h = λ a. ground (arith, h a)

get-unless-stale :
    (now : ℕ) (k : String) (peers : Dict ClusterPeer)
    → IsNodup (Dict.keys peers)
    → (if contains k (stale_nodes now peers) then none else Dict.get k peers)
      ≡ unless (is_stale now) (Dict.get k peers)
unfolding stale_nodes Dict.get
get-unless-stale now k [] h = refl
get-unless-stale now k ((n, p) ∷ peers) h = ground (
  arith,
  h k,
  eq_iff n k,
  get-absent k peers,
  contains-stale_nodes-absent now k peers,
  get-unless-stale now k peers (IsNodup-tail n (Dict.keys peers) h),
)

-- The node of an agent is one of the list.
abbrev in_nodes : List String → String → Bool
in_nodes ns n = contains n ns

get-forget_node :
    (a n : String) (agents : Dict String)
    → IsNodup (Dict.keys agents)
    → Dict.get a (forget_node n agents) ≡ unless (λ m. n == m) (Dict.get a agents)
unfolding forget_node Dict.get
get-forget_node a n [] h = refl
get-forget_node a n ((b, m) ∷ agents) h = ground (
  arith,
  h a,
  eq_iff b a,
  eq_iff m n,
  eq_iff n m,
  get-absent a agents,
  get-forget_node a n agents (IsNodup-tail b (Dict.keys agents) h),
)

count-forget_node :
    (a n : String) (agents : Dict String)
    → count a (Dict.keys (forget_node n agents)) ≤ count a (Dict.keys agents)
unfolding forget_node
count-forget_node a n [] = omega arith
count-forget_node a n ((b, m) ∷ agents) = ground (arith, count-forget_node a n agents)

get-remove_nodes :
    (k : String) (ns : List String) (c : ClusterManager)
    → Dict.get k (remove_nodes ns c).peers ≡ (if contains k ns then none else Dict.get k c.peers)
unfolding remove_nodes
get-remove_nodes k [] c = refl
get-remove_nodes k (n ∷ ns) c =
    let after = record c {
      peers = Dict.remove n c.peers;
      remote_agents = forget_node n c.remote_agents;
    } in
    ground (arith, get-remove_nodes k ns after, get-remove k n c.peers, eq_iff n k)

agents-remove_nodes :
    (a : String) (ns : List String) (c : ClusterManager)
    → IsNodup (Dict.keys c.remote_agents)
    → Dict.get a (remove_nodes ns c).remote_agents
      ≡ unless (in_nodes ns) (Dict.get a c.remote_agents)
unfolding remove_nodes
agents-remove_nodes a [] c h = ground arith
agents-remove_nodes a (n ∷ ns) c h =
    let after = record c {
      peers = Dict.remove n c.peers;
      remote_agents = forget_node n c.remote_agents;
    } in
    let kept : IsNodup (Dict.keys after.remote_agents) =
      λ b. omega (arith, h b, count-forget_node b n c.remote_agents) in
    ground (arith, agents-remove_nodes a ns after kept, get-forget_node a n c.remote_agents h)

-- The peer of this name was silent for at most 30 seconds, if there is one.
abbrev pub IsHeard : ℕ → String → Dict ClusterPeer → Type 0
IsHeard now n peers =
    (p : ClusterPeer) → Dict.get n peers ≡ some p → now ≤ p.node_info.last_seen + 30000

get-prune :
    (now : ℕ) (k : String) (c : ClusterManager)
    → IsNodup (Dict.keys c.peers)
    → Dict.get k (prune now c).peers ≡ unless (is_stale now) (Dict.get k c.peers)
unfolding prune
get-prune now k c h =
    get-remove_nodes k (stale_nodes now c.peers) c ∙ get-unless-stale now k c.peers h

unless-some :
    {V : Type 0} (gone : V → Bool) (o : Option V) (v : V)
    → (unless gone o ≡ some v) ↔ ((o ≡ some v) × (gone v ≡ false))
unless-some gone none v = (λ e. absurd (cc e), λ (e, f). absurd (cc e))
unless-some gone (some x) v = elim (Bool-cases (gone x)) [
  | inl e ↦ (λ k. absurd (ground arith), λ (k, f). absurd (ground arith))
  | inr e ↦ (λ k. ground arith, λ (k, f). ground arith)
]

contains-stale_nodes :
    (now : ℕ) (n : String) (peers : Dict ClusterPeer)
    → IsNodup (Dict.keys peers)
    → (contains n (stale_nodes now peers) ≡ false) ↔ IsHeard now n peers
contains-stale_nodes now n peers h = elim (Option-cases (Dict.get n peers)) [
  | inl e ↦ (λ k p f. absurd (cc (e, f)), λ k. contains-stale_nodes-absent now n peers e)
  | inr (p, e) ↦
      let x = get-unless-stale now n peers h in
      elim (Bool-cases (is_stale now p)) [
        | inl old ↦ (λ k. absurd (ground arith), λ k. absurd (ground (arith, k p e)))
        | inr young ↦ (
          λ k q f. (let same : p ≡ q = ground arith in rw (← same) (ground arith)),
          λ k. ground arith,
        )
      ]
]

-- The cleanup at the time `now`, in milliseconds, when no key stands twice in the two dicts. A peer is
-- there after it exactly if it was before and its last sign of life is at most 30 seconds back; and a
-- remote agent is at a node after it exactly if it was before and the node is no peer, or one that is
-- there still.
pub prune-removes :
    (now : ℕ) (c : ClusterManager)
    → IsNodup (Dict.keys c.peers)
    → IsNodup (Dict.keys c.remote_agents)
    → ((k : String) (p : ClusterPeer)
        → (Dict.get k (prune now c).peers ≡ some p)
          ↔ ((Dict.get k c.peers ≡ some p) × (now ≤ p.node_info.last_seen + 30000)))
      × ((a n : String)
          → (Dict.get a (prune now c).remote_agents ≡ some n)
            ↔ ((Dict.get a c.remote_agents ≡ some n) × IsHeard now n c.peers))
prune-removes now c h g = (
  λ k p.
      let (there, back) = unless-some (is_stale now) (Dict.get k c.peers) p in
      (
        λ e. (let x = there (sym (get-prune now k c h) ∙ e) in (x.0, ground (arith, x.1))),
        λ (e, l). get-prune now k c h ∙ back (e, ground arith),
      ),
  λ a n.
      let gone = in_nodes (stale_nodes now c.peers) in
      let (there, back) = unless-some gone (Dict.get a c.remote_agents) n in
      let (heard, fresh) = contains-stale_nodes now n c.peers h in
      let same = agents-remove_nodes a (stale_nodes now c.peers) c g in
      (
        λ e. (let x = there (sym same ∙ unfold prune in e) in (x.0, heard x.1)),
        λ (e, l). unfold prune in same ∙ back (e, fresh l),
      ),
)
