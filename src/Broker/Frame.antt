-- ===== src/Broker/Frame.antt =====
-- What a send leaves alone, however it ends.
use agents_protocol.Prelude.{ℕ, String, ◌≡◌, refl, ◌∙◌, Option, some, arith, eq_iff}
use agents_protocol.Dict
use agents_protocol.Dict.{Dict}
use agents_protocol.Dict.Laws.{get-put}
use agents_protocol.Objects.{Heap}
use agents_protocol.Inbox.{Inbox}
use agents_protocol.Persistence.{Store}
use agents_protocol.Broker.World.{World, Metrics}
use agents_protocol.Broker.Delivery.{numbered}

-- The registrations, the settings, the pending requests and the puts that raise are the same, and so
-- are the ids that have an inbox.
pub record Kept {C : Type 0} (w v : World C) : Type 0 where
  pub agents : v.agents ≡ w.agents
  pub inbox_keys : (a : String) → Dict.has a v.inboxes ≡ Dict.has a w.inboxes
  pub registry : v.registry ≡ w.registry
  pub security_manager : v.security_manager ≡ w.security_manager
  pub router : v.router ≡ w.router
  pub pending_messages : v.pending_messages ≡ w.pending_messages
  pub futures : v.futures ≡ w.futures
  pub next_future : v.next_future ≡ w.next_future
  pub put_error : v.put_error ≡ w.put_error

module _ {C : Type 0} where
  pub Kept-refl : (w : World C) → Kept w w
  Kept-refl w = record {
    agents = refl;
    inbox_keys = λ a. refl;
    registry = refl;
    security_manager = refl;
    router = refl;
    pending_messages = refl;
    futures = refl;
    next_future = refl;
    put_error = refl;
  }

  pub Kept-trans : {u v w : World C} → Kept u v → Kept v w → Kept u w
  Kept-trans h k = record {
    agents = k.agents ∙ h.agents;
    inbox_keys = λ a. k.inbox_keys a ∙ h.inbox_keys a;
    registry = k.registry ∙ h.registry;
    security_manager = k.security_manager ∙ h.security_manager;
    router = k.router ∙ h.router;
    pending_messages = k.pending_messages ∙ h.pending_messages;
    futures = k.futures ∙ h.futures;
    next_future = k.next_future ∙ h.next_future;
    put_error = k.put_error ∙ h.put_error;
  }

  -- Only objects, the store, the cluster, the numbers and the inbox of an agent that has one change.
  pub same-Kept :
      (w : World C) (h : Heap) (s : Option Store) (c : Option C) (m : Metrics) (n k : ℕ)
      → Kept w (record w {
        heap = h;
        store = s;
        cluster_manager = c;
        metrics = m;
        counter = n;
        readings = k;
      })
  same-Kept w h s c m n k = record {
    agents = refl;
    inbox_keys = λ a. refl;
    registry = refl;
    security_manager = refl;
    router = refl;
    pending_messages = refl;
    futures = refl;
    next_future = refl;
    put_error = refl;
  }

  pub put-Kept :
      (w : World C) (a : String) (q q' : Inbox)
      → Dict.get a w.inboxes ≡ some q
      → Kept w (record w { inboxes = Dict.put a q' w.inboxes })
  put-Kept w a q q' e = record {
    agents = refl;
    inbox_keys = λ b. ground (arith, get-put b a q' w.inboxes, eq_iff a b);
    registry = refl;
    security_manager = refl;
    router = refl;
    pending_messages = refl;
    futures = refl;
    next_future = refl;
    put_error = refl;
  }

  pub numbered-Kept : (w : World C) → Kept w (numbered w)
  numbered-Kept w = same-Kept w _ _ _ _ _ _
