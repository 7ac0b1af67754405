-- ===== src/Broker/Isolation.antt =====
-- A send and the registrations, the settings and the pending requests of the broker.
use agents_protocol.Prelude.{List}
use agents_protocol.Objects.{Ref}
use agents_protocol.Extensions.{ValidationRule}
use agents_protocol.Broker.World.{World, after}
use agents_protocol.Broker.Delivery.{numbered}
use agents_protocol.Broker.Sending.{ClusterLink, do_send}
use agents_protocol.Broker.Frame.{Kept, Kept-refl, Kept-trans, same-Kept, put-Kept, numbered-Kept}
use agents_protocol.Broker.Steps.{IsStable}
use agents_protocol.Broker.Keeping.{do_send-Keeps}

Kept-IsStable : {C : Type 0} → IsStable {C = C} Kept
Kept-IsStable = record {
  same = Kept-refl;
  next = Kept-trans;
  aside = λ w h s c m k. same-Kept w h s c m w.counter k;
  number = numbered-Kept;
  put = λ a r q q' w e f. Kept-trans (numbered-Kept w) (put-Kept (numbered w) a q q' e);
}

module _ {C : Type 0} (link : ClusterLink C) where
  -- However `_do_send` ends, by a return, a raise or a wait for room: the agents, the ids that have
  -- an inbox, the registry, the security settings, the router, the pending requests and the results
  -- that were set for them are as before. So no send resolves a request.
  pub do_send-Kept :
      (rules : List ValidationRule) (r : Ref) (w : World C)
      → Kept w (after (do_send link rules r w))
  do_send-Kept = do_send-Keeps Kept-IsStable link
