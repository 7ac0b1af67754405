-- ===== src/Agent/Requests.antt =====
-- What becomes of a `request` of the broker while agents work.
use agents_protocol.Prelude.{ℕ, ◌≤◌, ◌<◌, String, ◌≡◌, refl, ap, ◌∙◌, none, List, arith}
use agents_protocol.Objects.{Ref}
use agents_protocol.Extensions.{ValidationRule}
use agents_protocol.Broker.World.{World, after, register_agent, unregister_agent}
use agents_protocol.Broker.Registration.{take-Kept}
use agents_protocol.Registry
use agents_protocol.Broker.Delivery.{get_next_message_for_agent}
use agents_protocol.Broker.Sending.{ClusterLink, do_send}
use agents_protocol.Broker.Isolation.{do_send-Kept}
use agents_protocol.Broker.Requests.{NewRequest, open_request, close_request}
use agents_protocol.Agent.{LiveAgent}
use agents_protocol.Agent.Connecting.{enrol}
use agents_protocol.Agent.Replies.{IsPlain, process}
use agents_protocol.Agent.Results.{results, IsTidy, Kept-results, process-results}

-- What may happen between the send of a request and its end: messages are sent, agents take them from
-- their inboxes and process them, agents come and go, and other requests begin and end.
pub data Work {C : Type 0} (link : ClusterLink C) (rules : List ValidationRule)
    (uuid : World C → String) (error_type : String → String) : World C → World C → Type 0 where
  rests : (w : World C) → Work link rules uuid error_type w w
  sends :
      (r : Ref) (w v : World C)
      → Work link rules uuid error_type (after (do_send link rules r w)) v
      → Work link rules uuid error_type w v
  takes :
      (i : String) (w v : World C)
      → Work link rules uuid error_type (get_next_message_for_agent i w).1 v
      → Work link rules uuid error_type w v
  processes :
      (a : LiveAgent C) (r : Ref) (w v : World C)
      → IsPlain a
      → IsTidy a
      → Work link rules uuid error_type (after (process link rules uuid error_type a r w)) v
      → Work link rules uuid error_type w v
  connects :
      (i : Registry.Agent) (w v : World C)
      → Work link rules uuid error_type (enrol i w) v
      → Work link rules uuid error_type w v
  leaves :
      (i : String) (w v : World C)
      → Work link rules uuid error_type (after (unregister_agent i w)) v
      → Work link rules uuid error_type w v
  opens :
      (q : NewRequest) (w v : World C)
      → Work link rules uuid error_type (open_request q w).1 v
      → Work link rules uuid error_type w v
  closes :
      (c : String) (f : ℕ) (w v : World C)
      → Work link rules uuid error_type (close_request c f w).1 v
      → Work link rules uuid error_type w v

module _ {C : Type 0} (link : ClusterLink C) (rules : List ValidationRule) (uuid : World C → String)
    (error_type : String → String) where
  enrol-results : (i : Registry.Agent) (w : World C) → results (enrol i w) ≡ results w
  unfolding enrol register_agent
  enrol-results i w = ground arith

  unregister_agent-results :
      (i : String) (w : World C) → results (after (unregister_agent i w)) ≡ results w
  unfolding unregister_agent
  unregister_agent-results i w = ground arith

  -- The results of the requests that were opened before are as they were.
  abbrev Unanswered : World C → World C → Type 0
  Unanswered w v =
      (w.next_future ≤ v.next_future) × ((f : ℕ) → f < w.next_future → v.futures f ≡ w.futures f)

  Unanswered-results : (w u v : World C) → results u ≡ results w → Unanswered u v → Unanswered w v
  Unanswered-results w u v e (n, k) =
      let n' : u.next_future ≡ w.next_future = ap (λ x. x.1) e in
      let k' : u.futures ≡ w.futures = ap (λ x. x.0) e in
      (omega arith, λ f h. k f (omega arith) ∙ ap (λ g. g f) k')

  Unanswered-open_request :
      (q : NewRequest) (w v : World C) → Unanswered (open_request q w).1 v → Unanswered w v
  unfolding open_request
  Unanswered-open_request q w v (n, k) = (omega arith, λ f h. k f (omega arith) ∙ (ground arith))

  close_request-results :
      (c : String) (f : ℕ) (w : World C) → results (close_request c f w).1 ≡ results w
  unfolding close_request
  close_request-results c f w = refl

  Work-Unanswered : {w v : World C} → Work link rules uuid error_type w v → Unanswered w v
  Work-Unanswered (rests w) = (omega arith, λ f h. refl)
  Work-Unanswered (sends r w v x) =
      Unanswered-results w (after (do_send link rules r w)) v
        (Kept-results (do_send-Kept link rules r w)) (Work-Unanswered x)
  Work-Unanswered (takes i w v x) =
      Unanswered-results w (get_next_message_for_agent i w).1 v (Kept-results (take-Kept i w))
        (Work-Unanswered x)
  Work-Unanswered (processes a r w v p t x) =
      Unanswered-results w (after (process link rules uuid error_type a r w)) v
        (process-results link rules uuid error_type a r w p t) (Work-Unanswered x)
  Work-Unanswered (connects i w v x) =
      Unanswered-results w (enrol i w) v (enrol-results i w) (Work-Unanswered x)
  Work-Unanswered (leaves i w v x) =
      Unanswered-results w (after (unregister_agent i w)) v (unregister_agent-results i w)
        (Work-Unanswered x)
  Work-Unanswered (opens q w v x) = Unanswered-open_request q w v (Work-Unanswered x)
  Work-Unanswered (closes c f w v x) =
      Unanswered-results w (close_request c f w).1 v (close_request-results c f w)
        (Work-Unanswered x)

  -- Let the broker have no middleware, and the agents no hooks around the processing and handlers that
  -- set no result themselves. Then a request that is opened ends without a response, whatever is sent,
  -- taken, processed and answered meanwhile, whoever comes and goes, and whichever other requests begin
  -- and end.
  pub request-process_message :
      (q : NewRequest) (w u : World C)
      → Work link rules uuid error_type (open_request q w).1 u
      → (close_request q.correlation_id w.next_future u).0 ≡ none
  unfolding close_request
  request-process_message q w u x =
      (Work-Unanswered x).1 w.next_future (unfold open_request in omega arith)
      ∙ (unfold open_request in ground arith)
