-- ===== src/Broker/Handouts.antt =====
-- What a broker hands out to its agents over a run in which a put that waits on a full inbox stays
-- waiting.
use agents_protocol.Prelude.{
  ℕ, ◌+◌, ◌≤◌, String, ◌≡◌, refl, true, some, List, [], ◌∷◌, ◌++◌, length,
}
use agents_protocol.Dict
use agents_protocol.Objects.{Ref, Heap}
use agents_protocol.Extensions.{ValidationRule}
use agents_protocol.Registry.{Agent}
use agents_protocol.Sorting.{All, IsSorted}
use agents_protocol.Inbox.{Inbox, Entry, before, maxsize}
use agents_protocol.Inbox.Numbers.{total}
use agents_protocol.Broker.World.{World, after, register_agent, unregister_agent}
use agents_protocol.Broker.Delivery.{get_next_message_for_agent}
use agents_protocol.Broker.Sending.{ClusterLink, do_send}
use agents_protocol.Broker.Requests.{NewRequest, open_request, close_request, set_response}
use agents_protocol.Broker.Queues.{times, IsQueued, do_send-IsQueued}
use agents_protocol.Broker.Taking.{
  head_entry, numbers, IsQueued-same, register_agent-IsQueued, unregister_agent-IsQueued,
  get_next_message_for_agent-head, handed-IsQueued, open_request-inboxes, close_request-inboxes,
  set_response-IsQueued,
}

-- A run of a broker from `w`, with the entries that were handed out, the latest first. A put that waits on
-- a full inbox ends its send there: no later step of the run completes it, as asyncio does after a take.
pub data Run {C : Type 0} (link : ClusterLink C) (w : World C) : List Entry → World C → Type 0 where
  begins : Run link w [] w
  registers :
      (a : Agent) {v : World C} {ns : List Entry}
      → Run link w ns v
      → Run link w ns (register_agent a v)
  unregisters :
      (i : String) {v : World C} {ns : List Entry}
      → Run link w ns v
      → Run link w ns (after (unregister_agent i v))
  sends :
      (rules : List ValidationRule) (r : Ref) {v : World C} {ns : List Entry}
      → Run link w ns v
      → Run link w ns (after (do_send link rules r v))
  takes :
      (i : String) {v : World C} {ns : List Entry}
      → Run link w ns v
      → Run link w (head_entry (Dict.get i v.inboxes) ++ ns) (get_next_message_for_agent i v).1
  writes :
      (h : Heap) (k : ℕ) {v : World C} {ns : List Entry}
      → Run link w ns v
      → Run link w ns (record v { heap = h; readings = k })
  opens :
      (q : NewRequest) {v : World C} {ns : List Entry}
      → Run link w ns v
      → Run link w ns (open_request q v).1
  closes :
      (c : String) (f : ℕ) {v : World C} {ns : List Entry}
      → Run link w ns v
      → Run link w ns (close_request c f v).1
  answers :
      (c : String) (r : Ref) {v : World C} {ns : List Entry}
      → Run link w ns v
      → Run link w ns (set_response c r v)

module _ {C : Type 0} where
  pub Run-IsQueued :
      (link : ClusterLink C) {w v : World C} {ns : List Entry}
      → IsQueued [] w
      → Run link w ns v
      → IsQueued (numbers ns) v
  Run-IsQueued link h begins = h
  Run-IsQueued link h (registers a {v} {ns} x) =
      register_agent-IsQueued (numbers ns) a v (Run-IsQueued link h x)
  Run-IsQueued link h (unregisters i {v} {ns} x) =
      unregister_agent-IsQueued (numbers ns) i v (Run-IsQueued link h x)
  Run-IsQueued link h (sends rules r {v} {ns} x) =
      do_send-IsQueued link rules (numbers ns) r v (Run-IsQueued link h x)
  Run-IsQueued link h (takes i {v} {ns} x) = handed-IsQueued ns i v (Run-IsQueued link h x)
  Run-IsQueued link h (writes y k {v} {ns} x) =
      IsQueued-same (numbers ns) v (record v { heap = y; readings = k }) refl refl
        (Run-IsQueued link h x)
  Run-IsQueued link h (opens q {v} {ns} x) =
      let k = Run-IsQueued link h x in
      IsQueued-same (numbers ns) v (open_request q v).1 (open_request-inboxes q v).0
        (open_request-inboxes q v).1 k
  Run-IsQueued link h (closes c f {v} {ns} x) =
      let k = Run-IsQueued link h x in
      IsQueued-same (numbers ns) v (close_request c f v).1 (close_request-inboxes c f v).0
        (close_request-inboxes c f v).1 k
  Run-IsQueued link h (answers c r {v} {ns} x) =
      set_response-IsQueued (numbers ns) c r v (Run-IsQueued link h x)

  -- Let a broker begin with inboxes in order, as a new one does, and let whatever happen to it:
  -- agents register and unregister, messages are sent, taken and written to, and requests begin, are
  -- answered and end, in any order, where a put that waits on a full inbox stays waiting. Then no entry
  -- was handed out twice, and none that was handed out is in an inbox; no number stands twice in the inboxes; and each inbox is in the order of its entries
  -- and has at most `maxsize` of them.
  pub Run-once :
      (link : ClusterLink C) {w v : World C} {ns : List Entry}
      → IsQueued [] w
      → Run link w ns v
      → ((n : ℕ) → total n v.inboxes + times n (numbers ns) ≤ 1)
        × ((a : String) (q : Inbox)
            → Dict.get a v.inboxes ≡ some q
            → IsSorted before q × (length q ≤ maxsize))
  Run-once link h x =
      let k = Run-IsQueued link h x in (k.once, λ a q e. (k.sorted a q e, k.bounded a q e))

  -- In every state of such a run, what an agent gets next from an inbox that is not empty is before all
  -- that stays there: of a higher priority, or of the same and at an earlier or the same time.
  pub get_next_message_for_agent-first :
      (link : ClusterLink C) {w v : World C} {ns : List Entry} (i : String) (e : Entry) (q : Inbox)
      → IsQueued [] w
      → Run link w ns v
      → Dict.get i v.inboxes ≡ some (e ∷ q)
      → (get_next_message_for_agent i v
          ≡ (some e.message, record v { inboxes = Dict.put i q v.inboxes }))
        × All (λ x. before e x ≡ true) q
  get_next_message_for_agent-first link {v = v} i e q h x k =
      (get_next_message_for_agent-head i e q v k, ((Run-IsQueued link h x).sorted i (e ∷ q) k).0)
