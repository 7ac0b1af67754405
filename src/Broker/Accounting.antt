-- ===== src/Broker/Accounting.antt =====
-- The metrics count each send once.
use agents_protocol.Prelude.{
  ℕ, ◌+◌, String, ◌≡◌, ◌⊎◌, inl, inr, Bool, true, false, Option, none, some, List, arith,
  Bool-cases, Option-cases,
}
use agents_protocol.Dict
use agents_protocol.Protocol.{MessageStatus, sent, delivered, failed}
use agents_protocol.Objects.{Ref, Heap, set_status}
use agents_protocol.Persistence.{Store, update_message_status}
use agents_protocol.Inbox.{Inbox}
use agents_protocol.Extensions.{ValidationRule, validate_message}
use agents_protocol.Router.{route}
use agents_protocol.Security.{Verdict, status, type_error, success}
use agents_protocol.Broker.World.{
  World, Metrics, Outcome, done, raised, blocked, bind, fields, mark, save, dead_letter, updated,
}
use agents_protocol.Broker.Delivery.{put_done, put_failed, deliver_locally, numbered}
use agents_protocol.Broker.Sending.{
  ClusterLink, unregistered, forwarded, hand_over, send_peer, send_local, send_remote,
  send_elsewhere, dispatch, accept, checked, validated, do_send, verdict, is_direct, refuse,
  return_status,
}
use agents_protocol.Broker.Steps.{
  Delivered, absent, faulty, full, placed, deliver_locally-Delivered,
}

-- Messages that reached an inbox or a peer, and those that did not.
abbrev pub successes : Metrics → ℕ
successes m = m.delivered + m.forwarded

abbrev pub failures : Metrics → ℕ
failures m = m.failed + m.security_denied + m.validation_failed

-- A send that returns has counted one success and returned `delivered`, or one failure and returned
-- `failed`.
abbrev pub Counted : {C : Type 0} → World C → Outcome C MessageStatus → Type 0
Counted w (done s v) =
    ((s ≡ delivered)
      × (successes v.metrics ≡ successes w.metrics + 1)
      × (failures v.metrics ≡ failures w.metrics))
    ⊎ ((s ≡ failed)
        × (successes v.metrics ≡ successes w.metrics)
        × (failures v.metrics ≡ failures w.metrics + 1))
Counted w (raised e v) = Unit
Counted w (blocked v) = Unit

status-set : (r : Ref) (s : MessageStatus) (h : Heap) → ((set_status r s h).cell r).status ≡ s
unfolding set_status
status-set r s h = ground arith

status-updated :
    (o : Option Store) (id : String) (r : Ref) (s : MessageStatus) (h : Heap)
    → (h.cell r).status ≡ s
    → ((updated o id s h).cell r).status ≡ s
unfolding updated update_message_status
status-updated none id r s h e = e
status-updated (some t) id r s h e = elim (Option-cases (Dict.get id t.messages)) [
  | inl n ↦ rw (n, update_message_status) e
  | inr (q, n) ↦ rw (n, update_message_status) (unfold set_status in ground arith)
]

module _ {C : Type 0} where
  put_done-Counted :
      (a : String) (r : Ref) (q : Inbox) (w : World C)
      → Counted w (bind (put_done a r q w) (λ b. return_status r))
  unfolding put_done
  put_done-Counted a r q w = inl (
    status-updated w.store _ r delivered _ (status-set r delivered w.heap),
    omega arith,
    omega arith,
  )

  put_failed-Counted :
      (reason : String) (r : Ref) (w : World C)
      → Counted w (bind (put_failed reason r w) (λ b. return_status r))
  unfolding put_failed
  put_failed-Counted reason r w =
      inr
        (status-updated w.store _ r failed _ (status-set r failed w.heap), omega arith, omega arith)

  Delivered-Counted :
      {a : String} {r : Ref} {w : World C} {o : Outcome C Bool}
      → Delivered a r w o
      → Dict.has a w.inboxes ≡ true
      → Counted w (bind o (λ b. return_status r))
  Delivered-Counted (absent e) h = absurd (ground arith)
  Delivered-Counted {r = r} {w = w} (faulty q reason e f) h =
      put_failed-Counted reason r (numbered w)
  Delivered-Counted (full q e f g) h = tt
  Delivered-Counted {a = a} {r = r} {w = w} (placed q q' e f g) h =
      put_done-Counted a r q' (numbered w)

  unregistered-Counted : (rid : String) (r : Ref) (w : World C) → Counted w (unregistered rid r w)
  unfolding unregistered mark dead_letter
  unregistered-Counted rid r w = inr (status-set r failed w.heap, omega arith, omega arith)

  forwarded-Counted : (b : Bool) (r : Ref) (w : World C) → Counted w (forwarded b r w)
  unfolding forwarded mark
  forwarded-Counted true r w = inl (status-set r delivered w.heap, omega arith, omega arith)
  forwarded-Counted false r w = inr (status-set r failed w.heap, omega arith, omega arith)

  hand_over-Counted :
      (o : Option (Bool × C)) (rid : String) (r : Ref) (w : World C)
      → Counted w (hand_over o rid r w)
  unfolding hand_over
  hand_over-Counted none rid r w = unregistered-Counted rid r w
  hand_over-Counted (some (b, c)) rid r w =
      forwarded-Counted b r (record w { cluster_manager = some c })

module _ {C : Type 0} (link : ClusterLink C) where
  send_peer-Counted :
      (o : Option C) (rid : String) (r : Ref) (w : World C) → Counted w (send_peer link o rid r w)
  unfolding send_peer
  send_peer-Counted none rid r w = unregistered-Counted rid r w
  send_peer-Counted (some c) rid r w = hand_over-Counted (link.forward rid (fields r w) c) rid r w

  -- The agents of the broker are those that have an inbox, as far as one id goes.
  send_elsewhere-Counted :
      (rid : String) (r : Ref) (w : World C)
      → Dict.get rid w.inboxes ≡ none
      → Counted w (send_elsewhere link rid r w)
  unfolding send_elsewhere
  send_elsewhere-Counted rid r w e =
      let k : deliver_locally rid r w ≡ done false w = unfold deliver_locally in ground arith in
      rw k (unfold send_remote in send_peer-Counted w.cluster_manager rid r w)

  -- A recipient for which the broker makes no copies: an agent of its own, or one for which the
  -- router finds nobody else.
  abbrev pub IsDirect : String → Ref → World C → Type 0
  IsDirect rid r w =
      (Dict.has rid w.agents ≡ true)
      ⊎ (is_direct rid (route w.router (fields r w) (Dict.keys w.agents)) ≡ true)

  dispatch-Counted :
      (rid : String) (r : Ref) (w : World C)
      → Dict.has rid w.inboxes ≡ Dict.has rid w.agents
      → IsDirect rid r w
      → Counted w (dispatch link (some rid) r w)
  unfolding dispatch
  dispatch-Counted rid r w same direct = elim (Bool-cases (Dict.has rid w.agents)) [
    | inl here ↦
        rw here (
          unfold send_local in Delivered-Counted (deliver_locally-Delivered rid r w) (ground arith))
    | inr away ↦
        let d : is_direct rid (route w.router (fields r w) (Dict.keys w.agents)) ≡ true =
          ground arith in
        rw (away, d) (send_elsewhere-Counted rid r w (ground arith))
  ]

  checked-Counted :
      (c : Verdict) (rid : String) (r : Ref) (w : World C)
      → (fields r w).recipient_id ≡ some rid
      → Dict.has rid w.inboxes ≡ Dict.has rid w.agents
      → IsDirect rid r w
      → Counted w (checked link c r w)
  unfolding checked
  checked-Counted type_error rid r w e same direct = tt
  checked-Counted (status success) rid r w e same direct =
      unfold accept save in rw e (dispatch-Counted rid r (save r w) same direct)
  checked-Counted (status _) rid r w e same direct =
      unfold refuse save dead_letter mark in
      inr (status-set r failed w.heap, omega arith, omega arith)

  validated-Counted :
      (o : Option String) (rid : String) (r : Ref) (w : World C)
      → (fields r w).recipient_id ≡ some rid
      → Dict.has rid w.inboxes ≡ Dict.has rid w.agents
      → IsDirect rid r w
      → Counted w (validated link o r w)
  unfolding validated
  validated-Counted none rid r w e same direct =
      checked-Counted (verdict w.security_manager (fields r w)) rid r w e same direct
  validated-Counted (some error) rid r w e same direct =
      unfold refuse save dead_letter mark in
      inr (status-set r failed w.heap, omega arith, omega arith)

  -- Let a message have a recipient that is an agent of the broker, or for which the router finds
  -- nobody else, and let the recipient have an inbox exactly if it is an agent. If `_do_send` returns,
  -- then either it returns `delivered`, `delivered` and `forwarded` have grown by one in all, and the
  -- three counts of failures are in all as before; or it returns `failed`, `delivered` and `forwarded`
  -- are in all as before, and the three counts of failures have grown by one in all.
  pub do_send-Counted :
      (rules : List ValidationRule) (rid : String) (r : Ref) (w : World C)
      → (fields r w).recipient_id ≡ some rid
      → Dict.has rid w.inboxes ≡ Dict.has rid w.agents
      → IsDirect rid r (mark r sent w)
      → Counted w (do_send link rules r w)
  unfolding do_send mark
  do_send-Counted rules rid r w e same direct =
      validated-Counted (validate_message rules (fields r (mark r sent w))) rid r (mark r sent w)
        (unfold set_status in ground arith) same direct
