-- ===== src/Broker/Unknown.antt =====
-- A message for an agent that nobody knows.
use Prim.Native.String.{◌++◌ as text_append}
use agents_protocol.Prelude.{
  ℕ, ◌+◌, String, ◌≡◌, refl, ap, ◌∙◌, Bool, true, false, Option, none, some, List, arith, eq_refl,
}
use mathlib.Core.Option
use agents_protocol.Dict
use agents_protocol.Dict.Laws.{get-put}
use agents_protocol.Protocol.{AgentMessage, MessageStatus, sent, failed}
use agents_protocol.Objects.{Ref}
use agents_protocol.Persistence
use agents_protocol.Persistence.{save_message, add_to_dlq}
use agents_protocol.Extensions.{ValidationRule, validate_message}
use agents_protocol.Router.{route}
use agents_protocol.Security.{status, success}
use agents_protocol.Broker.World.{World, done, after, fields, mark, save, dead_letter, now}
use agents_protocol.Broker.Delivery.{deliver_locally}
use agents_protocol.Broker.Sending.{
  ClusterLink, verdict, is_direct, unregistered, hand_over, send_peer, send_remote, send_elsewhere,
  dispatch, do_send,
}
use agents_protocol.Broker.Refusals.{Refused, as_sent, fields-mark, fields-mark_twice}
use agents_protocol.Broker.Direct.{do_send-dispatch}
use agents_protocol.Broker.Handover.{dispatch-elsewhere}

-- `f"Agent {msg.recipient_id} not registered."`
abbrev pub not_registered : String → String
not_registered rid = text_append "Agent " (text_append rid " not registered.")

-- What the cluster makes of a message: nothing without a cluster, or where it knows no peer.
abbrev pub handed :
    {C : Type 0} → ClusterLink C → String → AgentMessage → Option C → Option (Bool × C)
handed link rid m none = none
handed link rid m (some c) = link.forward rid m c

saved_then_dead :
    (r : Ref) (m : AgentMessage) (s t : MessageStatus) (reason : String) (at : ℕ)
    (store : Persistence.Store)
    → let d =
        add_to_dlq r
          (record m { status = t })
          reason
          at
          (save_message r (record m { status = s }) store) in
      (Dict.get m.id d.messages ≡ some r)
      × (Dict.get m.id d.dlq ≡ some (record { message = r; reason = reason; failed_at = at }))
unfolding add_to_dlq save_message
saved_then_dead r m s t reason at store = (rw (get-put, eq_refl), rw (get-put, eq_refl))

module _ {C : Type 0} (link : ClusterLink C) where
  unregistered-Refused :
      (rid : String) (r : Ref) (w : World C)
      → Refused r
          (not_registered rid)
          (record (w.metrics) { failed = w.metrics.failed + 1 })
          w
          (unregistered rid r (save r (mark r sent w)))
  unfolding unregistered save mark dead_letter
  unregistered-Refused rid r w =
      let v = after (unregistered rid r (save r (mark r sent w))) in
      record {
        returns =
            (v, ap (λ (m : AgentMessage). done m.status v) (fields-mark_twice r sent failed w));
        inboxes = refl;
        message = fields-mark_twice r sent failed w;
        metrics = refl;
        dead_lettered = λ s h.
            let d = saved_then_dead r (fields r w) sent failed (not_registered rid) (now w) s in
            (
              add_to_dlq r (record (fields r w) { status = failed }) (not_registered rid) (now w)
                  (save_message r (as_sent (fields r w)) s),
              ap
                    (λ m.
                      Option.map (add_to_dlq r m (not_registered rid) (now w))
                        (Option.map (save_message r (fields r (mark r sent w))) w.store))
                    (fields-mark_twice r sent failed w)
                  ∙ (ap
                        (λ m.
                          Option.map
                            (add_to_dlq r (record (fields r w) { status = failed })
                              (not_registered rid) (now w))
                            (Option.map (save_message r m) w.store))
                        (fields-mark r sent w)
                      ∙ (rw h refl)),
              d.0,
              d.1,
            );
      }

  send_peer-unregistered :
      (o : Option C) (rid : String) (r : Ref) (v : World C)
      → handed link rid (fields r v) o ≡ none
      → send_peer link o rid r v ≡ unregistered rid r v
  unfolding send_peer hand_over
  send_peer-unregistered none rid r v e = refl
  send_peer-unregistered (some c) rid r v e = rw e refl

  send_elsewhere-unregistered :
      (rid : String) (r : Ref) (v : World C)
      → Dict.get rid v.inboxes ≡ none
      → handed link rid (fields r v) v.cluster_manager ≡ none
      → send_elsewhere link rid r v ≡ unregistered rid r v
  unfolding send_elsewhere send_remote
  send_elsewhere-unregistered rid r v inbox e =
      let k : deliver_locally rid r v ≡ done false v = unfold deliver_locally in ground arith in
      rw k (send_peer-unregistered v.cluster_manager rid r v e)

  -- Let a message pass the rules and the security check, for a recipient that is no agent of the broker,
  -- has no inbox, and for which the router finds nobody else, and let there be no cluster, or none
  -- that knows a peer for it. Then the send returns `failed`, the message is marked and counted so, no
  -- inbox changes, and a store has saved the message and has it in its dead letters, with the reason
  -- that the agent is not registered.
  pub do_send-unregistered :
      (rules : List ValidationRule) (rid : String) (r : Ref) (w : World C)
      → validate_message rules (as_sent (fields r w)) ≡ none
      → verdict w.security_manager (as_sent (fields r w)) ≡ status success
      → (fields r w).recipient_id ≡ some rid
      → Dict.get rid w.agents ≡ none
      → Dict.get rid w.inboxes ≡ none
      → is_direct rid (route w.router (as_sent (fields r w)) (Dict.keys w.agents)) ≡ true
      → handed link rid (as_sent (fields r w)) w.cluster_manager ≡ none
      → Refused r
          (not_registered rid)
          (record (w.metrics) { failed = w.metrics.failed + 1 })
          w
          (do_send link rules r w)
  do_send-unregistered rules rid r w valid secure to away inbox direct unknown =
      let v = save r (mark r sent w) in
      let same : fields r v ≡ as_sent (fields r w) = unfold save in fields-mark r sent w in
      let direct' : is_direct rid (route v.router (fields r v) (Dict.keys v.agents)) ≡ true =
        ap (λ m. is_direct rid (route v.router m (Dict.keys v.agents))) same
        ∙ (unfold save mark in direct) in
      let unknown' : handed link rid (fields r v) v.cluster_manager ≡ none =
        ap (λ m. handed link rid m v.cluster_manager) same ∙ (unfold save mark in unknown) in
      let k =
        do_send-dispatch link rules r w valid secure
        ∙ (ap (λ o. dispatch link o r v) to
            ∙ (dispatch-elsewhere link rid r v (unfold save mark in away) direct'
                ∙ send_elsewhere-unregistered rid r v (unfold save mark in inbox) unknown')) in
      rw k (unregistered-Refused rid r w)
