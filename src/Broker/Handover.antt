-- ===== src/Broker/Handover.antt =====
-- A message that is handed over to the cluster.
use agents_protocol.Prelude.{
  ◌+◌, String, ◌≡◌, refl, ap, ◌∙◌, Bool, true, false, List, none, some, arith,
}
use mathlib.Core.Option
use agents_protocol.Dict
use agents_protocol.Protocol.{AgentMessage, MessageStatus, sent, delivered, failed}
use agents_protocol.Objects.{Ref}
use agents_protocol.Persistence.{save_message}
use agents_protocol.Extensions.{ValidationRule, validate_message}
use agents_protocol.Router.{route}
use agents_protocol.Security.{status, success}
use agents_protocol.Broker.World.{World, Outcome, Metrics, done, after, fields, mark, save}
use agents_protocol.Broker.Delivery.{deliver_locally}
use agents_protocol.Broker.Sending.{
  ClusterLink, verdict, is_direct, forwarded, hand_over, send_peer, send_remote, send_elsewhere,
  dispatch, do_send,
}
use agents_protocol.Broker.Refusals.{as_sent, fields-mark, fields-mark_twice}
use agents_protocol.Broker.Direct.{do_send-dispatch}

-- The status by what came of the forward.
abbrev pub status_of : Bool → MessageStatus
status_of true = delivered
status_of false = failed

abbrev pub counted_by : Bool → Metrics → Metrics
counted_by true m = record m { forwarded = m.forwarded + 1 }
counted_by false m = record m { failed = m.failed + 1 }

-- How a send ends whose message was handed over, `c` being the cluster after that.
pub record HandedOver {C : Type 0} (sent_on : Bool) (c : C) (r : Ref) (w : World C)
    (o : Outcome C MessageStatus) : Type 0 where
  pub returns : (v : World C) × (o ≡ done (status_of sent_on) v)
  pub message : fields r (after o) ≡ record (fields r w) { status = status_of sent_on }
  pub cluster : (after o).cluster_manager ≡ some c
  pub metrics : (after o).metrics ≡ counted_by sent_on w.metrics
  pub inboxes : (after o).inboxes ≡ w.inboxes
  pub store : (after o).store ≡ Option.map (save_message r (as_sent (fields r w))) w.store

module _ {C : Type 0} where
  forwarded-HandedOver :
      (sent_on : Bool) (c : C) (r : Ref) (w : World C)
      → HandedOver sent_on c r w
          (forwarded sent_on r (record (save r (mark r sent w)) { cluster_manager = some c }))
  unfolding forwarded save mark
  forwarded-HandedOver true c r w =
      let v =
        after (forwarded true r (record (save r (mark r sent w)) { cluster_manager = some c })) in
      record {
        returns =
            (v, ap (λ (m : AgentMessage). done m.status v) (fields-mark_twice r sent delivered w));
        message = fields-mark_twice r sent delivered w;
        cluster = refl;
        metrics = refl;
        inboxes = refl;
        store = ap (λ m. Option.map (save_message r m) w.store) (fields-mark r sent w);
      }
  forwarded-HandedOver false c r w =
      let v =
        after (forwarded false r (record (save r (mark r sent w)) { cluster_manager = some c })) in
      record {
        returns =
            (v, ap (λ (m : AgentMessage). done m.status v) (fields-mark_twice r sent failed w));
        message = fields-mark_twice r sent failed w;
        cluster = refl;
        metrics = refl;
        inboxes = refl;
        store = ap (λ m. Option.map (save_message r m) w.store) (fields-mark r sent w);
      }

module _ {C : Type 0} (link : ClusterLink C) where
  send_elsewhere-forwarded :
      (rid : String) (r : Ref) (v : World C) (c c' : C) (sent_on : Bool)
      → Dict.get rid v.inboxes ≡ none
      → v.cluster_manager ≡ some c
      → link.forward rid (fields r v) c ≡ some (sent_on, c')
      → send_elsewhere link rid r v ≡ forwarded sent_on r (record v { cluster_manager = some c' })
  unfolding send_elsewhere send_remote send_peer hand_over
  send_elsewhere-forwarded rid r v c c' sent_on inbox cluster answer =
      let k : deliver_locally rid r v ≡ done false v = unfold deliver_locally in ground arith in
      rw (k, cluster, answer)

  pub dispatch-elsewhere :
      (rid : String) (r : Ref) (v : World C)
      → Dict.get rid v.agents ≡ none
      → is_direct rid (route v.router (fields r v) (Dict.keys v.agents)) ≡ true
      → dispatch link (some rid) r v ≡ send_elsewhere link rid r v
  unfolding dispatch
  dispatch-elsewhere rid r v away direct = rw (away, direct)

  -- Let a message pass the rules and the security check, for a recipient that is no agent of the broker,
  -- has no inbox, and for which the router finds nobody else, and let the cluster know a peer for it.
  -- Then the send returns `delivered` if the peer took the message, and else `failed`; the message has
  -- that status, it is counted as forwarded or failed, the cluster is as the forward left it, and no
  -- inbox changes. A store has saved the message and nothing more: a failed forward is no dead letter.
  pub do_send-HandedOver :
      (rules : List ValidationRule) (rid : String) (r : Ref) (w : World C) (c c' : C)
      (sent_on : Bool)
      → validate_message rules (as_sent (fields r w)) ≡ none
      → verdict w.security_manager (as_sent (fields r w)) ≡ status success
      → (fields r w).recipient_id ≡ some rid
      → Dict.get rid w.agents ≡ none
      → Dict.get rid w.inboxes ≡ none
      → is_direct rid (route w.router (as_sent (fields r w)) (Dict.keys w.agents)) ≡ true
      → w.cluster_manager ≡ some c
      → link.forward rid (as_sent (fields r w)) c ≡ some (sent_on, c')
      → HandedOver sent_on c' r w (do_send link rules r w)
  do_send-HandedOver rules rid r w c c' sent_on valid secure to away inbox direct cluster answer =
      let v = save r (mark r sent w) in
      let same : fields r v ≡ as_sent (fields r w) = unfold save in fields-mark r sent w in
      let direct' : is_direct rid (route v.router (fields r v) (Dict.keys v.agents)) ≡ true =
        ap (λ m. is_direct rid (route v.router m (Dict.keys v.agents))) same
        ∙ (unfold save mark in direct) in
      let answer' = ap (λ m. link.forward rid m c) same ∙ answer in
      let k =
        do_send-dispatch link rules r w valid secure
        ∙ (ap (λ o. dispatch link o r v) to
            ∙ (dispatch-elsewhere rid r v (unfold save mark in away) direct'
                ∙ send_elsewhere-forwarded rid r v c c' sent_on (unfold save mark in inbox)
                    (unfold save mark in cluster) answer')) in
      rw k (forwarded-HandedOver sent_on c' r w)
