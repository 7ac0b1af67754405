-- ===== src/Broker/Refusals.antt =====
-- Messages that the validation rules or the security manager refuse.
use Prim.Native.String.{◌++◌ as text_append}
use agents_protocol.Prelude.{
  ℕ, ◌+◌, String, ◌≡◌, ◌≢◌, refl, none, some, List, arith, eq_refl, ap, ◌∙◌,
}
use agents_protocol.Dict
use agents_protocol.Dict.Laws.{get-put}
use agents_protocol.Protocol.{AgentMessage, MessageStatus, sent, failed}
use agents_protocol.Objects.{Ref, set_status}
use agents_protocol.Persistence.{Store, save_message, add_to_dlq}
use agents_protocol.Extensions.{ValidationRule, validate_message}
use agents_protocol.Security.{AuthStatus, status, success, unauthorized, expired, invalid_signature}
use agents_protocol.Broker.World.{
  World, Metrics, Outcome, done, after, fields, now, mark, save, dead_letter, count_invalid,
  count_denied,
}
use agents_protocol.Broker.Sending.{
  ClusterLink, return_status, refuse, checked, validated, do_send, verdict, status_text,
}

-- The message as `_do_send` judges it.
abbrev pub as_sent : AgentMessage → AgentMessage
as_sent m = record m { status = sent }

-- What a refusal of the message `r` leaves: no inbox changed, the message failed and, where there is
-- a store, it is in the store and in the dead letter queue with the reason and the time.
pub record Refused {C : Type 0} (r : Ref) (reason : String) (m : Metrics) (w : World C)
    (o : Outcome C MessageStatus) : Type 0 where
  pub returns : (v : World C) × (o ≡ done failed v)
  pub inboxes : (after o).inboxes ≡ w.inboxes
  pub message : fields r (after o) ≡ record (fields r w) { status = failed }
  pub metrics : (after o).metrics ≡ m
  pub dead_lettered :
      (s : Store)
      → w.store ≡ some s
      → (t : Store) × ((after o).store ≡ some t)
        × (Dict.get (fields r w).id t.messages ≡ some r)
        × (Dict.get (fields r w).id t.dlq
            ≡ some (record { message = r; reason = reason; failed_at = now w }))

saved_and_dead :
    (r : Ref) (m : AgentMessage) (reason : String) (at : ℕ) (s : Store)
    → let t = add_to_dlq r m reason at (save_message r m s) in
      (Dict.get m.id t.messages ≡ some r)
      × (Dict.get m.id t.dlq ≡ some (record { message = r; reason = reason; failed_at = at }))
unfolding add_to_dlq save_message
saved_and_dead r m reason at s =
    let u = save_message r m s in (rw (get-put, eq_refl), rw (get-put, eq_refl))

module _ {C : Type 0} where
  pub fields-mark :
      (r : Ref) (s : MessageStatus) (w : World C)
      → fields r (mark r s w) ≡ record (fields r w) { status = s }
  unfolding mark set_status
  fields-mark r s w = ground arith

  pub fields-mark_twice :
      (r : Ref) (s t : MessageStatus) (w : World C)
      → fields r (mark r t (mark r s w)) ≡ record (fields r w) { status = t }
  fields-mark_twice r s t w =
      fields-mark r t (mark r s w)
      ∙ ap (λ (m : AgentMessage). record m { status = t }) (fields-mark r s w)

  -- The refusal of a message that is marked as failed in `v`, which else has what `w` has.
  refuse-Refused :
      (r : Ref) (reason : String) (m : Metrics) (w v : World C)
      → v.metrics ≡ m
      → fields r v ≡ record (fields r w) { status = failed }
      → v.inboxes ≡ w.inboxes
      → v.store ≡ w.store
      → now v ≡ now w
      → Refused r reason m w (return_status r (refuse r reason v))
  unfolding refuse save dead_letter
  refuse-Refused r reason m w v d e f g n = record {
    returns = (
      refuse r reason v,
      ap (λ m. done m (refuse r reason v)) (ap (λ (m : AgentMessage). m.status) e),
    );
    inboxes = f;
    message = e;
    metrics = d;
    dead_lettered = λ s h.
        let f_ : AgentMessage = record (fields r w) { status = failed } in
        let k = saved_and_dead r f_ reason (now w) s in
        (add_to_dlq r f_ reason (now w) (save_message r f_ s), rw (g, h, e, n), k.0, k.1);
  }

refusal :
    {C : Type 0} (link : ClusterLink C) (r : Ref) (w : World C) (s : AuthStatus)
    → s ≢ success
    → checked link (status s) r w
      ≡ return_status r (
          refuse r
            (text_append "Security check failed: " (status_text s))
            (count_denied (mark r failed w)))
unfolding checked
refusal link r w success n = absurd (n refl)
refusal link r w unauthorized n = refl
refusal link r w expired n = refl
refusal link r w invalid_signature n = refl

module _ {C : Type 0} (link : ClusterLink C) (rules : List ValidationRule) (r : Ref)
    (w : World C) where
  -- A message that a validation rule refuses fails with the rule's error, and one refusal is counted.
  pub do_send-invalid :
      (error : String)
      → validate_message rules (as_sent (fields r w)) ≡ some error
      → Refused r
          (text_append "Validation failed: " error)
          (record (w.metrics) { validation_failed = w.metrics.validation_failed + 1 })
          w
          (do_send link rules r w)
  do_send-invalid error e =
      let v = count_invalid (mark r failed (mark r sent w)) in
      let k : do_send link rules r w
          ≡ return_status r (refuse r (text_append "Validation failed: " error) v) =
        unfold do_send in rw (fields-mark, e) (unfold validated in refl) in
      rw k (
        refuse-Refused r (text_append "Validation failed: " error) _ w v (unfold mark in refl)
          (fields-mark_twice r sent failed w) (unfold mark in refl) (unfold mark in refl)
          (unfold mark in refl))

  -- A valid message that the security manager does not accept fails, and one denial is counted.
  pub do_send-denied :
      (s : AuthStatus)
      → validate_message rules (as_sent (fields r w)) ≡ none
      → verdict w.security_manager (as_sent (fields r w)) ≡ status s
      → s ≢ success
      → Refused r
          (text_append "Security check failed: " (status_text s))
          (record (w.metrics) { security_denied = w.metrics.security_denied + 1 })
          w
          (do_send link rules r w)
  do_send-denied s valid e no_success =
      let v = count_denied (mark r failed (mark r sent w)) in
      let reason = text_append "Security check failed: " (status_text s) in
      let sm : (mark r sent w).security_manager ≡ w.security_manager = unfold mark in refl in
      let c : do_send link rules r w ≡ checked link (status s) r (mark r sent w) =
        unfold do_send in rw (fields-mark, valid) (unfold validated in rw (fields-mark, sm, e)) in
      let k : checked link (status s) r (mark r sent w) ≡ return_status r (refuse r reason v) =
        refusal link r (mark r sent w) s no_success in
      rw (c, k)
        (refuse-Refused r reason _ w v (unfold mark in refl) (fields-mark_twice r sent failed w)
          (unfold mark in refl) (unfold mark in refl) (unfold mark in refl))
