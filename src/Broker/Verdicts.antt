-- ===== src/Broker/Verdicts.antt =====
-- Which messages to an agent of the broker are delivered, by what the security manager says of them.
use agents_protocol.Prelude.{
  String, ◌≡◌, ◌≢◌, ◌↔◌, ◌<◌, refl, ap, sym, ◌∙◌, none, some, List, length,
}
use agents_protocol.Dict
use agents_protocol.Protocol.{AgentMessage, sent, delivered, failed}
use agents_protocol.Objects.{Ref}
use agents_protocol.Extensions.{ValidationRule, validate_message}
use agents_protocol.Registry.{Agent}
use agents_protocol.Inbox.{Inbox, maxsize}
use agents_protocol.Security.{
  AuthStatus, success, unauthorized, expired, invalid_signature, Verdict, status, type_error,
}
use agents_protocol.Broker.World.{World, raised, after, fields, mark}
use agents_protocol.Broker.Sending.{ClusterLink, verdict, checked, validated, do_send}
use agents_protocol.Broker.Refusals.{as_sent, fields-mark, do_send-denied}
use agents_protocol.Broker.Direct.{do_send-Placed}

failed-delivered : failed ≢ delivered
failed-delivered e = cc e

module _ {C : Type 0} (link : ClusterLink C) (rules : List ValidationRule) (r : Ref) where
  do_send-type_error :
      (w : World C)
      → validate_message rules (as_sent (fields r w)) ≡ none
      → verdict w.security_manager (as_sent (fields r w)) ≡ type_error
      → (fields r (after (do_send link rules r w))).status ≡ sent
  do_send-type_error w valid e =
      let sm : (mark r sent w).security_manager ≡ w.security_manager = unfold mark in refl in
      let c : do_send link rules r w ≡ raised "TypeError" (mark r sent w) =
        unfold do_send in
        rw (fields-mark, valid)
          (unfold validated in rw (fields-mark, sm, e) (unfold checked in refl)) in
      rw (c, fields-mark) refl

  do_send-unaccepted :
      (w : World C) (s : AuthStatus)
      → validate_message rules (as_sent (fields r w)) ≡ none
      → verdict w.security_manager (as_sent (fields r w)) ≡ status s
      → s ≢ success
      → (fields r (after (do_send link rules r w))).status ≢ delivered
  do_send-unaccepted w s valid e n d =
      let m = (do_send-denied link rules r w s valid e n).message in
      failed-delivered (sym (ap (λ (m : AgentMessage). m.status) m) ∙ d)

  delivered-verdict :
      (w : World C) (v : Verdict)
      → validate_message rules (as_sent (fields r w)) ≡ none
      → verdict w.security_manager (as_sent (fields r w)) ≡ v
      → (fields r (after (do_send link rules r w))).status ≡ delivered
      → v ≡ status success
  delivered-verdict w type_error valid e d =
      absurd (let s = sym (do_send-type_error w valid e) ∙ d in cc s)
  delivered-verdict w (status success) valid e d = refl
  delivered-verdict w (status unauthorized) valid e d =
      absurd (do_send-unaccepted w unauthorized valid e (λ x. cc x) d)
  delivered-verdict w (status expired) valid e d =
      absurd (do_send-unaccepted w expired valid e (λ x. cc x) d)
  delivered-verdict w (status invalid_signature) valid e d =
      absurd (do_send-unaccepted w invalid_signature valid e (λ x. cc x) d)

  -- A message that passes the rules, for an agent of the broker whose inbox has room and whose put does
  -- not raise, is marked delivered exactly if the security manager accepts it.
  pub do_send-delivered_iff :
      (w : World C) (rid : String) (a : Agent) (q : Inbox)
      → validate_message rules (as_sent (fields r w)) ≡ none
      → (fields r w).recipient_id ≡ some rid
      → Dict.get rid w.agents ≡ some a
      → Dict.get rid w.inboxes ≡ some q
      → length q < maxsize
      → w.put_error w.counter ≡ none
      → ((fields r (after (do_send link rules r w))).status ≡ delivered)
        ↔ (verdict w.security_manager (as_sent (fields r w)) ≡ status success)
  do_send-delivered_iff w rid a q valid to known inbox room calm = (
    λ d. delivered-verdict w (verdict w.security_manager (as_sent (fields r w))) valid refl d,
    λ e.
        ap (λ (m : AgentMessage). m.status)
          (do_send-Placed link rules r w rid a q valid e to known inbox room calm).message,
  )
