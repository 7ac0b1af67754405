-- ===== src/Broker/Replay.antt =====
-- The replay of a message from the dead letter queue.
use agents_protocol.Prelude.{
  ◌<◌, String, ◌≡◌, refl, ap, ◌∙◌, sym, true, none, some, List, [], length, eq_refl,
}
use agents_protocol.Dict
use agents_protocol.Dict.Laws.{get-remove}
use agents_protocol.Protocol.{AgentMessage, pending, delivered}
use agents_protocol.Objects.{Ref}
use agents_protocol.Persistence
use agents_protocol.Persistence.{Store, save_message}
use agents_protocol.Extensions.{ValidationRule, validate_message, process_with_middleware}
use agents_protocol.Inbox.{Inbox, maxsize}
use agents_protocol.Registry.{Agent}
use agents_protocol.Security.{status, success}
use agents_protocol.Broker.World.{World, done, after, bind, fields, mark}
use agents_protocol.Broker.Sending.{ClusterLink, verdict, do_send, send}
use agents_protocol.Broker.Refusals.{as_sent, fields-mark}
use agents_protocol.Broker.Direct.{Placed, do_send-Placed}
use agents_protocol.Broker.Requests.{replay_message, is_delivered}

-- The world in which the replayed message is sent again.
abbrev pub cleaned : {C : Type 0} → String → Store → Ref → World C → World C
cleaned i s r w = record (mark r pending w) { store = some (Persistence.remove_from_dlq i s) }

module _ {C : Type 0} (link : ClusterLink C) (rules : List ValidationRule) where
  replay-resend :
      (i : String) (s : Store) (r : Ref) (w : World C)
      → w.store ≡ some s
      → Dict.get i s.messages ≡ some r
      → replay_message link (record { middleware = []; validation_rules = rules }) i w
        ≡ bind (do_send link rules r (cleaned i s r w)) (λ m v. done (is_delivered m) v)
  unfolding replay_message Persistence.get_message send process_with_middleware
  replay-resend i s r w e g = rw (e, g, replay_message)

  -- Let a message be stored under the id, and let it now pass the rules and the security check, with a
  -- recipient that is an agent of the broker whose inbox has room, and let no middleware be installed
  -- and the put not raise. Then the replay returns true, the message is marked as delivered, its
  -- id is no longer in the dead letter queue, and the recipient's inbox has one entry more, for it.
  pub replay_message-delivers :
      (i rid : String) (s : Store) (r : Ref) (a : Agent) (q : Inbox) (w : World C)
      → w.store ≡ some s
      → Dict.get i s.messages ≡ some r
      → validate_message rules (as_sent (fields r w)) ≡ none
      → verdict w.security_manager (as_sent (fields r w)) ≡ status success
      → (fields r w).recipient_id ≡ some rid
      → Dict.get rid w.agents ≡ some a
      → Dict.get rid w.inboxes ≡ some q
      → length q < maxsize
      → w.put_error w.counter ≡ none
      → (v : World C) × (replay_message link
            (record { middleware = []; validation_rules = rules })
            i
            w
          ≡ done true v)
        × ((fields r v).status ≡ delivered)
        × ((t : Store) × (v.store ≡ some t) × (Dict.get i t.dlq ≡ none))
        × Placed rid r q (cleaned i s r w) (do_send link rules r (cleaned i s r w))
  replay_message-delivers i rid s r a q w e g valid secure to known inbox room calm =
      let c = cleaned i s r w in
      let f : fields r c ≡ record (fields r w) { status = pending } = fields-mark r pending w in
      let p : Placed rid r q c (do_send link rules r c) =
        do_send-Placed link rules r c rid a q
          (ap (λ (m : AgentMessage). validate_message rules (as_sent m)) f ∙ valid)
          (ap (λ (m : AgentMessage). verdict c.security_manager (as_sent m)) f
            ∙ (unfold mark in secure))
          (ap (λ (m : AgentMessage). m.recipient_id) f ∙ to) (unfold mark in known)
          (unfold mark in inbox) room (unfold mark in calm) in
      let (v, o) = p.returns in
      let end_ : after (do_send link rules r c) ≡ v = ap after o in
      let gone : Dict.get i
            (save_message r (as_sent (fields r c)) (Persistence.remove_from_dlq i s)).dlq
          ≡ none =
        unfold save_message Persistence.remove_from_dlq in rw (get-remove, eq_refl) in
      (
        v,
        replay-resend i s r w e g ∙ ap (λ x. bind x (λ m u. done (is_delivered m) u)) o,
        ap (λ x. (fields r x).status) (sym end_) ∙ ap (λ (m : AgentMessage). m.status) p.message,
        (
          save_message r (as_sent (fields r c)) (Persistence.remove_from_dlq i s),
          ap (λ x. x.store) (sym end_) ∙ p.stored (Persistence.remove_from_dlq i s) refl,
          gone,
        ),
        p,
      )
