-- ===== src/Broker/Direct.antt =====
-- A message to an agent of the broker, on the way where nothing goes wrong.
use agents_protocol.Prelude.{
  ◌+◌, ◌<◌, String, ◌≡◌, refl, ap, ◌∙◌, true, Option, none, some, List, arith, eq_refl, length,
}
use mathlib.Core.Option
use agents_protocol.Dict
use agents_protocol.Dict.Laws.{get-put}
use agents_protocol.Protocol.{AgentMessage, MessageStatus, sent, delivered, level}
use agents_protocol.Objects.{Ref, Heap, set_status}
use agents_protocol.Persistence.{Store, save_message, update_message_status}
use agents_protocol.Extensions.{ValidationRule, validate_message}
use agents_protocol.Sorting.{insert}
use agents_protocol.Inbox
use agents_protocol.Inbox.{Inbox, Entry, before, maxsize}
use agents_protocol.Registry.{Agent}
use agents_protocol.Security.{status, success}
use agents_protocol.Broker.World.{
  World, Outcome, done, after, bind, fields, now, mark, save, update_stored, updated,
}
use agents_protocol.Broker.Delivery.{deliver_locally, put_done, entry, numbered}
use agents_protocol.Broker.Sending.{
  ClusterLink, return_status, accept, checked, validated, do_send, dispatch, send_local, verdict,
}
use agents_protocol.Broker.Refusals.{as_sent, fields-mark}

-- The entry of a message with the given fields, at the present time and with the next number.
abbrev pub placed_entry : {C : Type 0} → AgentMessage → Ref → World C → Entry
placed_entry m r w = record {
  priority = level m.priority;
  time_ns = now w;
  counter = w.counter;
  message = r;
}

-- What a delivery to the agent's inbox `q` leaves.
pub record Placed {C : Type 0} (rid : String) (r : Ref) (q : Inbox) (w : World C)
    (o : Outcome C MessageStatus) : Type 0 where
  pub returns : (v : World C) × (o ≡ done delivered v)
  pub inboxes :
      (after o).inboxes ≡ Dict.put rid (insert before (placed_entry (fields r w) r w) q) w.inboxes
  pub message : fields r (after o) ≡ record (fields r w) { status = delivered }
  pub metrics : (after o).metrics ≡ record (w.metrics) { delivered = w.metrics.delivered + 1 }
  pub stored :
      (s : Store)
      → w.store ≡ some s
      → (after o).store ≡ some (save_message r (as_sent (fields r w)) s)

put-room : (e : Entry) (q : Inbox) → length q < maxsize → Inbox.put e q ≡ some (insert before e q)
unfolding Inbox.put
put-room e q h = ground arith

-- The stored object of a message that was just saved is the message itself.
update_saved :
    (r : Ref) (m : AgentMessage) (s : MessageStatus) (o : Option Store) (h : Heap)
    → (h.cell r).status ≡ s
    → (updated (Option.map (save_message r m) o) m.id s h).cell r ≡ h.cell r
unfolding updated update_message_status
update_saved r m s none h e = refl
update_saved r m s (some t) h e =
    let g : Dict.get m.id (save_message r m t).messages ≡ some r =
      unfold save_message in rw (get-put, eq_refl) in
    rw (g, update_message_status) (unfold set_status in ground arith)

module _ {C : Type 0} where
  pub deliver_locally-placed :
      (rid : String) (r : Ref) (q : Inbox) (v : World C)
      → Dict.get rid v.inboxes ≡ some q
      → v.put_error v.counter ≡ none
      → length q < maxsize
      → deliver_locally rid r v ≡ put_done rid r (insert before (entry r v) q) (numbered v)
  unfolding deliver_locally
  deliver_locally-placed rid r q v inbox calm room =
      rw (inbox, calm, put-room (entry r v) q room, deliver_locally)

  pub dispatch-local :
      (link : ClusterLink C) (rid : String) (r : Ref) (v : World C)
      → Dict.has rid v.agents ≡ true
      → dispatch link (some rid) r v ≡ bind (deliver_locally rid r v) (λ b. return_status r)
  dispatch-local link rid r v known = unfold dispatch in rw known (unfold send_local in refl)

  -- The object after the delivery of a message that was just saved.
  fields-put_done :
      (rid : String) (r : Ref) (q : Inbox) (w : World C)
      → fields r (after (put_done rid r q (numbered (save r (mark r sent w)))))
        ≡ record (fields r w) { status = delivered }
  fields-put_done rid r q w =
      let m = fields r (mark r sent w) in
      let h = set_status r delivered (mark r sent w).heap in
      let set : h.cell r ≡ record m { status = delivered } = unfold set_status in ground arith in
      let same : fields r (after (put_done rid r q (numbered (save r (mark r sent w)))))
          ≡ h.cell r =
        unfold put_done update_stored save mark in
        update_saved r m delivered w.store h (ap (λ (n : AgentMessage). n.status) set) in
      same
      ∙ (set ∙ ap (λ (n : AgentMessage). record n { status = delivered }) (fields-mark r sent w))

  put_done-Placed :
      (rid : String) (r : Ref) (q : Inbox) (w : World C)
      → let v = save r (mark r sent w) in
        Placed rid r q w
          (bind (put_done rid r (insert before (entry r v) q) (numbered v)) (λ b. return_status r))
  put_done-Placed rid r q w =
      let v = save r (mark r sent w) in
      let m = fields r (mark r sent w) in
      let q' = insert before (entry r v) q in
      let v' = after (put_done rid r q' (numbered v)) in
      let f = fields-put_done rid r q' w in
      record {
        returns = (v', unfold put_done in ap (λ (n : AgentMessage). done n.status v') f);
        inboxes =
            unfold put_done update_stored save mark in
            ap (λ (n : AgentMessage). Dict.put rid (insert before (placed_entry n r w) q) w.inboxes)
              (fields-mark r sent w);
        message = unfold put_done in f;
        metrics = unfold put_done update_stored save mark in refl;
        stored = λ s h.
            unfold put_done update_stored save mark in
            ap (Option.map (save_message r m)) h
            ∙ ap (λ (n : AgentMessage). some (save_message r n s)) (fields-mark r sent w);
      }

module _ {C : Type 0} (link : ClusterLink C) (rules : List ValidationRule) (r : Ref) where
  do_send-validated :
      (w : World C)
      → validate_message rules (as_sent (fields r w)) ≡ none
      → do_send link rules r w ≡ validated link none r (mark r sent w)
  do_send-validated w valid =
      let k : validate_message rules (fields r (mark r sent w)) ≡ none =
        ap (validate_message rules) (fields-mark r sent w) ∙ valid in
      unfold do_send in ap (λ o. validated link o r (mark r sent w)) k

  validated-accept :
      (v : World C)
      → verdict v.security_manager (fields r v) ≡ status success
      → validated link none r v ≡ accept link r v
  validated-accept v e = unfold validated in rw e (unfold checked in refl)

  accept-dispatch :
      (v : World C) → accept link r v ≡ dispatch link (fields r v).recipient_id r (save r v)
  unfolding accept save
  accept-dispatch v = refl

  -- Where the message is judged fit, `_do_send` comes to the routing of the saved message.
  pub do_send-dispatch :
      (w : World C)
      → validate_message rules (as_sent (fields r w)) ≡ none
      → verdict w.security_manager (as_sent (fields r w)) ≡ status success
      → do_send link rules r w ≡ dispatch link (fields r w).recipient_id r (save r (mark r sent w))
  do_send-dispatch w valid e =
      let v = mark r sent w in
      let sm : verdict v.security_manager (fields r v) ≡ status success =
        ap (λ m. verdict v.security_manager m) (fields-mark r sent w) ∙ (unfold mark in e) in
      do_send-validated w valid
      ∙ (validated-accept v sm
          ∙ (accept-dispatch v
              ∙ ap (λ (m : AgentMessage). dispatch link m.recipient_id r (save r v))
                  (fields-mark r sent w)))

  -- Let a message pass the rules and the security check, and let its recipient be an agent of the
  -- broker with an inbox that has room, and let the put not raise. Then `_do_send` returns
  -- `delivered`: the inbox has one entry more, of the message's priority, the present time and the
  -- next number, and the other inboxes are the same; the message is marked as delivered, one delivery
  -- is counted, and where there is a store, the message was saved, with the status `sent`.
  pub do_send-Placed :
      (w : World C) (rid : String) (a : Agent) (q : Inbox)
      → validate_message rules (as_sent (fields r w)) ≡ none
      → verdict w.security_manager (as_sent (fields r w)) ≡ status success
      → (fields r w).recipient_id ≡ some rid
      → Dict.get rid w.agents ≡ some a
      → Dict.get rid w.inboxes ≡ some q
      → length q < maxsize
      → w.put_error w.counter ≡ none
      → Placed rid r q w (do_send link rules r w)
  do_send-Placed w rid a q valid secure to known inbox room calm =
      let v = save r (mark r sent w) in
      let e : do_send link rules r w ≡ dispatch link (some rid) r v =
        do_send-dispatch w valid secure ∙ ap (λ o. dispatch link o r v) to in
      let known' : Dict.has rid v.agents ≡ true = unfold save mark in rw known in
      let d : deliver_locally rid r v ≡ put_done rid r (insert before (entry r v) q) (numbered v) =
        deliver_locally-placed rid r q v (unfold save mark in inbox) (unfold save mark in calm)
          room in
      let k = dispatch-local link rid r v known' ∙ ap (λ o. bind o (λ b. return_status r)) d in
      rw (e ∙ k) (put_done-Placed rid r q w)
