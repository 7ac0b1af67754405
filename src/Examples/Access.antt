-- ===== src/Examples/Access.antt =====
-- What becomes of the messages that the agents of the secure example send.
use agents_protocol.Prelude.{
  String, ◌≡◌, ◌↔◌, ◌<◌, refl, ap, sym, ◌∙◌, true, none, some, [], length,
}
use agents_protocol.Dict
use agents_protocol.Json.{Fields}
use agents_protocol.Protocol.{AgentMessage, delivered, set_correlation_id_if_none}
use agents_protocol.Extensions.{validate_message}
use agents_protocol.Registry.{Agent}
use agents_protocol.Inbox.{Inbox, maxsize}
use agents_protocol.Broker.World.{World, after, fields, now}
use agents_protocol.Broker.Sending.{ClusterLink, verdict, do_send}
use agents_protocol.Broker.Refusals.{as_sent}
use agents_protocol.Security.{verify_message}
use agents_protocol.Broker.Verdicts.{do_send-delivered_iff}
use agents_protocol.Agent.{construct, sign}
use agents_protocol.Agent.Sends.{fields-signed}
use agents_protocol.Agent.Replies.{plain}
use agents_protocol.Agent.Answers.{send_message-do_send}
use agents_protocol.Examples.Secure.{SecureAgent, secure_message, send_secure, manager}
use agents_protocol.Examples.Policy.{Admits, verify_message-Admits}

module _ {C : Type 0} (link : ClusterLink C) (uuid : World C → String)
    (error_type : String → String) where
  -- The message as it is sent.
  abbrev message_of : SecureAgent C → String → Fields → World C → AgentMessage
  message_of a rid content w =
      secure_message (uuid w) (now w) a.live.info.agent_id a.token rid content

  -- The world in which it is sent.
  abbrev before_send : SecureAgent C → String → Fields → World C → World C
  before_send a rid content w =
      sign a.live.info.agent_id w.heap.next (construct (message_of a rid content w) w).1

  send_secure-do_send :
      (a : SecureAgent C) (rid : String) (content : Fields) (w : World C)
      → a.live.connected ≡ true
      → send_secure link (plain link [] uuid error_type) uuid error_type a rid content w
        ≡ do_send link [] w.heap.next (before_send a rid content w)
  unfolding send_secure construct
  send_secure-do_send a rid content w c =
      send_message-do_send link [] uuid error_type a.live w.heap.next
        (construct (message_of a rid content w) w).1 c

  -- Let a broker without rules and middleware have the example's security manager, and let the
  -- recipient be an agent of it whose inbox has room, and the put not raise. Then what a connected agent
  -- sends with `send_secure` is delivered exactly if it is the orchestrator with its token, the
  -- worker with its token writing to the orchestrator, or any agent that is neither of them.
  pub send_secure-delivered_iff :
      (a : SecureAgent C) (rid : String) (content : Fields) (w : World C) (b : Agent) (q : Inbox)
      → a.live.connected ≡ true
      → w.security_manager ≡ some manager
      → Dict.get rid w.agents ≡ some b
      → Dict.get rid w.inboxes ≡ some q
      → length q < maxsize
      → w.put_error w.counter ≡ none
      → let o = send_secure link (plain link [] uuid error_type) uuid error_type a rid content w in
        ((fields w.heap.next (after o)).status ≡ delivered)
        ↔ Admits a.live.info.agent_id a.token rid
  send_secure-delivered_iff a rid content w b q c s known inbox room calm =
      let v = before_send a rid content w in
      let m = message_of a rid content w in
      let f : fields w.heap.next v ≡ m =
        fields-signed a.live.info.agent_id m w
        ∙ (unfold secure_message set_correlation_id_if_none in refl) in
      let k : v.security_manager ≡ some manager = unfold sign construct in s in
      let e : verdict v.security_manager (as_sent (fields w.heap.next v))
          ≡ verify_message manager (as_sent m) =
        rw (k, f) refl in
      let (x, y) =
        do_send-delivered_iff link [] w.heap.next v rid b q (unfold validate_message in refl)
          (ap (λ (m : AgentMessage). m.recipient_id) f
            ∙ (unfold secure_message set_correlation_id_if_none in refl))
          (unfold sign construct in known) (unfold sign construct in inbox) room
          (unfold sign construct in calm) in
      let (g, h) =
        verify_message-Admits (uuid w) (now w) content a.live.info.agent_id a.token rid in
      rw (send_secure-do_send a rid content w c) (λ d. g (sym e ∙ x d), λ z. y (e ∙ h z))
