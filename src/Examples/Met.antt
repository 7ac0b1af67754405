-- ===== src/Examples/Met.antt =====
-- Two echo agents that have met at a broker, and the request of the first to the second.
use agents_protocol.Prelude.{
  ℕ, String, ◌≡◌, refl, ap, ◌∙◌, none, some, [], ◌==◌, false, arith, eq_iff,
}
use agents_protocol.Dict
use agents_protocol.Dict.Laws.{get-put}
use agents_protocol.Json.{Value, Fields}
use agents_protocol.Protocol.{AgentMessage, MessageType, delivered}
use agents_protocol.Objects.{Ref, write}
use agents_protocol.Extensions.{validate_message}
use agents_protocol.Inbox.Fifo.{maxsize-pos}
use agents_protocol.Registry
use agents_protocol.Broker.World.{World, after, fields}
use agents_protocol.Broker.Sending.{ClusterLink, do_send}
use agents_protocol.Broker.Isolation.{do_send-Kept}
use agents_protocol.Broker.Direct.{Placed, do_send-Placed}
use agents_protocol.Agent.{sign}
use agents_protocol.Agent.Sends.{reply_of, CanAnswer}
use agents_protocol.Agent.Receiving.{taken}
use agents_protocol.Agent.Answers.{CanReach}
use agents_protocol.Examples.Echo.{online}

-- Two agents at a broker without access control where no put raises, their inboxes empty, and a request
-- of the first to the second.
pub record AreMet {C : Type 0} (i j : String) (r : Ref) (w : World C) : Type 0 where
  pub apart : (i == j) ≡ false
  pub first : Registry.Agent
  pub first_known : Dict.get i w.agents ≡ some first
  pub first_inbox : Dict.get i w.inboxes ≡ some []
  pub second : Registry.Agent
  pub second_known : Dict.get j w.agents ≡ some second
  pub second_inbox : Dict.get j w.inboxes ≡ some []
  pub unchecked : w.security_manager ≡ none
  pub calm : (n : ℕ) → w.put_error n ≡ none
  pub request : (fields r w).type ≡ MessageType.request
  pub addressed : (fields r w).recipient_id ≡ some j

module _ {C : Type 0} (link : ClusterLink C) (uuid : World C → String)
    (error_type : String → String) (format : Value → String) where
  fields-sign :
      (i : String) (r : Ref) (w : World C)
      → fields r (sign i r w) ≡ record (fields r w) { sender_id = i }
  unfolding sign write
  fields-sign i r w = ground arith

  pub met-CanReach :
      (i j : String) (r : Ref) (w : World C) → AreMet i j r w → CanReach [] j r (sign i r w)
  met-CanReach i j r w h = record {
    valid = unfold validate_message in refl;
    secure = unfold sign in rw (h.unchecked) refl;
    addressed = ap (λ (m : AgentMessage). m.recipient_id) (fields-sign i r w) ∙ h.addressed;
    agent = h.second;
    known = unfold sign in h.second_known;
    inbox = unfold sign in h.second_inbox;
    calm = unfold sign in h.calm w.counter;
  }

  met-Placed :
      (i j : String) (r : Ref) (w : World C)
      → AreMet i j r w
      → Placed j r [] (sign i r w) (do_send link [] r (sign i r w))
  met-Placed i j r w h =
      let k = met-CanReach i j r w h in
      do_send-Placed link [] r (sign i r w) j k.agent [] k.valid k.secure k.addressed k.known
        k.inbox maxsize-pos k.calm

  -- The request as the second agent finds it.
  pub fields-taken :
      (i j : String) (r : Ref) (w : World C)
      → AreMet i j r w
      → fields r (taken j [] (after (do_send link [] r (sign i r w))))
        ≡ record (fields r w) { sender_id = i; status = delivered }
  fields-taken i j r w h =
      (met-Placed i j r w h).message
      ∙ ap (λ (m : AgentMessage). record m { status = delivered }) (fields-sign i r w)

  inbox-taken :
      (i j : String) (r : Ref) (w : World C)
      → AreMet i j r w
      → Dict.get i (taken j [] (after (do_send link [] r (sign i r w)))).inboxes ≡ some []
  inbox-taken i j r w h =
      let e = (met-Placed i j r w h).inboxes in
      let k : Dict.get i (sign i r w).inboxes ≡ some [] = unfold sign in h.first_inbox in
      rw (ap (λ d. Dict.get i (Dict.put j [] d)) e, get-put, get-put)
        (ground (arith, h.apart, k, eq_iff i j))

  -- The answer can be delivered.
  pub met-CanAnswer :
      (i j n : String) (r : Ref) (w : World C) (content : Fields)
      → AreMet i j r w
      → let t = taken j [] (after (do_send link [] r (sign i r w))) in
        CanAnswer []
          (reply_of uuid (online format j n) MessageType.response r content none t)
          r
          []
          t
  met-CanAnswer i j n r w content h =
      let x = do_send-Kept link [] r (sign i r w) in
      let f = fields-taken i j r w h in
      let g = inbox-taken i j r w h in
      let c = (after (do_send link [] r (sign i r w))).counter in
      let closed : (after (do_send link [] r (sign i r w))).security_manager ≡ none =
        x.security_manager ∙ (unfold sign in h.unchecked) in
      let there : Dict.get i (after (do_send link [] r (sign i r w))).agents ≡ some h.first =
        ap (Dict.get i) x.agents ∙ (unfold sign in h.first_known) in
      record {
        valid = unfold validate_message in refl;
        secure = rw closed refl;
        asker = h.first;
        known =
            ap
              (λ (m : AgentMessage).
                Dict.get m.sender_id (after (do_send link [] r (sign i r w))).agents)
              f
            ∙ there;
        inbox =
            ap
              (λ (m : AgentMessage).
                Dict.get m.sender_id (taken j [] (after (do_send link [] r (sign i r w)))).inboxes)
              f
            ∙ g;
        room = maxsize-pos;
        calm = ap (λ p. p c) x.put_error ∙ (unfold sign in h.calm c);
      }
