-- ===== src/Broker/Sending.antt =====
-- `send` of the broker, with the whole of `_do_send`.
use Prim.Native.String.{◌++◌ as text_append}
use agents_protocol.Prelude.{
  String, Bool, true, false, Option, none, some, List, [], ◌∷◌, ◌==◌, if◌then◌else◌,
}
use agents_protocol.Dict
use agents_protocol.Protocol.{AgentMessage, MessageStatus, sent, delivered, failed}
use agents_protocol.Objects.{Ref}
use agents_protocol.Extensions.{
  ValidationRule, ExtensionManager, validate_message, process_with_middleware,
}
use agents_protocol.Router.{route}
use agents_protocol.Security.{
  SecurityManager, AuthStatus, success, unauthorized, expired, invalid_signature, Verdict, status,
  type_error, verify_message,
}
use agents_protocol.Broker.World.{
  World, Act, done, raised, ◌>>=◌, ◌>>◌, modify, fields, mark, save, dead_letter, count_failed,
  count_broadcast, count_forwarded, count_denied, count_invalid,
}
use agents_protocol.Broker.Delivery.{deliver_locally, deliver_copies, broadcast}

-- What the broker uses of a cluster manager: `get_peer_for_agent` and, where it finds a peer, its
-- `forward_message`. `none` stands for no peer; else whether the message was forwarded.
pub record ClusterLink (C : Type 0) : Type 0 where
  pub forward : String → AgentMessage → C → Option (Bool × C)

-- `f"{auth_status}"`
unfoldable pub status_text : AuthStatus → String
status_text success = "AuthStatus.SUCCESS"
status_text unauthorized = "AuthStatus.UNAUTHORIZED"
status_text expired = "AuthStatus.EXPIRED"
status_text invalid_signature = "AuthStatus.INVALID_SIGNATURE"

-- `not recipients or (len(recipients) == 1 and recipients[0] == msg.recipient_id)`
unfoldable pub is_direct : String → List String → Bool
is_direct rid [] = true
is_direct rid (a ∷ []) = a == rid
is_direct rid (a ∷ b ∷ rest) = false

-- `if self._security_manager`: no manager, no check.
abbrev pub verdict : Option SecurityManager → AgentMessage → Verdict
verdict none m = status success
verdict (some s) m = verify_message s m

module _ {C : Type 0} where
  -- `return msg.status`
  abbrev pub return_status : Ref → Act C MessageStatus
  return_status r w = done (fields r w).status w

  -- A refused message is saved and dead-lettered.
  unfoldable pub refuse : Ref → String → World C → World C
  unfolding save dead_letter
  refuse r reason w = dead_letter r reason (save r w)

  -- A message for an agent that nobody knows.
  unfoldable pub unregistered : String → Ref → Act C MessageStatus
  unfolding mark dead_letter
  unregistered rid r w = return_status r (
      dead_letter r (text_append "Agent " (text_append rid " not registered."))
        (count_failed (mark r failed w)))

  -- After a forward: `w` has the cluster's new state.
  unfoldable pub forwarded : Bool → Ref → Act C MessageStatus
  unfolding mark
  forwarded true r w = return_status r (count_forwarded (mark r delivered w))
  forwarded false r w = return_status r (count_failed (mark r failed w))

  -- Copies for the recipients that the router found.
  unfoldable pub send_routed : List String → Ref → Act C MessageStatus
  unfolding mark deliver_copies
  send_routed recipients r = do
    deliver_copies recipients r
    modify (mark r delivered)
    return_status r

  -- A message without recipient, `recipients` being what the router found.
  unfoldable pub send_undirected : List String → Ref → Act C MessageStatus
  unfolding mark broadcast send_routed
  send_undirected [] r = do
    broadcast r
    modify (mark r delivered)
    modify count_broadcast
    return_status r
  send_undirected (a ∷ rest) r = send_routed (a ∷ rest) r

  -- A message to an agent of this broker.
  unfoldable pub send_local : String → Ref → Act C MessageStatus
  unfolding deliver_locally
  send_local rid r = do deliver_locally rid r; return_status r

  -- What came of the forward.
  unfoldable pub hand_over : Option (Bool × C) → String → Ref → Act C MessageStatus
  unfolding unregistered forwarded
  hand_over none rid r w = unregistered rid r w
  hand_over (some (sent_on, c)) rid r w =
      forwarded sent_on r (record w { cluster_manager = some c })

module _ {C : Type 0} (link : ClusterLink C) where
  -- `elif self._cluster_manager`, and the `else`
  unfoldable pub send_peer : Option C → String → Ref → Act C MessageStatus
  unfolding unregistered hand_over
  send_peer none rid r w = unregistered rid r w
  send_peer (some c) rid r w = hand_over (link.forward rid (fields r w) c) rid r w

  -- The part for a recipient that no local inbox took.
  unfoldable pub send_remote : String → Ref → Act C MessageStatus
  unfolding send_peer
  send_remote rid r w = send_peer w.cluster_manager rid r w

  -- A recipient that is no agent of this broker and for which the router found nobody else.
  unfoldable pub send_elsewhere : String → Ref → Act C MessageStatus
  unfolding deliver_locally send_remote
  send_elsewhere rid r = do
    here ← deliver_locally rid r
    if here then return_status r else send_remote rid r

  -- The routing of a message that was accepted and saved.
  unfoldable pub dispatch : Option String → Ref → Act C MessageStatus
  unfolding send_undirected send_local send_elsewhere send_routed is_direct
  dispatch none r w = send_undirected (route w.router (fields r w) (Dict.keys w.agents)) r w
  dispatch (some rid) r w =
      let recipients = route w.router (fields r w) (Dict.keys w.agents) in
      if Dict.has rid w.agents
      then send_local rid r w
      else if is_direct rid recipients
      then send_elsewhere rid r w
      else send_routed recipients r w

  unfoldable pub accept : Ref → Act C MessageStatus
  unfolding save dispatch
  accept r w = let w' = save r w in dispatch (fields r w').recipient_id r w'

  -- After the security check.
  unfoldable pub checked : Verdict → Ref → Act C MessageStatus
  unfolding accept mark refuse status_text
  checked type_error r w = raised "TypeError" w
  checked (status success) r w = accept r w
  checked (status s) r w = return_status r (
      refuse r (text_append "Security check failed: " (status_text s))
        (count_denied (mark r failed w)))

  -- After the validation.
  unfoldable pub validated : Option String → Ref → Act C MessageStatus
  unfolding checked mark refuse
  validated (some error) r w =
      return_status r
        (refuse r (text_append "Validation failed: " error) (count_invalid (mark r failed w)))
  validated none r w = checked (verdict w.security_manager (fields r w)) r w

  -- `_do_send`
  unfoldable pub do_send : List ValidationRule → Ref → Act C MessageStatus
  unfolding validated mark
  do_send rules r w =
      let w' = mark r sent w in validated (validate_message rules (fields r w')) r w'

  -- `send`: the middleware around `_do_send`
  unfoldable pub send : ExtensionManager Ref (Act C MessageStatus) → Ref → Act C MessageStatus
  unfolding do_send process_with_middleware
  send ext r = process_with_middleware ext.middleware r (do_send ext.validation_rules)
