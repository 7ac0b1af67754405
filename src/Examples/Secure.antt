-- ===== src/Examples/Secure.antt =====
-- examples/secure_communication.py: agents that send with a token, and the broker's access control.
use agents_protocol.Prelude.{ℕ, ◌+◌, String, none, some, [], ◌∷◌}
use agents_protocol.Json.{str, Fields, no_fields, field}
use agents_protocol.Protocol.{
  AgentMessage, MessageType, MessageStatus, normal, pending, set_correlation_id_if_none,
}
use agents_protocol.Objects.{Ref}
use agents_protocol.Extensions.{ExtensionManager}
use agents_protocol.Security
use agents_protocol.Security.{SecurityManager, register_agent_credentials, set_acl}
use agents_protocol.Broker.World.{World, Act, done, now}
use agents_protocol.Broker.Sending.{ClusterLink}
use agents_protocol.Agent
use agents_protocol.Agent.{LiveAgent, Handler, register_handler, construct, send_message}

-- `received_count` is a field of the agent, which the handler's call changes beside the broker.
pub record SecureAgent (C : Type 0) : Type 0 where
  pub live : LiveAgent C
  pub token : String
  pub received_count : ℕ

module _ {C : Type 0} where
  -- What `on_notification` returns, and does to the broker.
  abbrev pub on_notification : Handler C
  on_notification r w = done none w

  -- What it does to the agent.
  abbrev pub count_received : SecureAgent C → SecureAgent C
  count_received a = record a { received_count = a.received_count + 1 }

  unfoldable pub new : String → String → String → SecureAgent C
  unfolding register_handler
  new agent_id name token = record {
    live = register_handler MessageType.notification on_notification (
        Agent.new
          (record { agent_id = agent_id; name = name; capabilities = []; metadata = no_fields }));
    token = token;
    received_count = 0;
  }

-- The message of `send_secure`; `id` is the uuid and `timestamp` the time that are drawn.
unfoldable pub secure_message :
    (id : String) (timestamp : ℕ) (sender_id token recipient_id : String) → Fields → AgentMessage
unfolding set_correlation_id_if_none
secure_message id timestamp sender_id token recipient_id content =
    set_correlation_id_if_none (record {
      id = id;
      type = MessageType.notification;
      sender_id = sender_id;
      recipient_id = some recipient_id;
      priority = normal;
      status = pending;
      timestamp = timestamp;
      correlation_id = none;
      reply_to = none;
      content = content;
      metadata = no_fields;
      security = some (field "token" (str token) no_fields);
    })

module _ {C : Type 0} (link : ClusterLink C) (ext : ExtensionManager Ref (Act C MessageStatus))
    (uuid : World C → String) (error_type : String → String) where
  unfoldable pub send_secure : SecureAgent C → String → Fields → Act C MessageStatus
  unfolding secure_message construct send_message
  send_secure a recipient_id content w =
      let m = secure_message (uuid w) (now w) a.live.info.agent_id a.token recipient_id content in
      let (r, v) = construct m w in send_message link ext uuid error_type a.live r v

-- The manager that `main` sets up.
unfoldable pub manager : SecurityManager
unfolding register_agent_credentials set_acl
manager = set_acl "worker_a" ("orchestrator" ∷ []) (
    set_acl "orchestrator" ("*" ∷ []) (
      register_agent_credentials "worker_a" "worker_secret_456"
        (register_agent_credentials "orchestrator" "orch_secret_123" (Security.new none))))
