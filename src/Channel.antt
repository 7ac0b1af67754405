-- ===== src/Channel.antt =====
-- src/agents_protocol/channels.py: `LocalChannel` and `ChannelRegistry` here, the other channels and
-- what is written to their streams in the modules below.
pub mod Stream
pub mod Framing
pub mod WebSocket
pub mod Reconnects
pub mod Tcp
pub mod Connections
pub mod Arrival
pub mod Ends
pub mod Reading
pub mod Http
pub mod Requests
pub mod Serving
pub mod Unserved
pub mod Inbound
pub mod EndToEnd
pub mod Posting
use agents_protocol.Prelude.{String, Bool, true, false, Option, []}
use agents_protocol.Dict
use agents_protocol.Dict.{Dict}
use agents_protocol.Protocol.{MessageStatus, sent}
use agents_protocol.Objects.{Ref}
use agents_protocol.Extensions.{ExtensionManager}
use agents_protocol.Broker.World.{World, Act, raised, bind, mark, fields, modify}
use agents_protocol.Broker.Sending.{ClusterLink, send, return_status}

-- `LocalChannel`; the broker is the world that `send` acts on.
pub record LocalChannel : Type 0 where
  pub running : Bool

unfoldable pub start : LocalChannel → LocalChannel
start c = record c { running = true }

unfoldable pub stop : LocalChannel → LocalChannel
stop c = record c { running = false }

module _ {C : Type 0} (link : ClusterLink C)
    (ext : ExtensionManager Ref (Act C MessageStatus)) where
  -- The status is read from the message after the send.
  unfoldable pub send_local : LocalChannel → Ref → Act C MessageStatus
  unfolding mark send
  send_local c r w = elim c.running [
    | false ↦ raised "Local channel is not running" w
    | true ↦ bind (send link ext r (mark r sent w)) (λ s. return_status r)
  ]

-- `ChannelRegistry`: `R` is what a channel class builds. `create` of an unknown name raises, `none`.
module _ {R : Type 0} where
  unfoldable pub register : String → R → Dict R → Dict R
  register name channel_class channels = Dict.put name channel_class channels

  unfoldable pub create : String → Dict R → Option R
  create name channels = Dict.get name channels

  -- `clear`, and the registrations at the end of the module
  unfoldable pub clear : (local http websocket tcp : R) → Dict R
  unfolding register
  clear local http websocket tcp =
      register "tcp" tcp
        (register "websocket" websocket (register "http" http (register "local" local [])))
