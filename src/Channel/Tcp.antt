-- ===== src/Channel/Tcp.antt =====
-- `TCPSocketChannel`: its handlers and its cached outgoing connections. The sockets are a state `S`
-- with the calls of asyncio's streams as functions of it (`Sockets`); a writer and a task are numbers.
-- `int_of` stands for the built-in `int`, and the payload of a message is its serialization.
use Prim.Native.Char.{code}
use agents_protocol.Prelude.{
  ℕ, String, Bool, true, false, not, keep, List, Option, none, some, [], ◌∷◌, ◌==◌, eqb, ℤ,
  if◌then◌else◌,
}
use mathlib.Core.Option
use agents_protocol.Dict
use agents_protocol.Dict.{Dict}
use agents_protocol.Protocol.{MessageStatus, delivered, failed}
use agents_protocol.Channel.Stream.{Bytes, frame}

abbrev pub Writer : Type 0
Writer = ℕ

-- `open_connection`, `write` with `drain`, `is_closing` and `close`; `none` and `false` stand for an
-- exception.
pub record Sockets (S : Type 0) : Type 0 where
  pub open_connection : String → ℤ → S → Option Writer × S
  pub write : Writer → Bytes → S → Bool × S
  pub is_closing : Writer → S → Bool
  pub close : Writer → S → S

-- The task of a handler; no task is in `connections` twice.
abbrev pub Task : Type 0
Task = ℕ

pub record TcpSocketChannel : Type 0 where
  pub running : Bool
  pub serving : Bool
  pub connections : List Task
  pub outgoing_connections : Dict Writer

-- `__init__`
abbrev pub new : TcpSocketChannel
new = record { running = false; serving = false; connections = []; outgoing_connections = [] }

unfoldable pub start : TcpSocketChannel → TcpSocketChannel
start c = record c { running = true; serving = true }

-- `_handle_connection` up to the reading of the stream, and its end, since other tasks run meanwhile.
unfoldable pub begin_connection : Task → TcpSocketChannel → TcpSocketChannel
begin_connection task c = record c { connections = task ∷ c.connections }

unfoldable pub end_connection : Task → TcpSocketChannel → TcpSocketChannel
end_connection task c = record c { connections = keep (λ t. not (eqb t task)) c.connections }

unfoldable pub has_colon : String → Bool
has_colon String.[] = false
has_colon (String.◌∷◌ c s) = let rest = has_colon s in if eqb (code c) 58 then true else rest

-- The parts before and after the first colon.
unfoldable pub cut_colon : String → Option (String × String)
cut_colon String.[] = none
cut_colon (String.◌∷◌ c s) =
    let rest = cut_colon s in
    if eqb (code c) 58 then some (String.[], s) else Option.map (λ p. (String.◌∷◌ c p.0, p.1)) rest

-- `if host == "0.0.0.0": host = "127.0.0.1"`
abbrev pub reachable : String → String
reachable host = if host == "0.0.0.0" then "127.0.0.1" else host

-- `host, port_str = destination.split(":")` and `int(port_str)`; `none` stands for the `ValueError`.
unfoldable pub address : (String → Option ℤ) → String → Option (String × ℤ)
unfolding cut_colon has_colon
address int_of destination = elim (cut_colon destination) [
  | none ↦ none
  | some p ↦ if has_colon p.1 then none else Option.map (λ port. (reachable p.0, port)) (int_of p.1)
]

module _ {S : Type 0} (net : Sockets S) where
  -- Each writer is closed.
  unfoldable pub close_all : Dict Writer → S → S
  close_all [] s = s
  close_all ((destination, w) ∷ writers) s = close_all writers (net.close w s)

  -- The handlers' tasks are cancelled, and the server object stays.
  unfoldable pub stop : TcpSocketChannel → S → TcpSocketChannel × S
  unfolding close_all
  stop c s = (
    record c { running = false; connections = []; outgoing_connections = [] },
    close_all c.outgoing_connections s,
  )

  -- The `except` block: the cached writer is dropped and closed.
  unfoldable pub drop_writer :
      String → Option Writer → TcpSocketChannel → S → MessageStatus × (TcpSocketChannel × S)
  drop_writer destination none c s = (failed, (c, s))
  drop_writer destination (some w) c s = (
    failed,
    (
      record c { outgoing_connections = Dict.remove destination c.outgoing_connections },
      net.close w s,
    ),
  )

  unfoldable pub send_failed :
      String → TcpSocketChannel → S → MessageStatus × (TcpSocketChannel × S)
  unfolding drop_writer
  send_failed destination c s =
      drop_writer destination (Dict.get destination c.outgoing_connections) c s

  -- After the write.
  unfoldable pub wrote :
      String → TcpSocketChannel → Bool × S → MessageStatus × (TcpSocketChannel × S)
  unfolding send_failed
  wrote destination c (true, s) = (delivered, (c, s))
  wrote destination c (false, s) = send_failed destination c s

  -- The framed message goes to the writer; a message that cannot be framed raises.
  unfoldable pub write_to :
      String → Option Bytes → Writer → TcpSocketChannel → S → MessageStatus × (TcpSocketChannel × S)
  unfolding wrote send_failed
  write_to destination none w c s = send_failed destination c s
  write_to destination (some bytes) w c s = wrote destination c (net.write w bytes s)

  -- After `open_connection`.
  unfoldable pub opened :
      String → Bytes → TcpSocketChannel → Option Writer × S → MessageStatus × (TcpSocketChannel × S)
  unfolding write_to frame send_failed
  opened destination payload c (none, s) = send_failed destination c s
  opened destination payload c (some w, s) =
      write_to destination (frame payload) w
        (record c { outgoing_connections = Dict.put destination w c.outgoing_connections }) s

  -- `not writer or writer.is_closing()`
  unfoldable pub usable : Option Writer → S → Option Writer
  usable none s = none
  usable (some w) s = if net.is_closing w s then none else some w

  -- The `try` block, for the writer that can be used.
  unfoldable pub send_over :
      String
      → String × ℤ
      → Bytes
      → Option Writer
      → TcpSocketChannel
      → S
      → MessageStatus × (TcpSocketChannel × S)
  unfolding opened write_to frame
  send_over destination (host, port) payload none c s =
      opened destination payload c (net.open_connection host port s)
  send_over destination (host, port) payload (some w) c s =
      write_to destination (frame payload) w c s

  -- The rest of `send`, by the address.
  unfoldable pub send_to :
      Option (String × ℤ)
      → String
      → Bytes
      → TcpSocketChannel
      → S
      → MessageStatus × (TcpSocketChannel × S)
  unfolding send_over usable
  send_to none destination payload c s = (failed, (c, s))
  send_to (some a) destination payload c s =
      send_over destination a payload (usable (Dict.get destination c.outgoing_connections) s) c s

  -- `send`, with the status that the message is set to and that is returned; `none` stands for the
  -- `RuntimeError` of a channel that does not run.
  unfoldable pub send :
      (String → Option ℤ)
      → Bytes
      → String
      → TcpSocketChannel
      → S
      → Option (MessageStatus × (TcpSocketChannel × S))
  unfolding send_to address
  send int_of payload destination c s =
      if c.running
      then some (send_to (address int_of destination) destination payload c s)
      else none
