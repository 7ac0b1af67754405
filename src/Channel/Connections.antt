-- ===== src/Channel/Connections.antt =====
-- The cached connections of the TCP channel.
use agents_protocol.Prelude.{
  String, ◌≡◌, refl, Bool, true, false, Option, none, some, ◌==◌, eq_refl, arith, ℤ,
}
use agents_protocol.Dict
use agents_protocol.Dict.Laws.{get-put, get-remove}
use agents_protocol.Protocol.{MessageStatus, delivered, failed}
use agents_protocol.Channel.Stream.{Bytes, frame}
use agents_protocol.Channel.Tcp.{
  Writer, Sockets, TcpSocketChannel, address, drop_writer, send_failed, wrote, write_to, opened,
  usable, send_over, send_to, send,
}

-- How a send over a connection ends: the message is delivered and the connection cached, or it has
-- failed and no connection is cached; the connections to other destinations are as before.
pub data Settled (destination : String) (c : TcpSocketChannel)
    : MessageStatus → TcpSocketChannel → Type 0 where
  kept :
      (v : TcpSocketChannel) (w : Writer)
      → Dict.get destination v.outgoing_connections ≡ some w
      → ((d : String)
          → (destination == d) ≡ false
          → Dict.get d v.outgoing_connections ≡ Dict.get d c.outgoing_connections)
      → Settled destination c delivered v
  dropped :
      (v : TcpSocketChannel)
      → Dict.get destination v.outgoing_connections ≡ none
      → ((d : String)
          → (destination == d) ≡ false
          → Dict.get d v.outgoing_connections ≡ Dict.get d c.outgoing_connections)
      → Settled destination c failed v

usable-eq-some :
    {S : Type 0} (net : Sockets S) (o : Option Writer) (w : Writer) (s : S)
    → usable net o s ≡ some w
    → o ≡ some w
unfolding usable
usable-eq-some net none w s e = e
usable-eq-some net (some x) w s e = ground arith

module _ {S : Type 0} (net : Sockets S) (destination : String) (c : TcpSocketChannel) where
  -- The connections to other destinations are those of `c`.
  abbrev Others : TcpSocketChannel → Type 0
  Others v =
      (d : String)
      → (destination == d) ≡ false
      → Dict.get d v.outgoing_connections ≡ Dict.get d c.outgoing_connections

  drop_writer-Settled :
      (o : Option Writer) (v : TcpSocketChannel) (s : S)
      → Dict.get destination v.outgoing_connections ≡ o
      → Others v
      → let out = drop_writer net destination o v s in Settled destination c out.0 out.1.0
  unfolding drop_writer
  drop_writer-Settled none v s e h = dropped v e h
  drop_writer-Settled (some w) v s e h =
      dropped _ (rw (get-remove, eq_refl destination) refl) (λ d n. rw (get-remove, n) (h d n))

  wrote-Settled :
      (w : Writer) (v : TcpSocketChannel) (x : Bool × S)
      → Dict.get destination v.outgoing_connections ≡ some w
      → Others v
      → let out = wrote net destination v x in Settled destination c out.0 out.1.0
  unfolding wrote send_failed
  wrote-Settled w v (true, t) e h = kept v w e h
  wrote-Settled w v (false, t) e h = drop_writer-Settled _ v t refl h

  write_to-Settled :
      (o : Option Bytes) (w : Writer) (v : TcpSocketChannel) (s : S)
      → Dict.get destination v.outgoing_connections ≡ some w
      → Others v
      → let out = write_to net destination o w v s in Settled destination c out.0 out.1.0
  unfolding write_to send_failed
  write_to-Settled none w v s e h = drop_writer-Settled _ v s refl h
  write_to-Settled (some bytes) w v s e h = wrote-Settled w v (net.write w bytes s) e h

  opened-Settled :
      (payload : Bytes) (x : Option Writer × S)
      → let out = opened net destination payload c x in Settled destination c out.0 out.1.0
  unfolding opened send_failed
  opened-Settled payload (none, s) = drop_writer-Settled _ c s refl (λ d n. refl)
  opened-Settled payload (some w, s) =
      write_to-Settled (frame payload) w _ s (rw (get-put, eq_refl destination) refl)
        (λ d n. rw (get-put, n) refl)

  send_over-Settled :
      (a : String × ℤ) (payload : Bytes) (o : Option Writer) (s : S)
      → usable net (Dict.get destination c.outgoing_connections) s ≡ o
      → let out = send_over net destination a payload o c s in Settled destination c out.0 out.1.0
  unfolding send_over
  send_over-Settled (host, port) payload none s e =
      opened-Settled payload (net.open_connection host port s)
  send_over-Settled (host, port) payload (some w) s e =
      write_to-Settled (frame payload) w c s
        (usable-eq-some net (Dict.get destination c.outgoing_connections) w s e) (λ d n. refl)

  -- A send of a running channel to an address that can be read either delivers the message and leaves a
  -- connection to the address cached, or fails and leaves none cached, so that the next send opens a
  -- new one; the connections to other destinations stay.
  pub send-Settled :
      (int_of : String → Option ℤ) (payload : Bytes) (s : S) (a : String × ℤ)
      → c.running ≡ true
      → address int_of destination ≡ some a
      → (out : MessageStatus × (TcpSocketChannel × S)) × (send net int_of payload destination c s
          ≡ some out)
        × Settled destination c out.0 out.1.0
  unfolding send send_to
  send-Settled int_of payload s a r e =
      let o = usable net (Dict.get destination c.outgoing_connections) s in
      (
        send_over net destination a payload o c s,
        rw (r, e) refl,
        send_over-Settled a payload o s refl,
      )
