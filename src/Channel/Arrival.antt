-- ===== src/Channel/Arrival.antt =====
-- From the sending TCP channel to the receiving one, over one connection.
use agents_protocol.Prelude.{
  ◌≤◌, String, ◌≡◌, refl, ap, sym, ◌∙◌, true, false, Option, none, some, List, [], ◌∷◌, ◌++◌, arith,
  ℤ, or_else, append_assoc, append-nil, length, ltb,
}
use agents_protocol.Dict
use agents_protocol.Protocol.{MessageStatus, delivered}
use agents_protocol.Channel.Stream.{Bytes, frame, max_length, process_stream}
use agents_protocol.Channel.Framing.{write_all, IsShort, process_stream-write_all}
use agents_protocol.Channel.Tcp.{
  Writer, Sockets, TcpSocketChannel, address, wrote, write_to, usable, send_over, send_to, send,
}

-- A connection that takes all that is written to it, `written` being what it took so far.
pub record IsHealthy {S : Type 0} (net : Sockets S) (w : Writer) (written : S → Bytes)
    : Type 0 where
  pub takes :
      (bytes : Bytes) (s : S)
      → (t : S) × (net.write w bytes s ≡ (true, t)) × (written t ≡ written s ++ bytes)
  pub stays : (s : S) → net.is_closing w s ≡ false

-- The rest of a sequence of sends, if the message was delivered.
abbrev pub if_delivered :
    {S : Type 0}
    → Option (MessageStatus × (TcpSocketChannel × S))
    → (TcpSocketChannel → S → Option (TcpSocketChannel × S))
    → Option (TcpSocketChannel × S)
if_delivered (some (delivered, (c, s))) rest = rest c s
if_delivered _ rest = none

module _ {S : Type 0} (net : Sockets S) (int_of : String → Option ℤ) (destination : String) where
  -- The payloads are sent one after the other, as long as they are delivered.
  pub send_all : List Bytes → TcpSocketChannel → S → Option (TcpSocketChannel × S)
  send_all [] c s = some (c, s)
  send_all (p ∷ ps) c s = if_delivered (send net int_of p destination c s) (send_all ps)

  module _ (w : Writer) (written : S → Bytes) (healthy : IsHealthy net w written)
      (c : TcpSocketChannel) (a : String × ℤ) (on : c.running ≡ true)
      (here : address int_of destination ≡ some a)
      (cached : Dict.get destination c.outgoing_connections ≡ some w) where
    send-delivered :
        (p bytes : Bytes) (s t : S)
        → frame p ≡ some bytes
        → net.write w bytes s ≡ (true, t)
        → send net int_of p destination c s ≡ some (delivered, (c, t))
    unfolding send send_to
    send-delivered p bytes s t e k =
        let u : usable net (some w) s ≡ some w = unfold usable in rw (healthy.stays s) in
        rw (on, here, cached, u)
          (unfold send_over in rw e (unfold write_to in rw k (unfold wrote in refl)))

    frame-short : (p : Bytes) → length p ≤ max_length → frame p ≡ some (or_else (frame p) [])
    unfolding frame
    frame-short p h = let short : ltb (length p) 4294967296 ≡ true = ground arith in rw short refl

    send_all-written :
        (ps : List Bytes) (s : S)
        → IsShort ps
        → (t : S) × (send_all ps c s ≡ some (c, t)) × (written t ≡ written s ++ write_all ps)
    unfolding send_all write_all
    send_all-written [] s h = (s, refl, sym (append-nil (written s)))
    send_all-written (p ∷ ps) s h =
        let bytes = or_else (frame p) [] in
        let (t, k, e) = healthy.takes bytes s in
        let (u, l, f) = send_all-written ps t h.1 in
        (
          u,
          ap (λ o. if_delivered o (send_all ps)) (send-delivered p bytes s t (frame-short p h.0) k)
              ∙ l,
          f ∙ (ap (λ x. x ++ write_all ps) e ∙ append_assoc (written s) bytes (write_all ps)),
        )

    -- Let a running channel have a connection to the destination cached that takes all that is written to
    -- it and has taken nothing yet. Then payloads of at most 10 MiB each that are sent to it one after
    -- the other are all delivered, and the receiver reads them from its stream as they were sent: the
    -- same payloads in the same order, and no others.
    pub process_stream-send_all :
        (ps : List Bytes) (s : S)
        → IsShort ps
        → written s ≡ []
        → (t : S) × (send_all ps c s ≡ some (c, t)) × (process_stream (written t) ≡ ps)
    process_stream-send_all ps s h e =
        let (t, k, f) = send_all-written ps s h in
        (
          t,
          k,
          ap process_stream (f ∙ ap (λ x. x ++ write_all ps) e) ∙ process_stream-write_all ps h,
        )
