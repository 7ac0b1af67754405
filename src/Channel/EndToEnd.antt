-- ===== src/Channel/EndToEnd.antt =====
-- From a sending TCP channel to an inbox of the receiving channel's broker.
use agents_protocol.Prelude.{
  ◌<◌, String, ◌≡◌, refl, ap, ◌∙◌, true, Option, none, some, List, [], ◌∷◌, ◌++◌, ℤ, length, arith,
}
use agents_protocol.Dict
use agents_protocol.Protocol.{AgentMessage, MessageStatus}
use agents_protocol.Objects.{Ref, write}
use agents_protocol.Sorting.{All}
use agents_protocol.Extensions.{ValidationRule, ExtensionManager, validate_message}
use agents_protocol.Inbox.{Inbox, maxsize}
use agents_protocol.Registry.{Agent}
use agents_protocol.Security.{status, success}
use agents_protocol.Broker.World.{World, Outcome, Act, done, raised, blocked, bind, fields}
use agents_protocol.Broker.Sending.{ClusterLink, verdict, do_send}
use agents_protocol.Broker.Refusals.{as_sent}
use agents_protocol.Broker.Direct.{Placed, do_send-Placed}
use agents_protocol.Agent.Sends.{send_unwrapped}
use agents_protocol.Channel.Stream.{Bytes}
use agents_protocol.Channel.Framing.{IsShort}
use agents_protocol.Channel.Tcp.{Writer, Sockets, TcpSocketChannel, address}
use agents_protocol.Channel.Arrival.{IsHealthy, send_all, process_stream-send_all}
use agents_protocol.Channel.Inbound.{adopt, pass_in, logged, deliver_all, handle_stream, listen}

-- What it takes for a message from outside to be delivered to the agent `rid`, whose inbox is `q`.
pub record CanArrive {C : Type 0} (rules : List ValidationRule) (m : AgentMessage) (rid : String)
    (q : Inbox) (w : World C) : Type 0 where
  pub valid : validate_message rules (as_sent m) ≡ none
  pub secure : verdict w.security_manager (as_sent m) ≡ status success
  pub addressed : m.recipient_id ≡ some rid
  pub agent : Agent
  pub known : Dict.get rid w.agents ≡ some agent
  pub inbox : Dict.get rid w.inboxes ≡ some q
  pub room : length q < maxsize
  pub calm : w.put_error w.counter ≡ none

module _ {C : Type 0} (link : ClusterLink C) (rules : List ValidationRule)
    (read_message : Bytes → Option AgentMessage) where
  abbrev pub bare : ExtensionManager Ref (Act C MessageStatus)
  bare = record { middleware = []; validation_rules = rules }

  -- The message `m` came in as a new object and is in the inbox.
  pub record Arrived (m : AgentMessage) (rid : String) (q : Inbox) (w : World C)
      (o : Outcome C (Unit {0})) : Type 0 where
    pub sending : Outcome C MessageStatus
    pub ends : o ≡ bind sending (λ s. done tt)
    pub placed : let (r, v) = adopt m w in Placed rid r q v sending

  deliver_all-skip :
      (ps qs : List Bytes) (w : World C)
      → All (λ p. read_message p ≡ none) ps
      → deliver_all link bare read_message (ps ++ qs) w ≡ deliver_all link bare read_message qs w
  unfolding deliver_all pass_in
  deliver_all-skip [] qs w h = refl
  deliver_all-skip (p ∷ ps) qs w h = let ih = deliver_all-skip ps qs w h.1 in rw h.0 ih

  pub fields-adopt : (m : AgentMessage) (w : World C) → fields (adopt m w).0 (adopt m w).1 ≡ m
  unfolding adopt write
  fields-adopt m w = ground arith

  pub adopt-Placed :
      (m : AgentMessage) (rid : String) (q : Inbox) (w : World C)
      → CanArrive rules m rid q w
      → let (r, v) = adopt m w in Placed rid r q v (do_send link rules r v)
  adopt-Placed m rid q w h =
      let (r, v) = adopt m w in
      let f = fields-adopt m w in
      do_send-Placed link rules r v rid h.agent q
        (ap (λ x. validate_message rules (as_sent x)) f ∙ h.valid)
        (ap (λ x. verdict v.security_manager (as_sent x)) f ∙ (unfold adopt in h.secure))
        (ap (λ (x : AgentMessage). x.recipient_id) f ∙ h.addressed) (unfold adopt in h.known)
        (unfold adopt in h.inbox) h.room (unfold adopt in h.calm)

  pass_in-Arrived :
      (m : AgentMessage) (rid : String) (q : Inbox) (w : World C)
      → CanArrive rules m rid q w
      → Arrived m rid q w (pass_in link bare read_message (some m) w)
  pass_in-Arrived m rid q w h =
      let (r, v) = adopt m w in
      record {
        sending = do_send link rules r v;
        ends = unfold pass_in in ap (λ o. bind o (λ s. done tt)) (send_unwrapped link rules r v);
        placed = adopt-Placed m rid q w h;
      }

  logged-Arrived :
      (m : AgentMessage) (rid : String) (q : Inbox) (w : World C) (o : Outcome C (Unit {0}))
      → Arrived m rid q w o
      → Arrived m rid q w (logged link bare read_message o (λ v. done tt v))
  logged-Arrived m rid q w (done x v) h = h
  logged-Arrived m rid q w (blocked v) h = h
  logged-Arrived m rid q w (raised e v) h = absurd (let (v, d) = h.placed.returns in cc (d, h.ends))

  deliver_all-Arrived :
      (ps : List Bytes) (p : Bytes) (m : AgentMessage) (rid : String) (q : Inbox) (w : World C)
      → All (λ x. read_message x ≡ none) ps
      → read_message p ≡ some m
      → CanArrive rules m rid q w
      → Arrived m rid q w (deliver_all link bare read_message (ps ++ p ∷ []) w)
  deliver_all-Arrived ps p m rid q w bad good h =
      let k : deliver_all link bare read_message (p ∷ []) w
          ≡ logged link bare read_message (pass_in link bare read_message (some m) w)
              (λ v. done tt v) =
        unfold deliver_all in
        ap
          (λ x. logged link bare read_message (pass_in link bare read_message x w) (λ v. done tt v))
          good in
      rw (deliver_all-skip ps (p ∷ []) w bad, k)
        (logged-Arrived m rid q w (pass_in link bare read_message (some m) w)
          (pass_in-Arrived m rid q w h))

  listen-next :
      (p : Bytes) (qs rs : List Bytes) (w : World C)
      → ((v : World C) → listen link bare read_message qs v ≡ listen link bare read_message rs v)
      → listen link bare read_message (p ∷ qs) w ≡ listen link bare read_message (p ∷ rs) w
  unfolding listen
  listen-next p qs rs w h = listened (pass_in link bare read_message (read_message p) w)
    where
      listened :
          (o : Outcome C (Unit {0}))
          → bind o (λ x. listen link bare read_message qs)
            ≡ bind o (λ x. listen link bare read_message rs)
      listened (done x v) = h v
      listened (raised e v) = refl
      listened (blocked v) = refl

  -- One payload that is no message ends a WebSocket connection: whatever comes after it is not read.
  pub listen-unreadable :
      (ps : List Bytes) (p : Bytes) (qs : List Bytes) (w : World C)
      → read_message p ≡ none
      → listen link bare read_message (ps ++ p ∷ qs) w
        ≡ listen link bare read_message (ps ++ p ∷ []) w
  listen-unreadable [] p qs w e = unfold listen in rw e (unfold pass_in in refl)
  listen-unreadable (x ∷ ps) p qs w e =
      let ih : (v : World C)
          → listen link bare read_message (ps ++ p ∷ qs) v
            ≡ listen link bare read_message (ps ++ p ∷ []) v =
        λ v. listen-unreadable ps p qs v e in
      listen-next x (ps ++ p ∷ qs) (ps ++ p ∷ []) w ih

  module _ {S : Type 0} (net : Sockets S) (int_of : String → Option ℤ) (destination : String)
      (w : Writer) (written : S → Bytes) (healthy : IsHealthy net w written) (c : TcpSocketChannel)
      (a : String × ℤ) (on : c.running ≡ true) (here : address int_of destination ≡ some a)
      (cached : Dict.get destination c.outgoing_connections ≡ some w) where
    -- Let a running TCP channel have a healthy connection to another node cached, to which nothing
    -- was written yet, and let it send payloads of at most 10 MiB each, of which only the last one is
    -- a message, for an agent of the other node's broker that has no middleware, where it passes the
    -- checks, the inbox has room, and the put does not raise. Then all sends report a delivery, and
    -- what the other node reads from its end of the connection puts the message into the agent's
    -- inbox, the payloads before it changing nothing.
    pub handle_stream-send_all :
        (ps : List Bytes) (p : Bytes) (s : S) (m : AgentMessage) (rid : String) (q : Inbox)
        (v : World C)
        → IsShort (ps ++ p ∷ [])
        → written s ≡ []
        → All (λ x. read_message x ≡ none) ps
        → read_message p ≡ some m
        → CanArrive rules m rid q v
        → (t : S) × (send_all net int_of destination (ps ++ p ∷ []) c s ≡ some (c, t))
          × Arrived m rid q v (handle_stream link bare read_message (written t) v)
    handle_stream-send_all ps p s m rid q v h e bad good can =
        let (t, k, f) =
          process_stream-send_all net int_of destination w written healthy c a on here cached
            (ps ++ p ∷ []) s h e in
        (t, k, (unfold handle_stream in rw f (deliver_all-Arrived ps p m rid q v bad good can)))
