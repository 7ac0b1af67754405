-- ===== src/Channel/Posting.antt =====
-- From a request on a stream of the HTTP channel to an inbox of its broker.
use agents_protocol.Prelude.{
  ◌≤◌, String, ◌≡◌, refl, ap, ◌∙◌, false, Option, some, List, ◌∷◌, ◌++◌, eqb, length, arith,
}
use agents_protocol.Protocol.{AgentMessage, MessageStatus}
use agents_protocol.Sorting.{All}
use agents_protocol.Extensions.{ValidationRule}
use agents_protocol.Inbox.{Inbox}
use agents_protocol.Broker.World.{World, Outcome, done, after, fields}
use agents_protocol.Broker.Sending.{ClusterLink, do_send}
use agents_protocol.Broker.Direct.{Placed}
use agents_protocol.Agent.Sends.{send_unwrapped}
use agents_protocol.Channel.Stream.{Bytes}
use agents_protocol.Channel.Http.{content_length}
use agents_protocol.Channel.Requests.{IsLine, join, written, read_request-written}
use agents_protocol.Channel.Inbound.{adopt}
use agents_protocol.Channel.EndToEnd.{CanArrive, bare, fields-adopt, adopt-Placed}
use agents_protocol.Channel.Serving.{
  post_method, message_path, Written, ok, acknowledge, accept, respond, handle, handle_request,
}

module _ {C : Type 0} (link : ClusterLink C) (rules : List ValidationRule)
    (read_message : Bytes → Option AgentMessage) where
  -- The message of the request is in the inbox, and the request is answered with its id.
  pub record Posted (m : AgentMessage) (rid : String) (q : Inbox) (w : World C)
      (o : Outcome C Written) : Type 0 where
    pub sending : Outcome C MessageStatus
    pub placed : let (r, v) = adopt m w in Placed rid r q v sending
    pub answered : o ≡ done (ok m.id) (after sending)

  accept-send :
      (m : AgentMessage) (w : World C)
      → let (r, v) = adopt m w in
        accept link (bare link rules read_message) read_message (some m) w
        ≡ acknowledge link (bare link rules read_message) read_message r (do_send link rules r v)
  unfolding accept adopt
  accept-send m w =
      let (r, v) = adopt m w in
      ap (acknowledge link (bare link rules read_message) read_message r)
        (send_unwrapped link rules r v)

  accept-Posted :
      (m : AgentMessage) (rid : String) (q : Inbox) (w : World C)
      → CanArrive rules m rid q w
      → Posted m rid q w (accept link (bare link rules read_message) read_message (some m) w)
  accept-Posted m rid q w h =
      let (r, v) = adopt m w in
      let p = adopt-Placed link rules read_message m rid q w h in
      let (u, e) = p.returns in
      let o = do_send link rules r v in
      let id : (fields r (after o)).id ≡ m.id =
        ap (λ (x : AgentMessage). x.id) p.message
        ∙ ap (λ (x : AgentMessage). x.id) (fields-adopt link rules read_message m w) in
      let k : acknowledge link (bare link rules read_message) read_message r o
          ≡ done (ok (fields r (after o)).id) (after o) =
        unfold acknowledge in rw e refl in
      record {
        sending = o;
        placed = p;
        answered = accept-send m w ∙ (k ∙ ap (λ i. done (ok i) (after o)) id);
      }

  -- Let a stream begin with a request to post to "/message", with a head of at most 64 KiB, of lines
  -- that are not empty and of ASCII without carriage returns, the first one with a version without
  -- blanks, and let the lines give the length of the body that follows. Let the body be read as a
  -- message for an agent of the broker, which has no middleware, that passes the checks, let the
  -- agent's inbox have room, and let the put not raise. Then the message is in the inbox, and the
  -- request is answered with its id.
  pub handle_request-written :
      (version : Bytes) (headers : List Bytes) (body later : Bytes) (m : AgentMessage)
      (rid : String) (q : Inbox) (w : World C)
      → let line = post_method ++ 32 ∷ (message_path ++ 32 ∷ version) in
        All IsLine (line ∷ headers)
        → All (λ b. eqb b 32 ≡ false) version
        → content_length 0 (line ∷ headers) ≡ some (length body)
        → length (join (line ∷ headers)) ≤ 65536
        → read_message body ≡ some m
        → CanArrive rules m rid q w
        → Posted m rid q w (
            handle_request link
              (bare link rules read_message)
              read_message
              (written (line ∷ headers) (body ++ later))
              w)
  unfolding handle_request
  handle_request-written version headers body later m rid q w h v n size e can =
      let line = post_method ++ 32 ∷ (message_path ++ 32 ∷ version) in
      let request =
        read_request-written post_method message_path version headers body later h (ground arith)
          (ground arith) v n size in
      rw request (unfold handle respond in rw e (accept-Posted m rid q w can))
