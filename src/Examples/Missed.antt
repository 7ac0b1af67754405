-- ===== src/Examples/Missed.antt =====
-- Why an echo agent that asks does not see the answer.
use agents_protocol.Prelude.{
  ℕ, String, ◌≡◌, refl, ap, ◌∙◌, none, some, [], ◌∷◌, arith, eq_refl, inr,
}
use agents_protocol.Dict
use agents_protocol.Dict.Laws.{get-put}
use agents_protocol.Json.{Value, str, Fields, find_or}
use agents_protocol.Protocol.{
  AgentMessage, MessageType, delivered, create_reply, set_correlation_id_if_none,
}
use agents_protocol.Objects.{Ref}
use agents_protocol.Sorting.{insert}
use agents_protocol.Broker.World.{World, done, after, fields, now}
use agents_protocol.Broker.Sending.{ClusterLink, do_send}
use agents_protocol.Broker.Taking.{get_next_message_for_agent-empty}
use agents_protocol.Agent.{
  LiveAgent, register_handler, sign, send_message, receive_message, message_loop, handle, recover,
}
use agents_protocol.Agent.Sends.{reply_of, reply_entry, CanAnswer, Answered}
use agents_protocol.Agent.Replies.{plain, process, process-recover}
use agents_protocol.Agent.Receiving.{taken, receive_message-head, receive_message-none}
use agents_protocol.Agent.Answers.{
  message_loop-send_message, message_loop-one, send_message-do_send,
}
use agents_protocol.Examples.Echo.{echo_of, handle_echo, echo_agent, online}
use agents_protocol.Examples.Met.{AreMet, met-CanReach, fields-taken, met-CanAnswer}

create_reply-content :
    (new_id : String) (now : ℕ) (m : AgentMessage) (content : Fields)
    → (create_reply new_id now m content none none).content ≡ content
unfolding create_reply set_correlation_id_if_none
create_reply-content new_id now m content = ground arith

module _ {C : Type 0} (link : ClusterLink C) (uuid : World C → String)
    (error_type : String → String) (format : Value → String) where
  -- What has no handler is dropped.
  process-response :
      (i n : String) (q : Ref) (w : World C)
      → (fields q w).type ≡ MessageType.response
      → process link [] uuid error_type (online format i n) q w ≡ done tt w
  unfolding echo_agent register_handler
  process-response i n q w t =
      process-recover link [] uuid error_type (online format i n) q w
        (record { before_it = refl; after_it = refl })
      ∙ (rw t (unfold handle recover in refl))

  answered-content :
      (a : LiveAgent C) (type : MessageType) (r : Ref) (content : Fields) (t u : World C)
      → Answered (reply_of uuid a type r content none t) r [] t (done tt u)
      → (fields t.heap.next u).content ≡ content
  answered-content a type r content t u h =
      ap (λ (m : AgentMessage). m.content) h.message
      ∙ create_reply-content (uuid t) (now t) (fields r t) content

  -- What is left when the first agent's loop had its round after the answer came.
  missed :
      (i n : String) (reply : AgentMessage) (r : Ref) (t u : World C)
      → (fields r t).sender_id ≡ i
      → reply.type ≡ MessageType.response
      → Answered reply r [] t (done tt u)
      → let s = online format i n in
        (x : World C) × (message_loop link (plain link [] uuid error_type) uuid error_type 1 s [] u
          ≡ done (s, t.heap.next ∷ []) x)
        × (receive_message s x ≡ (none, (s, x)))
  unfolding echo_agent register_handler insert
  missed i n reply r t u e k h =
      let s = online format i n in
      let x = taken i [] u in
      let full : Dict.get i u.inboxes ≡ some (reply_entry r t ∷ []) =
        ap (Dict.get i) h.inboxes
        ∙ (ap (λ a. Dict.get i (Dict.put a (reply_entry r t ∷ []) t.inboxes)) e
            ∙ rw (get-put, eq_refl i) refl) in
      let empty : Dict.get i x.inboxes ≡ some [] = rw (get-put, eq_refl i) refl in
      let p =
        process-response i n t.heap.next x (ap (λ (m : AgentMessage). m.type) h.message ∙ k) in
      (
        x,
        message_loop-one link [] uuid error_type s t.heap.next u x x refl
            (receive_message-head s (reply_entry r t) [] u refl full) p,
        receive_message-none s x refl refl (get_next_message_for_agent-empty i x (inr empty)),
      )

  -- Let two echo agents run, connected to a broker without middleware, rules and access control where
  -- no put raises, with empty inboxes, and let the first send a request to the second, as in the
  -- example. Then the request is delivered, the second echoes its text in one round of its loop, and
  -- one round of the first agent's loop takes the echo out of its inbox and drops it: a call of
  -- `receive_message` after that returns nothing.
  pub receive_message-missed :
      (i j n m : String) (r : Ref) (w : World C)
      → AreMet i j r w
      → let ext = plain link [] uuid error_type in
        let s = online format i n in
        let a = online format j m in
        let o = send_message link ext uuid error_type s r w in
        (o ≡ done delivered (after o))
        × (u : World C) × (message_loop link ext uuid error_type 1 a [] (after o)
            ≡ done (a, r ∷ []) u)
        × (q : Ref) × ((fields q u).content
            ≡ echo_of format j (find_or "text" (str "") (fields r w).content))
        × (x : World C) × (message_loop link ext uuid error_type 1 s [] u ≡ done (s, q ∷ []) x)
        × (receive_message s x ≡ (none, (s, x)))
  unfolding echo_agent register_handler
  receive_message-missed i j n m r w h =
      let ext = plain link [] uuid error_type in
      let s = online format i n in
      let a = online format j m in
      let o = send_message link ext uuid error_type s r w in
      let t = taken j [] (after o) in
      let d : o ≡ do_send link [] r (sign i r w) =
        send_message-do_send link [] uuid error_type s r w refl in
      let f : fields r t ≡ record (fields r w) { sender_id = i; status = delivered } =
        rw d (fields-taken link uuid error_type format i j r w h) in
      let received = find_or "text" (str "") (fields r t).content in
      let reply = reply_of uuid a MessageType.response r (echo_of format j received) none t in
      let type : (fields r t).type ≡ MessageType.request =
        ap (λ (m : AgentMessage). m.type) f ∙ h.request in
      let can : CanAnswer [] reply r [] t =
        rw d (met-CanAnswer link uuid error_type format i j m r w _ h) in
      let (sent, (u, round, answered), reply_to) =
        message_loop-send_message link [] uuid error_type s a (handle_echo format j) r [] w t "echo"
          received _ refl refl refl (record { before_it = refl; after_it = refl })
          (met-CanReach link uuid error_type format i j r w h) type refl
          (unfold handle_echo in refl) type can in
      let (x, loop, nothing) =
        missed i n reply r t u (ap (λ (m : AgentMessage). m.sender_id) f) refl answered in
      (
        sent,
        u,
        round,
        t.heap.next,
        answered-content a MessageType.response r (echo_of format j received) t u answered
            ∙ ap (λ (m : AgentMessage). echo_of format j (find_or "text" (str "") m.content)) f,
        x,
        loop,
        nothing,
      )
