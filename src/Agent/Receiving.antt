-- ===== src/Agent/Receiving.antt =====
-- What a round of the message loop receives.
use agents_protocol.Prelude.{
  String, ◌≡◌, refl, ap, ◌∙◌, ℕ, suc, if◌then◌else◌, true, none, some, List, [], ◌∷◌, ◌++◌, map,
}
use agents_protocol.Dict
use agents_protocol.Protocol.{MessageStatus}
use agents_protocol.Objects.{Ref}
use agents_protocol.Extensions.{ExtensionManager}
use agents_protocol.Inbox
use agents_protocol.Inbox.{Inbox, Entry}
use agents_protocol.Broker.World.{World, Act, done}
use agents_protocol.Broker.Delivery.{get_next_message_for_agent}
use agents_protocol.Broker.Sending.{ClusterLink}
use agents_protocol.Agent.{
  LiveAgent, received, from_own_inbox, receive_message, process_message, after_receive, go_on,
  message_loop,
}

-- The messages of an inbox in the order in which it hands them out.
abbrev pub messages : Inbox → List Ref
messages = map (λ e. e.message)

module _ {C : Type 0} where
  -- The world after the head of the inbox was taken, `q` being left.
  abbrev pub taken : String → Inbox → World C → World C
  taken agent_id q w = record w { inboxes = Dict.put agent_id q w.inboxes }

  pub receive_message-head :
      (a : LiveAgent C) (e : Entry) (q : Inbox) (w : World C)
      → a.connected ≡ true
      → Dict.get a.info.agent_id w.inboxes ≡ some (e ∷ q)
      → receive_message a w ≡ (some e.message, (a, taken a.info.agent_id q w))
  receive_message-head a e q w c h =
      let k : get_next_message_for_agent a.info.agent_id w
          ≡ (some e.message, taken a.info.agent_id q w) =
        unfold get_next_message_for_agent in
        rw (h, get_next_message_for_agent) (unfold Inbox.get in refl) in
      unfold receive_message in rw (c, k) (unfold received in refl)

  received-none :
      (a : LiveAgent C) (w : World C) → a.inbox ≡ [] → received a (none, w) ≡ (none, (a, w))
  unfolding received from_own_inbox
  received-none a w i = rw i refl

  pub receive_message-none :
      (a : LiveAgent C) (w : World C)
      → a.inbox ≡ []
      → a.connected ≡ true
      → get_next_message_for_agent a.info.agent_id w ≡ (none, w)
      → receive_message a w ≡ (none, (a, w))
  unfolding receive_message
  receive_message-none a w i c k =
      ap
        (λ b.
          if b
          then received a (get_next_message_for_agent a.info.agent_id w)
          else received a (none, w))
        c
      ∙ (ap (received a) k ∙ received-none a w i)

module _ {C : Type 0} (link : ClusterLink C) (ext : ExtensionManager Ref (Act C MessageStatus))
    (uuid : World C → String) (error_type : String → String) where
  pub message_loop-round :
      (n : ℕ) (a : LiveAgent C) (processed : List Ref) (w : World C)
      → a.running ≡ true
      → message_loop link ext uuid error_type (suc n) a processed w
        ≡ after_receive link ext uuid error_type
            (message_loop link ext uuid error_type n)
            processed
            (receive_message a w)
  unfolding message_loop
  message_loop-round n a processed w on =
      ap
        (λ b.
          if b
          then after_receive link ext uuid error_type (message_loop link ext uuid error_type n)
              processed (receive_message a w)
          else done (a, processed) w)
        on

  pub after_receive-done :
      (n : ℕ) (a : LiveAgent C) (r : Ref) (processed : List Ref) (w v : World C)
      → process_message link ext uuid error_type a r w ≡ done tt v
      → after_receive link ext uuid error_type
          (message_loop link ext uuid error_type n)
          processed
          (some r, (a, w))
        ≡ message_loop link ext uuid error_type n a (processed ++ r ∷ []) v
  unfolding after_receive
  after_receive-done n a r processed w v e =
      ap
        (λ o.
          go_on link ext uuid error_type o
            (message_loop link ext uuid error_type n a (processed ++ r ∷ [])))
        e
