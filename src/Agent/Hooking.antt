-- ===== src/Agent/Hooking.antt =====
-- The message loop of an agent whose hook before the processing raises.
use agents_protocol.Prelude.{
  String, ◌≡◌, ◌≢◌, refl, ap, sym, ◌∙◌, ℕ, suc, true, some, List, [], ◌∷◌, ◌++◌, length, eq_iff,
  eq_refl, append-nil, append_assoc, arith,
}
use agents_protocol.Dict
use agents_protocol.Dict.Laws.{get-put}
use agents_protocol.Protocol.{MessageStatus}
use agents_protocol.Objects.{Ref}
use agents_protocol.Extensions.{ExtensionManager, pre_message_process, trigger}
use agents_protocol.Inbox.{Inbox}
use agents_protocol.Broker.World.{World, Act, done, raised}
use agents_protocol.Broker.Sending.{ClusterLink}
use agents_protocol.Agent.{LiveAgent, process_message, after_receive, go_on, message_loop}
use agents_protocol.Agent.Receiving.{messages, taken, receive_message-head, message_loop-round}

-- The world `v` is `w` without the messages in the inbox of the agent.
pub record IsEmptied {C : Type 0} (agent_id : String) (w v : World C) : Type 0 where
  pub empty : Dict.get agent_id v.inboxes ≡ some []
  pub others : (i : String) → i ≢ agent_id → Dict.get i v.inboxes ≡ Dict.get i w.inboxes
  pub rest : v ≡ record w { inboxes = v.inboxes }

module _ {C : Type 0} (link : ClusterLink C) (ext : ExtensionManager Ref (Act C MessageStatus))
    (uuid : World C → String) (error_type : String → String) where
  -- The callbacks before the processing of a message raise, and change nothing.
  abbrev pub IsBarring : LiveAgent C → Type 0
  IsBarring a =
      (r : Ref) (w : World C)
      → (e : String) × (trigger pre_message_process a.hooks (some r) w ≡ (some e, w))

  process_message-raised :
      (a : LiveAgent C) (r : Ref) (w : World C) (e : String)
      → trigger pre_message_process a.hooks (some r) w ≡ (some e, w)
      → process_message link ext uuid error_type a r w ≡ raised e w
  unfolding process_message
  process_message-raised a r w e h = rw h refl

  after_receive-raised :
      (n : ℕ) (a : LiveAgent C) (r : Ref) (processed : List Ref) (w : World C) (e : String)
      → process_message link ext uuid error_type a r w ≡ raised e w
      → after_receive link ext uuid error_type
          (message_loop link ext uuid error_type n)
          processed
          (some r, (a, w))
        ≡ message_loop link ext uuid error_type n a (processed ++ r ∷ []) w
  unfolding after_receive
  after_receive-raised n a r processed w e h =
      ap
        (λ o.
          go_on link ext uuid error_type o
            (message_loop link ext uuid error_type n a (processed ++ r ∷ [])))
        h

  round_raised :
      (n : ℕ) (a : LiveAgent C) (r : Ref) (processed : List Ref) (w v : World C)
      → IsBarring a
      → message_loop link ext uuid error_type (suc n) a processed w
        ≡ after_receive link ext uuid error_type
            (message_loop link ext uuid error_type n)
            processed
            (some r, (a, v))
      → message_loop link ext uuid error_type (suc n) a processed w
        ≡ message_loop link ext uuid error_type n a (processed ++ r ∷ []) v
  round_raised n a r processed w v bars h =
      let (e, k) = bars r v in
      h ∙ after_receive-raised n a r processed v e (process_message-raised a r v e k)

  drops_from :
      (a : LiveAgent C)
      → IsBarring a
      → a.running ≡ true
      → a.connected ≡ true
      → (q : Inbox) (processed : List Ref) (w : World C)
      → Dict.get a.info.agent_id w.inboxes ≡ some q
      → (v : World C) × (message_loop link ext uuid error_type (length q) a processed w
          ≡ done (a, processed ++ messages q) v)
        × IsEmptied a.info.agent_id w v
  drops_from a bars on c [] processed w h = (
    w,
    unfold message_loop in ap (λ l. done (a, l) w) (sym (append-nil processed)),
    record { empty = h; others = λ i n. refl; rest = refl },
  )
  drops_from a bars on c (e ∷ q) processed w h =
      let id = a.info.agent_id in
      let u = taken id q w in
      let left : Dict.get id u.inboxes ≡ some q = rw (get-put, eq_refl id) in
      let (v, k, x) = drops_from a bars on c q (processed ++ e.message ∷ []) u left in
      let first =
        message_loop-round link ext uuid error_type (length q) a processed w on
        ∙ ap
            (after_receive link ext uuid error_type
              (message_loop link ext uuid error_type (length q)) processed)
            (receive_message-head a e q w c h) in
      (
        v,
        round_raised (length q) a e.message processed w u bars first
            ∙ (k ∙ ap (λ l. done (a, l) v) (append_assoc processed (e.message ∷ []) (messages q))),
        record {
          empty = x.empty;
          others = λ i n. x.others i n ∙ ground (arith, get-put i id q w.inboxes, eq_iff id i);
          rest = x.rest;
        },
      )

  -- Let an agent run, connected to a broker, and let the callbacks before the processing raise, with no
  -- change, for every message. Then as many rounds of the loop as the inbox has messages take them all,
  -- and after that the broker is as before but for the inbox of the agent, which is empty.
  pub message_loop-barred :
      (a : LiveAgent C) (q : Inbox) (w : World C)
      → IsBarring a
      → a.running ≡ true
      → a.connected ≡ true
      → Dict.get a.info.agent_id w.inboxes ≡ some q
      → (v : World C) × (message_loop link ext uuid error_type (length q) a [] w
          ≡ done (a, messages q) v)
        × IsEmptied a.info.agent_id w v
  message_loop-barred a q w bars on c h = drops_from a bars on c q [] w h
