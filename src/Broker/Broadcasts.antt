-- ===== src/Broker/Broadcasts.antt =====
-- The broadcast: a copy for each agent but the sender.
use agents_protocol.Prelude.{
  ◌<◌, String, ◌≡◌, refl, ap, sym, ◌≢◌, ◌≤◌, ◌⊎◌, ◌∙◌, Bool, true, false, not, some, ◌==◌, arith,
  eq_iff, contains, count-keep, contains-keep, IsNodup, Option-cases, inl, inr,
}
use agents_protocol.Dict
use agents_protocol.Dict.Laws.{contains-keys}
use agents_protocol.Objects.{Ref}
use agents_protocol.Sorting.{insert}
use agents_protocol.Protocol.{AgentMessage, delivered, level}
use agents_protocol.Inbox.{Inbox, Entry, before}
use agents_protocol.Broker.Copies.{make_copies-new}
use agents_protocol.Broker.World.{World, done, fields}
use agents_protocol.Broker.Delivery.{make_copies, deliver_copies, broadcast, audience}
use agents_protocol.Broker.Gathering.{
  HasRoom, IsCalm, HasGot, receivers-make_copies, gather-Gathered,
}

module _ {C : Type 0} where
  -- The agent has got a copy of the message: one entry more in its inbox, with the priority of the message
  -- and a number that was not given out in `w`, for an object that was none in `w`. It has the fields of
  -- the message but for its recipient, which is the agent, and its status, which is delivered.
  pub record HasCopy (a : String) (r : Ref) (w v : World C) : Type 0 where
    pub e : Entry
    pub q : Inbox
    pub old : Dict.get a w.inboxes ≡ some q
    pub inbox : Dict.get a v.inboxes ≡ some (insert before e q)
    pub priority : e.priority ≡ level (fields r w).priority
    pub later : w.counter ≤ e.counter
    pub fresh : w.heap.next ≤ e.message
    pub copy :
        fields e.message v ≡ record (fields r w) { recipient_id = some a; status = delivered }

  HasGot-HasCopy :
      (a : String) (c r : Ref) (w u v : World C)
      → u.inboxes ≡ w.inboxes
      → u.counter ≡ w.counter
      → w.heap.next ≤ c
      → fields c u ≡ record (fields r w) { recipient_id = some a }
      → HasGot a c u v
      → HasCopy a r w v
  HasGot-HasCopy a c r w u v same number new_ copied h = record {
    e = h.e;
    q = h.q;
    old = ap (Dict.get a) (sym same) ∙ h.old;
    inbox = h.inbox;
    priority = h.priority ∙ ap (λ (m : AgentMessage). level m.priority) copied;
    later = omega (arith, h.later, number);
    fresh = omega (arith, h.message);
    copy =
        rw h.message
          (h.content ∙ ap (λ (m : AgentMessage). record m { status = delivered }) copied);
  }

  -- Let the broker's agents be distinct, each with an inbox that has room, let no put raise, and let the
  -- message be an object that is there. Then a broadcast returns; each agent but the sender has got a
  -- copy of the message, which is a new object with that agent as the recipient; and the inbox of the
  -- sender, and of whoever is no agent, has not changed.
  pub broadcast-Spread :
      (r : Ref) (w : World C)
      → IsNodup (Dict.keys w.agents)
      → HasRoom (Dict.keys w.agents) w
      → IsCalm w
      → r < w.heap.next
      → (v : World C) × (broadcast r w ≡ done tt v)
        × ((a : String) → Dict.has a w.agents ≡ true → a ≢ (fields r w).sender_id → HasCopy a r w v)
        × ((a : String)
            → (Dict.has a w.agents ≡ false) ⊎ (a ≡ (fields r w).sender_id)
            → Dict.get a v.inboxes ≡ Dict.get a w.inboxes)
  broadcast-Spread r w distinct room calm there =
      let p : String → Bool = λ a. not (a == (fields r w).sender_id) in
      let all_keys = Dict.keys w.agents in
      let ids = audience r w in
      let tasks = (make_copies ids r w.heap).0 in
      let w' : World C = record w { heap = (make_copies ids r w.heap).1 } in
      let e = receivers-make_copies ids r w.heap in
      let once : IsNodup ids = λ a. ground (arith, count-keep p a all_keys, distinct a) in
      let rest : HasRoom ids w = λ a m. room a (ground (arith, contains-keep p a all_keys)) in
      let k = gather-Gathered tasks w' (rw e once) (rw e rest) calm in
      let known : (a : String) → contains a ids ≡ Dict.has a tasks =
        λ a. ap (contains a) (sym e) ∙ contains-keys a tasks in
      (
        k.world,
        unfold broadcast deliver_copies in k.returns,
        λ a m other. elim (Option-cases (Dict.get a tasks)) [
          | inl x ↦ absurd (
              ground (
                arith,
                other,
                known a,
                contains-keep p a all_keys,
                contains-keys a w.agents,
                eq_iff a (fields r w).sender_id,
              ))
          | inr (c, x) ↦
              let (new_, copied) = make_copies-new ids r w.heap a c there x in
              HasGot-HasCopy a c r w w' k.world refl refl new_ copied (k.got a c x)
        ],
        λ a out. elim (Option-cases (Dict.get a tasks)) [
          | inl x ↦ k.others a x
          | inr (c, x) ↦ absurd (
              ground (
                arith,
                out,
                known a,
                contains-keep p a all_keys,
                contains-keys a w.agents,
                eq_iff a (fields r w).sender_id,
              ))
        ],
      )
