-- ===== src/Broker/Steps.antt =====
-- How a local delivery can go, and what the parts of a send keep.
use agents_protocol.Prelude.{
  ℕ, String, ◌≡◌, refl, Bool, false, Option, none, some, List, [], ◌∷◌, arith, Option-cases, inl,
  inr,
}
use agents_protocol.Dict
use agents_protocol.Objects.{Ref, Heap}
use agents_protocol.Persistence.{Store}
use agents_protocol.Inbox
use agents_protocol.Inbox.{Inbox}
use agents_protocol.Broker.World.{World, Act, Outcome, Metrics, bind, done, raised, blocked, after}
use agents_protocol.Broker.Delivery.{
  put_done, put_failed, waits, go_on, deliver_locally, make_copies, gather, deliver_copies,
  numbered, entry,
}

module _ {C : Type 0} where
  -- How a local delivery goes.
  pub data Delivered (a : String) (r : Ref) (w : World C) : Outcome C Bool → Type 0 where
    absent : Dict.get a w.inboxes ≡ none → Delivered a r w (done false w)
    faulty :
        (q : Inbox) (reason : String)
        → Dict.get a w.inboxes ≡ some q
        → w.put_error w.counter ≡ some reason
        → Delivered a r w (put_failed reason r (numbered w))
    full :
        (q : Inbox)
        → Dict.get a w.inboxes ≡ some q
        → w.put_error w.counter ≡ none
        → Inbox.put (entry r w) q ≡ none
        → Delivered a r w (blocked (numbered w))
    placed :
        (q q' : Inbox)
        → Dict.get a w.inboxes ≡ some q
        → w.put_error w.counter ≡ none
        → Inbox.put (entry r w) q ≡ some q'
        → Delivered a r w (put_done a r q' (numbered w))

  pub deliver_locally-Delivered :
      (a : String) (r : Ref) (w : World C) → Delivered a r w (deliver_locally a r w)
  unfolding deliver_locally
  deliver_locally-Delivered a r w = elim (Option-cases (Dict.get a w.inboxes)) [
    | inl e ↦
        let k : deliver_locally a r w ≡ done false w = unfold deliver_locally in ground arith in
        rw k (absent e)
    | inr (q, e) ↦ elim (Option-cases (w.put_error w.counter)) [
      | inr (reason, f) ↦
          let k : deliver_locally a r w ≡ put_failed reason r (numbered w) =
            rw (e, f, deliver_locally) in
          rw k (faulty q reason e f)
      | inl f ↦ elim (Option-cases (Inbox.put (entry r w) q)) [
        | inl g ↦
            let k : deliver_locally a r w ≡ blocked (numbered w) = rw (e, f, g, deliver_locally) in
            rw k (full q e f g)
        | inr (q', g) ↦
            let k : deliver_locally a r w ≡ put_done a r q' (numbered w) =
              rw (e, f, g, deliver_locally) in
            rw k (placed q q' e f g)
      ]
    ]
  ]

-- A relation of a world before and after that every part of a send has: it holds of a world itself and
-- over two parts in a row, where only objects, the store, the cluster, the metrics and the readings of
-- the clock change, where a number is drawn, and where an entry is put into an inbox.
pub record IsStable {C : Type 0} (R : World C → World C → Type 0) : Type 0 where
  pub same : (w : World C) → R w w
  pub next : {u v w : World C} → R u v → R v w → R u w
  pub aside :
      (w : World C) (h : Heap) (s : Option Store) (c : Option C) (m : Metrics) (k : ℕ)
      → R w (record w { heap = h; store = s; cluster_manager = c; metrics = m; readings = k })
  pub number : (w : World C) → R w (numbered w)
  pub put :
      (a : String) (r : Ref) (q q' : Inbox) (w : World C)
      → Dict.get a w.inboxes ≡ some q
      → Inbox.put (entry r w) q ≡ some q'
      → R w (record (numbered w) { inboxes = Dict.put a q' w.inboxes })

module _ {C : Type 0} {R : World C → World C → Type 0} (stable : IsStable R) where
  Delivered-Keeps :
      {a : String} {r : Ref} {w : World C} {o : Outcome C Bool} → Delivered a r w o → R w (after o)
  unfolding put_done put_failed
  Delivered-Keeps {w = w} (absent e) = stable.same w
  Delivered-Keeps {r = r} {w = w} (faulty q reason e f) =
      stable.next (stable.number w) (stable.aside (numbered w) _ _ _ _ _)
  Delivered-Keeps {w = w} (full q e f g) = stable.number w
  Delivered-Keeps {a = a} {r = r} {w = w} (placed q q' e f g) =
      stable.next (stable.put a r q q' w e g)
        (stable.aside (record (numbered w) { inboxes = Dict.put a q' w.inboxes }) _ _ _ _ _)

  pub deliver_locally-Keeps :
      (a : String) (r : Ref) (w : World C) → R w (after (deliver_locally a r w))
  deliver_locally-Keeps a r w = Delivered-Keeps (deliver_locally-Delivered a r w)

  -- What every step keeps, a sequence of steps keeps.
  pub bind-Keeps :
      {A B : Type 0} {w : World C} (o : Outcome C A) (f : A → Act C B)
      → R w (after o)
      → ((a : A) (v : World C) → R v (after (f a v)))
      → R w (after (bind o f))
  bind-Keeps (done a v) f h k = stable.next h (k a v)
  bind-Keeps (raised e v) f h k = h
  bind-Keeps (blocked v) f h k = h

  after-waits : (o : Outcome C (Unit {0})) → after (waits o) ≡ after o
  after-waits (done a w) = refl
  after-waits (raised e w) = refl
  after-waits (blocked w) = refl

  go_on-Keeps :
      {w : World C} (o : Outcome C Bool) (rest : Act C (Unit {0}))
      → R w (after o)
      → ((v : World C) → R v (after (rest v)))
      → R w (after (go_on o rest))
  go_on-Keeps (done b v) rest h k = stable.next h (k v)
  go_on-Keeps (raised e v) rest h k = h
  go_on-Keeps (blocked v) rest h k = rw after-waits (stable.next h (k v))

  pub gather-Keeps : (tasks : List (String × Ref)) (w : World C) → R w (after (gather tasks w))
  unfolding gather
  gather-Keeps [] w = stable.same w
  gather-Keeps ((rid, copy) ∷ tasks) w =
      go_on-Keeps (deliver_locally rid copy w) (gather tasks) (deliver_locally-Keeps rid copy w)
        (gather-Keeps tasks)

  pub deliver_copies-Keeps :
      (rids : List String) (r : Ref) (w : World C) → R w (after (deliver_copies rids r w))
  unfolding deliver_copies
  deliver_copies-Keeps rids r w =
      let h = (make_copies rids r w.heap).1 in
      stable.next (stable.aside w h w.store w.cluster_manager w.metrics w.readings)
        (gather-Keeps (make_copies rids r w.heap).0 (record w { heap = h }))
