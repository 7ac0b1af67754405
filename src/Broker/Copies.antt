-- ===== src/Broker/Copies.antt =====
-- The objects of a broadcast: the copies that are made, and what the deliveries write to them.
use agents_protocol.Prelude.{
  ◌≤◌, ◌<◌, String, ◌≡◌, refl, ap, ◌∙◌, Option, none, some, List, [], ◌∷◌, ◌==◌, eqb, eq_iff, arith,
  Bool-cases, Option-cases, inl, inr,
}
use agents_protocol.Dict
use agents_protocol.Protocol.{AgentMessage, MessageStatus, delivered, level}
use agents_protocol.Objects.{Ref, Heap, write, copy_to, set_status, cell-set_status}
use agents_protocol.Persistence.{Store, update_message_status}
use agents_protocol.Inbox.{Inbox}
use agents_protocol.Broker.World.{World, after, fields, mark, update_stored, updated}
use agents_protocol.Broker.Delivery.{put_done, make_copies, numbered}

-- The messages differ in their status at most.
abbrev pub Same : AgentMessage → AgentMessage → Type 0
Same m n =
    ◌≡◌ {A = AgentMessage} (record m { status = delivered }) (record n { status = delivered })

-- From `h` to `k` no object got another content than the status `delivered`.
pub record IsKept (h k : Heap) : Type 0 where
  pub same : (q : Ref) → Same (k.cell q) (h.cell q)
  pub stays : (q : Ref) → (h.cell q).status ≡ delivered → (k.cell q).status ≡ delivered

pub IsKept-refl : (h : Heap) → IsKept h h
IsKept-refl h = record { same = λ q. refl; stays = λ q e. e }

pub IsKept-trans : (h k l : Heap) → IsKept h k → IsKept k l → IsKept h l
IsKept-trans h k l x y = record {
  same = λ q. y.same q ∙ x.same q;
  stays = λ q e. y.stays q (x.stays q e);
}

set_status-status : (c : Ref) (h : Heap) → ((set_status c delivered h).cell c).status ≡ delivered
unfolding set_status
set_status-status c h = ground arith

set_status-IsKept : (c : Ref) (h : Heap) → IsKept h (set_status c delivered h)
set_status-IsKept c h = record {
  same = λ q. elim (Bool-cases (eqb c q)) [
    | inl e ↦
        let x : c ≡ q = ground arith in
        rw (cell-set_status c q delivered h, e)
          (ap (λ p. record (h.cell p) { status = delivered }) x)
    | inr e ↦ rw (cell-set_status c q delivered h, e) refl
  ];
  stays = λ q k. elim (Bool-cases (eqb c q)) [
    | inl e ↦ rw (cell-set_status c q delivered h, e) refl
    | inr e ↦ rw (cell-set_status c q delivered h, e) k
  ];
}

updated-IsKept : (o : Option Store) (id : String) (h : Heap) → IsKept h (updated o id delivered h)
unfolding updated update_message_status
updated-IsKept none id h = IsKept-refl h
updated-IsKept (some s) id h = elim (Option-cases (Dict.get id s.messages)) [
  | inl e ↦ rw (e, update_message_status) (IsKept-refl h)
  | inr (c, e) ↦ rw (e, update_message_status) (set_status-IsKept c h)
]

-- An object that is delivered, with the content that it had.
pub delivered-Same :
    (m n : AgentMessage) → m.status ≡ delivered → Same m n → m ≡ record n { status = delivered }
delivered-Same m n e s = ap (λ (x : MessageStatus). record m { status = x }) e ∙ s

pub level-Same : (m n : AgentMessage) → Same m n → level m.priority ≡ level n.priority
level-Same m n s = ap (λ (x : AgentMessage). level x.priority) s

module _ {C : Type 0} where
  pub put_done-IsKept :
      (rid : String) (c : Ref) (q : Inbox) (w : World C)
      → IsKept w.heap (after (put_done rid c q (numbered w))).heap
  unfolding put_done update_stored mark
  put_done-IsKept rid c q w =
      let h = set_status c delivered w.heap in
      IsKept-trans w.heap h _ (set_status-IsKept c w.heap)
        (updated-IsKept w.store (w.heap.cell c).id h)

  pub put_done-status :
      (rid : String) (c : Ref) (q : Inbox) (w : World C)
      → (fields c (after (put_done rid c q (numbered w)))).status ≡ delivered
  unfolding put_done update_stored mark
  put_done-status rid c q w =
      let h = set_status c delivered w.heap in
      (updated-IsKept w.store (w.heap.cell c).id h).stays c (set_status-status c w.heap)

-- The copies are new objects, which is why the old ones stay as they are.
make_copies-old :
    (ids : List String) (r q : Ref) (h : Heap)
    → q < h.next
    → (make_copies ids r h).1.cell q ≡ h.cell q
unfolding make_copies copy_to write
make_copies-old [] r q h k = refl
make_copies-old (i ∷ ids) r q h k =
    make_copies-old ids r q (copy_to r i h).1 (omega arith) ∙ ground arith

-- The object that is made for one of the recipients.
pub make_copies-new :
    (ids : List String) (r : Ref) (h : Heap) (a : String) (c : Ref)
    → r < h.next
    → Dict.get a (make_copies ids r h).0 ≡ some c
    → (h.next ≤ c) × ((make_copies ids r h).1.cell c ≡ record (h.cell r) { recipient_id = some a })
unfolding make_copies Dict.get copy_to write
make_copies-new [] r h a c k e = absurd (cc e)
make_copies-new (i ∷ ids) r h a c k e =
    let h' = (copy_to r i h).1 in
    let old : h'.cell r ≡ h.cell r = ground arith in
    elim (Bool-cases (i == a)) [
      | inl x ↦
          let i-a : i ≡ a = ground (arith, eq_iff i a) in
          let n-c : h.next ≡ c = ground arith in
          let copy : (make_copies ids r h').1.cell h.next ≡ h'.cell h.next =
            make_copies-old ids r h.next h' (omega arith) in
          (omega arith, rw (← n-c, ← i-a) (copy ∙ ground arith))
      | inr x ↦
          let ih = make_copies-new ids r h' a c (omega arith) (ground arith) in
          (
            omega (arith, ih.0),
            ih.1 ∙ ap (λ (m : AgentMessage). record m { recipient_id = some a }) old,
          )
    ]
