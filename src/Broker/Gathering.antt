-- ===== src/Broker/Gathering.antt =====
-- The deliveries of objects to several agents, one after the other.
use agents_protocol.Prelude.{
  ℕ, ◌+◌, ◌<◌, String, ◌≡◌, refl, ap, sym, ◌≤◌, Bool-cases, ◌∙◌, true, false, none, some, List, [],
  ◌∷◌, ◌==◌, map, arith, eq_iff, eq_refl, or_else, if◌then◌else◌, length, contains, count_present,
  IsNodup, Option-cases, inl, inr,
}
use agents_protocol.Dict
use agents_protocol.Dict.Laws.{get-put, contains-keys}
use agents_protocol.Objects.{Ref, Heap, copy_to}
use agents_protocol.Sorting.{insert, length-insert}
use agents_protocol.Protocol.{delivered, level}
use agents_protocol.Inbox.{Inbox, Entry, before, maxsize}
use agents_protocol.Broker.Copies.{
  IsKept, IsKept-refl, IsKept-trans, delivered-Same, level-Same, put_done-IsKept, put_done-status,
}
use agents_protocol.Broker.World.{World, Outcome, done, after, fields, mark, update_stored}
use agents_protocol.Broker.Delivery.{
  put_done, deliver_locally, make_copies, gather, entry, numbered,
}
use agents_protocol.Broker.Direct.{deliver_locally-placed}

-- How many entries the agent's inbox has.
abbrev pub size : {C : Type 0} → String → World C → ℕ
size a w = length (or_else (Dict.get a w.inboxes) [])

-- No put raises.
abbrev pub IsCalm : {C : Type 0} → World C → Type 0
IsCalm w = (n : ℕ) → w.put_error n ≡ none

-- Each of the agents has an inbox with room for one more.
abbrev pub HasRoom : {C : Type 0} → List String → World C → Type 0
HasRoom ids w =
    (a : String) → contains a ids ≡ true → (Dict.has a w.inboxes ≡ true) × (size a w < maxsize)

abbrev pub receivers : List (String × Ref) → List String
receivers = map (λ t. t.0)

-- The agent has one entry more, for the object `c`, which has the content that it had in `w` and is
-- delivered; the entry has the object's priority and a number that was not given out in `w`.
pub record HasGot {C : Type 0} (a : String) (c : Ref) (w v : World C) : Type 0 where
  pub e : Entry
  pub q : Inbox
  pub old : Dict.get a w.inboxes ≡ some q
  pub inbox : Dict.get a v.inboxes ≡ some (insert before e q)
  pub message : e.message ≡ c
  pub priority : e.priority ≡ level (fields c w).priority
  pub later : w.counter ≤ e.counter
  pub content : fields c v ≡ record (fields c w) { status = delivered }

-- What the deliveries leave: each receiver has got its object, and no other inbox has changed.
pub record Gathered {C : Type 0} (tasks : List (String × Ref)) (w : World C)
    (o : Outcome C (Unit {0})) : Type 0 where
  pub world : World C
  pub returns : o ≡ done tt world
  pub kept : IsKept w.heap world.heap
  pub got : (a : String) (c : Ref) → Dict.get a tasks ≡ some c → HasGot a c w world
  pub others :
      (a : String) → Dict.get a tasks ≡ none → Dict.get a world.inboxes ≡ Dict.get a w.inboxes

pub receivers-make_copies :
    (ids : List String) (r : Ref) (h : Heap) → receivers (make_copies ids r h).0 ≡ ids
unfolding make_copies
receivers-make_copies [] r h = refl
receivers-make_copies (i ∷ ids) r h = ap (◌∷◌ i) (receivers-make_copies ids r (copy_to r i h).1)

module _ {C : Type 0} where
  -- One delivery that goes well.
  size-put_done :
      (a rid : String) (r : Ref) (q : Inbox) (w : World C)
      → Dict.get rid w.inboxes ≡ some q
      → size a (after (put_done rid r (insert before (entry r w) q) (numbered w)))
        ≡ (if rid == a then size a w + 1 else size a w)
  unfolding put_done update_stored mark
  size-put_done a rid r q w e = ground (
    arith,
    get-put a rid (insert before (entry r w) q) w.inboxes,
    length-insert before (entry r w) q,
    eq_iff rid a,
  )

  has-put_done :
      (a rid : String) (r : Ref) (q : Inbox) (w : World C)
      → (rid == a) ≡ false
      → Dict.has a w.inboxes ≡ true
      → Dict.has a (after (put_done rid r (insert before (entry r w) q) (numbered w))).inboxes
        ≡ true
  unfolding put_done update_stored mark
  has-put_done a rid r q w apart h =
      ground (arith, get-put a rid (insert before (entry r w) q) w.inboxes)

  gather-done :
      (rid : String) (r : Ref) (tasks : List (String × Ref)) (w : World C) {w' v : World C}
      → deliver_locally rid r w ≡ done true w'
      → gather tasks w' ≡ done tt v
      → gather ((rid, r) ∷ tasks) w ≡ done tt v
  unfolding gather
  gather-done rid r tasks w d e = rw d e

  -- The first delivery, and what the later ones leave of it.
  head-HasGot :
      (rid : String) (c : Ref) (q : Inbox) (w v : World C)
      → Dict.get rid w.inboxes ≡ some q
      → let u = after (put_done rid c (insert before (entry c w) q) (numbered w)) in
        IsKept u.heap v.heap → Dict.get rid v.inboxes ≡ Dict.get rid u.inboxes → HasGot rid c w v
  head-HasGot rid c q w v e k same =
      let q' = insert before (entry c w) q in
      let first = put_done-IsKept rid c q' w in
      let status = put_done-status rid c q' w in
      record {
        e = entry c w;
        q = q;
        old = e;
        inbox = same ∙ (unfold put_done update_stored mark in rw (get-put, eq_refl rid) refl);
        message = refl;
        priority = refl;
        later = omega arith;
        content =
            delivered-Same (fields c v) (fields c w) (k.stays c status) (k.same c ∙ first.same c);
      }

  -- A later delivery, seen from before the first one.
  tail-HasGot :
      (a rid : String) (c d : Ref) (q : Inbox) (w v : World C)
      → (rid == a) ≡ false
      → let u = after (put_done rid d q (numbered w)) in HasGot a c u v → HasGot a c w v
  tail-HasGot a rid c d q w v apart h =
      let first = put_done-IsKept rid d q w in
      let u = after (put_done rid d q (numbered w)) in
      let same : Dict.get a u.inboxes ≡ Dict.get a w.inboxes =
        unfold put_done update_stored mark in ground (arith, get-put a rid q w.inboxes) in
      let more : u.counter ≡ w.counter + 1 = unfold put_done update_stored mark in refl in
      record {
        e = h.e;
        q = h.q;
        old = sym same ∙ h.old;
        inbox = h.inbox;
        message = h.message;
        priority = h.priority ∙ level-Same (fields c u) (fields c w) (first.same c);
        later = omega (arith, h.later, more);
        content = h.content ∙ first.same c;
      }

  pub gather-Gathered :
      (tasks : List (String × Ref)) (w : World C)
      → IsNodup (receivers tasks)
      → HasRoom (receivers tasks) w
      → IsCalm w
      → Gathered tasks w (gather tasks w)
  unfolding Dict.get
  gather-Gathered [] w distinct room calm = record {
    world = w;
    returns = unfold gather in refl;
    kept = IsKept-refl w.heap;
    got = λ a c e. absurd (cc e);
    others = λ a e. refl;
  }
  gather-Gathered ((rid, r) ∷ tasks) w distinct room calm =
      elim (Option-cases (Dict.get rid w.inboxes)) [
        | inl e ↦ absurd (ground (arith, (room rid (rw eq_refl)).0))
        | inr (q, e) ↦
            let q' = insert before (entry r w) q in
            let w' = after (put_done rid r q' (numbered w)) in
            let small : length q < maxsize = ground (arith, (room rid (rw eq_refl)).1) in
            let d : deliver_locally rid r w ≡ done true w' =
              unfold put_done in deliver_locally-placed rid r q w e (calm w.counter) small in
            let once : IsNodup (receivers tasks) = λ a. ground (arith, distinct a) in
            let absent : Dict.get rid tasks ≡ none = ground (
              arith,
              distinct rid,
              eq_refl rid,
              contains-keys rid tasks,
              count_present rid (receivers tasks),
            ) in
            let rest : HasRoom (receivers tasks) w' = λ a m.
              let apart : (rid == a) ≡ false =
                ground (arith, distinct a, count_present a (receivers tasks) m) in
              let before_ = room a (rw (apart, m)) in
              (
                has-put_done a rid r q w apart before_.0,
                ground (arith, size-put_done a rid r q w e, before_.1),
              ) in
            let calm' : IsCalm w' = λ n. unfold put_done update_stored mark in calm n in
            let ih = gather-Gathered tasks w' once rest calm' in
            record {
              world = ih.world;
              returns = gather-done rid r tasks w d ih.returns;
              kept = IsKept-trans w.heap w'.heap ih.world.heap (put_done-IsKept rid r q' w) ih.kept;
              got = λ a c k. elim (Bool-cases (rid == a)) [
                | inl x ↦
                    let rid-a : rid ≡ a = ground (arith, eq_iff rid a) in
                    let r-c : r ≡ c = ground arith in
                    rw (← rid-a, ← r-c)
                      (head-HasGot rid r q w ih.world e ih.kept (ih.others rid absent))
                | inr x ↦ tail-HasGot a rid c r q' w ih.world x (ih.got a c (ground arith))
              ];
              others = λ a k.
                  let apart : (rid == a) ≡ false = ground arith in
                  ih.others a (ground arith)
                  ∙ (unfold put_done update_stored mark in
                      ground (arith, get-put a rid q' w.inboxes));
            }
      ]
