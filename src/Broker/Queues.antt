-- ===== src/Broker/Queues.antt =====
-- The inboxes of a broker: their order, their size, and the numbers of their entries.
use agents_protocol.Prelude.{
  ℕ, suc, ◌+◌, ◌≤◌, ◌<◌, String, ◌≡◌, ap, ◌∙◌, some, List, [], ◌∷◌, ◌==◌, eqb, ltb, if◌then◌else◌,
  length, arith, Bool-cases, inl, inr,
}
use agents_protocol.Dict
use agents_protocol.Dict.{Dict}
use agents_protocol.Dict.Laws.{get-put, get-remove}
use agents_protocol.Objects.{Ref}
use agents_protocol.Extensions.{ValidationRule}
use agents_protocol.Sorting.{insert, IsSorted, length-insert}
use agents_protocol.Inbox
use agents_protocol.Inbox.{Inbox, Entry, before, maxsize}
use agents_protocol.Inbox.Fifo.{put-IsSorted}
use agents_protocol.Inbox.Numbers.{occurrences, total, occurrences-insert, total-put}
use agents_protocol.Broker.World.{World, after}
use agents_protocol.Broker.Delivery.{entry, numbered}
use agents_protocol.Broker.Sending.{ClusterLink, do_send}
use agents_protocol.Broker.Steps.{IsStable}
use agents_protocol.Broker.Keeping.{do_send-Keeps}

-- How often a number stands in the list.
abbrev pub times : ℕ → List ℕ → ℕ
times n [] = 0
times n (x ∷ xs) = let rest = times n xs in if eqb x n then suc rest else rest

-- The inboxes are in order and not too long; no number is twice among their entries and the numbers
-- that were taken, and all these numbers are below the broker's next one.
pub record IsQueued {C : Type 0} (taken : List ℕ) (w : World C) : Type 0 where
  pub sorted : (a : String) (q : Inbox) → Dict.get a w.inboxes ≡ some q → IsSorted before q
  pub bounded : (a : String) (q : Inbox) → Dict.get a w.inboxes ≡ some q → length q ≤ maxsize
  pub once : (n : ℕ) → total n w.inboxes + times n taken ≤ 1
  pub fresh : (n : ℕ) → w.counter ≤ n → total n w.inboxes + times n taken ≡ 0

pub put-room :
    (e : Entry) (q r : Inbox)
    → Inbox.put e q ≡ some r
    → (length q < maxsize) × (r ≡ insert before e q)
unfolding Inbox.put
put-room e q r h = elim (Bool-cases (ltb (length q) maxsize)) [
  | inl k ↦ (ground (arith, k), ground (arith, k))
  | inr k ↦ absurd (ground (arith, k))
]

-- Every inbox has the property.
abbrev pub Each : (Inbox → Type 0) → Dict Inbox → Type 0
Each P d = (a : String) (q : Inbox) → Dict.get a d ≡ some q → P q

pub put-Each :
    (P : Inbox → Type 0) (a : String) (r : Inbox) (d : Dict Inbox)
    → P r
    → Each P d
    → Each P (Dict.put a r d)
put-Each P a r d h k b p e = elim (Bool-cases (a == b)) [
  | inl y ↦
      let f : some r ≡ some p = ground (arith, get-put b a r d, y, e) in
      let g : r ≡ p = cc f in rw (← g) h
  | inr y ↦ k b p (ground (arith, get-put b a r d, y, e))
]

pub remove-Each :
    (P : Inbox → Type 0) (a : String) (d : Dict Inbox) → Each P d → Each P (Dict.remove a d)
remove-Each P a d k b p e = elim (Bool-cases (a == b)) [
  | inl y ↦ absurd (ground (arith, get-remove b a d, y, e))
  | inr y ↦ k b p (ground (arith, get-remove b a d, y, e))
]

module _ {C : Type 0} where
  put-IsQueued :
      (taken : List ℕ) (a : String) (r : Ref) (q q' : Inbox) (w : World C)
      → Dict.get a w.inboxes ≡ some q
      → Inbox.put (entry r w) q ≡ some q'
      → IsQueued taken w
      → IsQueued taken (record (numbered w) { inboxes = Dict.put a q' w.inboxes })
  put-IsQueued taken a r q q' w e f h =
      let (room, k) = put-room (entry r w) q q' f in
      let grown : length q' ≡ suc (length q) = ap length k ∙ length-insert before (entry r w) q in
      let t : (n : ℕ)
          → total n (Dict.put a q' w.inboxes) + occurrences n q
            ≡ total n w.inboxes + occurrences n (entry r w ∷ q) =
        λ n.
          total-put n a q q' w.inboxes e
          ∙ ap (λ m. total n w.inboxes + m)
              (ap (occurrences n) k ∙ occurrences-insert n (entry r w) q) in
      record {
        sorted =
            put-Each (IsSorted before) a q' w.inboxes
              (put-IsSorted (entry r w) q q' (h.sorted a q e) f) h.sorted;
        bounded = put-Each (λ p. length p ≤ maxsize) a q' w.inboxes (omega arith) h.bounded;
        once = λ n. ground (arith, t n, h.once n, h.fresh n);
        fresh = λ n l. ground (arith, t n, h.fresh n);
      }

  numbered-IsQueued :
      (taken : List ℕ) (w : World C) → IsQueued taken w → IsQueued taken (numbered w)
  numbered-IsQueued taken w h = record {
    sorted = h.sorted;
    bounded = h.bounded;
    once = h.once;
    fresh = λ n l. h.fresh n (omega arith);
  }

  abbrev Queues : List ℕ → World C → World C → Type 0
  Queues taken w v = IsQueued taken w → IsQueued taken v

  Queues-IsStable : (taken : List ℕ) → IsStable (Queues taken)
  Queues-IsStable taken = record {
    same = λ w h. h;
    next = λ f g h. g (f h);
    aside = λ w x s c m k h. record {
      sorted = h.sorted;
      bounded = h.bounded;
      once = h.once;
      fresh = h.fresh;
    };
    number = numbered-IsQueued taken;
    put = put-IsQueued taken;
  }

  -- However it ends, a send leaves the inboxes in order.
  pub do_send-IsQueued :
      (link : ClusterLink C) (rules : List ValidationRule) (taken : List ℕ) (r : Ref) (w : World C)
      → IsQueued taken w
      → IsQueued taken (after (do_send link rules r w))
  do_send-IsQueued link rules taken = do_send-Keeps (Queues-IsStable taken) link rules
