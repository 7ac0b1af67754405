-- ===== src/Broker/Arrivals.antt =====
-- What a send leaves in the inboxes.
use agents_protocol.Prelude.{
  ℕ, ◌≤◌, String, ◌≡◌, refl, ap, sym, ◌∙◌, Bool, some, List, [], ◌∷◌, ◌==◌, ltb, eq_iff, arith,
  keep, Bool-cases, inl, inr,
}
use agents_protocol.Dict
use agents_protocol.Dict.{Dict}
use agents_protocol.Dict.Laws.{get-put}
use agents_protocol.Objects.{Ref}
use agents_protocol.Extensions.{ValidationRule}
use agents_protocol.Sorting.{insert}
use agents_protocol.Inbox
use agents_protocol.Inbox.{Inbox, Entry, before}
use agents_protocol.Inbox.Numbers.{occurrences, total}
use agents_protocol.Broker.World.{World, after}
use agents_protocol.Broker.Delivery.{entry, numbered}
use agents_protocol.Broker.Sending.{ClusterLink, do_send}
use agents_protocol.Broker.Steps.{IsStable}
use agents_protocol.Broker.Keeping.{do_send-Keeps}
use agents_protocol.Broker.Queues.{IsQueued, put-room}

-- The entry was numbered before the broker's next number was `n`.
abbrev pub is_older : ℕ → Entry → Bool
is_older n e = ltb e.counter n

keep-insert :
    (n : ℕ) (e : Entry) (q : Inbox)
    → n ≤ e.counter
    → keep (is_older n) (insert before e q) ≡ keep (is_older n) q
unfolding insert
keep-insert n e [] h = ground arith
keep-insert n e (x ∷ q) h = elim (Bool-cases (before e x)) [
  | inl k ↦ rw k (ground arith)
  | inr k ↦ rw k (ground (arith, keep-insert n e q h))
]

keep-keep :
    (m n : ℕ) (q : Inbox) → m ≤ n → keep (is_older m) (keep (is_older n) q) ≡ keep (is_older m) q
keep-keep m n [] h = refl
keep-keep m n (x ∷ q) h = ground (arith, keep-keep m n q h)

occurrences-total :
    (n : ℕ) (a : String) (q : Inbox) (d : Dict Inbox)
    → Dict.get a d ≡ some q
    → occurrences n q ≤ total n d
unfolding Dict.get
occurrences-total n a q [] e = cc
occurrences-total n a q ((b, p) ∷ d) e = elim (Bool-cases (b == a)) [
  | inl k ↦ let f : p ≡ q = ground (arith, k, e) in rw f (omega arith)
  | inr k ↦
      let f : Dict.get a d ≡ some q = ground (arith, k, e) in
      omega (arith, occurrences-total n a q d f)
]

keep_all : (n : ℕ) (q : Inbox) → ((m : ℕ) → n ≤ m → occurrences m q ≡ 0) → keep (is_older n) q ≡ q
keep_all n [] h = refl
keep_all n (x ∷ q) h = elim (Bool-cases (ltb x.counter n)) [
  | inl k ↦ rw k (ap (λ r. x ∷ r) (keep_all n q (λ m l. ground (arith, h m l))))
  | inr k ↦ absurd (ground (arith, h x.counter, k))
]

-- An inbox that was there is there, and without the entries that are numbered `n` or later it is as it
-- was.
abbrev Grown : ℕ → Dict Inbox → Dict Inbox → Type 0
Grown n d c =
    (a : String) (q : Inbox)
    → Dict.get a d ≡ some q
    → (p : Inbox) × (Dict.get a c ≡ some p) × (keep (is_older n) p ≡ keep (is_older n) q)

-- The numbers go on, and the inboxes grow.
record Grows {C : Type 0} (w v : World C) : Type 0 where
  counts : w.counter ≤ v.counter
  grown : Grown w.counter w.inboxes v.inboxes

module _ {C : Type 0} where
  Grows-same : (w v : World C) → v.inboxes ≡ w.inboxes → w.counter ≤ v.counter → Grows w v
  Grows-same w v e h = record { counts = h; grown = λ a q x. (q, ap (Dict.get a) e ∙ x, refl) }

  Grows-next : {u v w : World C} → Grows u v → Grows v w → Grows u w
  Grows-next {u} {v} {w} h k = record {
    counts = omega (arith, h.counts, k.counts);
    grown = λ a q x.
        let (p, y, e) = h.grown a q x in
        let (r, z, d) = k.grown a p y in
        (
          r,
          z,
          sym (keep-keep u.counter v.counter r h.counts)
              ∙ (ap (keep (is_older u.counter)) d ∙ (keep-keep u.counter v.counter p h.counts ∙ e)),
        );
  }

  put-Grows :
      (a : String) (r : Ref) (q q' : Inbox) (w : World C)
      → Dict.get a w.inboxes ≡ some q
      → Inbox.put (entry r w) q ≡ some q'
      → Grows w (record (numbered w) { inboxes = Dict.put a q' w.inboxes })
  put-Grows a r q q' w e f = record {
    counts = omega arith;
    grown = λ b p x. elim (Bool-cases (a == b)) [
      | inl y ↦
          let same : q ≡ p = ground (arith, y, e, x, eq_iff a b) in
          (
            q',
            ground (arith, get-put b a q' w.inboxes, y),
            ap (keep (is_older w.counter)) (put-room (entry r w) q q' f).1
                ∙ (keep-insert w.counter (entry r w) q (omega arith)
                    ∙ ap (keep (is_older w.counter)) same),
          )
      | inr y ↦ (p, ground (arith, get-put b a q' w.inboxes, y, x), refl)
    ];
  }

  Grows-IsStable : IsStable {C = C} Grows
  Grows-IsStable = record {
    same = λ w. Grows-same w w refl (omega arith);
    next = Grows-next;
    aside = λ w h s c m k. record { counts = omega arith; grown = λ a q x. (q, x, refl) };
    number = λ w. Grows-same w (numbered w) refl (omega arith);
    put = put-Grows;
  }

  -- Let the inboxes of a broker be in order. However a send ends, every inbox that was there is there,
  -- and what was in it is in it, in the same order: without the entries that are numbered since, it
  -- is the inbox before the send.
  pub do_send-Grows :
      (link : ClusterLink C) (rules : List ValidationRule) (taken : List ℕ) (r : Ref) (w : World C)
      (a : String) (q : Inbox)
      → IsQueued taken w
      → Dict.get a w.inboxes ≡ some q
      → (p : Inbox) × (Dict.get a (after (do_send link rules r w)).inboxes ≡ some p)
        × (keep (is_older w.counter) p ≡ q)
  do_send-Grows link rules taken r w a q h e =
      let (p, f, g) = (do_send-Keeps Grows-IsStable link rules r w).grown a q e in
      let none_new : (m : ℕ) → w.counter ≤ m → occurrences m q ≡ 0 =
        λ m l. omega (arith, occurrences-total m a q w.inboxes e, h.fresh m l) in
      (p, f, g ∙ keep_all w.counter q none_new)
