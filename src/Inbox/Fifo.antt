-- ===== src/Inbox/Fifo.antt =====
-- The order in which an inbox hands out its messages.
use agents_protocol.Prelude.{
  ℕ, ◌≤◌, ◌<◌, ◌≡◌, refl, Bool, true, false, Option, none, some, List, [], ◌∷◌, ◌++◌, ltb, eqb,
  if◌then◌else◌, length, keep, arith, Bool-cases, inl, inr, append_assoc, append-nil,
}
use agents_protocol.Sorting.{All, All-insert, insert, IsSorted, insert-IsSorted}
use agents_protocol.Inbox.{Entry, Inbox, before, maxsize, put}

pub maxsize-pos : 0 < maxsize
unfolding maxsize
maxsize-pos = omega arith

before-total : (a b : Entry) → before a b ≡ false → before b a ≡ true
before-total a b h = ground arith

before_trans : (a b c : Entry) → before a b ≡ true → before b c ≡ true → before a c ≡ true
before_trans a b c h k = ground arith

pub put-IsSorted :
    (e : Entry) (q r : Inbox) → IsSorted before q → put e q ≡ some r → IsSorted before r
unfolding put
put-IsSorted e q r h p = elim (Bool-cases (ltb (length q) maxsize)) [
  | inl room ↦
      let k : insert before e q ≡ r = ground arith in
      rw (← k) (insert-IsSorted before before-total before_trans e q h)
  | inr full ↦ absurd (ground arith)
]

abbrev pub has_priority : ℕ → Entry → Bool
has_priority p e = eqb e.priority p

-- The entry is later than the other: it was numbered later, and the clock had not gone back.
abbrev pub Later : Entry → Entry → Type 0
Later e x = (x.time_ns ≤ e.time_ns) × (x.counter < e.counter)

keep_behind :
    (p : ℕ) (x : Entry) (q : Inbox)
    → All (λ y. before x y ≡ true) q
    → x.priority < p
    → keep (has_priority p) q ≡ []
keep_behind p x [] h k = refl
keep_behind p x (y ∷ q) h k = ground (arith, keep_behind p x q h.1 k, h.0)

-- A later entry goes behind those of its own priority, and the others keep their order.
keep-insert-Later :
    (p : ℕ) (e : Entry) (q : Inbox)
    → IsSorted before q
    → All (Later e) q
    → keep (has_priority p) (insert before e q)
      ≡ (if has_priority p e then keep (has_priority p) q ++ e ∷ [] else keep (has_priority p) q)
unfolding insert
keep-insert-Later p e [] s h = ground arith
keep-insert-Later p e (x ∷ q) s h = elim (Bool-cases (before e x)) [
  | inl first ↦
      let above : x.priority < e.priority = ground (arith, h.0) in
      rw first (ground (arith, keep_behind p x q s.0))
  | inr behind ↦ rw behind (ground (arith, keep-insert-Later p e q s.1 h.1))
]

All-Later-nil : (es : List Entry) → All (λ x. All (Later x) []) es
All-Later-nil [] = tt
All-Later-nil (e ∷ es) = (tt, All-Later-nil es)

-- `await queue.put(e)` for each entry, none of which has to wait.
unfoldable pub put_all : List Entry → Inbox → Option Inbox
put_all [] q = some q
put_all (e ∷ es) q = elim (put e q) [ none ↦ none | some r ↦ put_all es r ]

-- The entries are in the order of their arrival.
abbrev pub IsArrival : List Entry → Type 0
IsArrival [] = Unit {0}
IsArrival (e ∷ es) = All (λ x. Later x e) es × IsArrival es

All-Later-insert :
    (e : Entry) (q : Inbox) (es : List Entry)
    → All (λ x. Later x e) es
    → All (λ x. All (Later x) q) es
    → All (λ x. All (Later x) (insert before e q)) es
All-Later-insert e q [] h k = tt
All-Later-insert e q (x ∷ es) h k =
    (All-insert before (Later x) e q h.0 k.0, All-Later-insert e q es h.1 k.1)

put_all-keep :
    (p : ℕ) (es : List Entry) (q r : Inbox)
    → put_all es q ≡ some r
    → IsArrival es
    → All (λ x. All (Later x) q) es
    → IsSorted before q
    → (keep (has_priority p) r ≡ keep (has_priority p) q ++ keep (has_priority p) es)
      × IsSorted before r
unfolding put_all
put_all-keep p [] q r e a h s = (ground (arith, append-nil (keep (has_priority p) q)), ground arith)
put_all-keep p (x ∷ es) q r e a h s = elim (Bool-cases (ltb (length q) maxsize)) [
  | inl room ↦
      let q' = insert before x q in
      let there : put x q ≡ some q' = unfold put in ground arith in
      let rest : put_all es q' ≡ some r = ground arith in
      let ih =
        put_all-keep p es q' r rest a.1 (All-Later-insert x q es a.0 h.1)
          (insert-IsSorted before before-total before_trans x q s) in
      (
        ground (
          arith,
          ih.0,
          keep-insert-Later p x q s h.0,
          append_assoc (keep (has_priority p) q) (x ∷ []) (keep (has_priority p) es),
        ),
        ih.1,
      )
  | inr full ↦ let nowhere : put x q ≡ none = unfold put in ground arith in absurd (ground arith)
]

-- No entry is followed by one of a higher priority.
abbrev pub IsDescending : Inbox → Type 0
IsDescending [] = Unit {0}
IsDescending (x ∷ q) = All (λ y. y.priority ≤ x.priority) q × IsDescending q

before-priority :
    (x : Entry) (q : Inbox) → All (λ y. before x y ≡ true) q → All (λ y. y.priority ≤ x.priority) q
before-priority x [] h = tt
before-priority x (y ∷ q) h = (ground (arith, h.0), before-priority x q h.1)

IsSorted-IsDescending : (q : Inbox) → IsSorted before q → IsDescending q
IsSorted-IsDescending [] h = tt
IsSorted-IsDescending (x ∷ q) h = (before-priority x q h.0, IsSorted-IsDescending q h.1)

-- Let entries arrive in an empty inbox that has room for all, each numbered after the ones before it
-- and at a clock that does not go back. Then no entry of the inbox is followed by one whose priority
-- is a greater number, and for each priority, the entries that have it are those that arrived with it,
-- in the order of their arrival.
pub put_all-fifo :
    (es : List Entry) (q : Inbox)
    → put_all es [] ≡ some q
    → IsArrival es
    → IsDescending q × ((p : ℕ) → keep (has_priority p) q ≡ keep (has_priority p) es)
put_all-fifo es q e a = (
  IsSorted-IsDescending q (put_all-keep 0 es [] q e a (All-Later-nil es) tt).1,
  λ p. (put_all-keep p es [] q e a (All-Later-nil es) tt).0,
)
