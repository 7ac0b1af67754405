-- ===== src/Inbox/Numbers.antt =====
-- How often a number stands in the inboxes.
use agents_protocol.Prelude.{
  ℕ, suc, ◌+◌, ◌≤◌, String, ◌≡◌, refl, none, some, [], ◌∷◌, ◌==◌, eqb, if◌then◌else◌, arith,
  Bool-cases, inl, inr,
}
use agents_protocol.Dict
use agents_protocol.Dict.{Dict}
use agents_protocol.Sorting.{insert}
use agents_protocol.Inbox.{Inbox, Entry, before}

-- How many entries of the inbox have the number.
abbrev pub occurrences : ℕ → Inbox → ℕ
occurrences n [] = 0
occurrences n (e ∷ q) = let rest = occurrences n q in if eqb e.counter n then suc rest else rest

-- How many entries of all inboxes have the number.
abbrev pub total : ℕ → Dict Inbox → ℕ
total n [] = 0
total n ((a, q) ∷ d) = let rest = total n d in occurrences n q + rest

pub occurrences-insert :
    (n : ℕ) (e : Entry) (q : Inbox) → occurrences n (insert before e q) ≡ occurrences n (e ∷ q)
unfolding insert
occurrences-insert n e [] = refl
occurrences-insert n e (x ∷ q) = elim (Bool-cases (before e x)) [
  | inl k ↦ rw k refl
  | inr k ↦ rw k (ground (arith, occurrences-insert n e q))
]

-- An inbox that is there is replaced.
pub total-put :
    (n : ℕ) (a : String) (q r : Inbox) (d : Dict Inbox)
    → Dict.get a d ≡ some q
    → total n (Dict.put a r d) + occurrences n q ≡ total n d + occurrences n r
unfolding Dict.get Dict.put
total-put n a q r [] e = cc
total-put n a q r ((b, p) ∷ d) e = elim (Bool-cases (b == a)) [
  | inl k ↦ let f : p ≡ q = ground (arith, k) in rw (k, f) (omega arith)
  | inr k ↦
      let f : Dict.get a d ≡ some q = ground (arith, k) in
      rw k (omega (arith, total-put n a q r d f))
]

-- An empty inbox is added.
pub total-put_new :
    (n : ℕ) (a : String) (d : Dict Inbox)
    → Dict.get a d ≡ none
    → total n (Dict.put a [] d) ≡ total n d
unfolding Dict.get Dict.put
total-put_new n a [] e = refl
total-put_new n a ((b, p) ∷ d) e = ground (arith, total-put_new n a d)

pub total-remove : (n : ℕ) (a : String) (d : Dict Inbox) → total n (Dict.remove a d) ≤ total n d
unfolding Dict.remove
total-remove n a [] = omega arith
total-remove n a ((b, p) ∷ d) = ground (arith, total-remove n a d)
