-- ===== src/Persistence/Tracking.antt =====
-- One key's deque and set: the set says what the deque holds, the deque is bounded and has no id
-- twice, and together they are a plain bounded list of distinct ids.
use agents_protocol.Prelude.{
  suc, ◌-◌, ◌≤◌, ◌<◌, String, ◌≡◌, refl, false, not, List, [], ◌∷◌, ◌++◌, ◌==◌, eq_iff, arith, eqb,
  if◌then◌else◌, contains, IsNodup, length, drop, length-append, count-append, count_absent,
  count_present, contains-append, contains-keep, Bool-cases, inl, inr,
}
use agents_protocol.Persistence.{Slot, max_history, deque_append, evict, push_id, set_add}

pub max_history-pos : 0 < max_history
unfolding max_history
max_history-pos = omega arith

pub max_history-value : max_history ≡ 1000
unfolding max_history
max_history-value = refl

-- The specification: an id that is there stays where it is, another one goes to the end, and the
-- oldest go when there are more than 1000.
abbrev pub remember : String → List String → List String
remember i ids =
    if contains i ids then ids else (let more = ids ++ i ∷ [] in drop (length more - 1000) more)

pub record IsTracked (s : Slot) : Type 0 where
  pub bounded : length s.ids ≤ max_history
  pub distinct : IsNodup s.ids
  pub agree : (a : String) → contains a s.seen ≡ contains a s.ids

-- The slot after room was made.
evict-IsTracked :
    (x : String) (xs seen : List String)
    → IsTracked (record { ids = x ∷ xs; seen = seen })
    → IsTracked (evict (x ∷ xs) seen)
unfolding evict
evict-IsTracked x xs seen h = record {
  bounded = ground (arith, h.bounded);
  distinct = λ a. ground (arith, h.distinct a);
  agree = λ a. ground (
    arith,
    h.agree a,
    contains-keep (λ y. not (y == x)) a seen,
    h.distinct a,
    count_present a xs,
    eq_iff x a,
    eq_iff a x,
  );
}

-- An id that is new goes to the end of a slot that has room.
append-IsTracked :
    (i : String) (s : Slot)
    → length s.ids < max_history
    → contains i s.ids ≡ false
    → IsTracked s
    → IsTracked (record { ids = s.ids ++ i ∷ []; seen = set_add i s.seen })
append-IsTracked i s room new_ h = record {
  bounded = omega (arith, length-append s.ids (i ∷ []));
  distinct = λ a.
      ground
        (arith, count-append a s.ids (i ∷ []), h.distinct a, count_absent i s.ids new_, eq_iff i a);
  agree = λ a. ground (
    arith,
    h.agree a,
    h.agree i,
    contains-append a s.ids (i ∷ []),
    contains-append a s.seen (i ∷ []),
    eq_iff i a,
  );
}

deque_append-room :
    (ids : List String) (i : String) → length ids < max_history → deque_append ids i ≡ ids ++ i ∷ []
unfolding deque_append
deque_append-room ids i h = ground arith

-- What `push_id` makes of a slot, and that it is the specification.
abbrev pub Pushed : String → Slot → Type 0
Pushed i s = ((push_id i s).ids ≡ remember i s.ids) × IsTracked (push_id i s)

push_room :
    (i : String) (s : Slot)
    → contains i s.seen ≡ false
    → length s.ids < max_history
    → IsTracked s
    → Pushed i s
push_room i s fresh room h =
    let new_ : contains i s.ids ≡ false = ground (arith, h.agree i) in
    let e : push_id i s ≡ record { ids = s.ids ++ i ∷ []; seen = set_add i s.seen } =
      unfold push_id in ground (arith, deque_append-room s.ids i room) in
    let cut : length (s.ids ++ i ∷ []) - 1000 ≡ 0 =
      omega (arith, max_history-value, length-append s.ids (i ∷ [])) in
    rw e (rw (new_, cut) refl, append-IsTracked i s room new_ h)

push_full :
    (i x : String) (xs seen : List String)
    → contains i seen ≡ false
    → suc (length xs) ≡ max_history
    → IsTracked (record { ids = x ∷ xs; seen = seen })
    → Pushed i (record { ids = x ∷ xs; seen = seen })
push_full i x xs seen fresh full h =
    let new_ : contains i (x ∷ xs) ≡ false = ground (arith, h.agree i) in
    let room : length xs < max_history = omega arith in
    let h' = evict-IsTracked x xs seen h in
    let k =
      append-IsTracked i (evict (x ∷ xs) seen) (unfold evict in room) (unfold evict in ground arith)
        h' in
    let e : push_id i (record { ids = x ∷ xs; seen = seen })
        ≡ record { ids = xs ++ i ∷ []; seen = set_add i (evict (x ∷ xs) seen).seen } =
      unfold push_id in ground (arith, deque_append-room xs i room) in
    let cut : suc (length (xs ++ i ∷ [])) - 1000 ≡ 1 =
      omega (arith, max_history-value, length-append xs (i ∷ [])) in
    rw e (rw (new_, cut) refl, unfold evict in k)

push_new :
    (i : String) (ids seen : List String)
    → contains i seen ≡ false
    → IsTracked (record { ids = ids; seen = seen })
    → Pushed i (record { ids = ids; seen = seen })
push_new i [] seen fresh h = push_room i _ fresh max_history-pos h
push_new i (x ∷ xs) seen fresh h = elim (Bool-cases (eqb (suc (length xs)) max_history)) [
  | inl full ↦ push_full i x xs seen fresh (ground arith) h
  | inr room ↦ push_room i _ fresh (ground (arith, h.bounded)) h
]

-- On a slot in order, `push_id` does what the specification does, and leaves the slot in order.
pub push_id-remember : (i : String) (s : Slot) → IsTracked s → Pushed i s
push_id-remember i s h = elim (Bool-cases (contains i s.seen)) [
  | inl old ↦
      let e : push_id i s ≡ s = unfold push_id in ground arith in
      rw e (ground (arith, h.agree i), h)
  | inr fresh ↦ push_new i s.ids s.seen fresh h
]
