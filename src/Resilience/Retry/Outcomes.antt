-- ===== src/Resilience/Retry/Outcomes.antt =====
-- What `execute` returns or raises, for every sequence of results of its function.
use agents_protocol.Prelude.{
  ℕ, zero, suc, ◌+◌, ◌≤◌, ◌<◌, ◌≡◌, ap, Option, none, some, List, [], ◌∷◌, ◌++◌, map, length, arith,
  pos, false, true, ◌⊎◌, inl, inr, Bool-cases,
}
use agents_protocol.Resilience.Breaker.{Attempt, returned, raised}
use agents_protocol.Resilience.Retry.{
  RetryPolicy, value, failed, retries, rounds, Run, loop, execute,
}

-- A function that answers with the next entry of a script, and with `rest` when that is used up.
abbrev pub scripted :
    {A E : Type 0} → Attempt A E → List (Attempt A E) → Attempt A E × List (Attempt A E)
scripted rest [] = (rest, [])
scripted rest (x ∷ xs) = (x, xs)

-- Each exception is of a type that the policy retries on.
abbrev pub AllRetried : {E : Type 0} → RetryPolicy E → List E → Type 0
AllRetried p [] = Unit {0}
AllRetried p (e ∷ es) = (retries p e ≡ true) × AllRetried p es

module _ {A E : Type 0} (p : RetryPolicy E) (draw : ℕ → ℕ) (rest : Attempt A E) (n : ℕ)
    (bound : p.max_retries ≡ pos n) where
  abbrev run : ℕ → ℕ → Option E → List (Attempt A E) → Run (List (Attempt A E)) A E
  run = loop p draw (λ d t. t) (scripted rest)

  -- Failures that are retried bring the loop to the entry behind them.
  loop-returned :
      (es : List E) (left attempt : ℕ) (last : Option E) (a : A) (xs : List (Attempt A E))
      → AllRetried p es
      → attempt + left ≡ n + 1
      → length es < left
      → let r = run left attempt last (map raised es ++ returned a ∷ xs) in
        (r.ending ≡ value a) × (r.calls ≡ length es + 1) × (r.state ≡ xs)
  unfolding loop
  loop-returned es zero attempt last a xs ok k h = absurd (omega arith)
  loop-returned [] (suc left) attempt last a xs ok k h = ground arith
  loop-returned (e ∷ es) (suc left) attempt last a xs ok k h =
      let ih = loop-returned es left (attempt + 1) (some e) a xs ok.1 (omega arith) (omega arith) in
      ground (arith, bound)

  loop-failed :
      (es : List E) (left attempt : ℕ) (last : Option E) (e : E) (xs : List (Attempt A E))
      → AllRetried p es
      → retries p e ≡ false
      → attempt + left ≡ n + 1
      → length es < left
      → let r = run left attempt last (map raised es ++ raised e ∷ xs) in
        (r.ending ≡ failed e) × (r.calls ≡ length es + 1) × (r.state ≡ xs)
  unfolding loop
  loop-failed es zero attempt last e xs ok no_ k h = absurd (omega arith)
  loop-failed [] (suc left) attempt last e xs ok no_ k h = ground arith
  loop-failed (x ∷ es) (suc left) attempt last e xs ok no_ k h =
      let ih =
        loop-failed es left (attempt + 1) (some x) e xs ok.1 no_ (omega arith) (omega arith) in
      ground (arith, bound)

  loop-exhausted :
      (es : List E) (left attempt : ℕ) (last : Option E) (e : E) (xs : List (Attempt A E))
      → AllRetried p es
      → retries p e ≡ true
      → attempt + left ≡ n + 1
      → length es + 1 ≡ left
      → let r = run left attempt last (map raised es ++ raised e ∷ xs) in
        (r.ending ≡ failed e) × (r.calls ≡ length es + 1) × (r.state ≡ xs)
  unfolding loop
  loop-exhausted es zero attempt last e xs ok yes_ k h = absurd (omega arith)
  loop-exhausted [] (suc left) attempt last e xs ok yes_ k h = ground (arith, bound)
  loop-exhausted (x ∷ es) (suc left) attempt last e xs ok yes_ k h =
      let ih =
        loop-exhausted es left (attempt + 1) (some x) e xs ok.1 yes_ (omega arith) (omega arith) in
      ground (arith, bound)

  execute-run :
      (s : List (Attempt A E)) → execute p draw (λ d t. t) (scripted rest) s ≡ run (n + 1) 0 none s
  unfolding execute rounds
  execute-run s = ap (λ k. run (rounds k) 0 none s) bound

  -- With `max_retries = n`, let the function raise exceptions `es` that are retried, and then answer
  -- otherwise. If `es` are at most `n`, the value of the next call is returned, and an exception that
  -- is not retried is raised at once; if `es` are exactly `n`, an exception of the next call is raised
  -- although it would be retried. In each case the function is called once more than `es` are, and
  -- what it would do afterwards is left.
  pub execute_outcomes :
      (es : List E) (xs : List (Attempt A E))
      → AllRetried p es
      → length es ≤ n
      → ((a : A)
          → let r = execute p draw (λ d t. t) (scripted rest) (map raised es ++ returned a ∷ xs) in
            (r.ending ≡ value a) × (r.calls ≡ length es + 1) × (r.state ≡ xs))
        × ((e : E)
            → (retries p e ≡ false) ⊎ (length es ≡ n)
            → let r = execute p draw (λ d t. t) (scripted rest) (map raised es ++ raised e ∷ xs) in
              (r.ending ≡ failed e) × (r.calls ≡ length es + 1) × (r.state ≡ xs))
  execute_outcomes es xs ok h = (
    λ a. rw execute-run (loop-returned es (n + 1) 0 none a xs ok (omega arith) (omega arith)),
    λ e stop. elim (Bool-cases (retries p e)) [
      | inl again ↦
          rw execute-run
            (loop-exhausted es (n + 1) 0 none e xs ok again (omega arith) (ground arith))
      | inr fatal ↦
          rw execute-run (loop-failed es (n + 1) 0 none e xs ok fatal (omega arith) (omega arith))
    ],
  )
