-- ===== src/Extensions/Chain.antt =====
-- The middleware chain by index is a fold over the list: the first middleware is the outermost.
use agents_protocol.Prelude.{
  ℕ, zero, suc, ◌+◌, ◌≤◌, ◌≡◌, refl, ap, none, some, List, [], ◌∷◌, ◌++◌, length, drop, arith,
  length-drop,
}
use mathlib.Core.Path.{fun_ext}
use native.Mathlib.Numerals.{add-one}
use agents_protocol.Extensions.{
  Middleware, ExtensionManager, at, execute_chain, process_with_middleware, add_middleware,
}

module _ {R M : Type 0} where
  -- Each middleware around the ones after it, and all around the handler.
  abbrev pub wrap : List (Middleware R M) → (R → M) → R → M
  wrap [] handler m = handler m
  wrap (w ∷ ws) handler m = w m (wrap ws handler)

  at-none : (i : ℕ) (ws : List (Middleware R M)) → length ws ≤ i → at i ws ≡ none
  unfolding at
  at-none i [] h = refl
  at-none zero (w ∷ ws) h = absurd (omega arith)
  at-none (suc i) (w ∷ ws) h = at-none i ws (omega arith)

  at-drop :
      (i : ℕ) (ws vs : List (Middleware R M)) (v : Middleware R M)
      → drop i ws ≡ v ∷ vs
      → (at i ws ≡ some v) × (drop (suc i) ws ≡ vs)
  unfolding at
  at-drop zero [] vs v h = cc
  at-drop (suc i) [] vs v h = cc
  at-drop zero (w ∷ ws) vs v h = ground arith
  at-drop (suc i) (w ∷ ws) vs v h = at-drop i ws vs v h

  chain-wrap :
      (ws : List (Middleware R M)) (handler : R → M) (fuel index : ℕ) (vs : List (Middleware R M))
      (m : R)
      → drop index ws ≡ vs
      → length vs ≤ fuel
      → execute_chain ws handler fuel index m ≡ wrap vs handler m
  unfolding execute_chain
  chain-wrap ws handler zero index [] m e h = refl
  chain-wrap ws handler zero index (v ∷ vs) m e h = absurd (omega arith)
  chain-wrap ws handler (suc fuel) index [] m e h =
      let past : length ws ≤ index = omega (arith, length-drop index ws, ap length e) in
      rw (at-none index ws past, execute_chain)
  chain-wrap ws handler (suc fuel) index (v ∷ vs) m e h =
      let (found, next) = at-drop index ws vs v e in
      let next' : drop (index + 1) ws ≡ vs = rw add-one next in
      rw (found, execute_chain)
        (ap (v m) (fun_ext λ n. chain-wrap ws handler fuel (index + 1) vs n next' (omega arith)))

  -- The chain runs the middlewares in the order in which they were added, each around the rest, and
  -- the handler innermost, for every list of middlewares and every handler.
  pub process_with_middleware-wrap :
      (ws : List (Middleware R M)) (m : R) (handler : R → M)
      → process_with_middleware ws m handler ≡ wrap ws handler m
  unfolding process_with_middleware
  process_with_middleware-wrap ws m handler =
      chain-wrap ws handler (length ws) 0 ws m refl (omega arith)

  wrap-append :
      (ws vs : List (Middleware R M)) (handler : R → M) (m : R)
      → wrap (ws ++ vs) handler m ≡ wrap ws (wrap vs handler) m
  wrap-append [] vs handler m = refl
  wrap-append (w ∷ ws) vs handler m = ap (w m) (fun_ext (wrap-append ws vs handler))

  -- A middleware that is added runs inside all those that were there, directly around the handler.
  pub add_middleware-innermost :
      (x : ExtensionManager R M) (w : Middleware R M) (m : R) (handler : R → M)
      → process_with_middleware (add_middleware w x).middleware m handler
        ≡ process_with_middleware x.middleware m (λ n. w n handler)
  unfolding add_middleware
  add_middleware-innermost x w m handler = simp (process_with_middleware-wrap, wrap-append)
