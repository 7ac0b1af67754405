-- ===== src/Extensions.antt =====
-- src/agents_protocol/extensions.py: hooks, validation rules and middleware. A callback, a rule and
-- a middleware are functions, as the program gets them; awaiting acts on a state `S`.
pub mod Chain
pub mod Rules
use agents_protocol.Prelude.{
  ℕ, zero, suc, ◌+◌, String, Bool, true, false, Option, none, some, List, [], ◌∷◌, ◌++◌, length,
  if◌then◌else◌,
}
use agents_protocol.Protocol.{AgentMessage}

pub data AgentHook : Type 0 where
  pre_connect post_connect pre_disconnect post_disconnect : AgentHook
  pre_message_process post_message_process : AgentHook

abbrev pub same_hook : AgentHook → AgentHook → Bool
same_hook pre_connect pre_connect = true
same_hook post_connect post_connect = true
same_hook pre_disconnect pre_disconnect = true
same_hook post_disconnect post_disconnect = true
same_hook pre_message_process pre_message_process = true
same_hook post_message_process post_message_process = true
same_hook _ _ = false

-- A callback gets the hook's arguments `X`; it returns, or raises an exception with a text.
abbrev pub Callback : Type 0 → Type 0 → Type 0
Callback X S = X → S → Option String × S

-- `HookManager`: the callbacks of each hook.
abbrev pub HookManager : Type 0 → Type 0 → Type 0
HookManager X S = AgentHook → List (Callback X S)

-- The exception that `asyncio.gather` raises: the first one.
abbrev pub first_raised : Option String → Option String → Option String
first_raised none e = e
first_raised (some e) _ = some e

module _ {X S : Type 0} where
  -- `HookManager.__init__`
  abbrev pub no_hooks : HookManager X S
  no_hooks hook = []

  -- `HookManager.register`
  unfoldable pub register_hook : AgentHook → Callback X S → HookManager X S → HookManager X S
  register_hook hook callback hooks h =
      if same_hook hook h then hooks h ++ callback ∷ [] else hooks h

  -- The callbacks that `asyncio.gather` starts, each run to its end before the next one; one that
  -- raises does not stop the others.
  unfoldable pub run_all : List (Callback X S) → X → S → Option String × S
  run_all [] x s = (none, s)
  run_all (f ∷ fs) x s =
      let (e, t) = f x s in let (e', u) = run_all fs x t in (first_raised e e', u)

  -- `HookManager.trigger`
  unfoldable pub trigger : AgentHook → HookManager X S → X → S → Option String × S
  unfolding run_all
  trigger hook hooks x s = run_all (hooks hook) x s

pub record ValidationRule : Type 0 where
  pub validate : AgentMessage → Bool
  pub error_message : String

-- `validate_message`: the error of the first rule that refuses, `none` where all accept.
unfoldable pub validate_message : List ValidationRule → AgentMessage → Option String
validate_message [] m = none
validate_message (rule ∷ rules) m =
    let rest = validate_message rules m in if rule.validate m then rest else some rule.error_message

-- A middleware acts on the message and the rest of the chain. `M` is what a handler's call is, and
-- `R` the type of a message as the chain hands it on.
abbrev pub Middleware : Type 0 → Type 0 → Type 0
Middleware R M = R → (R → M) → M

module _ {R M : Type 0} where
  -- `self._middleware[index]`
  unfoldable pub at : ℕ → List (Middleware R M) → Option (Middleware R M)
  at i [] = none
  at zero (w ∷ ws) = some w
  at (suc i) (w ∷ ws) = at i ws

  -- `_execute_chain`; `fuel` bounds the depth, which is the number of middlewares behind `index`.
  unfoldable pub execute_chain : List (Middleware R M) → (R → M) → ℕ → ℕ → R → M
  unfolding at
  execute_chain middleware handler zero index m = handler m
  execute_chain middleware handler (suc fuel) index m = elim (at index middleware) [
    | none ↦ handler m
    | some w ↦ w m (λ n. execute_chain middleware handler fuel (index + 1) n)
  ]

  unfoldable pub process_with_middleware : List (Middleware R M) → R → (R → M) → M
  unfolding execute_chain
  process_with_middleware middleware m handler =
      execute_chain middleware handler (length middleware) 0 m

-- `ExtensionManager`
pub record ExtensionManager (R M : Type 0) : Type 0 where
  pub middleware : List (Middleware R M)
  pub validation_rules : List ValidationRule

module _ {R M : Type 0} where
  -- `ExtensionManager.__init__`
  abbrev pub no_extensions : ExtensionManager R M
  no_extensions = record { middleware = []; validation_rules = [] }

  unfoldable pub add_middleware : Middleware R M → ExtensionManager R M → ExtensionManager R M
  add_middleware w x = record x { middleware = x.middleware ++ w ∷ [] }

  unfoldable pub add_validation_rule : ValidationRule → ExtensionManager R M → ExtensionManager R M
  add_validation_rule rule x = record x { validation_rules = x.validation_rules ++ rule ∷ [] }
