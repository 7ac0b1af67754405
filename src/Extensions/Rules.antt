-- ===== src/Extensions/Rules.antt =====
-- Which messages pass the validation rules.
use agents_protocol.Prelude.{◌≡◌, refl, true, false, none, some, List, [], ◌∷◌, ◌++◌, arith}
use agents_protocol.Protocol.{AgentMessage}
use agents_protocol.Extensions.{ValidationRule, validate_message}

-- Each rule of the list accepts the message.
abbrev pub AllAccept : List ValidationRule → AgentMessage → Type 0
AllAccept [] m = Unit {0}
AllAccept (r ∷ rs) m = (r.validate m ≡ true) × AllAccept rs m

-- A message passes if all rules accept it, and what is reported otherwise is the error of the rule
-- that refuses first, after rules that accept.
pub validate_message-first :
    (rs : List ValidationRule) (m : AgentMessage)
    → (AllAccept rs m → validate_message rs m ≡ none)
      × ((r : ValidationRule) (later : List ValidationRule)
          → AllAccept rs m
          → r.validate m ≡ false
          → validate_message (rs ++ r ∷ later) m ≡ some r.error_message)
unfolding validate_message
validate_message-first [] m = (λ _. refl, λ r later _ e. ground arith)
validate_message-first (x ∷ rs) m =
    let ih = validate_message-first rs m in
    (λ a. ground (arith, ih.0 a.1), λ r later a e. ground (arith, ih.1 r later a.1 e))
