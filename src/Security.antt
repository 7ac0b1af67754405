-- ===== src/Security.antt =====
-- `SecurityManager` of src/agents_protocol/security.py: pre-shared keys and access control lists.
pub mod Checks
pub mod Tls
use Prim.Native.Char.{code}
use Prim.Native.String
use agents_protocol.Prelude.{
  ℕ, String, Bool, true, false, not, ◌&&◌, Option, none, some, List, [], ◌==◌, ltb, eqb,
  if◌then◌else◌, contains,
}
use agents_protocol.Dict
use agents_protocol.Dict.{Dict}
use agents_protocol.Json.{Value, null, bool, num, str, arr, obj, no_items, no_fields, find}
use agents_protocol.Protocol.{AgentMessage, or_empty}

pub data AuthStatus : Type 0 where
  success unauthorized expired invalid_signature : AuthStatus

-- How `verify_message` ends: with a status, or with the `TypeError` of `hmac.compare_digest`.
pub data Verdict : Type 0 where
  status : AuthStatus → Verdict
  type_error : Verdict

pub record SecurityManager : Type 0 where
  pub secret_key : Option String
  pub allowed_agents : Dict (List String)
  pub agent_keys : Dict String

-- `__init__`
abbrev pub new : Option String → SecurityManager
new secret_key = record { secret_key = secret_key; allowed_agents = []; agent_keys = [] }

unfoldable pub register_agent_credentials : String → String → SecurityManager → SecurityManager
register_agent_credentials agent_id psk s = record s {
  agent_keys = Dict.put agent_id psk s.agent_keys;
}

unfoldable pub set_acl : String → List String → SecurityManager → SecurityManager
set_acl agent_id allowed_recipients s = record s {
  allowed_agents = Dict.put agent_id allowed_recipients s.allowed_agents;
}

unfoldable pub is_ascii : String → Bool
is_ascii String.[] = true
is_ascii (String.◌∷◌ c s) = let rest = is_ascii s in if ltb (code c) 128 then rest else false

-- `hmac.compare_digest` on two texts; `none` stands for the `TypeError` on a text beyond ASCII.
unfoldable pub compare_digest : String → String → Option Bool
compare_digest a b = if is_ascii a && is_ascii b then some (a == b) else none

-- `token or ""`: the text that is compared, or `none` where the value is no text, so that
-- `compare_digest` raises. A false value stands for the empty text.
unfoldable pub token_text : Option Value → Option String
token_text none = some ""
token_text (some null) = some ""
token_text (some (bool false)) = some ""
token_text (some (bool true)) = none
token_text (some (num n)) = if eqb n 0 then some "" else none
token_text (some (str s)) = some s
token_text (some (arr no_items)) = some ""
token_text (some (obj no_fields)) = some ""
token_text (some v) = none

-- The first check: `none` stands for the `TypeError`, otherwise whether the token is right.
unfoldable pub identity_ok : SecurityManager → AgentMessage → Option Bool
unfolding compare_digest token_text
identity_ok s m = elim (Dict.get m.sender_id s.agent_keys) [
  | none ↦ some true
  | some expected ↦ elim (token_text (find "token" (or_empty m.security))) [
    | none ↦ none
    | some token ↦ compare_digest token expected
  ]
]

-- `recipient_id in allowed or "*" in allowed`; `None` is in no list of texts.
unfoldable pub allows : List String → Option String → Bool
allows allowed none = contains "*" allowed
allows allowed (some r) = if contains r allowed then true else contains "*" allowed

-- The second check.
unfoldable pub access_ok : SecurityManager → AgentMessage → Bool
unfolding allows
access_ok s m = elim (Dict.get m.sender_id s.allowed_agents) [
  | none ↦ true
  | some allowed ↦ allows allowed m.recipient_id
]

unfoldable pub verify_message : SecurityManager → AgentMessage → Verdict
unfolding identity_ok access_ok
verify_message s m = elim (identity_ok s m) [
  | none ↦ type_error
  | some false ↦ status unauthorized
  | some true ↦ if access_ok s m then status success else status unauthorized
]
