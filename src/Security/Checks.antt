-- ===== src/Security/Checks.antt =====
-- Which messages `verify_message` accepts.
use agents_protocol.Prelude.{
  String, ◌≡◌, ◌↔◌, ◌⊎◌, inl, inr, refl, true, Option, none, some, List, arith, contains, eq_iff,
  eq_refl, Option-cases, Bool-cases,
}
use agents_protocol.Dict
use agents_protocol.Json.{find}
use agents_protocol.Protocol.{AgentMessage, or_empty}
use agents_protocol.Security.{
  SecurityManager, success, status, is_ascii, compare_digest, token_text, identity_ok, allows,
  access_ok, verify_message,
}

-- The sender has no registered key, or the message carries exactly that key, an ASCII text.
abbrev pub Authentic : SecurityManager → AgentMessage → Type 0
Authentic s m =
    (Dict.get m.sender_id s.agent_keys ≡ none)
    ⊎ ((psk : String) × (Dict.get m.sender_id s.agent_keys ≡ some psk)
        × (token_text (find "token" (or_empty m.security)) ≡ some psk)
        × (is_ascii psk ≡ true))

-- The sender has no access list, or its list has the recipient or the wildcard.
abbrev pub Permitted : SecurityManager → AgentMessage → Type 0
Permitted s m =
    (Dict.get m.sender_id s.allowed_agents ≡ none)
    ⊎ ((allowed : List String) × (Dict.get m.sender_id s.allowed_agents ≡ some allowed)
        × ((contains "*" allowed ≡ true)
            ⊎ ((r : String) × (m.recipient_id ≡ some r) × (contains r allowed ≡ true))))

allows-cases :
    (allowed : List String) (r : Option String)
    → allows allowed r ≡ true
    → (contains "*" allowed ≡ true) ⊎ ((q : String) × (r ≡ some q) × (contains q allowed ≡ true))
unfolding allows
allows-cases allowed none h = inl h
allows-cases allowed (some q) h = elim (Bool-cases (contains q allowed)) [
  | inl e ↦ inr (q, refl, e)
  | inr e ↦ inl (ground arith)
]

access_ok-Permitted :
    (s : SecurityManager) (m : AgentMessage) → access_ok s m ≡ true → Permitted s m
unfolding access_ok
access_ok-Permitted s m h = elim (Option-cases (Dict.get m.sender_id s.allowed_agents)) [
  | inl e ↦ inl e
  | inr (allowed, e) ↦ inr (allowed, e, allows-cases allowed m.recipient_id (ground arith))
]

Permitted-access_ok :
    (s : SecurityManager) (m : AgentMessage) → Permitted s m → access_ok s m ≡ true
unfolding access_ok
Permitted-access_ok s m (inl e) = ground arith
Permitted-access_ok s m (inr (allowed, e, inl w)) = ground arith
Permitted-access_ok s m (inr (allowed, e, inr (r, d, w))) = ground arith

compare_digest-true :
    (a b : String) → compare_digest a b ≡ some true → (a ≡ b) × (is_ascii b ≡ true)
unfolding compare_digest
compare_digest-true a b h = ground (arith, eq_iff a b)

compare_digest_self : (a : String) → is_ascii a ≡ true → compare_digest a a ≡ some true
unfolding compare_digest
compare_digest_self a h = rw (h, eq_refl)

identity_ok-Authentic :
    (s : SecurityManager) (m : AgentMessage) → identity_ok s m ≡ some true → Authentic s m
unfolding identity_ok
identity_ok-Authentic s m h = elim (Option-cases (Dict.get m.sender_id s.agent_keys)) [
  | inl e ↦ inl e
  | inr (psk, e) ↦ elim (Option-cases (token_text (find "token" (or_empty m.security)))) [
    | inl n ↦ absurd (ground arith)
    | inr (t, n) ↦
        let c : compare_digest t psk ≡ some true = ground arith in
        let d = compare_digest-true t psk c in inr (psk, e, ground arith, d.1)
  ]
]

Authentic-identity_ok :
    (s : SecurityManager) (m : AgentMessage) → Authentic s m → identity_ok s m ≡ some true
unfolding identity_ok
Authentic-identity_ok s m (inl e) = ground arith
Authentic-identity_ok s m (inr (psk, e, t, a)) = ground (arith, compare_digest_self psk a)

-- A message is accepted exactly if it is authentic and its sender may write to its recipient.
pub verify_message-success_iff :
    (s : SecurityManager) (m : AgentMessage)
    → (verify_message s m ≡ status success) ↔ (Authentic s m × Permitted s m)
unfolding verify_message
verify_message-success_iff s m = (
  λ h. (identity_ok-Authentic s m (ground arith), access_ok-Permitted s m (ground arith)),
  λ h. ground (arith, Authentic-identity_ok s m h.0, Permitted-access_ok s m h.1),
)
