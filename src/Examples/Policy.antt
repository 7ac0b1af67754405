-- ===== src/Examples/Policy.antt =====
-- What the access control of the secure example lets through.
use agents_protocol.Prelude.{
  String, ◌≡◌, ◌≢◌, ◌↔◌, ◌⊎◌, inl, inr, refl, ap, ◌∙◌, ◌==◌, false, none, some, [], ◌∷◌, ℕ, arith,
  eq_iff, Bool-cases, if◌then◌else◌,
}
use agents_protocol.Dict
use agents_protocol.Json.{Fields, find}
use agents_protocol.Protocol.{AgentMessage, set_correlation_id_if_none}
use agents_protocol.Security.{
  verify_message, status, success, register_agent_credentials, set_acl, token_text, is_ascii,
}
use agents_protocol.Security.Checks.{Authentic, Permitted, verify_message-success_iff}
use agents_protocol.Broker.Refusals.{as_sent}
use agents_protocol.Examples.Secure.{secure_message, manager}

-- The two agents with credentials send with their tokens, the worker only to the orchestrator;
-- anybody else sends without.
abbrev pub Admits : String → String → String → Type 0
Admits sender_id token recipient_id =
    ((sender_id ≡ "orchestrator") × (token ≡ "orch_secret_123"))
    ⊎ ((sender_id ≡ "worker_a") × (token ≡ "worker_secret_456") × (recipient_id ≡ "orchestrator"))
    ⊎ ((sender_id ≢ "orchestrator") × (sender_id ≢ "worker_a"))

agent_keys :
    (i : String)
    → Dict.get i manager.agent_keys ≡ (
        if "orchestrator" == i
        then some "orch_secret_123"
        else if "worker_a" == i
        then some "worker_secret_456"
        else none)
unfolding manager register_agent_credentials set_acl Dict.get Dict.put
agent_keys i = refl

allowed_agents :
    (i : String)
    → Dict.get i manager.allowed_agents ≡ (
        if "orchestrator" == i
        then some ("*" ∷ [])
        else if "worker_a" == i
        then some ("orchestrator" ∷ [])
        else none)
unfolding manager register_agent_credentials set_acl Dict.get Dict.put
allowed_agents i = refl

differs : (a b : String) → b ≢ a → (a == b) ≡ false
differs a b n = elim (Bool-cases (a == b)) [
  | inl e ↦ absurd (n (ground (arith, e, eq_iff a b)))
  | inr e ↦ e
]

module _ (id : String) (timestamp : ℕ) (content : Fields) where
  abbrev judged : String → String → String → AgentMessage
  judged sender_id token recipient_id =
      as_sent (secure_message id timestamp sender_id token recipient_id content)

  Authentic-token :
      (sender_id token recipient_id psk : String)
      → Dict.get sender_id manager.agent_keys ≡ some psk
      → Authentic manager (judged sender_id token recipient_id)
      → token ≡ psk
  unfolding secure_message set_correlation_id_if_none find token_text
  Authentic-token sender_id token recipient_id psk k (inl e) = absurd (ground (arith, k, e))
  Authentic-token sender_id token recipient_id psk k (inr (p, e, t, h)) = ground (arith, k, e, t)

  Permitted-recipient :
      (sender_id token recipient_id r : String)
      → Dict.get sender_id manager.allowed_agents ≡ some (r ∷ [])
      → (r == "*") ≡ false
      → Permitted manager (judged sender_id token recipient_id)
      → recipient_id ≡ r
  unfolding secure_message set_correlation_id_if_none
  Permitted-recipient sender_id token recipient_id r k n (inl e) = absurd (ground (arith, k, e))
  Permitted-recipient sender_id token recipient_id r k n (inr (allowed, e, inl w)) =
      absurd (ground (arith, k, e, w, n))
  Permitted-recipient sender_id token recipient_id r k n (inr (allowed, e, inr (q, d, w))) =
      ground (arith, k, e, d, w, eq_iff r q)

  Authentic-Permitted-Admits :
      (sender_id token recipient_id : String)
      → Authentic manager (judged sender_id token recipient_id)
      → Permitted manager (judged sender_id token recipient_id)
      → Admits sender_id token recipient_id
  Authentic-Permitted-Admits sender_id token recipient_id a p =
      elim (Bool-cases ("orchestrator" == sender_id)) [
        | inl o ↦
            let k : Dict.get sender_id manager.agent_keys ≡ some "orch_secret_123" =
              rw (agent_keys, o) refl in
            inl (
              ground (arith, o, eq_iff "orchestrator" sender_id),
              Authentic-token sender_id token recipient_id _ k a,
            )
        | inr o ↦ elim (Bool-cases ("worker_a" == sender_id)) [
          | inl w ↦
              let k : Dict.get sender_id manager.agent_keys ≡ some "worker_secret_456" =
                rw (agent_keys, o, w) refl in
              let l : Dict.get sender_id manager.allowed_agents ≡ some ("orchestrator" ∷ []) =
                rw (allowed_agents, o, w) refl in
              inr (
                inl (
                  ground (arith, w, eq_iff "worker_a" sender_id),
                  Authentic-token sender_id token recipient_id _ k a,
                  Permitted-recipient sender_id token recipient_id "orchestrator" l refl p,
                ))
          | inr w ↦ inr (
              inr (
                λ e. ground (arith, o, e, eq_iff "orchestrator" sender_id),
                λ e. ground (arith, w, e, eq_iff "worker_a" sender_id),
              ))
        ]
      ]

  Admits-Authentic :
      (sender_id token recipient_id : String)
      → Admits sender_id token recipient_id
      → Authentic manager (judged sender_id token recipient_id)
        × Permitted manager (judged sender_id token recipient_id)
  unfolding secure_message set_correlation_id_if_none find token_text is_ascii
  Admits-Authentic sender_id token recipient_id (inl (o, t)) = (
    inr (
      "orch_secret_123",
      ap (λ i. Dict.get i manager.agent_keys) o ∙ agent_keys "orchestrator",
      ap some t,
      refl,
    ),
    inr (
      "*" ∷ [],
      ap (λ i. Dict.get i manager.allowed_agents) o ∙ allowed_agents "orchestrator",
      inl refl,
    ),
  )
  Admits-Authentic sender_id token recipient_id (inr (inl (k, t, r))) = (
    inr (
      "worker_secret_456",
      ap (λ i. Dict.get i manager.agent_keys) k ∙ agent_keys "worker_a",
      ap some t,
      refl,
    ),
    inr (
      "orchestrator" ∷ [],
      ap (λ i. Dict.get i manager.allowed_agents) k ∙ allowed_agents "worker_a",
      inr ("orchestrator", ap some r, refl),
    ),
  )
  Admits-Authentic sender_id token recipient_id (inr (inr (o, k))) =
      let n = differs "orchestrator" sender_id o in
      let m = differs "worker_a" sender_id k in
      (inl (rw (agent_keys, n, m) refl), inl (rw (allowed_agents, n, m) refl))

  pub verify_message-Admits :
      (sender_id token recipient_id : String)
      → (verify_message manager (judged sender_id token recipient_id) ≡ status success)
        ↔ Admits sender_id token recipient_id
  verify_message-Admits sender_id token recipient_id =
      let (f, g) = verify_message-success_iff manager (judged sender_id token recipient_id) in
      (
        λ e. let (a, p) = f e in Authentic-Permitted-Admits sender_id token recipient_id a p,
        λ h. g (Admits-Authentic sender_id token recipient_id h),
      )
