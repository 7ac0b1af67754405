-- ===== src/Security/Tls.antt =====
-- `TLSHelper` of src/agents_protocol/security.py. A context is what the `ssl` module says of it: what
-- `create_default_context` sets for each purpose, and what is loaded into it. `loads_chain` and
-- `loads_authorities` stand for whether the files can be loaded, `none` for the exception if not.
use agents_protocol.Prelude.{
  String, ◌≡◌, Bool, true, false, not, ◌&&◌, Option, none, some, List, [], ◌∷◌, ◌==◌, arith,
  if◌then◌else◌, Bool-cases, Option-cases, inl, inr, ap, sym, ◌∙◌,
}
use mathlib.Core.Option

pub data VerifyMode : Type 0 where
  cert_none cert_optional cert_required : VerifyMode

-- For whom the context is: a server that authenticates clients, or a client.
pub data Purpose : Type 0 where
  client_auth server_auth : Purpose

pub record SslContext : Type 0 where
  pub purpose : Purpose
  pub check_hostname : Bool
  pub verify_mode : VerifyMode
  pub chain : Option (String × String)
  pub authorities : List String

abbrev pub create_default_context : Purpose → SslContext
create_default_context client_auth = record {
  purpose = client_auth;
  check_hostname = false;
  verify_mode = cert_none;
  chain = none;
  authorities = [];
}
create_default_context server_auth = record {
  purpose = server_auth;
  check_hostname = true;
  verify_mode = cert_required;
  chain = none;
  authorities = [];
}

-- `context.verify_mode = ssl.CERT_REQUIRED`
abbrev pub asking : SslContext → SslContext
asking c = record c { verify_mode = cert_required }

-- A text that is there and not empty.
unfoldable pub is_given : Option String → Bool
is_given none = false
is_given (some s) = not (s == "")

module _ (loads_chain : String → String → Bool) (loads_authorities : String → Bool) where
  unfoldable pub load_cert_chain : String → String → SslContext → Option SslContext
  load_cert_chain certfile keyfile c =
      if loads_chain certfile keyfile
      then some (record c { chain = some (certfile, keyfile) })
      else none

  unfoldable pub load_verify_locations : Option String → SslContext → Option SslContext
  load_verify_locations none c = some c
  load_verify_locations (some ca_file) c =
      if loads_authorities ca_file
      then some (record c { authorities = ca_file ∷ c.authorities })
      else none

  -- `if ca_file:` of the server's context
  unfoldable pub require_clients : Option String → SslContext → Option SslContext
  unfolding load_verify_locations is_given
  require_clients ca_file c =
      if is_given ca_file then Option.map asking (load_verify_locations ca_file c) else some c

  -- After the chain was loaded.
  unfoldable pub after_chain : Option String → Option SslContext → Option SslContext
  unfolding require_clients
  after_chain ca_file none = none
  after_chain ca_file (some c) = require_clients ca_file c

  unfoldable pub create_server_context : String → String → Option String → Option SslContext
  unfolding load_cert_chain after_chain
  create_server_context certfile keyfile ca_file =
      after_chain ca_file (load_cert_chain certfile keyfile (create_default_context client_auth))

  -- `if certfile and keyfile:` of the client's context
  unfoldable pub present : Option String → Option String → SslContext → Option SslContext
  unfolding load_cert_chain is_given
  present none keyfile c = some c
  present (some certfile) none c = some c
  present (some certfile) (some keyfile) c =
      if is_given (some certfile) && is_given (some keyfile)
      then load_cert_chain certfile keyfile c
      else some c

  -- `if ca_file:` of the client's context
  unfoldable pub trust : Option String → SslContext → Option SslContext
  unfolding load_verify_locations is_given
  trust ca_file c = if is_given ca_file then load_verify_locations ca_file c else some c

  -- After the authorities were loaded.
  unfoldable pub after_roots : Option String → Option String → Option SslContext → Option SslContext
  unfolding present
  after_roots certfile keyfile none = none
  after_roots certfile keyfile (some c) = present certfile keyfile c

  unfoldable pub create_client_context :
      Option String → Option String → Option String → Option SslContext
  unfolding after_roots trust
  create_client_context ca_file certfile keyfile =
      after_roots certfile keyfile (trust ca_file (create_default_context server_auth))

  require_clients-verify_mode :
      (ca_file : Option String) (c d : SslContext)
      → require_clients ca_file c ≡ some d
      → (d.chain ≡ c.chain)
        × (d.verify_mode ≡ (if is_given ca_file then cert_required else c.verify_mode))
  unfolding require_clients load_verify_locations is_given
  require_clients-verify_mode none c d e = ground (arith, e)
  require_clients-verify_mode (some f) c d e = ground (arith, e)

  present-verify_mode :
      (certfile keyfile : Option String) (c d : SslContext)
      → present certfile keyfile c ≡ some d
      → (d.verify_mode ≡ c.verify_mode) × (d.check_hostname ≡ c.check_hostname)
  unfolding present load_cert_chain is_given
  present-verify_mode none keyfile c d e = ground (arith, e)
  present-verify_mode (some f) none c d e = ground (arith, e)
  present-verify_mode (some f) (some k) c d e = ground (arith, e)

  load_cert_chain-chain :
      (certfile keyfile : String) (c d : SslContext)
      → load_cert_chain certfile keyfile c ≡ some d
      → (d.chain ≡ some (certfile, keyfile)) × (d.verify_mode ≡ c.verify_mode)
  unfolding load_cert_chain
  load_cert_chain-chain certfile keyfile c d e = elim (Bool-cases (loads_chain certfile keyfile)) [
    | inl k ↦
        let p : some (record c { chain = some (certfile, keyfile) }) ≡ some d = rw k at e in
        let q : record c { chain = some (certfile, keyfile) } ≡ d = cc p in
        (ap (λ (x : SslContext). x.chain) (sym q), ap (λ (x : SslContext). x.verify_mode) (sym q))
    | inr k ↦ absurd (let p : none ≡ some d = rw k at e in cc p)
  ]

  trust-verify_mode :
      (ca_file : Option String) (c d : SslContext)
      → trust ca_file c ≡ some d
      → (d.verify_mode ≡ c.verify_mode) × (d.check_hostname ≡ c.check_hostname)
  unfolding trust load_verify_locations is_given
  trust-verify_mode none c d e = ground (arith, e)
  trust-verify_mode (some f) c d e = ground (arith, e)

  -- A server's context, where it can be made, has the certificate it was given and asks clients for theirs
  -- exactly if a file of authorities was named.
  pub create_server_context-verify_mode :
      (certfile keyfile : String) (ca_file : Option String) (c : SslContext)
      → create_server_context certfile keyfile ca_file ≡ some c
      → (c.chain ≡ some (certfile, keyfile))
        × (c.verify_mode ≡ (if is_given ca_file then cert_required else cert_none))
  unfolding create_server_context
  create_server_context-verify_mode certfile keyfile ca_file c e =
      let start = create_default_context client_auth in
      elim (Option-cases (load_cert_chain certfile keyfile start)) [
        | inl k ↦ absurd (cc (sym (ap (after_chain ca_file) k) ∙ e))
        | inr (d, k) ↦
            let l = load_cert_chain-chain certfile keyfile start d k in
            let r : require_clients ca_file d ≡ some c =
              unfold after_chain in sym (ap (after_chain ca_file) k) ∙ e in
            let m = require_clients-verify_mode ca_file d c r in
            (m.0 ∙ l.0, m.1 ∙ ap (λ v. if is_given ca_file then cert_required else v) l.1)
      ]

  -- A client's context, where it can be made, checks the server's certificate and name, whatever files were
  -- named.
  pub create_client_context-verify_mode :
      (ca_file certfile keyfile : Option String) (c : SslContext)
      → create_client_context ca_file certfile keyfile ≡ some c
      → (c.verify_mode ≡ cert_required) × (c.check_hostname ≡ true)
  unfolding create_client_context
  create_client_context-verify_mode ca_file certfile keyfile c e =
      let start = create_default_context server_auth in
      elim (Option-cases (trust ca_file start)) [
        | inl k ↦ absurd (cc (sym (ap (after_roots certfile keyfile) k) ∙ e))
        | inr (d, k) ↦
            let l = trust-verify_mode ca_file start d k in
            let r : present certfile keyfile d ≡ some c =
              unfold after_roots in sym (ap (after_roots certfile keyfile) k) ∙ e in
            let m = present-verify_mode certfile keyfile d c r in (m.0 ∙ l.0, m.1 ∙ l.1)
      ]
