-- ===== src/Gateway/Opening.antt =====
-- crates/gateway-core/src/lib.rs: `open_session` and the ways to a secret, as the actions that they
-- take under given answers of the world.
pub mod Order
use chaperone.Prelude.{
  ℕ, min, Bytes, List, [], ◌∷◌, ◌++◌, Bool, true, false, Option, none, some, ascii, str_eq,
  starts_with, if◌then◌else◌,
}
use chaperone.Policy.Engine.{effect_as_str, Decision, Constraints}
use chaperone.Identity.Enrollment.{Store}
use chaperone.Identity.Attest.{Platform}
use chaperone.Gateway.Sessions.{Table, open_entry}
use chaperone.Gateway.Environment.{
  failed, given, credential_unresolved, mechanism_error, session_opened, Gateway, MintIntent,
  Envelope, World, Answers, resolved, minted, connected, session_result, Run, after, or_default,
  conclude, refuse,
}

-- `ssh_ca::TTL_CEILING_SECS`
abbrev pub ttl_ceiling_secs : ℕ
ttl_ceiling_secs = 3600

pub has_backend : List Bytes → Bytes → Bool
has_backend [] mechanism = false
has_backend (b ∷ bs) mechanism = if str_eq b mechanism then true else has_backend bs mechanism

-- `envelope.constraints.and_then(|c| c.session_ttl_s)`
pub declared_ttl : Option Constraints → Option ℕ
declared_ttl none = none
declared_ttl (some c) = c.session_ttl_s

module _ {p : Platform} (w : World p) where
  open p use {Value, str_field}
  open w use {Secret, Channel, bool_field, debug}

  module _ (g : Gateway) (store : Store p.Key) (a : Answers w) (sessions : Table Channel) where
    unfoldable pub no_backend : Envelope Value → Decision → Run w
    no_backend e d = refuse w g store a sessions e d mechanism_error (ascii "E_MECHANISM") (
        ascii "mechanism "
        ++ (debug e.mechanism ++ ascii " has no session backend configured in this build"))

    -- The vault's answer to a reference; what follows has the secret.
    unfoldable pub with_resolved : Envelope Value → Decision → (Secret → Run w) → Run w
    with_resolved e d k = after w (resolved e.cred_ref) (elim (a.resolve e.cred_ref) [
      | failed why ↦
          refuse w g store a sessions e d credential_unresolved (ascii "E_CRED_UNRESOLVED") why
      | given secret ↦ k secret
    ])

    unfoldable pub opened : Bytes → Envelope Value → Decision → Channel → Run w
    opened agent e d channel =
        let ttl = or_default w (declared_ttl e.constraints) g.config.default_session_ttl_secs in
        let (table, handle) =
          open_entry Channel sessions a.random_handle agent e.mechanism e.target_uri e.target_label
            channel ttl a.clock in
        conclude w g store a table e d (session_opened handle)
          (session_result (effect_as_str d.effect) handle ttl)

    -- `open_session` from the secret on.
    unfoldable pub establish : Bytes → Envelope Value → Decision → Secret → Run w
    establish agent e d secret =
        after w (connected e.mechanism e.target_uri e.operation secret)
          (elim (a.connect e.mechanism e.target_uri e.operation secret) [
            | failed why ↦
                refuse w g store a sessions e d mechanism_error (ascii "E_MECHANISM")
                  (ascii "session establishment failed: " ++ why)
            | given channel ↦ opened agent e d channel
          ])

    pub mint_intent : Envelope Value → Decision → MintIntent
    mint_intent e d = record {
      agent_id = e.agent_id;
      msg_id = e.msg_id;
      username = or_default w (str_field e.operation (ascii "user")) [];
      want_pty = or_default w (bool_field e.operation (ascii "pty")) true;
      ttl_secs =
          min (or_default w d.limits.session_ttl_s g.config.default_session_ttl_secs)
            ttl_ceiling_secs;
    }

    -- A `ca://` reference is minted instead of resolved.
    unfoldable pub with_minted : Envelope Value → Decision → (Secret → Run w) → Run w
    with_minted e d k =
        let no_ca =
          refuse w g store a sessions e d mechanism_error (ascii "E_MECHANISM")
            (ascii "SSH CA not initialized; run chaperone ca-init first") in
        let not_enrolled =
          refuse w g store a sessions e d mechanism_error (ascii "E_MECHANISM")
            (ascii "agent not enrolled; no key to certify") in
        let mint : Run w =
          after w (minted e.cred_ref (mint_intent e d))
            (elim (a.mint e.cred_ref (mint_intent e d)) [
              | failed why ↦
                  refuse w g store a sessions e d mechanism_error (ascii "E_MECHANISM") why
              | given secret ↦ k secret
            ]) in
        if g.has_ca then (if a.knows_identity e.agent_id then mint else not_enrolled) else no_ca

    unfoldable pub open_session : Bytes → Envelope Value → Decision → Run w
    open_session agent e d =
        let k = establish agent e d in
        let with_secret =
          if starts_with e.cred_ref (ascii "ca://")
          then with_minted e d k
          else with_resolved e d k in
        if has_backend g.backends e.mechanism then with_secret else no_backend e d
