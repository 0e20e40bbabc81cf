-- ===== src/Gateway/Intent.antt =====
-- crates/gateway-core/src/lib.rs: `handle_intent`, as the actions that it takes
-- under given answers of the world. Built with the feature `postgres`.
pub mod Trace
pub mod Clearance
use chaperone.Prelude.{
  ℕ, Bytes, List, [], ◌∷◌, ◌++◌, Bool, true, false, ◌||◌, Option, none, some, ascii, str_eq,
  if◌then◌else◌,
}
use chaperone.Policy.Engine.{
  Effect, allow, deny, needs_confirmation, effect_as_str, Decision, DecisionSource, default_deny,
  rule, Request, evaluate, label,
}
use chaperone.Identity.Enrollment.{Store, sponsor_id_of}
use chaperone.Identity.Replay.{Cache, Io}
use chaperone.Identity.Attest.{
  Platform, IdentityError, unsupported_version, unknown_agent, replay, bad_signature, Result, ok,
  err, VerifiedIntent, verify,
}
use chaperone.Gateway.Operation.{
  HttpOperation, DbOperation, has_agent_authorization, http_summary, db_summary, permits,
}
use chaperone.Gateway.Sessions.{Table}
use chaperone.Gateway.Opening.{has_backend, no_backend, with_resolved, open_session}
use chaperone.Gateway.Environment.{
  failed, given, approved, refused, timed_out, ConfirmContext, proceeded, policy_denied,
  confirmation_timeout, mechanism_error, identity_failed, Gateway, Envelope, AuditEvent, World,
  Answers, asked, executed, queried, appended, Response, error, http_result, db_result, Run, after,
  or_default, conclude, refuse,
}

pub error_code : IdentityError → Bytes
error_code (unsupported_version _) = ascii "E_VERSION"
error_code (unknown_agent _) = ascii "E_UNKNOWN_AGENT"
error_code (replay _) = ascii "E_REPLAY"
error_code bad_signature = ascii "E_BAD_SIGNATURE"

pub identity_reason : (Bytes → Bytes) → IdentityError → Bytes
identity_reason debug (unsupported_version v) = ascii "unsupported protocol version " ++ debug v
identity_reason debug (unknown_agent id) = ascii "agent " ++ (id ++ ascii " is not enrolled")
identity_reason debug (replay why) = ascii "freshness check failed: " ++ why
identity_reason debug bad_signature = ascii "signature did not verify"

unfoldable pub is_one_shot : Bytes → Bool
is_one_shot m =
    str_eq (ascii "http-bearer") m || (str_eq (ascii "http-basic") m || str_eq (ascii "db-scram") m)

pub is_session_mechanism : Bytes → Bool
is_session_mechanism m = str_eq m (ascii "ssh") || str_eq m (ascii "local-privilege")

pub join : List Bytes → Bytes
join [] = []
join (a ∷ []) = a
join (a ∷ b ∷ r) = a ++ (32 ∷ join (b ∷ r))

pub pinned : Option (List (Bytes × List Bytes)) → Bytes → List Bytes → Bool
pinned none command args = false
pinned (some entries) command args = permits entries command args

-- The effect after the rule for `local-privilege`: unless the operator pinned the command, an allow
-- needs a confirmation.
pub gated_effect : Effect → Bool → Bool → Effect
gated_effect allow true false = needs_confirmation
gated_effect allow true true = allow
gated_effect allow false b = allow
gated_effect needs_confirmation l b = needs_confirmation
gated_effect deny l b = deny

pub deny_reason : (ℕ → Bytes) → DecisionSource → Bytes
deny_reason digits default_deny = ascii "no policy rule permits this action (default-deny)"
deny_reason digits (rule i n p) = ascii "denied by " ++ label digits (rule i n p)

module _ {p : Platform} (w : World p) where
  open p use {Value, str_field}
  open w use {
    Secret, Channel, HttpResponse, parse_envelope, http_operation, db_operation, bool_field,
    text_list, path_field, debug, digits,
  }

  pub summary_of : Value → Bytes
  summary_of operation = elim (http_operation operation) [
    | given op ↦ http_summary op
    | failed _ ↦ elim (db_operation operation) [
      | given op ↦ db_summary op
      | failed _ ↦ ascii "operation"
    ]
  ]

  module _ (g : Gateway) (store : Store p.Key) (a : Answers w) (sessions : Table Channel) where
    -- The single human gate, when the effect is `needs_confirmation`.
    unfoldable pub with_confirmation :
        Envelope Value → Decision → Effect → ConfirmContext → Bytes → Run w → Run w
    with_confirmation e d needs_confirmation ctx reason k =
        after w (asked ctx) (elim (a.confirm ctx) [
          | approved ↦ k
          | refused ↦
              refuse w g store a sessions e d confirmation_timeout (ascii "E_CONFIRM_TIMEOUT")
                reason
          | timed_out ↦
              refuse w g store a sessions e d confirmation_timeout (ascii "E_CONFIRM_TIMEOUT")
                reason
        ])
    with_confirmation e d allow ctx reason k = k
    with_confirmation e d deny ctx reason k = k

    abbrev pub context : Bytes → Envelope Value → Bytes → ConfirmContext
    context agent e summary = record {
      agent_id = agent;
      target_label = e.target_label;
      target_uri = e.target_uri;
      mechanism = e.mechanism;
      summary = summary;
    }

    abbrev pub command : Envelope Value → Bytes
    command e = or_default w (str_field e.operation (ascii "command")) []

    abbrev pub is_pinned : Envelope Value → Bool
    is_pinned e = pinned g.privilege_allowlist (command e) (text_list e.operation (ascii "args"))

    abbrev pub is_privileged : Envelope Value → Bool
    is_privileged e = str_eq e.mechanism (ascii "local-privilege")

    pub session_summary : Envelope Value → Bytes
    session_summary e =
        if is_privileged e
        then ascii "run " ++ (command e ++ (32 ∷ join (text_list e.operation (ascii "args"))))
        else ascii "operation"

    -- The path of "ssh" and "local-privilege".
    pub session_path : Bytes → Envelope Value → Decision → Run w
    session_path agent e d =
        let effect = gated_effect d.effect (is_privileged e) (is_pinned e) in
        let opening =
          with_confirmation e d effect (context agent e (session_summary e))
            (ascii "the human gate did not approve this privileged action")
            (open_session w g store a sessions agent e d) in
        if has_backend g.backends e.mechanism then opening else no_backend w g store a sessions e d

    pub run_statement : Envelope Value → Decision → DbOperation → Secret → Run w
    run_statement e d op secret =
        after w (queried e.target_uri op secret) (elim (a.run_sql e.target_uri op secret) [
          | failed why ↦ refuse w g store a sessions e d mechanism_error (ascii "E_MECHANISM") why
          | given rows ↦
              conclude w g store a sessions e d proceeded (db_result (effect_as_str d.effect) rows)
        ])

    pub body_invalid : Envelope Value → Decision → Bytes → Run w
    body_invalid e d why =
        refuse w g store a sessions e d mechanism_error (ascii "E_MECHANISM")
          (ascii "operation body invalid: " ++ why)

    pub db_path : Bytes → Envelope Value → Decision → Run w
    db_path agent e d = elim (db_operation e.operation) [
      | failed why ↦ body_invalid e d why
      | given op ↦ elim op.statement [
        | some _ ↦ with_resolved w g store a sessions e d (run_statement e d op)
        | none ↦ open_session w g store a sessions agent e d
      ]
    ]

    pub inject : Envelope Value → Decision → HttpOperation → Secret → Run w
    inject e d op secret =
        let cap = or_default w d.limits.max_response_bytes g.config.default_max_response_bytes in
        after w (executed e.mechanism e.target_uri op secret cap)
          (elim (a.execute e.mechanism e.target_uri op secret cap) [
            | failed why ↦ refuse w g store a sessions e d mechanism_error (ascii "E_MECHANISM") why
            | given resp ↦
                conclude w g store a sessions e d proceeded
                  (http_result (effect_as_str d.effect) resp)
          ])

    unfoldable pub http_path : Envelope Value → Decision → Run w
    http_path e d = elim (http_operation e.operation) [
      | failed why ↦ body_invalid e d why
      | given op ↦
          if has_agent_authorization op
          then refuse w g store a sessions e d mechanism_error (ascii "E_MECHANISM")
              (ascii "agents do not supply Authorization headers; name a cred_ref instead")
          else with_resolved w g store a sessions e d (inject e d op)
    ]

    unfoldable pub one_shot_path : Bytes → Envelope Value → Decision → Run w
    one_shot_path agent e d =
        let run =
          if str_eq e.mechanism (ascii "db-scram") then db_path agent e d else http_path e d in
        with_confirmation e d d.effect (context agent e (summary_of e.operation))
          (ascii "the human gate did not approve this action") run

    -- The routing of a request that policy did not deny.
    unfoldable pub route : Bytes → Envelope Value → Decision → Run w
    route agent e d =
        if is_one_shot e.mechanism
        then one_shot_path agent e d
        else if is_session_mechanism e.mechanism
        then session_path agent e d
        else refuse w g store a sessions e d mechanism_error (ascii "E_MECHANISM")
            (ascii "mechanism " ++ (debug e.mechanism ++ ascii " is not available in this build"))

    pub deny_path : Envelope Value → Decision → Run w
    deny_path e d =
        refuse w g store a sessions e d policy_denied (ascii "E_DENIED")
          (deny_reason digits d.source)

    unfoldable pub by_effect : Bytes → Envelope Value → Decision → Effect → Run w
    by_effect agent e d deny = deny_path e d
    by_effect agent e d allow = route agent e d
    by_effect agent e d needs_confirmation = route agent e d

    abbrev pub request : Bytes → Envelope Value → Request
    request agent e = record {
      agent_id = agent;
      cred_ref = e.cred_ref;
      target_uri = e.target_uri;
      mechanism = e.mechanism;
      declared = e.constraints;
    }

    abbrev pub decide : Bytes → Envelope Value → Decision
    decide agent e = evaluate g.policy (request agent e)

    unfoldable pub decided : Bytes → Envelope Value → Run w
    decided agent e = let d = decide agent e in by_effect agent e d d.effect

    abbrev pub silent : Response w → Run w
    silent r = record { actions = []; sessions = sessions; response = r }

    unfoldable pub after_verification : VerifiedIntent p → Run w
    after_verification v = elim (parse_envelope v.envelope) [
      | failed why ↦
          silent
            (error (ascii "E_MECHANISM") (ascii "signed intent failed schema validation: " ++ why))
      | given e ↦ decided v.agent_id e
    ]

    abbrev pub field_or_empty : Value → Bytes → Bytes
    field_or_empty message name = or_default w (str_field message name) []

    pub identity_event : Value → Bytes → AuditEvent Value
    identity_event message code =
        let claimed = or_default w (str_field message (ascii "agent_id")) (ascii "<unnamed>") in
        record {
          agent_id = claimed;
          sponsor_id = or_default w (sponsor_id_of store claimed) [];
          msg_id = field_or_empty message (ascii "msg_id");
          mechanism = field_or_empty message (ascii "mechanism");
          target_uri = or_default w (path_field message (ascii "target") (ascii "uri")) [];
          target_label = or_default w (path_field message (ascii "target") (ascii "label")) [];
          cred_ref = field_or_empty message (ascii "cred_ref");
          effect = ascii "deny";
          outcome = identity_failed code;
          intent_envelope = message;
          ruleset_hash = g.ruleset_hash;
        }

    -- `audit_identity_failure` and the answer.
    pub reject : Value → IdentityError → Run w
    reject message e =
        after w (appended (identity_event message (error_code e)))
          (silent (error (error_code e) (identity_reason debug e)))

    unfoldable pub after_verify : Value → Result (VerifiedIntent p) → Run w
    after_verify message (err e) = reject message e
    after_verify message (ok v) = after_verification v

    unfoldable pub handle_intent : ℕ → Cache → Value → ℕ → Io → Cache × Run w
    handle_intent max_skew_secs cache message now io =
        let (cache', r) = verify p store max_skew_secs cache message now io in
        (cache', after_verify message r)
