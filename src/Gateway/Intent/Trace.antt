-- ===== src/Gateway/Intent/Trace.antt =====
-- What `handle_intent` does, it does in order, and it answers as it recorded
-- (crates/gateway-core/src/lib.rs).
use chaperone.Prelude.{ℕ, ◌≡◌, refl, inl, inr, Bytes, some, ascii, str_eq, if-either, Option-cases}
use chaperone.Policy.Engine.{Effect, allow, deny, needs_confirmation, Decision}
use chaperone.Identity.Enrollment.{Store}
use chaperone.Identity.Replay.{Cache, Io}
use chaperone.Identity.Attest.{Platform, ok, VerifiedIntent, verify}
use chaperone.Gateway.Operation.{HttpOperation, DbOperation, has_agent_authorization}
use chaperone.Gateway.Sessions.{Table}
use chaperone.Gateway.Environment.{
  Except-cases, given, ConfirmOutcome, approved, refused, timed_out, ConfirmContext, policy_denied,
  confirmation_timeout, Gateway, Envelope, World, Answers, Run, or_default, refuse,
}
use chaperone.Gateway.Opening.{has_backend}
use chaperone.Gateway.Intent.{
  with_confirmation, session_path, run_statement, body_invalid, db_path, inject, http_path,
  one_shot_path, route, deny_path, by_effect, decided, after_verification, after_verify,
  handle_intent, is_one_shot, is_session_mechanism, decide,
}
use chaperone.Gateway.Phases.{
  Phase, ready, confirmed, credentialed, spent, next, outcome_of, code_of, response_code, Early,
  ready-Early, confirmed-Early, Orderly,
}
use chaperone.Gateway.Opening.Order.{
  conclude-Orderly, refuse-Orderly, mechanism-Orderly, after-Orderly, no_backend-Orderly,
  with_resolved-Orderly, open_session-Orderly,
}

module _ {p : Platform} (w : World p) where
  open p use {Value}
  open w use {Secret, Channel}

  module _ (g : Gateway) (store : Store p.Key) (a : Answers w) (e : Envelope Value)
      (evidence : Value) (shown : w.to_value e ≡ some evidence) (d : Decision) where
    module _ (sessions : Table Channel) where
      with_confirmation-Orderly :
          (effect : Effect) (ctx : ConfirmContext) (reason : Bytes) (k : Run w)
          → ((q : Phase) → Early w q → Orderly w q k)
          → Orderly w ready (with_confirmation w g store a sessions e d effect ctx reason k)
      unfolding with_confirmation outcome_of next code_of
      with_confirmation-Orderly allow ctx reason k ok_k = ok_k ready (ready-Early w)
      with_confirmation-Orderly deny ctx reason k ok_k = ok_k ready (ready-Early w)
      with_confirmation-Orderly needs_confirmation ctx reason k ok_k =
          after-Orderly w g store a e evidence shown d ready confirmed _ _ refl refl
            (by_answer (a.confirm ctx))
        where
          no : Orderly w confirmed (
              refuse w g store a sessions e d confirmation_timeout
                (ascii "E_CONFIRM_TIMEOUT")
                reason)
          no =
              refuse-Orderly w g store a e evidence shown d confirmed sessions confirmation_timeout
                (ascii "E_CONFIRM_TIMEOUT") reason (λ _. refl) refl

          by_answer :
              (o : ConfirmOutcome)
              → Orderly w confirmed (elim o [
                | approved ↦ k
                | refused ↦
                    refuse w g store a sessions e d confirmation_timeout
                      (ascii "E_CONFIRM_TIMEOUT")
                      reason
                | timed_out ↦
                    refuse w g store a sessions e d confirmation_timeout
                      (ascii "E_CONFIRM_TIMEOUT")
                      reason
              ])
          by_answer approved = ok_k confirmed (confirmed-Early w)
          by_answer refused = no
          by_answer timed_out = no

      session_path-Orderly :
          (agent : Bytes) → Orderly w ready (session_path w g store a sessions agent e d)
      unfolding session_path
      session_path-Orderly agent =
          if-either (Orderly w ready) (has_backend g.backends e.mechanism)
            (with_confirmation-Orderly _ _ _ _ (λ q early.
              open_session-Orderly w g store a e evidence shown d sessions q agent early))
            (no_backend-Orderly w g store a e evidence shown d sessions ready (ready-Early w))

      run_statement-Orderly :
          (op : DbOperation) (s : Secret)
          → Orderly w credentialed (run_statement w g store a sessions e d op s)
      unfolding run_statement outcome_of next code_of response_code
      run_statement-Orderly op s =
          after-Orderly w g store a e evidence shown d credentialed spent _ _ refl refl
            (elim (Except-cases (a.run_sql e.target_uri op s)) [
              | inl (why, h) ↦
                  rw h
                    (mechanism-Orderly w g store a e evidence shown d spent sessions _ (λ _. refl))
              | inr (rows, h) ↦ rw h (
                  conclude-Orderly w g store a e evidence shown d spent _ _ _ (λ _. refl)
                    (λ _. refl))
            ])

      inject-Orderly :
          (op : HttpOperation) (s : Secret)
          → Orderly w credentialed (inject w g store a sessions e d op s)
      unfolding inject outcome_of next code_of response_code
      inject-Orderly op s =
          after-Orderly w g store a e evidence shown d credentialed spent _ _ refl refl
            (elim (Except-cases (
              a.execute e.mechanism e.target_uri op s
                (or_default w d.limits.max_response_bytes g.config.default_max_response_bytes))) [
                  | inl (why, h) ↦ rw h (
                      mechanism-Orderly w g store a e evidence shown d spent sessions _ (λ _. refl))
                  | inr (answer, h) ↦ rw h (
                      conclude-Orderly w g store a e evidence shown d spent _ _ _ (λ _. refl)
                        (λ _. refl))
                ])

      db_path-Orderly :
          (q : Phase) (agent : Bytes)
          → Early w q
          → Orderly w q (db_path w g store a sessions agent e d)
      unfolding db_path body_invalid
      db_path-Orderly q agent early = elim (Except-cases (w.db_operation e.operation)) [
        | inl (why, h) ↦
            rw (h, db_path)
              (mechanism-Orderly w g store a e evidence shown d q sessions _ early.may_record)
        | inr (op, h) ↦ elim (Option-cases op.statement) [
          | inl i ↦
              rw (h, db_path, i)
                (open_session-Orderly w g store a e evidence shown d sessions q agent early)
          | inr (sql, i) ↦
              rw (h, db_path, i)
                (with_resolved-Orderly w g store a e evidence shown d sessions q _ early
                  (run_statement-Orderly op))
        ]
      ]

      http_path-Orderly : (q : Phase) → Early w q → Orderly w q (http_path w g store a sessions e d)
      unfolding http_path body_invalid
      http_path-Orderly q early = elim (Except-cases (w.http_operation e.operation)) [
        | inl (why, h) ↦
            rw (h, http_path)
              (mechanism-Orderly w g store a e evidence shown d q sessions _ early.may_record)
        | inr (op, h) ↦
            rw (h, http_path)
              (if-either (Orderly w q) (has_agent_authorization op)
                (mechanism-Orderly w g store a e evidence shown d q sessions _ early.may_record)
                (with_resolved-Orderly w g store a e evidence shown d sessions q _ early
                  (inject-Orderly op)))
      ]

      one_shot_path-Orderly :
          (agent : Bytes) → Orderly w ready (one_shot_path w g store a sessions agent e d)
      unfolding one_shot_path
      one_shot_path-Orderly agent = with_confirmation-Orderly _ _ _ _ (λ q early.
          if-either (Orderly w q) (str_eq e.mechanism (ascii "db-scram"))
            (db_path-Orderly q agent early) (http_path-Orderly q early))

      route-Orderly : (agent : Bytes) → Orderly w ready (route w g store a sessions agent e d)
      unfolding route
      route-Orderly agent =
          if-either (Orderly w ready) (is_one_shot e.mechanism) (one_shot_path-Orderly agent) (
            if-either (Orderly w ready) (is_session_mechanism e.mechanism)
              (session_path-Orderly agent)
              (mechanism-Orderly w g store a e evidence shown d ready sessions _
                (ready-Early w).may_record))

      by_effect-Orderly :
          (agent : Bytes) (effect : Effect)
          → Orderly w ready (by_effect w g store a sessions agent e d effect)
      unfolding by_effect deny_path code_of
      by_effect-Orderly agent allow = route-Orderly agent
      by_effect-Orderly agent needs_confirmation = route-Orderly agent
      by_effect-Orderly agent deny =
          refuse-Orderly w g store a e evidence shown d ready sessions policy_denied
            (ascii "E_DENIED") _ (ready-Early w).may_record refl

  -- A message that verifies and parses is handled in order: at most one question, then at most one
  -- credential, then at most one use of it, then one audit record and possibly its announcement, and
  -- nothing after; and the answer carries the code of the recorded outcome, or is a result when that
  -- is a success. The envelope must have a JSON form.
  pub handle_intent-Orderly :
      (g : Gateway) (store : Store p.Key) (a : Answers w) (sessions : Table Channel) (skew : ℕ)
      (cache : Cache) (message : Value) (now : ℕ) (io : Io) (v : VerifiedIntent p)
      (e : Envelope Value) (evidence : Value)
      → (verify p store skew cache message now io).1 ≡ ok v
      → w.parse_envelope v.envelope ≡ given e
      → w.to_value e ≡ some evidence
      → Orderly w ready (handle_intent w g store a sessions skew cache message now io).1
  unfolding handle_intent after_verify after_verification decided
  handle_intent-Orderly g store a sessions skew cache message now io v e evidence valid parsed
        shown =
      let d = decide w g store a sessions v.agent_id e in
      rw (valid, after_verify, parsed, after_verification)
        (by_effect-Orderly g store a e evidence shown d sessions v.agent_id d.effect)
