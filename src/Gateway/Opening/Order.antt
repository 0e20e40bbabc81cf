-- ===== src/Gateway/Opening/Order.antt =====
-- `open_session` and the ways to a secret act in order (crates/gateway-core/src/lib.rs).
use chaperone.Prelude.{
  ℕ, ◌≡◌, refl, sym, ap, ◌∙◌, inl, inr, Bytes, ◌∷◌, Bool, true, some, ascii, str_eq, starts_with,
  Bool-cases, if-either, ◌||◌,
}
use chaperone.Policy.Engine.{deny, effect_as_str, Decision}
use chaperone.Identity.Enrollment.{Store}
use chaperone.Identity.Attest.{Platform}
use chaperone.Gateway.Sessions.{Table}
use chaperone.Gateway.Environment.{
  Except-cases, Outcome, credential_unresolved, mechanism_error, Gateway, Envelope, AuditEvent,
  World, Answers, Action, resolved, appended, Response, error, Run, after, conclude, refuse,
  published, audit_decision, decision_event,
}
use chaperone.Gateway.Opening.{
  has_backend, no_backend, with_resolved, with_minted, opened, establish, mint_intent, open_session,
}
use chaperone.Gateway.Phases.{
  Phase, credentialed, spent, recorded, next, run, is_final, outcome_of, code_of, response_code,
  Early, Orderly, run-step,
}

module _ {p : Platform} (w : World p) where
  open p use {Value}
  open w use {Secret, Channel}

  module _ (g : Gateway) (store : Store p.Key) (a : Answers w) (e : Envelope Value)
      (evidence : Value) (shown : w.to_value e ≡ some evidence) (d : Decision) where
    published-run :
        (effect : Bytes) (notify : Bool) (event : AuditEvent Value)
        → is_final w (run w recorded (published w g store a effect notify event)) ≡ true
    unfolding published is_final run next
    published-run effect notify event =
        elim (Bool-cases (str_eq effect (effect_as_str deny) || notify)) [
          | inl on ↦ elim (Bool-cases g.has_event_hub) [
            | inl hub ↦ rw (on, hub) refl
            | inr alone ↦ rw (on, alone) refl
          ]
          | inr off ↦ rw off refl
        ]

    pub conclude-Orderly :
        (q : Phase) (table : Table Channel) (o : Outcome) (answer : ℕ → Response w)
        → ((x : AuditEvent Value) → next w q (appended x) ≡ some recorded)
        → ((n : ℕ) → response_code w (answer n) ≡ code_of w o)
        → Orderly w q (conclude w g store a table e d o answer)
    unfolding conclude audit_decision decision_event outcome_of
    conclude-Orderly q table o answer may coded =
        let event = decision_event w g store a e (effect_as_str d.effect) o evidence in
        rw (shown, audit_decision)
          (record {
            ends =
                ap (is_final w) (run-step w q recorded (appended event) _ (may event))
                ∙ published-run (effect_as_str d.effect) d.notify_on_use event;
            answers = (o, refl, coded _);
          })

    pub refuse-Orderly :
        (q : Phase) (table : Table Channel) (o : Outcome) (code reason : Bytes)
        → ((x : AuditEvent Value) → next w q (appended x) ≡ some recorded)
        → code_of w o ≡ some code
        → Orderly w q (refuse w g store a table e d o code reason)
    unfolding response_code
    refuse-Orderly q table o code reason may coded =
        conclude-Orderly q table o (λ _. error code reason) may (λ _. sym coded)

    pub mechanism-Orderly :
        (q : Phase) (table : Table Channel) (reason : Bytes)
        → ((x : AuditEvent Value) → next w q (appended x) ≡ some recorded)
        → Orderly w q (refuse w g store a table e d mechanism_error (ascii "E_MECHANISM") reason)
    unfolding code_of
    mechanism-Orderly q table reason may =
        refuse-Orderly q table mechanism_error (ascii "E_MECHANISM") reason may refl

    pub after-Orderly :
        (q q' : Phase) (x : Action w) (r : Run w)
        → next w q x ≡ some q'
        → outcome_of w (x ∷ r.actions) ≡ outcome_of w r.actions
        → Orderly w q' r
        → Orderly w q (after w x r)
    after-Orderly q q' x r step quiet o = record {
      ends = ap (is_final w) (run-step w q q' x r.actions step) ∙ o.ends;
      answers = (o.answers.0, quiet ∙ o.answers.1, o.answers.2);
    }

    module _ (sessions : Table Channel) where
      pub no_backend-Orderly :
          (q : Phase) → Early w q → Orderly w q (no_backend w g store a sessions e d)
      unfolding no_backend
      no_backend-Orderly q early = mechanism-Orderly q sessions _ early.may_record

      pub with_resolved-Orderly :
          (q : Phase) (k : Secret → Run w)
          → Early w q
          → ((s : Secret) → Orderly w credentialed (k s))
          → Orderly w q (with_resolved w g store a sessions e d k)
      unfolding with_resolved outcome_of code_of next
      with_resolved-Orderly q k early ok_k =
          after-Orderly q credentialed (resolved e.cred_ref) _ (early.may_resolve _) refl
            (elim (Except-cases (a.resolve e.cred_ref)) [
              | inl (why, h) ↦ rw h (
                  refuse-Orderly credentialed sessions credential_unresolved
                    (ascii "E_CRED_UNRESOLVED") why (λ _. refl) refl)
              | inr (s, h) ↦ rw h (ok_k s)
            ])

      with_minted-Orderly :
          (q : Phase) (k : Secret → Run w)
          → Early w q
          → ((s : Secret) → Orderly w credentialed (k s))
          → Orderly w q (with_minted w g store a sessions e d k)
      unfolding with_minted outcome_of next
      with_minted-Orderly q k early ok_k =
          if-either (Orderly w q) g.has_ca
            (if-either (Orderly w q) (a.knows_identity e.agent_id)
              (after-Orderly q credentialed _ _ (early.may_mint _ _) refl
                (elim (Except-cases (a.mint e.cred_ref (mint_intent w g store a sessions e d))) [
                  | inl (why, j) ↦ rw j (mechanism-Orderly credentialed sessions why (λ _. refl))
                  | inr (s, j) ↦ rw j (ok_k s)
                ]))
              (mechanism-Orderly q sessions _ early.may_record))
            (mechanism-Orderly q sessions _ early.may_record)

      establish-Orderly :
          (agent : Bytes) (s : Secret)
          → Orderly w credentialed (establish w g store a sessions agent e d s)
      unfolding establish opened outcome_of code_of response_code next
      establish-Orderly agent s =
          after-Orderly credentialed spent _ _ refl refl
            (elim (Except-cases (a.connect e.mechanism e.target_uri e.operation s)) [
              | inl (why, h) ↦ rw h (mechanism-Orderly spent sessions _ (λ _. refl))
              | inr (channel, h) ↦ rw h (conclude-Orderly spent _ _ _ (λ _. refl) (λ _. refl))
            ])

      pub open_session-Orderly :
          (q : Phase) (agent : Bytes)
          → Early w q
          → Orderly w q (open_session w g store a sessions agent e d)
      unfolding open_session
      open_session-Orderly q agent early =
          if-either (Orderly w q) (has_backend g.backends e.mechanism)
            (if-either (Orderly w q) (starts_with e.cred_ref (ascii "ca://"))
              (with_minted-Orderly q _ early (establish-Orderly agent))
              (with_resolved-Orderly q _ early (establish-Orderly agent)))
            (no_backend-Orderly q early)
