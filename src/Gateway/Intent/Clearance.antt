-- ===== src/Gateway/Intent/Clearance.antt =====
-- What must hold before `handle_intent` touches a credential (crates/gateway-core/src/lib.rs).
use chaperone.Prelude.{
  ◌≡◌, ◌≢◌, refl, ap, ◌⊎◌, inl, inr, Bytes, List, [], ◌∷◌, Bool, true, false, not, ◌||◌, Option,
  none, some, ascii, str_eq, Bool-cases, if-either, str_eq_iff, ℕ, subst,
}
use chaperone.Policy.Engine.{Effect, allow, deny, needs_confirmation, effect_as_str, Decision}
use chaperone.Identity.Enrollment.{Store}
use chaperone.Identity.Replay.{Cache, Io}
use chaperone.Identity.Attest.{Platform, ok, VerifiedIntent, verify}
use chaperone.Prelude.Fallible.{Fallible-cases}
use chaperone.Gateway.Sessions.{Table}
use chaperone.Gateway.Environment.{
  Except-cases, given, ConfirmOutcome, approved, refused, timed_out, ConfirmContext, Outcome,
  confirmation_timeout, Gateway, Envelope, AuditEvent, World, Answers, Action, asked, resolved,
  minted, connected, executed, queried, appended, broadcast, Response, Run, conclude, refuse,
  published, audit_decision, decision_event, error,
}
use chaperone.Gateway.Opening.{has_backend, no_backend}
use chaperone.Gateway.Intent.{
  with_confirmation, session_path, one_shot_path, route, reject, deny_path, by_effect, decided,
  after_verification, after_verify, handle_intent, is_one_shot, is_session_mechanism, gated_effect,
  is_privileged, is_pinned, context, session_summary, summary_of, decide,
}

module _ {p : Platform} (w : World p) where
  open p use {Value}
  open w use {Channel}

  unfoldable pub uses_credential : Action w → Bool
  uses_credential (asked _) = false
  uses_credential (resolved _) = true
  uses_credential (minted _ _) = true
  uses_credential (connected _ _ _ _) = true
  uses_credential (executed _ _ _ _ _) = true
  uses_credential (queried _ _ _) = true
  uses_credential (appended _) = false
  uses_credential (broadcast _ _) = false

  unfoldable pub any_use : List (Action w) → Bool
  any_use [] = false
  any_use (x ∷ xs) = uses_credential x || any_use xs

  -- Leave to act for an envelope: the policy's effect is not deny, and either no human need be asked,
  -- which for `local-privilege` takes a pinned command, or one approved this agent's request.
  pub record Cleared (g : Gateway) (store : Store p.Key) (a : Answers w) (sessions : Table Channel)
      (agent : Bytes) (e : Envelope Value) (effect : Effect) : Type 0 where
    pub permitted : effect ≢ deny
    pub human :
        ((effect ≡ allow)
          × ((not (is_privileged w g store a sessions e) || is_pinned w g store a sessions e)
              ≡ true))
        ⊎ ((ctx : ConfirmContext) × (ctx.agent_id ≡ agent)
            × (ctx.target_uri ≡ e.target_uri)
            × (ctx.mechanism ≡ e.mechanism)
            × (a.confirm ctx ≡ approved))

  module _ (g : Gateway) (store : Store p.Key) (a : Answers w) (sessions : Table Channel)
      (e : Envelope Value) (d : Decision) where
    published-quiet :
        (effect : Bytes) (notify : Bool) (event : AuditEvent Value)
        → any_use (published w g store a effect notify event) ≡ false
    unfolding published any_use uses_credential
    published-quiet effect notify event =
        if-either (λ x. any_use x ≡ false) (str_eq effect (effect_as_str deny) || notify)
          (if-either (λ x. any_use x ≡ false) g.has_event_hub refl refl) refl

    conclude-quiet :
        (o : Outcome) (answer : ℕ → Response w)
        → any_use (conclude w g store a sessions e d o answer).actions ≡ false
    unfolding conclude audit_decision any_use uses_credential
    conclude-quiet o answer = by_json (w.to_value e)
      where
        by_json :
            (j : Option Value)
            → any_use
                (elim j as (λ _. List (Action w) × Option ℕ) [
                  | none ↦ ([], none)
                  | some evidence ↦
                      let event =
                        decision_event w g store a e (effect_as_str d.effect) o evidence in
                      (
                        appended event
                            ∷ published w g store a (effect_as_str d.effect) d.notify_on_use event,
                        a.append event,
                      )
                ]).0
              ≡ false
        by_json none = refl
        by_json (some evidence) =
            published-quiet (effect_as_str d.effect) d.notify_on_use
              (decision_event w g store a e (effect_as_str d.effect) o evidence)

    confirmed_use :
        (effect : Effect) (ctx : ConfirmContext) (reason : Bytes) (k : Run w)
        → any_use (with_confirmation w g store a sessions e d effect ctx reason k).actions ≡ true
        → (effect ≢ needs_confirmation) ⊎ (a.confirm ctx ≡ approved)
    unfolding with_confirmation any_use uses_credential
    confirmed_use allow ctx reason k h = inl (λ i. cc i)
    confirmed_use deny ctx reason k h = inl (λ i. cc i)
    confirmed_use needs_confirmation ctx reason k h = inr (by_answer (a.confirm ctx) h)
      where
        no :
            any_use
              (refuse w g store a sessions e d confirmation_timeout
                (ascii "E_CONFIRM_TIMEOUT")
                reason).actions
            ≡ false
        no = conclude-quiet confirmation_timeout (λ _. error (ascii "E_CONFIRM_TIMEOUT") reason)

        by_answer :
            (o : ConfirmOutcome)
            → any_use
                (elim o as (λ _. Run w) [
                  | approved ↦ k
                  | refused ↦
                      refuse w g store a sessions e d confirmation_timeout
                        (ascii "E_CONFIRM_TIMEOUT")
                        reason
                  | timed_out ↦
                      refuse w g store a sessions e d confirmation_timeout
                        (ascii "E_CONFIRM_TIMEOUT")
                        reason
                ]).actions
              ≡ true
            → o ≡ approved
        by_answer approved j = refl
        by_answer refused j = absurd (cc (j, no))
        by_answer timed_out j = absurd (cc (j, no))

    unattended :
        (effect : Effect) (l b : Bool)
        → effect ≢ deny
        → gated_effect effect l b ≢ needs_confirmation
        → (effect ≡ allow) × ((not l || b) ≡ true)
    unfolding gated_effect
    unattended allow true true n h = (refl, refl)
    unattended allow true false n h = absurd (h refl)
    unattended allow false b n h = (refl, refl)
    unattended deny l b n h = absurd (n refl)
    unattended needs_confirmation l b n h = absurd (h refl)

    -- A run that uses a credential only if the given fact holds.
    abbrev Needs : Type 0 → Run w → Type 0
    Needs C r = any_use r.actions ≡ true → C

    refuse-Needs :
        (C : Type 0) (o : Outcome) (code reason : Bytes)
        → Needs C (refuse w g store a sessions e d o code reason)
    refuse-Needs C o code reason h = absurd (cc (h, conclude-quiet o (λ _. error code reason)))

    session_use :
        (agent : Bytes)
        → d.effect ≢ deny
        → Needs
            (Cleared g store a sessions agent e d.effect)
            (session_path w g store a sessions agent e d)
    unfolding session_path no_backend
    session_use agent n =
        let C = Cleared g store a sessions agent e d.effect in
        let privileged = is_privileged w g store a sessions e in
        let listed = is_pinned w g store a sessions e in
        let ctx = context w g store a sessions agent e (session_summary w g store a sessions e) in
        if-either (Needs C) (has_backend g.backends e.mechanism)
          (λ h. record {
            permitted = n;
            human = elim (confirmed_use (gated_effect d.effect privileged listed) ctx _ _ h) [
              | inl free ↦ inl (unattended d.effect privileged listed n free)
              | inr agreed ↦ inr (ctx, refl, refl, refl, agreed)
            ];
          })
          (refuse-Needs C _ _ _)

    privileged_not_one_shot : is_one_shot (ascii "local-privilege") ≡ false
    unfolding is_one_shot str_eq
    privileged_not_one_shot = refl

    one_shot_unprivileged :
        (m : Bytes) (b : Bool)
        → is_one_shot m ≡ true
        → (not (str_eq m (ascii "local-privilege")) || b) ≡ true
    one_shot_unprivileged m b h = elim (Bool-cases (str_eq m (ascii "local-privilege"))) [
      | inr i ↦ rw i refl
      | inl i ↦ absurd (
          cc (
            h,
            ap is_one_shot ((str_eq_iff m (ascii "local-privilege")).0 i),
            privileged_not_one_shot,
          ))
    ]

    one_shot_use :
        (agent : Bytes)
        → d.effect ≢ deny
        → is_one_shot e.mechanism ≡ true
        → Needs
            (Cleared g store a sessions agent e d.effect)
            (one_shot_path w g store a sessions agent e d)
    unfolding one_shot_path
    one_shot_use agent n one h =
        let ctx = context w g store a sessions agent e (summary_of w e.operation) in
        record {
          permitted = n;
          human = elim (confirmed_use d.effect ctx _ _ h) [
            | inl free ↦ inl (
              only_allow d.effect n free,
              one_shot_unprivileged e.mechanism (is_pinned w g store a sessions e) one,
            )
            | inr agreed ↦ inr (ctx, refl, refl, refl, agreed)
          ];
        }
      where
        only_allow : (f : Effect) → f ≢ deny → f ≢ needs_confirmation → f ≡ allow
        only_allow allow n' m = refl
        only_allow deny n' m = absurd (n' refl)
        only_allow needs_confirmation n' m = absurd (m refl)

    route_use :
        (agent : Bytes)
        → d.effect ≢ deny
        → Needs (Cleared g store a sessions agent e d.effect) (route w g store a sessions agent e d)
    unfolding route
    route_use agent n = elim (Bool-cases (is_one_shot e.mechanism)) [
      | inl one ↦ rw one (one_shot_use agent n one)
      | inr many ↦ rw many (
          if-either (Needs (Cleared g store a sessions agent e d.effect))
            (is_session_mechanism e.mechanism) (session_use agent n)
            (refuse-Needs (Cleared g store a sessions agent e d.effect) _ _ _))
    ]

    effect_use :
        (agent : Bytes) (f : Effect)
        → d.effect ≡ f
        → Needs
            (Cleared g store a sessions agent e d.effect)
            (by_effect w g store a sessions agent e d f)
    unfolding by_effect deny_path
    effect_use agent deny h = refuse-Needs (Cleared g store a sessions agent e d.effect) _ _ _
    effect_use agent allow h = route_use agent (λ i. cc (h, i))
    effect_use agent needs_confirmation h = route_use agent (λ i. cc (h, i))

  verified_use :
      (g : Gateway) (store : Store p.Key) (a : Answers w) (sessions : Table Channel)
      (v : VerifiedIntent p)
      → any_use (after_verification w g store a sessions v).actions ≡ true
      → (e : Envelope Value) × (w.parse_envelope v.envelope ≡ given e)
        × Cleared g store a sessions v.agent_id e (decide w g store a sessions v.agent_id e).effect
  unfolding after_verification decided any_use
  verified_use g store a sessions v = elim (Except-cases (w.parse_envelope v.envelope)) [
    | inl (why, h) ↦ rw (h, after_verification) (λ u. absurd (cc u))
    | inr (e, h) ↦
        let d = decide w g store a sessions v.agent_id e in
        rw (h, after_verification)
          (λ u. (e, refl, effect_use g store a sessions e d v.agent_id d.effect refl u))
  ]

  -- Whatever the world answers, a credential is resolved, minted or used only for a message that
  -- verified and parsed, that policy did not deny, and that either needed no human or that the human
  -- approved, being shown the verified agent, the target and the mechanism. A `local-privilege`
  -- message needs a human unless its command is pinned.
  pub credential_use-Cleared :
      (g : Gateway) (store : Store p.Key) (a : Answers w) (sessions : Table Channel) (skew : ℕ)
      (cache : Cache) (message : Value) (now : ℕ) (io : Io)
      → any_use (handle_intent w g store a sessions skew cache message now io).1.actions ≡ true
      → (v : VerifiedIntent p) × (e : Envelope Value) × ((verify p store skew cache message now
            io).1
          ≡ ok v)
        × (w.parse_envelope v.envelope ≡ given e)
        × Cleared g store a sessions v.agent_id e (decide w g store a sessions v.agent_id e).effect
  unfolding handle_intent after_verify after_verification decided reject any_use uses_credential
  credential_use-Cleared g store a sessions skew cache message now io used =
      elim (Fallible-cases (verify p store skew cache message now io).1) [
        | inr (x, bad) ↦ absurd (
            cc (
              subst (λ r. any_use (after_verify w g store a sessions message r).actions ≡ true) bad
                used))
        | inl (v, good) ↦
            let (e, parsed, cleared) = verified_use g store a sessions v (
              subst (λ r. any_use (after_verify w g store a sessions message r).actions ≡ true) good
                used) in
            (v, e, good, parsed, cleared)
      ]
