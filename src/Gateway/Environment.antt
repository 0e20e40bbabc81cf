-- ===== src/Gateway/Environment.antt =====
-- crates/gateway-core/src/lib.rs: what the gateway is made of, what it asks of the world while it
-- handles one message, and what it does: its actions in order, the session table that it leaves and
-- its answer. The `msg_id` that each answer echoes is left out.
use chaperone.Prelude.{
  ◌≡◌, refl, ◌⊎◌, inl, inr, ℕ, Bytes, List, [], ◌∷◌, Bool, ◌||◌, Option, none, some, str_eq,
  if◌then◌else◌,
}
use chaperone.Policy.Engine.{deny, effect_as_str, Decision, Constraints, Policy}
use chaperone.Identity.Enrollment.{Store, sponsor_id_of}
use chaperone.Identity.Attest.{Platform}
use chaperone.Gateway.Operation.{HttpOperation, DbOperation}
use chaperone.Gateway.Sessions.{Table}

pub data Except (A : Type 0) : Type 0 where
  failed : Bytes → Except A
  given : A → Except A

pub Except-cases :
    {A : Type 0} (x : Except A) → ((t : Bytes) × (x ≡ failed t)) ⊎ ((a : A) × (x ≡ given a))
Except-cases (failed t) = inl (t, refl)
Except-cases (given a) = inr (a, refl)

pub data ConfirmOutcome : Type 0 where
  approved : ConfirmOutcome
  refused : ConfirmOutcome
  timed_out : ConfirmOutcome

pub record ConfirmContext : Type 0 where
  pub agent_id : Bytes
  pub target_label : Bytes
  pub target_uri : Bytes
  pub mechanism : Bytes
  pub summary : Bytes

-- `chaperone_audit::Outcome`, those that the gateway records of a message.
pub data Outcome : Type 0 where
  proceeded : Outcome
  policy_denied : Outcome
  confirmation_timeout : Outcome
  credential_unresolved : Outcome
  mechanism_error : Outcome
  identity_failed : Bytes → Outcome
  session_opened : Bytes → Outcome
  session_closed : Bytes → Option ℕ → Outcome

pub record GatewayConfig : Type 0 where
  pub default_max_response_bytes : ℕ
  pub default_session_ttl_secs : ℕ
  pub default_timeout_secs : ℕ
  pub session_heartbeat_secs : ℕ

-- `backends` are the mechanisms with one; `has_ca` is whether the SSH CA is wired.
pub record Gateway : Type 0 where
  pub policy : Policy
  pub config : GatewayConfig
  pub backends : List Bytes
  pub privilege_allowlist : Option (List (Bytes × List Bytes))
  pub ruleset_hash : Bytes
  pub has_event_hub : Bool
  pub has_ca : Bool

pub record MintIntent : Type 0 where
  pub agent_id : Bytes
  pub msg_id : Bytes
  pub username : Bytes
  pub want_pty : Bool
  pub ttl_secs : ℕ

-- `chaperone_protocol::Envelope`, less the fields that only `verify` reads.
pub record Envelope (V : Type 0) : Type 0 where
  pub msg_id : Bytes
  pub agent_id : Bytes
  pub target_uri : Bytes
  pub target_label : Bytes
  pub mechanism : Bytes
  pub cred_ref : Bytes
  pub operation : V
  pub constraints : Option Constraints

-- `AuditEvent` of kind `IntentDecision`.
pub record AuditEvent (V : Type 0) : Type 0 where
  pub agent_id : Bytes
  pub sponsor_id : Bytes
  pub msg_id : Bytes
  pub mechanism : Bytes
  pub target_uri : Bytes
  pub target_label : Bytes
  pub cred_ref : Bytes
  pub effect : Bytes
  pub outcome : Outcome
  pub intent_envelope : V
  pub ruleset_hash : Bytes

-- The parts of the gateway's surroundings that do not change: the JSON of the third-party `serde`
-- (a schema error as its text, `{:?}` of a text, the digits of a number), and the types of secrets,
-- channels and HTTP answers.
pub record World (p : Platform) : Type 1 where
  pub Secret : Type 0
  pub Channel : Type 0
  pub HttpResponse : Type 0
  pub parse_envelope : p.Value → Except (Envelope p.Value)
  pub to_value : Envelope p.Value → Option p.Value
  pub http_operation : p.Value → Except HttpOperation
  pub db_operation : p.Value → Except DbOperation
  pub bool_field : p.Value → Bytes → Option Bool
  pub text_list : p.Value → Bytes → List Bytes
  pub path_field : p.Value → Bytes → Bytes → Option Bytes
  pub debug : Bytes → Bytes
  pub digits : ℕ → Bytes

module _ {p : Platform} (w : World p) where
  open p use {Value}
  open w use {Secret, Channel, HttpResponse, to_value}

  -- What the world answers to each call that the gateway makes for one message.
  pub record Answers : Type 0 where
    pub confirm : ConfirmContext → ConfirmOutcome
    pub resolve : Bytes → Except Secret
    pub knows_identity : Bytes → Bool
    pub mint : Bytes → MintIntent → Except Secret
    pub connect : Bytes → Bytes → Value → Secret → Except Channel
    pub execute : Bytes → Bytes → HttpOperation → Secret → ℕ → Except HttpResponse
    pub run_sql : Bytes → DbOperation → Secret → Except Value
    pub append : AuditEvent Value → Option ℕ
    pub random_handle : Bytes
    pub clock : ℕ

  pub data Action : Type 0 where
    asked : ConfirmContext → Action
    resolved : Bytes → Action
    minted : Bytes → MintIntent → Action
    connected : Bytes → Bytes → Value → Secret → Action
    executed : Bytes → Bytes → HttpOperation → Secret → ℕ → Action
    queried : Bytes → DbOperation → Secret → Action
    appended : AuditEvent Value → Action
    broadcast : AuditEvent Value → Option ℕ → Action

  -- `audit_id` is given as the sequence number in it.
  pub data Response : Type 0 where
    error : Bytes → Bytes → Response
    http_result : Bytes → HttpResponse → ℕ → Response
    db_result : Bytes → Value → ℕ → Response
    session_result : Bytes → Bytes → ℕ → ℕ → Response

  pub record Run : Type 0 where
    pub actions : List Action
    pub sessions : Table Channel
    pub response : Response

  abbrev pub after : Action → Run → Run
  after x r = record r { actions = x ∷ r.actions }

  abbrev pub or_default : {A : Type 0} → Option A → A → A
  or_default none d = d
  or_default (some a) d = a

  module _ (g : Gateway) (store : Store p.Key) (a : Answers) where
    unfoldable pub decision_event : Envelope Value → Bytes → Outcome → Value → AuditEvent Value
    decision_event e effect outcome evidence = record {
      agent_id = e.agent_id;
      sponsor_id = or_default (sponsor_id_of store e.agent_id) [];
      msg_id = e.msg_id;
      mechanism = e.mechanism;
      target_uri = e.target_uri;
      target_label = e.target_label;
      cred_ref = e.cred_ref;
      effect = effect;
      outcome = outcome;
      intent_envelope = evidence;
      ruleset_hash = g.ruleset_hash;
    }

    -- `broadcast_json` behind the test of `notify_on_use`.
    unfoldable pub published : Bytes → Bool → AuditEvent Value → List Action
    published effect notify event =
        if str_eq effect (effect_as_str deny) || notify
        then (if g.has_event_hub then broadcast event (a.append event) ∷ [] else [])
        else []

    unfoldable pub audit_decision : Envelope Value → Bytes → Bool → Outcome → List Action × Option ℕ
    audit_decision e effect notify outcome = elim (to_value e) [
      | none ↦ ([], none)
      | some evidence ↦
          let event = decision_event e effect outcome evidence in
          (appended event ∷ published effect notify event, a.append event)
    ]

    -- The end of a handler: the record of the decision, then the answer made from its number.
    unfoldable pub conclude :
        Table Channel → Envelope Value → Decision → Outcome → (ℕ → Response) → Run
    conclude sessions e d outcome answer =
        let (actions, seq) = audit_decision e (effect_as_str d.effect) d.notify_on_use outcome in
        record { actions = actions; sessions = sessions; response = answer (or_default seq 0) }

    abbrev pub refuse : Table Channel → Envelope Value → Decision → Outcome → Bytes → Bytes → Run
    refuse sessions e d outcome code reason = conclude sessions e d outcome (λ _. error code reason)
