-- ===== src/Gateway/Phases.antt =====
-- The order in which the gateway acts on a message (crates/gateway-core/src/lib.rs): an automaton over
-- the actions, and the agreement of the answer with the audit record.
use chaperone.Prelude.{
  ◌≡◌, refl, Bytes, List, [], ◌∷◌, Bool, true, false, Option, none, some, ascii,
}
use chaperone.Identity.Attest.{Platform}
use chaperone.Gateway.Environment.{
  Outcome, proceeded, policy_denied, confirmation_timeout, credential_unresolved, mechanism_error,
  identity_failed, session_opened, session_closed, AuditEvent, MintIntent, World, Action, asked,
  resolved, minted, connected, executed, queried, appended, broadcast, Response, error, http_result,
  db_result, session_result, Run,
}

-- How far a message has come.
pub data Phase : Type 0 where
  ready : Phase
  confirmed : Phase
  credentialed : Phase
  spent : Phase
  recorded : Phase
  announced : Phase

module _ {p : Platform} (w : World p) where
  open p use {Value}
  open w use {Secret, Channel}

  -- A question comes first, then a credential, then its one use, then the record, then its
  -- announcement; all but the record may be missing.
  unfoldable pub next : Phase → Action w → Option Phase
  next ready (asked _) = some confirmed
  next ready (resolved _) = some credentialed
  next ready (minted _ _) = some credentialed
  next confirmed (resolved _) = some credentialed
  next confirmed (minted _ _) = some credentialed
  next credentialed (connected _ _ _ _) = some spent
  next credentialed (executed _ _ _ _ _) = some spent
  next credentialed (queried _ _ _) = some spent
  next ready (appended _) = some recorded
  next confirmed (appended _) = some recorded
  next credentialed (appended _) = some recorded
  next spent (appended _) = some recorded
  next recorded (broadcast _ _) = some announced
  next _ _ = none

  unfoldable pub run : Phase → List (Action w) → Option Phase
  run q [] = some q
  run q (x ∷ xs) = elim (next q x) [ none ↦ none | some r ↦ run r xs ]

  unfoldable pub is_final : Option Phase → Bool
  is_final (some recorded) = true
  is_final (some announced) = true
  is_final _ = false

  -- The outcome in the first record.
  unfoldable pub outcome_of : List (Action w) → Option Outcome
  outcome_of [] = none
  outcome_of (appended e ∷ xs) = some e.outcome
  outcome_of (_ ∷ xs) = outcome_of xs

  -- The code that an answer has for an outcome, none for a result.
  unfoldable pub code_of : Outcome → Option Bytes
  code_of proceeded = none
  code_of policy_denied = some (ascii "E_DENIED")
  code_of confirmation_timeout = some (ascii "E_CONFIRM_TIMEOUT")
  code_of credential_unresolved = some (ascii "E_CRED_UNRESOLVED")
  code_of mechanism_error = some (ascii "E_MECHANISM")
  code_of (identity_failed code) = some code
  code_of (session_opened _) = none
  code_of (session_closed _ _) = none

  unfoldable pub response_code : Response w → Option Bytes
  response_code (error code _) = some code
  response_code (http_result _ _ _) = none
  response_code (db_result _ _ _) = none
  response_code (session_result _ _ _ _) = none

  -- What a message may do before it has a credential.
  pub record Early (q : Phase) : Type 0 where
    pub may_resolve : (c : Bytes) → next q (resolved c) ≡ some credentialed
    pub may_mint : (c : Bytes) (m : MintIntent) → next q (minted c m) ≡ some credentialed
    pub may_record : (x : AuditEvent Value) → next q (appended x) ≡ some recorded

  pub ready-Early : Early ready
  unfolding next
  ready-Early = record { may_resolve = λ _. refl; may_mint = λ _ _. refl; may_record = λ _. refl }

  pub confirmed-Early : Early confirmed
  unfolding next
  confirmed-Early = record {
    may_resolve = λ _. refl;
    may_mint = λ _ _. refl;
    may_record = λ _. refl;
  }

  -- From a phase on, a run takes its actions in order, ends with its record (or its announcement),
  -- and answers as it recorded.
  pub record Orderly (q : Phase) (r : Run w) : Type 0 where
    pub ends : is_final (run q r.actions) ≡ true
    pub answers :
        (o : Outcome) × (outcome_of r.actions ≡ some o) × (response_code r.response ≡ code_of o)

  pub run-step :
      (q q' : Phase) (x : Action w) (xs : List (Action w))
      → next q x ≡ some q'
      → run q (x ∷ xs) ≡ run q' xs
  unfolding run
  run-step q q' x xs e = rw (e, run) refl
