-- ===== src/Policy/Engine/Save/Meaning.antt =====
-- What the sections of a policy document mean: the structs that serde fills from them, as crates/policy/src/lib.rs
-- declares those (`PolicyFile`, `RuleDef`, `PairDef`, `LimitsDef`, `NotifyDef`, each with `deny_unknown_fields`).
use chaperone.Prelude.{
  List, [], ◌∷◌, Bool, true, false, ◌&&◌, not, Option, none, some, ascii, is_empty, str_eq,
  if◌then◌else◌,
}
use chaperone.Policy.Engine.{Limits}
use chaperone.Policy.Engine.Load.{PairDef, RuleDef}
use chaperone.Policy.Engine.Save.Document.{
  Line, Body, Section, sections, is_strict, value_of, as_string, as_number, as_flag,
}

abbrev pub bind {ℓ κ} : {A : Type ℓ} {B : Type κ} → Option A → (A → Option B) → Option B
bind none f = none
bind (some a) f = f a

abbrev pub guard : Bool → Option (Unit {0})
guard false = none
guard true = some tt

unfoldable pub pair_of : Body → Option PairDef
unfolding is_strict value_of
pair_of body = bind (guard (is_strict (ascii "cred_ref" ∷ ascii "target_uri" ∷ []) body)) (λ u.
    bind (as_string (value_of (ascii "cred_ref") body)) (λ c. bind c (λ cred_ref.
      bind (as_string (value_of (ascii "target_uri") body)) (λ t.
        bind t (λ target_uri. some (record { cred_ref = cred_ref; target_uri = target_uri }))))))

unfoldable pub limits_of : Body → Option Limits
unfolding is_strict value_of
limits_of body =
    bind (guard (is_strict (ascii "max_response_bytes" ∷ ascii "session_ttl_s" ∷ []) body)) (λ u.
      bind (as_number (value_of (ascii "max_response_bytes") body)) (λ m.
        bind (as_number (value_of (ascii "session_ttl_s") body))
          (λ t. some (record { max_response_bytes = m; session_ttl_s = t }))))

unfoldable pub notify_of : Body → Option Bool
unfolding is_strict value_of
notify_of body =
    bind (guard (is_strict (ascii "on_use" ∷ []) body))
      (λ u. as_flag (value_of (ascii "on_use") body))

-- What the tables below a rule give it.
pub record Parts : Type 0 where
  pub pair : List PairDef
  pub limits : Option Limits
  pub notify : Option Bool

abbrev pub no_parts : Parts
no_parts = record { pair = []; limits = none; notify = none }

abbrev pub is_none {ℓ} : {A : Type ℓ} → Option A → Bool
is_none none = true
is_none (some a) = false

unfoldable pub rule_of : Body → Parts → Option RuleDef
unfolding is_strict value_of
rule_of body p =
    bind
      (guard (
        is_strict
          (ascii "effect"
            ∷ ascii "name"
            ∷ ascii "agent_id"
            ∷ ascii "cred_ref"
            ∷ ascii "target_uri"
            ∷ ascii "mechanism"
            ∷ [])
          body))
      (λ u. bind (as_string (value_of (ascii "effect") body)) (λ e. bind e (λ effect.
        bind (as_string (value_of (ascii "name") body)) (λ name.
          bind (as_string (value_of (ascii "agent_id") body)) (λ agent_id.
            bind (as_string (value_of (ascii "cred_ref") body)) (λ cred_ref.
              bind (as_string (value_of (ascii "target_uri") body)) (λ target_uri.
                bind (as_string (value_of (ascii "mechanism") body)) (λ mechanism. some (record {
                  effect = effect;
                  name = name;
                  agent_id = agent_id;
                  cred_ref = cred_ref;
                  target_uri = target_uri;
                  mechanism = mechanism;
                  pair = p.pair;
                  limits = p.limits;
                  notify = p.notify;
                })))))))))

-- A table below a rule, in front of those that follow it; a table may stand once.
unfoldable pub below : Section → Parts → Option Parts
unfolding pair_of limits_of notify_of
below s p =
    if s.is_element && str_eq s.name (ascii "rule.pair")
    then bind (pair_of s.body) (λ d. some (record p { pair = d ∷ p.pair }))
    else if not s.is_element && (str_eq s.name (ascii "rule.limits") && is_none p.limits)
    then bind (limits_of s.body) (λ l. some (record p { limits = some l }))
    else if not s.is_element && (str_eq s.name (ascii "rule.notify") && is_none p.notify)
    then bind (notify_of s.body) (λ b. some (record p { notify = some b }))
    else none

-- The tables before the first rule, and the rules.
abbrev pub one_more : Section → Parts × List RuleDef → Option (Parts × List RuleDef)
one_more s (p, defs) =
    if s.is_element && str_eq s.name (ascii "rule")
    then bind (rule_of s.body p) (λ d. some (no_parts, d ∷ defs))
    else bind (below s p) (λ p'. some (p', defs))

unfoldable pub rules_of : List Section → Option (Parts × List RuleDef)
unfolding rule_of below
rules_of [] = some (no_parts, [])
rules_of (s ∷ ss) = bind (rules_of ss) (one_more s)

abbrev pub only_rules : Body → Parts × List RuleDef → Option (List RuleDef)
only_rules body (p, defs) =
    if is_empty body && (is_empty p.pair && (is_none p.limits && is_none p.notify))
    then some defs
    else none

unfoldable pub interpret : List Line → Option (List RuleDef)
unfolding sections rules_of
interpret lines = bind (sections lines) (λ (body, ss). bind (rules_of ss) (only_rules body))
