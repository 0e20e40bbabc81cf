-- ===== src/Policy/Engine.antt =====
-- crates/policy/src/lib.rs: rules, requests, verdicts and `Policy::evaluate`. `u64` ceilings are
-- numbers; they are only compared, so no arithmetic on them can wrap.
pub mod FirstMatch
pub mod Order
pub mod Ceilings
pub mod Load
pub mod Save
use chaperone.Prelude.{
  ℕ, suc, min, ◌≡◌, Bytes, List, [], ◌∷◌, Bool, true, false, ◌&&◌, Option, none, some, ascii,
  str_eq, if◌then◌else◌, ◌++◌,
}
use mathlib.Core.Option
use chaperone.Policy.Matcher.{Matcher, matches}

pub data Effect : Type 0 where
  allow : Effect
  needs_confirmation : Effect
  deny : Effect

pub parse_effect : Bytes → Option Effect
parse_effect raw =
    if str_eq raw (ascii "allow")
    then some allow
    else if str_eq raw (ascii "deny")
    then some deny
    else if str_eq raw (ascii "needs_confirmation")
    then some needs_confirmation
    else none

pub effect_as_str : Effect → Bytes
effect_as_str allow = ascii "allow"
effect_as_str deny = ascii "deny"
effect_as_str needs_confirmation = ascii "needs_confirmation"

pub record Limits : Type 0 where
  pub max_response_bytes : Option ℕ
  pub session_ttl_s : Option ℕ

pub min_opt : Option ℕ → Option ℕ → Option ℕ
min_opt (some x) (some y) = some (min x y)
min_opt (some x) none = some x
min_opt none (some x) = some x
min_opt none none = none

unfoldable pub min_with : Limits → Limits → Limits
unfolding min_opt
min_with a b = record {
  max_response_bytes = min_opt a.max_response_bytes b.max_response_bytes;
  session_ttl_s = min_opt a.session_ttl_s b.session_ttl_s;
}

-- `Constraints` of crates/protocol/src/envelope.rs.
pub record Constraints : Type 0 where
  pub max_response_bytes : Option ℕ
  pub session_ttl_s : Option ℕ

pub record Pair : Type 0 where
  pub cred_ref : Matcher
  pub target_uri : Matcher

pub record Rule : Type 0 where
  pub name : Option Bytes
  pub notify_on_use : Bool
  pub effect : Effect
  pub agent_id : Matcher
  pub cred_ref : Matcher
  pub target_uri : Matcher
  pub mechanism : Matcher
  pub pairs : List Pair
  pub limits : Limits

pub record Request : Type 0 where
  pub agent_id : Bytes
  pub cred_ref : Bytes
  pub target_uri : Bytes
  pub mechanism : Bytes
  pub declared : Option Constraints

pub data DecisionSource : Type 0 where
  default_deny : DecisionSource
  rule : ℕ → Option Bytes → Option ℕ → DecisionSource

pub record Decision : Type 0 where
  pub effect : Effect
  pub notify_on_use : Bool
  pub source : DecisionSource
  pub limits : Limits

pub record Policy : Type 0 where
  pub rules : List Rule
  pub source_hash_hex : Bytes

abbrev pub empty : Policy
empty = record { rules = []; source_hash_hex = [] }

abbrev pub from_rules : List Rule → Policy
from_rules rules = record { rules = rules; source_hash_hex = [] }

pub declared_limits : Request → Limits
declared_limits request = record {
  max_response_bytes = Option.bind request.declared (λ c. c.max_response_bytes);
  session_ttl_s = Option.bind request.declared (λ c. c.session_ttl_s);
}

-- The four shared axes of the loop's test.
unfoldable pub axes_match : Rule → Request → Bool
axes_match r q =
    matches r.agent_id q.agent_id
    && (matches r.cred_ref q.cred_ref
        && (matches r.target_uri q.target_uri && matches r.mechanism q.mechanism))

pub pair_matches : Pair → Request → Bool
pair_matches p q = matches p.cred_ref q.cred_ref && matches p.target_uri q.target_uri

-- `Iterator::position` over the binding rows.
pub position : List Pair → Request → Option ℕ
position [] q = none
position (p ∷ ps) q = if pair_matches p q then some 0 else Option.map suc (position ps q)

-- The row that binds the request: the outer `none` is the loop's `continue`.
unfoldable pub bind_row : List Pair → Request → Option (Option ℕ)
bind_row [] q = some none
bind_row (p ∷ ps) q = Option.map some (position (p ∷ ps) q)

unfoldable pub decide_by : ℕ → Rule → Option ℕ → Limits → Decision
decide_by index r pair declared = record {
  effect = r.effect;
  notify_on_use = r.notify_on_use;
  source = rule index r.name pair;
  limits = min_with r.limits declared;
}

pub floor : Limits → Decision
floor declared = record {
  effect = deny;
  notify_on_use = false;
  source = default_deny;
  limits = declared;
}

-- The loop over the rules from the given index on, and the floor behind it.
unfoldable pub scan : ℕ → List Rule → Request → Decision
scan index [] q = floor (declared_limits q)
scan index (r ∷ rest) q =
    let later = scan (suc index) rest q in
    if axes_match r q
    then elim (bind_row r.pairs q) [
      | none ↦ later
      | some pair ↦ decide_by index r pair (declared_limits q)
    ]
    else later

unfoldable pub evaluate : Policy → Request → Decision
unfolding scan
evaluate p q = scan 0 p.rules q

-- The gateway's and the command line's provenance text, `DecisionSource::label`, where `digits` is
-- the decimal text of an index.
pub label : (ℕ → Bytes) → DecisionSource → Bytes
label digits default_deny = ascii "default_deny"
label digits (rule index name pair) =
    ascii "rule[" ++ (digits index ++ (ascii "]" ++ (named name ++ paired pair)))
  where
    named : Option Bytes → Bytes
    named none = []
    named (some n) = ascii " (" ++ (n ++ ascii ")")

    paired : Option ℕ → Bytes
    paired none = []
    paired (some p) = ascii " pair[" ++ (digits p ++ ascii "]")
