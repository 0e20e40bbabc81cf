-- ===== src/Examples/Policies.antt =====
-- Concrete rulesets and matchers (crates/policy/src).
use chaperone.Prelude.{
  ℕ, ◌≡◌, ◌≢◌, refl, ◌↔◌, ap, ◌⊎◌, ◌++◌, Bytes, List, [], ◌∷◌, true, false, Option, none, some,
  ascii, contains, starts_with, find, str_eq, split, ends_with,
}
use chaperone.Policy.Matcher.{exact, prefix, any, glob_match, parse, source}
use chaperone.Policy.Matcher.Glob.{Matches}
use chaperone.Policy.Matcher.Greedy.{glob_match_iff}
use chaperone.Policy.Matcher.Source.{is_ambiguous, parse-source}
use chaperone.Policy.Engine.{
  allow, deny, Limits, Rule, Request, default_deny, rule, min_with, decide_by, Policy, from_rules,
  evaluate, declared_limits,
}
use chaperone.Policy.Engine.FirstMatch.{FirstRule, Uncovered, evaluate_first, evaluate_cases}
use chaperone.Policy.Engine.Ceilings.{WithinLimits, evaluate_ceilings}
use chaperone.Policy.Engine.Order.{evaluate-append}
use chaperone.Policy.Engine.Load.{RuleDef, Result, ok, err, from_toml, schema}
use chaperone.Policy.Engine.Load.Faithful.{RulesOf, FirstUnknown, from_toml_cases}

abbrev open_rule : Rule
open_rule = record {
  name = none;
  notify_on_use = true;
  effect = allow;
  agent_id = any;
  cred_ref = prefix (ascii "vault://");
  target_uri = any;
  mechanism = exact (ascii "ssh");
  pairs = [];
  limits = record { max_response_bytes = some 100; session_ttl_s = some 60 };
}

abbrev closed_rule : Rule
closed_rule = record open_rule { effect = deny }

abbrev asked_for : Request
asked_for = record {
  agent_id = ascii "bot";
  cred_ref = ascii "vault://db";
  target_uri = ascii "ssh://host";
  mechanism = ascii "ssh";
  declared = some (record { max_response_bytes = none; session_ttl_s = some 600 });
}

abbrev tight : Limits
tight = record { max_response_bytes = some 10; session_ttl_s = some 30 }

abbrev rules : Policy
rules = from_rules (open_rule ∷ [])

covered : FirstRule (open_rule ∷ []) asked_for 0 open_rule none
covered = (
  refl,
  record {
    agent_id = tt;
    cred_ref = (ascii "db", refl);
    target_uri = tt;
    mechanism = refl;
    bound = refl;
  },
)

evaluate_cases_example :
    (Uncovered rules.rules asked_for
      × (evaluate rules asked_for ≡ record {
        effect = deny;
        notify_on_use = false;
        source = default_deny;
        limits = declared_limits asked_for;
      }))
    ⊎ ((i : ℕ) × (r : Rule) × (pair : Option ℕ) × FirstRule rules.rules asked_for i r pair
        × (evaluate rules asked_for ≡ record {
          effect = r.effect;
          notify_on_use = r.notify_on_use;
          source = rule i r.name pair;
          limits = min_with r.limits (declared_limits asked_for);
        }))
evaluate_cases_example = evaluate_cases rules asked_for

evaluate_first_example :
    evaluate rules asked_for ≡ decide_by 0 open_rule none (declared_limits asked_for)
evaluate_first_example = evaluate_first rules asked_for 0 open_rule none covered

evaluate_ceilings_example :
    WithinLimits tight (evaluate rules asked_for).limits
    ↔ (WithinLimits tight open_rule.limits × WithinLimits tight (declared_limits asked_for))
evaluate_ceilings_example = evaluate_ceilings rules asked_for 0 open_rule none tight covered

decided_by_a_rule : (evaluate rules asked_for).source ≢ default_deny
unfolding decide_by
decided_by_a_rule e = cc (ap (λ d. d.source) evaluate_first_example, e)

evaluate-append_example :
    evaluate (from_rules ((open_rule ∷ []) ++ (closed_rule ∷ []))) asked_for
    ≡ evaluate rules asked_for
evaluate-append_example =
    evaluate-append (open_rule ∷ []) (closed_rule ∷ []) asked_for decided_by_a_rule

abbrev one_def : RuleDef
one_def = record {
  effect = ascii "allow";
  name = none;
  agent_id = none;
  cred_ref = some (ascii "prefix:vault://");
  target_uri = none;
  mechanism = some (ascii "ssh");
  pair = [];
  limits = none;
  notify = none;
}

abbrev bad_def : RuleDef
bad_def = record one_def { effect = ascii "permit" }

abbrev read : Bytes → Result (List RuleDef)
read doc = ok (one_def ∷ bad_def ∷ [])

abbrev digest : Bytes → Bytes
digest doc = doc

abbrev complain : ℕ → Bytes → Bytes
complain i raw = raw

from_toml_cases_example :
    ((rs : List Rule) × RulesOf (one_def ∷ bad_def ∷ []) rs
      × (from_toml read digest complain [] ≡ ok (record { rules = rs; source_hash_hex = [] })))
    ⊎ ((i : ℕ) × (raw : Bytes) × FirstUnknown (one_def ∷ bad_def ∷ []) i raw
        × (from_toml read digest complain [] ≡ err (schema (complain i raw))))
from_toml_cases_example = from_toml_cases read digest complain [] (one_def ∷ bad_def ∷ []) refl

glob_match_iff_example :
    (glob_match (ascii "ab*ba") (ascii "abba") ≡ true) ↔ Matches (ascii "ab*ba") (ascii "abba")
glob_match_iff_example = glob_match_iff (ascii "ab*ba") (ascii "abba")

tagged : source (exact (ascii "glob:x")) ≡ some (ascii "glob:x")
unfolding source contains find starts_with str_eq
tagged = refl

parse-source_example :
    (parse (ascii "glob:x") ≡ exact (ascii "glob:x"))
    ↔ (is_ambiguous (exact (ascii "glob:x")) ≡ false)
parse-source_example = parse-source (exact (ascii "glob:x")) (ascii "glob:x") tagged

-- The ends of a pattern do not overlap in the text.
overlap : glob_match (ascii "ab*ba") (ascii "aba") ≡ false
unfolding glob_match split find str_eq starts_with ends_with
overlap = refl

middles : glob_match (ascii "*x*y*") (ascii "zxqywz") ≡ true
unfolding glob_match split find str_eq starts_with ends_with
middles = refl
