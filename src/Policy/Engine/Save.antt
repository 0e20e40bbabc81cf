-- ===== src/Policy/Engine/Save.antt =====
-- The writer of a policy document (`Policy::to_toml` in crates/policy/src/lib.rs): what it says of a
-- rule, and the text. The quoting of a TOML string is a parameter.
pub mod Document
pub mod Meaning
pub mod Written
pub mod Readable
pub mod Restored
use chaperone.Prelude.{
  ℕ, Bytes, List, [], ◌∷◌, ◌++◌, map, Bool, true, false, ◌||◌, Option, none, some, ascii,
  if◌then◌else◌,
}
use chaperone.Prelude.Decimal.{digits}
use chaperone.Policy.Matcher.{Matcher, source}
use chaperone.Policy.Engine.{effect_as_str, Limits, Pair, Rule}
use chaperone.Policy.Engine.Load.{PairDef, RuleDef}

abbrev pub is_some {ℓ} : {A : Type ℓ} → Option A → Bool
is_some none = false
is_some (some a) = true

abbrev pub or_star : Option Bytes → Bytes
or_star none = ascii "*"
or_star (some s) = s

-- `unwrap_or_else(|| "*".to_owned())` stands for a pair field that is any value.
unfoldable pub pair_def : Pair → PairDef
pair_def p = record {
  cred_ref = or_star (source p.cred_ref);
  target_uri = or_star (source p.target_uri);
}

unfoldable pub limits_def : Limits → Option Limits
limits_def l = if is_some l.max_response_bytes || is_some l.session_ttl_s then some l else none

-- What the document says of a rule: a key for each axis but any value, the pairs, the limits if
-- there is one, and always whether use is notified.
unfoldable pub rule_def : Rule → RuleDef
unfolding pair_def limits_def
rule_def r = record {
  effect = effect_as_str r.effect;
  name = r.name;
  agent_id = source r.agent_id;
  cred_ref = source r.cred_ref;
  target_uri = source r.target_uri;
  mechanism = source r.mechanism;
  pair = map pair_def r.pairs;
  limits = limits_def r.limits;
  notify = some r.notify_on_use;
}

module _ (quoted : Bytes → Bytes) where
  abbrev newline : Bytes
  newline = 10 ∷ []

  unfoldable pub push_kv : Bytes → Bytes → Bytes
  push_kv key value = key ++ (ascii " = " ++ (quoted value ++ newline))

  abbrev optional_kv : Bytes → Option Bytes → Bytes
  optional_kv key none = []
  optional_kv key (some value) = push_kv key value

  abbrev number_kv : Bytes → Option ℕ → Bytes
  number_kv key none = []
  number_kv key (some n) = key ++ (ascii " = " ++ (digits n ++ newline))

  unfoldable pub write_pairs : List PairDef → Bytes
  unfolding push_kv
  write_pairs [] = []
  write_pairs (p ∷ ps) =
      ascii "[[rule.pair]]\n"
      ++ (push_kv (ascii "cred_ref") p.cred_ref
          ++ (push_kv (ascii "target_uri") p.target_uri ++ write_pairs ps))

  unfoldable pub write_limits : Option Limits → Bytes
  write_limits none = []
  write_limits (some l) =
      ascii "[rule.limits]\n"
      ++ (number_kv (ascii "max_response_bytes") l.max_response_bytes
          ++ number_kv (ascii "session_ttl_s") l.session_ttl_s)

  unfoldable pub write_notify : Option Bool → Bytes
  write_notify none = []
  write_notify (some on_use) =
      ascii "[rule.notify]\n"
      ++ (if on_use then ascii "on_use = true\n" else ascii "on_use = false\n")

  unfoldable pub write_rule : RuleDef → Bytes
  unfolding push_kv write_pairs write_limits write_notify
  write_rule d =
      ascii "[[rule]]\n"
      ++ (optional_kv (ascii "name") d.name
          ++ (ascii "effect = \""
              ++ (d.effect
                  ++ (ascii "\"\n"
                      ++ (optional_kv (ascii "agent_id") d.agent_id
                          ++ (optional_kv (ascii "cred_ref") d.cred_ref
                              ++ (optional_kv (ascii "target_uri") d.target_uri
                                  ++ (optional_kv (ascii "mechanism") d.mechanism
                                      ++ (write_pairs d.pair
                                          ++ (write_limits d.limits
                                              ++ write_notify d.notify))))))))))

  -- A blank line stands between two rules.
  unfoldable pub write_later : List RuleDef → Bytes
  unfolding write_rule
  write_later [] = []
  write_later (d ∷ ds) = newline ++ (write_rule d ++ write_later ds)

  unfoldable pub write_rules : List RuleDef → Bytes
  unfolding write_later write_rule
  write_rules [] = []
  write_rules (d ∷ ds) = write_rule d ++ write_later ds

  unfoldable pub to_toml : List Rule → Bytes
  unfolding write_rules rule_def
  to_toml rules = write_rules (map rule_def rules)
