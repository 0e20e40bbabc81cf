-- ===== src/Policy/Engine/Load.antt =====
-- Loading a policy document (`Policy::from_toml` in crates/policy/src/lib.rs). The TOML reader with
-- the strict schema, the digest and the error text's formatting are parameters; what the loader does
-- with the definitions that the reader returns is modelled in full.
pub mod Faithful
use chaperone.Prelude.{ℕ, suc, Bytes, List, [], ◌∷◌, map, Bool, true, Option, none, some}
use mathlib.Core.Option
use chaperone.Prelude.Fallible.{Fallible, ensure}
pub use chaperone.Prelude.Fallible.{ok, err, ◌>>=◌, ◌>>◌}
use chaperone.Policy.Matcher
use chaperone.Policy.Matcher.{Matcher}
use chaperone.Policy.Engine.{Effect, parse_effect, Limits, Pair, Rule, Policy}

pub record PairDef : Type 0 where
  pub cred_ref : Bytes
  pub target_uri : Bytes

pub record RuleDef : Type 0 where
  pub effect : Bytes
  pub name : Option Bytes
  pub agent_id : Option Bytes
  pub cred_ref : Option Bytes
  pub target_uri : Option Bytes
  pub mechanism : Option Bytes
  pub pair : List PairDef
  pub limits : Option Limits
  -- `notify.on_use`; the schema's default for a bare table is true.
  pub notify : Option Bool

pub data PolicyError : Type 0 where
  parse : Bytes → PolicyError
  schema : Bytes → PolicyError

abbrev pub Result {ℓ} : Type ℓ → Type ℓ
Result A = Fallible PolicyError A

unfoldable pub axis : Option Bytes → Matcher
axis none = Matcher.any
axis (some s) = Matcher.parse s

unfoldable pub load_pair : PairDef → Pair
load_pair p = record {
  cred_ref = Matcher.parse p.cred_ref;
  target_uri = Matcher.parse p.target_uri;
}

abbrev pub no_limits : Limits
no_limits = record { max_response_bytes = none; session_ttl_s = none }

unfoldable pub load_rule : Effect → RuleDef → Rule
unfolding axis load_pair
load_rule effect def = record {
  name = def.name;
  notify_on_use = Option.get_or def.notify true;
  effect = effect;
  agent_id = axis def.agent_id;
  cred_ref = axis def.cred_ref;
  target_uri = axis def.target_uri;
  mechanism = axis def.mechanism;
  pairs = map load_pair def.pair;
  limits = Option.get_or def.limits no_limits;
}

-- The text of the error for an effect that is none, from the rule's index and the text found.
module _ (unknown_effect : ℕ → Bytes → Bytes) where
  unfoldable pub known : ℕ → RuleDef → Result Effect
  known i def = elim (parse_effect def.effect) [
    | none ↦ err (schema (unknown_effect i def.effect))
    | some e ↦ ok e
  ]

  -- The loop over the definitions, from the given index on.
  unfoldable pub load_rules : ℕ → List RuleDef → Result (List Rule)
  load_rules i [] = ok []
  load_rules i (def ∷ rest) =
      let later = load_rules (suc i) rest in
      do effect ← known i def; rules ← later; ok (load_rule effect def ∷ rules)

module _ (toml_from_str : Bytes → Result (List RuleDef)) (sha256_hex : Bytes → Bytes)
    (unknown_effect : ℕ → Bytes → Bytes) where
  unfoldable pub from_toml : Bytes → Result Policy
  from_toml doc = do
    defs ← toml_from_str doc
    rules ← load_rules unknown_effect 0 defs
    ok (record { rules = rules; source_hash_hex = sha256_hex doc })
