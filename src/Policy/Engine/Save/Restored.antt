-- ===== src/Policy/Engine/Save/Restored.antt =====
-- A saved policy is loaded again as it was (`to_toml` and `from_toml` of crates/policy/src/lib.rs).
use chaperone.Prelude.{
  ℕ, suc, ◌≡◌, ◌≢◌, refl, sym, ap, ◌∙◌, some, Bytes, List, [], ◌∷◌, map, false, none, arith, All,
  Option-cases, inl, inr,
}
use mathlib.Core.Option
use chaperone.Policy.Matcher
use chaperone.Policy.Matcher.{Matcher, source}
use chaperone.Policy.Matcher.Source.{is_ambiguous, parse-source}
use chaperone.Policy.Engine.{Limits, Pair, Rule}
use chaperone.Policy.Engine.Load.{
  RuleDef, Result, ok, axis, load_pair, load_rule, known, load_rules, from_toml, no_limits,
}
use chaperone.Policy.Engine.Load.Faithful.{effect_as_str-parse}
use chaperone.Policy.Engine.Save.Document.{document}
use chaperone.Policy.Engine.Save.Meaning.{interpret}
use chaperone.Policy.Engine.Save.Written.{lines_of, to_toml-lines_of}
use chaperone.Policy.Engine.Save.Readable.{FitLimits, interpret-lines_of}
use chaperone.Policy.Engine.Save.{pair_def, limits_def, rule_def, to_toml, or_star}

abbrev pub IsClear : Matcher → Type 0
IsClear m = is_ambiguous m ≡ false

-- No matcher of the rule begins with the tag of another, and its pairs name what they bind.
pub record IsSaveable (r : Rule) : Type 0 where
  pub agent_id : IsClear r.agent_id
  pub cred_ref : IsClear r.cred_ref
  pub target_uri : IsClear r.target_uri
  pub mechanism : IsClear r.mechanism
  pub pairs :
      All
        (λ (p : Pair).
          (IsClear p.cred_ref × IsClear p.target_uri)
          × ((p.cred_ref ≢ Matcher.any) × (p.target_uri ≢ Matcher.any)))
        r.pairs

source_none : (m : Matcher) → source m ≡ none → m ≡ Matcher.any
unfolding source
source_none Matcher.any h = refl
source_none (Matcher.exact v) h = absurd (ground (arith, h))
source_none (Matcher.prefix v) h = absurd (ground (arith, h))
source_none (Matcher.glob v) h = absurd (ground (arith, h))

axis-source : (m : Matcher) → IsClear m → axis (source m) ≡ m
unfolding axis
axis-source m clear = elim (Option-cases (source m)) [
  | inl e ↦ rw e (sym (source_none m e))
  | inr (s, e) ↦ rw e ((parse-source m s e).1 clear)
]

load_limits : (l : Limits) → Option.get_or (limits_def l) no_limits ≡ l
unfolding limits_def
load_limits l = ground arith

named_pair : (m : Matcher) → IsClear m → m ≢ Matcher.any → Matcher.parse (or_star (source m)) ≡ m
named_pair m clear named = elim (Option-cases (source m)) [
  | inl e ↦ absurd (named (source_none m e))
  | inr (s, e) ↦ rw e ((parse-source m s e).1 clear)
]

load_pairs :
    (ps : List Pair)
    → All
        (λ (p : Pair).
          (IsClear p.cred_ref × IsClear p.target_uri)
          × ((p.cred_ref ≢ Matcher.any) × (p.target_uri ≢ Matcher.any)))
        ps
    → map load_pair (map pair_def ps) ≡ ps
unfolding load_pair pair_def
load_pairs [] h = refl
load_pairs (p ∷ ps) (((c, t), (c_named, t_named)), h) =
    let cred = named_pair p.cred_ref c c_named in
    let target = named_pair p.target_uri t t_named in
    let rest = load_pairs ps h in λ i. record { cred_ref = cred i; target_uri = target i } ∷ rest i

load_rule-rule_def : (r : Rule) → IsSaveable r → load_rule r.effect (rule_def r) ≡ r
unfolding load_rule rule_def
load_rule-rule_def r h =
    let agent = axis-source r.agent_id h.agent_id in
    let cred = axis-source r.cred_ref h.cred_ref in
    let target = axis-source r.target_uri h.target_uri in
    let mechanism = axis-source r.mechanism h.mechanism in
    let pairs = load_pairs r.pairs h.pairs in
    let limits = load_limits r.limits in
    λ i. record r {
      agent_id = agent i;
      cred_ref = cred i;
      target_uri = target i;
      mechanism = mechanism i;
      pairs = pairs i;
      limits = limits i;
    }

known-rule_def :
    (unknown_effect : ℕ → Bytes → Bytes) (i : ℕ) (r : Rule)
    → known unknown_effect i (rule_def r) ≡ ok r.effect
unfolding known rule_def
known-rule_def unknown_effect i r = rw (effect_as_str-parse r.effect, known) refl

load_rules-rule_def :
    (unknown_effect : ℕ → Bytes → Bytes) (i : ℕ) (rules : List Rule)
    → All IsSaveable rules
    → load_rules unknown_effect i (map rule_def rules) ≡ ok rules
unfolding load_rules
load_rules-rule_def unknown_effect i [] h = refl
load_rules-rule_def unknown_effect i (r ∷ rs) (hr, h) =
    rw
      (
        known-rule_def unknown_effect i r,
        load_rules-rule_def unknown_effect (suc i) rs h,
        load_rule-rule_def r hr,
      )
      refl

-- Rules that are saved and loaded again are the same rules, and the policy carries the digest of the
-- document. The document is the text of certain lines of TOML, and the reader is relied on to read
-- these lines as TOML and the schema say. No matcher may begin with the tag of another kind, no field
-- of a pair may be any value, and each limit is less than 2^63.
pub from_toml-to_toml :
    (toml_from_str : Bytes → Result (List RuleDef)) (sha256_hex : Bytes → Bytes)
    (unknown_effect : ℕ → Bytes → Bytes) (quoted : Bytes → Bytes) (rules : List Rule)
    → ((defs : List RuleDef)
        → interpret (lines_of rules) ≡ some defs
        → toml_from_str (document quoted (lines_of rules)) ≡ ok defs)
    → All IsSaveable rules
    → All FitLimits rules
    → from_toml toml_from_str sha256_hex unknown_effect (to_toml quoted rules)
      ≡ ok (record { rules = rules; source_hash_hex = sha256_hex (to_toml quoted rules) })
unfolding from_toml
from_toml-to_toml toml_from_str sha256_hex unknown_effect quoted rules reads h fit =
    let read : toml_from_str (to_toml quoted rules) ≡ ok (map rule_def rules) =
      ap toml_from_str (to_toml-lines_of quoted rules)
      ∙ reads (map rule_def rules) (interpret-lines_of rules fit) in
    rw (read, load_rules-rule_def unknown_effect 0 rules h) refl
