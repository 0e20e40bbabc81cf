-- ===== src/Policy/Engine/Load/Faithful.antt =====
-- The loaded policy says what the document says (`Policy::from_toml` in crates/policy/src/lib.rs).
use chaperone.Prelude.{
  ℕ, suc, ◌+◌, ◌≡◌, refl, ap, ◌⊎◌, inl, inr, Bytes, List, [], ◌∷◌, map, true, Option, none, some,
  arith, str_eq_iff, str_eq, ascii,
}
use mathlib.Core.Option
use chaperone.Policy.Matcher
use chaperone.Policy.Matcher.{Matcher}
use chaperone.Policy.Engine.{
  Effect, allow, deny, needs_confirmation, parse_effect, effect_as_str, Pair, Rule,
}
use chaperone.Policy.Engine.Load.{
  PairDef, RuleDef, PolicyError, schema, Result, ok, err, axis, load_pair, load_rule, known,
  load_rules, from_toml,
}

abbrev pub AxisOf : Option Bytes → Matcher → Type 0
AxisOf none m = m ≡ Matcher.any
AxisOf (some raw) m = m ≡ Matcher.parse raw

abbrev pub PairsOf : List PairDef → List Pair → Type 0
PairsOf [] [] = Unit
PairsOf [] (q ∷ qs) = ⊥
PairsOf (p ∷ ps) [] = ⊥
PairsOf (p ∷ ps) (q ∷ qs) =
    (q.cred_ref ≡ Matcher.parse p.cred_ref)
    × (q.target_uri ≡ Matcher.parse p.target_uri)
    × PairsOf ps qs

-- The rule says what its definition says: the effect by its wire string, an absent axis as any
-- value, an absent notify table as notifying, absent ceilings as none.
pub record RuleOf (def : RuleDef) (r : Rule) : Type 0 where
  pub effect : effect_as_str r.effect ≡ def.effect
  pub name : r.name ≡ def.name
  pub notify_on_use : r.notify_on_use ≡ Option.get_or def.notify true
  pub agent_id : AxisOf def.agent_id r.agent_id
  pub cred_ref : AxisOf def.cred_ref r.cred_ref
  pub target_uri : AxisOf def.target_uri r.target_uri
  pub mechanism : AxisOf def.mechanism r.mechanism
  pub pairs : PairsOf def.pair r.pairs
  pub limits :
      r.limits
      ≡ Option.get_or def.limits (record { max_response_bytes = none; session_ttl_s = none })

abbrev pub RulesOf : List RuleDef → List Rule → Type 0
RulesOf [] [] = Unit
RulesOf [] (r ∷ rs) = ⊥
RulesOf (d ∷ ds) [] = ⊥
RulesOf (d ∷ ds) (r ∷ rs) = RuleOf d r × RulesOf ds rs

-- The definition at the index is the first whose effect is no wire string of an effect.
abbrev pub FirstUnknown : List RuleDef → ℕ → Bytes → Type 0
FirstUnknown [] i raw = ⊥
FirstUnknown (d ∷ ds) ℕ.zero raw = (raw ≡ d.effect) × ((e : Effect) → ¬ (effect_as_str e ≡ raw))
FirstUnknown (d ∷ ds) (suc i) raw =
    ((e : Effect) × (effect_as_str e ≡ d.effect)) × FirstUnknown ds i raw

parse-effect_as_str : (raw : Bytes) (e : Effect) → parse_effect raw ≡ some e → effect_as_str e ≡ raw
unfolding parse_effect effect_as_str
parse-effect_as_str raw e h = ground (
  arith,
  str_eq_iff raw (ascii "allow"),
  str_eq_iff raw (ascii "deny"),
  str_eq_iff raw (ascii "needs_confirmation"),
)

pub effect_as_str-parse : (e : Effect) → parse_effect (effect_as_str e) ≡ some e
unfolding parse_effect effect_as_str str_eq
effect_as_str-parse allow = refl
effect_as_str-parse needs_confirmation = refl
effect_as_str-parse deny = refl

unknown_text : (raw : Bytes) → parse_effect raw ≡ none → (e : Effect) → ¬ (effect_as_str e ≡ raw)
unknown_text raw n e h = cc (n, effect_as_str-parse e, ap parse_effect h)

AxisOf-axis : (raw : Option Bytes) → AxisOf raw (axis raw)
unfolding axis
AxisOf-axis none = refl
AxisOf-axis (some s) = refl

PairsOf-map : (ps : List PairDef) → PairsOf ps (map load_pair ps)
unfolding load_pair
PairsOf-map [] = tt
PairsOf-map (p ∷ ps) = (refl, refl, PairsOf-map ps)

RuleOf-load_rule :
    (e : Effect) (def : RuleDef) → effect_as_str e ≡ def.effect → RuleOf def (load_rule e def)
unfolding load_rule
RuleOf-load_rule e def h = record {
  effect = h;
  name = refl;
  notify_on_use = refl;
  agent_id = AxisOf-axis def.agent_id;
  cred_ref = AxisOf-axis def.cred_ref;
  target_uri = AxisOf-axis def.target_uri;
  mechanism = AxisOf-axis def.mechanism;
  pairs = PairsOf-map def.pair;
  limits = refl;
}

module _ (unknown_effect : ℕ → Bytes → Bytes) where
  abbrev Loads : ℕ → List RuleDef → Type 0
  Loads k defs =
      ((rules : List Rule) × RulesOf defs rules × (load_rules unknown_effect k defs ≡ ok rules))
      ⊎ ((i : ℕ) × (raw : Bytes) × FirstUnknown defs i raw
          × (load_rules unknown_effect k defs ≡ err (schema (unknown_effect (k + i) raw))))

  load_unknown :
      (k : ℕ) (d : RuleDef) (ds : List RuleDef)
      → parse_effect d.effect ≡ none
      → load_rules unknown_effect k (d ∷ ds) ≡ err (schema (unknown_effect k d.effect))
  unfolding load_rules known
  load_unknown k d ds e = ground (arith, e)

  load_ok :
      (k : ℕ) (d : RuleDef) (ds : List RuleDef) (x : Effect) (rules : List Rule)
      → parse_effect d.effect ≡ some x
      → load_rules unknown_effect (suc k) ds ≡ ok rules
      → load_rules unknown_effect k (d ∷ ds) ≡ ok (load_rule x d ∷ rules)
  unfolding load_rules known
  load_ok k d ds x rules e h = ground (arith, e)

  load_later :
      (k : ℕ) (d : RuleDef) (ds : List RuleDef) (x : Effect) (r : PolicyError)
      → parse_effect d.effect ≡ some x
      → load_rules unknown_effect (suc k) ds ≡ err r
      → load_rules unknown_effect k (d ∷ ds) ≡ err r
  unfolding load_rules known
  load_later k d ds x r e h = ground (arith, e)

  load_rules_cases : (k : ℕ) (defs : List RuleDef) → Loads k defs
  load_rules_cases k [] = inl ([], tt, unfold load_rules in refl)
  load_rules_cases k (d ∷ ds) = step (parse_effect d.effect) refl (load_rules_cases (suc k) ds)
    where
      step : (o : Option Effect) → parse_effect d.effect ≡ o → Loads (suc k) ds → Loads k (d ∷ ds)
      step none e l =
          let here : k ≡ k + 0 = omega arith in
          inr (0, d.effect, (refl, unknown_text d.effect e), rw (← here) (load_unknown k d ds e))
      step (some x) e (inl (rules, f, h)) =
          let wire = parse-effect_as_str d.effect x e in
          inl (load_rule x d ∷ rules, (RuleOf-load_rule x d wire, f), load_ok k d ds x rules e h)
      step (some x) e (inr (i, raw, f, h)) =
          let wire = parse-effect_as_str d.effect x e in
          let shift : suc k + i ≡ k + suc i = omega arith in
          inr (suc i, raw, ((x, wire), f), rw shift at (load_later k d ds x _ e h))

module _ (toml_from_str : Bytes → Result (List RuleDef)) (sha256_hex : Bytes → Bytes)
    (unknown_effect : ℕ → Bytes → Bytes) where
  -- A document that the TOML reader accepts either loads as one rule per definition, in order, each
  -- saying what its definition says, under the digest of the whole document; or it is refused as a
  -- whole, by an error that names the first definition whose effect is no effect's wire string.
  pub from_toml_cases :
      (doc : Bytes) (defs : List RuleDef)
      → toml_from_str doc ≡ ok defs
      → ((rules : List Rule) × RulesOf defs rules
          × (from_toml toml_from_str sha256_hex unknown_effect doc
              ≡ ok (record { rules = rules; source_hash_hex = sha256_hex doc })))
        ⊎ ((i : ℕ) × (raw : Bytes) × FirstUnknown defs i raw
            × (from_toml toml_from_str sha256_hex unknown_effect doc
                ≡ err (schema (unknown_effect i raw))))
  unfolding from_toml
  from_toml_cases doc defs h = elim (load_rules_cases unknown_effect 0 defs) [
    | inl (rules, f, e) ↦ inl (rules, f, rw (h, e) refl)
    | inr (i, raw, f, e) ↦
        let start : 0 + i ≡ i = omega arith in inr (i, raw, f, rw (h, rw start at e) refl)
  ]
