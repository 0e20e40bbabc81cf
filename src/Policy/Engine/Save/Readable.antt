-- ===== src/Policy/Engine/Save/Readable.antt =====
-- What the lines of a saved policy mean (`Policy::to_toml` of crates/policy/src/lib.rs, read by the TOML of Document and
-- the schema of Meaning): the rules' definitions.
use chaperone.Prelude.{
  ℕ, ◌^◌, ◌<◌, ◌≡◌, refl, Bytes, List, [], ◌∷◌, ◌++◌, map, Bool, true, false, Option, none, some,
  ascii, arith, All, str_eq,
}
use chaperone.Policy.Matcher.{source}
use chaperone.Policy.Engine.{
  Effect, allow, deny, needs_confirmation, effect_as_str, Limits, Pair, Rule,
}
use chaperone.Policy.Engine.Load.{RuleDef}
use chaperone.Policy.Engine.Save.{or_star, pair_def, limits_def, rule_def}
use chaperone.Policy.Engine.Save.Document.{
  Line, table, element, basic, flag, string, number, boolean, Body, Section, is_plain, sections,
  is_strict, value_of,
}
use chaperone.Policy.Engine.Save.Meaning.{
  pair_of, limits_of, notify_of, Parts, no_parts, rule_of, below, rules_of, interpret,
}
use chaperone.Policy.Engine.Save.Written.{
  opt_text, pair_lines, limit_lines, rule_lines, later_lines, lines_of,
}

-- The lines give the keys, then the tables below a rule that is not there yet, then the rules.
record Reads (lines : List Line) (body : Body) (p : Parts) (defs : List RuleDef) : Type 0 where
  rest : List Section
  parted : sections lines ≡ some (body, rest)
  filled : rules_of rest ≡ some (p, defs)

abbrev opt_string : Bytes → Option Bytes → Body
opt_string key none = []
opt_string key (some value) = (key, string value) ∷ []

abbrev Fits : Option ℕ → Type 0
Fits none = Unit
Fits (some n) = n < 2 ^ 63

abbrev limits_section : Body → Section
limits_section body = record { is_element = false; name = ascii "rule.limits"; body = body }

module _ {lines : List Line} {defs : List RuleDef} where
  module _ {body : Body} {p : Parts} where
    Reads-opt_text :
        (key : Bytes) (v : Option Bytes)
        → Reads lines body p defs
        → Reads (opt_text key v ++ lines) (opt_string key v ++ body) p defs
    unfolding sections
    Reads-opt_text key none r = r
    Reads-opt_text key (some v) r = record {
      rest = r.rest;
      parted = rw (r.parted, sections) refl;
      filled = r.filled;
    }

    Reads-effect :
        (e : Effect)
        → Reads lines body p defs
        → Reads
            (basic (ascii "effect") (effect_as_str e) ∷ lines)
            ((ascii "effect", string (effect_as_str e)) ∷ body)
            p
            defs
    unfolding sections is_plain effect_as_str
    Reads-effect allow r = record {
      rest = r.rest;
      parted = rw (r.parted, sections) refl;
      filled = r.filled;
    }
    Reads-effect deny r = record {
      rest = r.rest;
      parted = rw (r.parted, sections) refl;
      filled = r.filled;
    }
    Reads-effect needs_confirmation r = record {
      rest = r.rest;
      parted = rw (r.parted, sections) refl;
      filled = r.filled;
    }

  Reads-notify :
      (b : Bool)
      → Reads lines [] no_parts defs
      → Reads
          (table (ascii "rule.notify") ∷ flag (ascii "on_use") b ∷ lines)
          []
          (record no_parts { notify = some b })
          defs
  unfolding sections rules_of below notify_of is_strict value_of str_eq
  Reads-notify b r = record {
    rest =
        record {
          is_element = false;
          name = ascii "rule.notify";
          body = (ascii "on_use", boolean b) ∷ [];
        }
        ∷ r.rest;
    parted = rw (r.parted, sections) refl;
    filled = rw (r.filled, rules_of) refl;
  }

  Reads-limit_lines :
      (b : Option Bool) (m t : Option ℕ)
      → Fits m
      → Fits t
      → Reads lines [] (record no_parts { notify = b }) defs
      → Reads
          (limit_lines m t ++ lines)
          []
          (record {
            pair = [];
            limits = limits_def (record { max_response_bytes = m; session_ttl_s = t });
            notify = b;
          })
          defs
  unfolding sections rules_of below limits_of is_strict value_of str_eq limits_def
  Reads-limit_lines b none none hm ht r = r
  Reads-limit_lines b none (some t) hm ht r = record {
    rest = limits_section ((ascii "session_ttl_s", number t) ∷ []) ∷ r.rest;
    parted = ground (arith, r.parted, ht);
    filled = rw (r.filled, rules_of) refl;
  }
  Reads-limit_lines b (some m) none hm ht r = record {
    rest = limits_section ((ascii "max_response_bytes", number m) ∷ []) ∷ r.rest;
    parted = ground (arith, r.parted, hm);
    filled = rw (r.filled, rules_of) refl;
  }
  Reads-limit_lines b (some m) (some t) hm ht r = record {
    rest =
        limits_section
          ((ascii "max_response_bytes", number m) ∷ (ascii "session_ttl_s", number t) ∷ [])
        ∷ r.rest;
    parted = ground (arith, r.parted, hm, ht);
    filled = rw (r.filled, rules_of) refl;
  }

  Reads-pair_lines :
      (ps : List Pair) (l : Option Limits) (b : Option Bool)
      → Reads lines [] (record { pair = []; limits = l; notify = b }) defs
      → Reads
          (pair_lines ps ++ lines)
          []
          (record { pair = map pair_def ps; limits = l; notify = b })
          defs
  unfolding pair_lines sections rules_of below pair_of is_strict value_of str_eq pair_def
  Reads-pair_lines [] l b r = r
  Reads-pair_lines (x ∷ ps) l b r =
      let later = Reads-pair_lines ps l b r in
      record {
        rest =
            record {
              is_element = true;
              name = ascii "rule.pair";
              body =
                  (ascii "cred_ref", string (or_star (source x.cred_ref)))
                  ∷ (ascii "target_uri", string (or_star (source x.target_uri)))
                  ∷ [];
            }
            ∷ later.rest;
        parted = rw (later.parted, sections) refl;
        filled = rw (later.filled, rules_of) refl;
      }

  Reads-rule :
      (body : Body) (p : Parts) (d : RuleDef)
      → Reads lines body p defs
      → rule_of body p ≡ some d
      → Reads (element (ascii "rule") ∷ lines) [] no_parts (d ∷ defs)
  unfolding sections rules_of str_eq
  Reads-rule body p d r made = record {
    rest = record { is_element = true; name = ascii "rule"; body = body } ∷ r.rest;
    parted = rw (r.parted, sections) refl;
    filled = rw (r.filled, rules_of) (rw made refl);
  }

rule_of-keys :
    (n a c t m : Option Bytes) (e : Bytes) (p : Parts)
    → rule_of
        (opt_string (ascii "name") n
          ++ ((ascii "effect", string e) ∷ opt_string (ascii "agent_id") a
              ++ (opt_string (ascii "cred_ref") c
                  ++ (opt_string (ascii "target_uri") t
                      ++ (opt_string (ascii "mechanism") m ++ [])))))
        p
      ≡ some (record {
        effect = e;
        name = n;
        agent_id = a;
        cred_ref = c;
        target_uri = t;
        mechanism = m;
        pair = p.pair;
        limits = p.limits;
        notify = p.notify;
      })
unfolding rule_of is_strict value_of str_eq
rule_of-keys n a c t m e p = ground arith

-- TOML has no integer past 63 bits.
abbrev pub FitLimits : Rule → Type 0
FitLimits r = Fits r.limits.max_response_bytes × Fits r.limits.session_ttl_s

Reads-rule_lines :
    {lines : List Line} {defs : List RuleDef} (r : Rule)
    → FitLimits r
    → Reads lines [] no_parts defs
    → Reads (rule_lines r lines) [] no_parts (rule_def r ∷ defs)
unfolding rule_def
Reads-rule_lines {lines} {defs} r (hm, ht) later =
    let limits = limits_def r.limits in
    let tables = Reads-pair_lines r.pairs limits (some r.notify_on_use) (
      Reads-limit_lines (some r.notify_on_use) r.limits.max_response_bytes r.limits.session_ttl_s hm
        ht (Reads-notify r.notify_on_use later)) in
    let keys = Reads-opt_text (ascii "name") r.name (
      Reads-effect r.effect (
        Reads-opt_text (ascii "agent_id") (source r.agent_id) (
          Reads-opt_text (ascii "cred_ref") (source r.cred_ref) (
            Reads-opt_text (ascii "target_uri") (source r.target_uri)
              (Reads-opt_text (ascii "mechanism") (source r.mechanism) tables))))) in
    Reads-rule _ _ (rule_def r) keys (
      rule_of-keys r.name (source r.agent_id) (source r.cred_ref) (source r.target_uri)
        (source r.mechanism) (effect_as_str r.effect)
        (record { pair = map pair_def r.pairs; limits = limits; notify = some r.notify_on_use }))

Reads-later_lines :
    (rs : List Rule) → All FitLimits rs → Reads (later_lines rs) [] no_parts (map rule_def rs)
unfolding later_lines sections rules_of
Reads-later_lines [] h = record { rest = []; parted = refl; filled = refl }
Reads-later_lines (r ∷ rs) (fit, h) =
    let read = Reads-rule_lines r fit (Reads-later_lines rs h) in
    record { rest = read.rest; parted = read.parted; filled = read.filled }

Reads-lines_of :
    (rules : List Rule)
    → All FitLimits rules
    → Reads (lines_of rules) [] no_parts (map rule_def rules)
unfolding lines_of sections rules_of
Reads-lines_of [] h = record { rest = []; parted = refl; filled = refl }
Reads-lines_of (r ∷ rs) (fit, h) = Reads-rule_lines r fit (Reads-later_lines rs h)

-- The lines of the rules mean the definitions of the rules.
pub interpret-lines_of :
    (rules : List Rule)
    → All FitLimits rules
    → interpret (lines_of rules) ≡ some (map rule_def rules)
unfolding interpret
interpret-lines_of rules h = let read = Reads-lines_of rules h in rw (read.parted, read.filled) refl
