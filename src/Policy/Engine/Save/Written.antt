-- ===== src/Policy/Engine/Save/Written.antt =====
-- The document that the writer makes (`Policy::to_toml` of crates/policy/src/lib.rs), as lines of TOML, and that these
-- lines mean what the rules are.
use chaperone.Prelude.{
  ℕ, ◌≡◌, refl, ap, sym, ◌∙◌, Bytes, List, [], ◌∷◌, ◌++◌, map, Bool, true, false, Option, none,
  some, ascii, append_assoc,
}
use chaperone.Policy.Matcher.{source}
use chaperone.Policy.Engine.{
  Effect, allow, deny, needs_confirmation, effect_as_str, Limits, Pair, Rule,
}
use chaperone.Policy.Engine.Save.{
  or_star, pair_def, limits_def, rule_def, push_kv, optional_kv, write_pairs, write_limits,
  write_notify, write_rule, write_later, write_rules, to_toml,
}
use chaperone.Policy.Engine.Save.Document.{
  Line, blank, table, element, text, basic, integer, flag, line_text, document,
}

-- The lines of a rule: its keys, its pairs, its limits if there is one, and its notification.
abbrev pub opt_text : Bytes → Option Bytes → List Line
opt_text key none = []
opt_text key (some value) = text key value ∷ []

abbrev pub opt_integer : Bytes → Option ℕ → List Line
opt_integer key none = []
opt_integer key (some n) = integer key n ∷ []

unfoldable pub pair_lines : List Pair → List Line
pair_lines [] = []
pair_lines (p ∷ ps) =
    element (ascii "rule.pair")
    ∷ text (ascii "cred_ref") (or_star (source p.cred_ref))
    ∷ text (ascii "target_uri") (or_star (source p.target_uri))
    ∷ pair_lines ps

abbrev pub limit_lines : Option ℕ → Option ℕ → List Line
limit_lines none none = []
limit_lines none (some t) = table (ascii "rule.limits") ∷ integer (ascii "session_ttl_s") t ∷ []
limit_lines (some m) t =
    table (ascii "rule.limits")
    ∷ integer (ascii "max_response_bytes") m
    ∷ opt_integer (ascii "session_ttl_s") t

abbrev pub rule_lines : Rule → List Line → List Line
rule_lines r later =
    element (ascii "rule") ∷ opt_text (ascii "name") r.name
    ++ (basic (ascii "effect") (effect_as_str r.effect)
          ∷ opt_text (ascii "agent_id") (source r.agent_id)
        ++ (opt_text (ascii "cred_ref") (source r.cred_ref)
            ++ (opt_text (ascii "target_uri") (source r.target_uri)
                ++ (opt_text (ascii "mechanism") (source r.mechanism)
                    ++ (pair_lines r.pairs
                        ++ (limit_lines r.limits.max_response_bytes r.limits.session_ttl_s
                            ++ (table (ascii "rule.notify")
                                ∷ flag (ascii "on_use") r.notify_on_use
                                ∷ later)))))))

unfoldable pub later_lines : List Rule → List Line
unfolding pair_lines
later_lines [] = []
later_lines (r ∷ rs) = blank ∷ rule_lines r (later_lines rs)

unfoldable pub lines_of : List Rule → List Line
unfolding later_lines pair_lines
lines_of [] = []
lines_of (r ∷ rs) = rule_lines r (later_lines rs)

module _ (quoted : Bytes → Bytes) where
  document-opt_text :
      (key : Bytes) (v : Option Bytes) (ls : List Line)
      → document quoted (opt_text key v ++ ls) ≡ optional_kv quoted key v ++ document quoted ls
  unfolding document push_kv
  document-opt_text key none ls = refl
  document-opt_text key (some v) ls = refl

  document-pair_lines :
      (ps : List Pair) (ls : List Line)
      → document quoted (pair_lines ps ++ ls)
        ≡ write_pairs quoted (map pair_def ps) ++ document quoted ls
  unfolding document push_kv write_pairs pair_lines pair_def line_text
  document-pair_lines [] ls = refl
  document-pair_lines (p ∷ ps) ls = simp (document-pair_lines ps ls, append_assoc)

  document-limit_lines :
      (l : Limits) (ls : List Line)
      → document quoted (limit_lines l.max_response_bytes l.session_ttl_s ++ ls)
        ≡ write_limits quoted (limits_def l) ++ document quoted ls
  unfolding document write_limits limits_def line_text
  document-limit_lines l ls = by_fields l.max_response_bytes l.session_ttl_s
    where
      by_fields :
          (m t : Option ℕ)
          → document quoted (limit_lines m t ++ ls)
            ≡ write_limits quoted
                (limits_def (record { max_response_bytes = m; session_ttl_s = t }))
              ++ document quoted ls
      by_fields none none = refl
      by_fields none (some t) = refl
      by_fields (some m) none = simp append_assoc
      by_fields (some m) (some t) = simp append_assoc

  document-effect :
      (e : Effect) (ls : List Line)
      → document quoted (basic (ascii "effect") (effect_as_str e) ∷ ls)
        ≡ ascii "effect = \"" ++ (effect_as_str e ++ (ascii "\"\n" ++ document quoted ls))
  unfolding document line_text effect_as_str
  document-effect allow ls = refl
  document-effect deny ls = refl
  document-effect needs_confirmation ls = refl

  document-notify :
      (b : Bool) (ls : List Line)
      → document quoted (table (ascii "rule.notify") ∷ flag (ascii "on_use") b ∷ ls)
        ≡ write_notify quoted (some b) ++ document quoted ls
  unfolding document line_text write_notify
  document-notify true ls = refl
  document-notify false ls = refl

  document-rule :
      (ls : List Line)
      → document quoted (element (ascii "rule") ∷ ls) ≡ ascii "[[rule]]\n" ++ document quoted ls
  unfolding document line_text
  document-rule ls = refl

  document-rule_lines :
      (r : Rule) (ls : List Line)
      → document quoted (rule_lines r ls) ≡ write_rule quoted (rule_def r) ++ document quoted ls
  unfolding write_rule rule_def
  document-rule_lines r ls = simp (
    document-rule,
    document-opt_text,
    document-effect,
    document-pair_lines,
    document-limit_lines r.limits,
    document-notify,
    append_assoc,
  )

  document-later_lines :
      (rs : List Rule) → document quoted (later_lines rs) ≡ write_later quoted (map rule_def rs)
  unfolding later_lines write_later document line_text
  document-later_lines [] = refl
  document-later_lines (r ∷ rs) =
      ap (λ (x : Bytes). 10 ∷ x)
        (document-rule_lines r (later_lines rs)
          ∙ ap (λ (x : Bytes). write_rule quoted (rule_def r) ++ x) (document-later_lines rs))

  -- The writer's text is that of the lines.
  pub to_toml-lines_of :
      (rules : List Rule) → to_toml quoted rules ≡ document quoted (lines_of rules)
  unfolding to_toml write_rules lines_of document
  to_toml-lines_of [] = refl
  to_toml-lines_of (r ∷ rs) = sym (
      document-rule_lines r (later_lines rs)
      ∙ ap (λ (x : Bytes). write_rule quoted (rule_def r) ++ x) (document-later_lines rs))
