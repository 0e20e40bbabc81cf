-- ===== src/Policy/Engine/Order.antt =====
-- What the order of the rules means for `Policy::evaluate` (crates/policy/src/lib.rs): precedence
-- belongs to the earlier rule.
use chaperone.Prelude.{ℕ, suc, ◌≡◌, ◌≢◌, refl, List, [], ◌∷◌, ◌++◌, arith}
use chaperone.Policy.Engine.{
  Rule, Request, default_deny, from_rules, decide_by, floor, scan, evaluate,
}

scan-append :
    (k : ℕ) (rules more : List Rule) (q : Request)
    → (scan k rules q).source ≢ default_deny
    → scan k (rules ++ more) q ≡ scan k rules q
unfolding scan floor decide_by
scan-append k [] more q h = absurd (h refl)
scan-append k (r ∷ rest) more q h = ground (arith, scan-append (suc k) rest more q)

-- Rules put behind the ruleset that decided never change the verdict: where the source is not the
-- floor, the verdict of the longer ruleset is the same, its index included.
pub evaluate-append :
    (rules more : List Rule) (q : Request)
    → (evaluate (from_rules rules) q).source ≢ default_deny
    → evaluate (from_rules (rules ++ more)) q ≡ evaluate (from_rules rules) q
unfolding evaluate
evaluate-append rules more q h = scan-append 0 rules more q h
