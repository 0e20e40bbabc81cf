-- ===== src/Policy/Engine/Ceilings.antt =====
-- The ceilings of a verdict (`Limits::min_with`, `Policy::evaluate` in crates/policy/src/lib.rs):
-- constraints narrow and never widen. No ceiling is the widest one.
use chaperone.Prelude.{ℕ, ◌≤◌, ◌↔◌, Option, none, some, arith}
use chaperone.Policy.Engine.{
  Limits, Rule, Request, Policy, declared_limits, min_opt, min_with, evaluate, decide_by,
}
use chaperone.Policy.Engine.FirstMatch.{FirstRule, evaluate_first}

-- The first ceiling is at least as tight as the second.
abbrev pub Within : Option ℕ → Option ℕ → Type 0
Within _ none = Unit
Within none (some y) = ⊥
Within (some x) (some y) = x ≤ y

abbrev pub WithinLimits : Limits → Limits → Type 0
WithinLimits a b =
    Within a.max_response_bytes b.max_response_bytes × Within a.session_ttl_s b.session_ttl_s

Within-min_opt : (x a b : Option ℕ) → Within x (min_opt a b) ↔ (Within x a × Within x b)
unfolding min_opt
Within-min_opt x none none = (λ h. (tt, tt), λ h. tt)
Within-min_opt x none (some b) = (λ h. (tt, h), λ h. h.1)
Within-min_opt x (some a) none = (λ h. (h, tt), λ h. h.0)
Within-min_opt none (some a) (some b) = (λ h. absurd h, λ h. absurd h.0)
Within-min_opt (some x) (some a) (some b) = (λ h. (omega arith, omega arith), λ h. omega arith)

-- The combined ceilings are the widest that respect both sides.
pub WithinLimits-min_with :
    (x a b : Limits) → WithinLimits x (min_with a b) ↔ (WithinLimits x a × WithinLimits x b)
unfolding min_with
WithinLimits-min_with x a b =
    let m = Within-min_opt x.max_response_bytes a.max_response_bytes b.max_response_bytes in
    let t = Within-min_opt x.session_ttl_s a.session_ttl_s b.session_ttl_s in
    (
      λ (p, q). (((m.0 p).0, (t.0 q).0), ((m.0 p).1, (t.0 q).1)),
      λ (p, q). (m.1 (p.0, q.0), t.1 (p.1, q.1)),
    )

-- Where a rule decides, a set of ceilings is within those of the verdict exactly when it is within
-- the rule's ceilings and within those that the agent declared: constraints narrow, and no more than
-- they say.
pub evaluate_ceilings :
    (p : Policy) (q : Request) (i : ℕ) (r : Rule) (pair : Option ℕ) (x : Limits)
    → FirstRule p.rules q i r pair
    → WithinLimits x (evaluate p q).limits
      ↔ (WithinLimits x r.limits × WithinLimits x (declared_limits q))
unfolding decide_by
evaluate_ceilings p q i r pair x f =
    rw (evaluate_first p q i r pair f) (WithinLimits-min_with x r.limits (declared_limits q))
