-- ===== src/Policy/Engine/FirstMatch.antt =====
-- `Policy::evaluate` (crates/policy/src/lib.rs) against the rule that it promises to apply: the first
-- one that covers the request, or the floor.
use chaperone.Prelude.{
  ℕ, zero, suc, ◌+◌, ◌≡◌, refl, sym, subst, ap, ◌∙◌, ◌↔◌, ◌⊎◌, inl, inr, true, false, Option, none,
  some, List, [], ◌∷◌, arith, Bool-cases, Option-cases, All, if◌then◌else◌,
}
use mathlib.Core.Option
use chaperone.Policy.Matcher.Admits.{Admits, matches_iff}
use chaperone.Policy.Engine.{
  deny, min_with, Pair, Rule, Request, default_deny, rule, Policy, declared_limits, axes_match,
  pair_matches, position, bind_row, decide_by, floor, scan, evaluate,
}

abbrev pub RowAdmits : Pair → Request → Type 0
RowAdmits p q = Admits p.cred_ref q.cred_ref × Admits p.target_uri q.target_uri

-- The row at the index admits the request, and no row before it does.
abbrev pub FirstRow : List Pair → Request → ℕ → Type 0
FirstRow [] q i = ⊥
FirstRow (p ∷ ps) q zero = RowAdmits p q
FirstRow (p ∷ ps) q (suc i) = ¬ RowAdmits p q × FirstRow ps q i

-- A rule without rows binds any request; one with rows binds by its first row that admits it.
abbrev pub Binds : List Pair → Request → Option ℕ → Type 0
Binds [] q pair = pair ≡ none
Binds (p ∷ ps) q pair = (i : ℕ) × (pair ≡ some i) × FirstRow (p ∷ ps) q i

pub record Covers (r : Rule) (q : Request) (pair : Option ℕ) : Type 0 where
  pub agent_id : Admits r.agent_id q.agent_id
  pub cred_ref : Admits r.cred_ref q.cred_ref
  pub target_uri : Admits r.target_uri q.target_uri
  pub mechanism : Admits r.mechanism q.mechanism
  pub bound : Binds r.pairs q pair

-- The rule at the index covers the request, and no rule before it does.
abbrev pub FirstRule : List Rule → Request → ℕ → Rule → Option ℕ → Type 0
FirstRule [] q i r pair = ⊥
FirstRule (x ∷ xs) q zero r pair = (x ≡ r) × Covers r q pair
FirstRule (x ∷ xs) q (suc i) r pair =
    ((other : Option ℕ) → ¬ Covers x q other) × FirstRule xs q i r pair

abbrev pub Uncovered : List Rule → Request → Type 0
Uncovered rules q = All (λ x. (other : Option ℕ) → ¬ Covers x q other) rules

pair_matches_iff : (p : Pair) (q : Request) → (pair_matches p q ≡ true) ↔ RowAdmits p q
unfolding pair_matches
pair_matches_iff p q = (
  λ h. ground (arith, matches_iff p.cred_ref q.cred_ref, matches_iff p.target_uri q.target_uri),
  λ h. ground (arith, matches_iff p.cred_ref q.cred_ref, matches_iff p.target_uri q.target_uri),
)

position-FirstRow :
    (ps : List Pair) (q : Request) (i : ℕ) → (position ps q ≡ some i) ↔ FirstRow ps q i
unfolding position
position-FirstRow [] q i = (λ h. absurd (cc h), λ h. absurd h)
position-FirstRow (p ∷ ps) q zero =
    (λ h. (pair_matches_iff p q).0 (ground arith), λ h. ground (arith, (pair_matches_iff p q).1 h))
position-FirstRow (p ∷ ps) q (suc i) = (
  λ h. (
    λ a. absurd (ground (arith, (pair_matches_iff p q).1 a)),
    (position-FirstRow ps q i).0 (ground arith),
  ),
  λ (n, f). elim (Bool-cases (pair_matches p q)) [
    | inl y ↦ absurd (n ((pair_matches_iff p q).0 y))
    | inr e ↦ rw (e, (position-FirstRow ps q i).1 f) refl
  ],
)

bind_row-Binds :
    (ps : List Pair) (q : Request) (pair : Option ℕ) → (bind_row ps q ≡ some pair) ↔ Binds ps q pair
unfolding bind_row
bind_row-Binds [] q pair = (λ h. cc h, λ h. cc h)
bind_row-Binds (p ∷ ps) q pair =
    (forth, λ (i, e, f). rw ((position-FirstRow (p ∷ ps) q i).1 f, e) refl)
  where
    forth : Option.map some (position (p ∷ ps) q) ≡ some pair → Binds (p ∷ ps) q pair
    forth h = elim (Option-cases (position (p ∷ ps) q)) [
      | inl e ↦ absurd (ground (arith, e))
      | inr (i, e) ↦ (i, ground (arith, e), (position-FirstRow (p ∷ ps) q i).0 e)
    ]

-- What the loop computes for one rule: the row to report, or none where the loop goes on.
applies : Rule → Request → Option (Option ℕ)
applies r q = if axes_match r q then bind_row r.pairs q else none

applies-Covers :
    (r : Rule) (q : Request) (pair : Option ℕ) → (applies r q ≡ some pair) ↔ Covers r q pair
unfolding applies axes_match
applies-Covers r q pair = (
  λ h. record {
    agent_id = (matches_iff r.agent_id q.agent_id).0 (ground arith);
    cred_ref = (matches_iff r.cred_ref q.cred_ref).0 (ground arith);
    target_uri = (matches_iff r.target_uri q.target_uri).0 (ground arith);
    mechanism = (matches_iff r.mechanism q.mechanism).0 (ground arith);
    bound = (bind_row-Binds r.pairs q pair).0 (ground arith);
  },
  λ c. ground (
    arith,
    (matches_iff r.agent_id q.agent_id).1 c.agent_id,
    (matches_iff r.cred_ref q.cred_ref).1 c.cred_ref,
    (matches_iff r.target_uri q.target_uri).1 c.target_uri,
    (matches_iff r.mechanism q.mechanism).1 c.mechanism,
    (bind_row-Binds r.pairs q pair).1 c.bound,
  ),
)

scan_hit :
    (k : ℕ) (r : Rule) (rest : List Rule) (q : Request) (pair : Option ℕ)
    → Covers r q pair
    → scan k (r ∷ rest) q ≡ decide_by k r pair (declared_limits q)
unfolding scan applies
scan_hit k r rest q pair c = ground (arith, (applies-Covers r q pair).1 c)

scan_miss :
    (k : ℕ) (r : Rule) (rest : List Rule) (q : Request)
    → applies r q ≡ none
    → scan k (r ∷ rest) q ≡ scan (suc k) rest q
unfolding scan applies
scan_miss k r rest q e = ground arith

uncovered_rule :
    (r : Rule) (q : Request) → applies r q ≡ none → (other : Option ℕ) → ¬ Covers r q other
uncovered_rule r q e other c = cc (e, (applies-Covers r q other).1 c)

abbrev Verdict : ℕ → List Rule → Request → Type 0
Verdict k rules q =
    (Uncovered rules q × (scan k rules q ≡ floor (declared_limits q)))
    ⊎ ((i : ℕ) × (r : Rule) × (pair : Option ℕ) × FirstRule rules q i r pair
        × (scan k rules q ≡ decide_by (k + i) r pair (declared_limits q)))

scan_later :
    (k : ℕ) (x : Rule) (xs : List Rule) (q : Request)
    → applies x q ≡ none
    → Verdict (suc k) xs q
    → Verdict k (x ∷ xs) q
scan_later k x xs q e (inl (u, s)) = inl ((uncovered_rule x q e, u), scan_miss k x xs q e ∙ s)
scan_later k x xs q e (inr (i, r, pair, f, s)) =
    let shift : suc k + i ≡ k + suc i = omega arith in
    inr (suc i, r, pair, (uncovered_rule x q e, f), scan_miss k x xs q e ∙ rw shift at s)

scan_cases : (k : ℕ) (rules : List Rule) (q : Request) → Verdict k rules q
scan_cases k [] q = inl (tt, unfold scan in refl)
scan_cases k (x ∷ xs) q = elim (Option-cases (applies x q)) [
  | inr (pair, e) ↦
      let c = (applies-Covers x q pair).0 e in
      let here : k ≡ k + 0 = omega arith in
      inr (0, x, pair, (refl, c), rw (← here) (scan_hit k x xs q pair c))
  | inl e ↦ scan_later k x xs q e (scan_cases (suc k) xs q)
]

uncovered_skips :
    (x : Rule) (q : Request) → ((other : Option ℕ) → ¬ Covers x q other) → applies x q ≡ none
uncovered_skips x q n = elim (Option-cases (applies x q)) [
  | inl e ↦ e
  | inr (pair, e) ↦ absurd (n pair ((applies-Covers x q pair).0 e))
]

scan_first :
    (k : ℕ) (rules : List Rule) (q : Request) (i : ℕ) (r : Rule) (pair : Option ℕ)
    → FirstRule rules q i r pair
    → scan k rules q ≡ decide_by (k + i) r pair (declared_limits q)
scan_first k [] q i r pair f = absurd f
scan_first k (x ∷ xs) q zero r pair (e, c) =
    let here : k ≡ k + 0 = omega arith in
    rw (← here) (
      scan_hit k x xs q pair (subst (λ y. Covers y q pair) (sym e) c)
      ∙ ap (λ y. decide_by k y pair (declared_limits q)) e)
scan_first k (x ∷ xs) q (suc i) r pair (n, f) =
    let shift : suc k + i ≡ k + suc i = omega arith in
    scan_miss k x xs q (uncovered_skips x q n) ∙ rw shift at (scan_first (suc k) xs q i r pair f)

-- The verdict of the first rule that covers the request.
pub evaluate_first :
    (p : Policy) (q : Request) (i : ℕ) (r : Rule) (pair : Option ℕ)
    → FirstRule p.rules q i r pair
    → evaluate p q ≡ decide_by i r pair (declared_limits q)
unfolding evaluate
evaluate_first p q i r pair f =
    let start : 0 + i ≡ i = omega arith in rw start at (scan_first 0 p.rules q i r pair f)

-- Every request gets one of two verdicts. If no rule covers it, the floor: deny, no notification,
-- source `default_deny`, and the declared ceilings. Otherwise the verdict of the first rule that
-- covers it: that rule's effect and notification flag, its index, name and first binding row as the
-- source, and the minimum of its ceilings and the declared ones.
pub evaluate_cases :
    (p : Policy) (q : Request)
    → (Uncovered p.rules q
        × (evaluate p q ≡ record {
          effect = deny;
          notify_on_use = false;
          source = default_deny;
          limits = declared_limits q;
        }))
      ⊎ ((i : ℕ) × (r : Rule) × (pair : Option ℕ) × FirstRule p.rules q i r pair
          × (evaluate p q ≡ record {
            effect = r.effect;
            notify_on_use = r.notify_on_use;
            source = rule i r.name pair;
            limits = min_with r.limits (declared_limits q);
          }))
unfolding evaluate decide_by floor
evaluate_cases p q = elim (scan_cases 0 p.rules q) [
  | inl v ↦ inl v
  | inr (i, r, pair, f, s) ↦
      let start : 0 + i ≡ i = omega arith in inr (i, r, pair, f, rw start at s)
]
