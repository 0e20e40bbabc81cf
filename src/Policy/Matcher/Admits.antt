-- ===== src/Policy/Matcher/Admits.antt =====
-- Which texts a matcher admits, apart from how crates/policy/src/matcher.rs tests them.
use chaperone.Prelude.{◌≡◌, refl, ◌↔◌, true, Bytes, ◌++◌, str_eq_iff}
use chaperone.Prelude.Search.{starts_with_iff}
use chaperone.Policy.Matcher.{Matcher, any, exact, prefix, glob, matches}
use chaperone.Policy.Matcher.Glob.{Matches}
use chaperone.Policy.Matcher.Greedy.{glob_match_iff}

abbrev pub Admits : Matcher → Bytes → Type 0
Admits any t = Unit
Admits (exact v) t = v ≡ t
Admits (prefix p) t = (rest : Bytes) × (t ≡ p ++ rest)
Admits (glob g) t = Matches g t

-- The test of a matcher passes exactly on the texts that it admits.
pub matches_iff : (m : Matcher) (t : Bytes) → (matches m t ≡ true) ↔ Admits m t
unfolding matches
matches_iff any t = (λ _. tt, λ _. refl)
matches_iff (exact v) t = str_eq_iff v t
matches_iff (prefix p) t = starts_with_iff p t
matches_iff (glob g) t = glob_match_iff g t
