-- ===== src/Policy/Matcher/Glob.antt =====
-- What a glob means, `glob_match` of crates/policy/src/matcher.rs aside: `*` stands for any run of
-- bytes and every other byte for itself. `FitsParts` says the same of the parts between the stars.
use chaperone.Prelude.{
  ℕ, ◌≡◌, ◌≢◌, refl, sym, ap, subst, ◌∙◌, inl, inr, List, [], ◌∷◌, ◌++◌, arith, Bytes, split,
  Bool-cases, ◌==◌, ==_iff, cons_head,
}
use chaperone.Policy.Matcher.{star}

-- The pattern's meaning, byte by byte.
pub data Matches : Bytes → Bytes → Type 0 where
  done : Matches [] []
  literal : {c : ℕ} {p t : Bytes} → c ≢ star → Matches p t → Matches (c ∷ p) (c ∷ t)
  wildcard :
      {c : ℕ} {p t : Bytes} (run rest : Bytes)
      → c ≡ star
      → t ≡ run ++ rest
      → Matches p rest
      → Matches (c ∷ p) t

-- The text behind the first part: any run, then the next part, and so on to the end.
abbrev pub FitsAfter : List Bytes → Bytes → Type 0
FitsAfter [] u = u ≡ []
FitsAfter (m ∷ r) u = (pre : Bytes) × (suf : Bytes) × (u ≡ pre ++ (m ++ suf)) × FitsAfter r suf

abbrev pub FitsParts : List Bytes → Bytes → Type 0
FitsParts [] t = ⊥
FitsParts (h ∷ r) t = (u : Bytes) × (t ≡ h ++ u) × FitsAfter r u

parts-star :
    (l : List Bytes) (run rest t : Bytes)
    → t ≡ run ++ rest
    → FitsParts l rest
    → FitsParts ([] ∷ l) t
parts-star [] run rest t e f = elim f [ ]
parts-star (m ∷ r) run rest t e (u, q, f) = (t, refl, (run, u, e ∙ ap (◌++◌ run) q, f))

cons-parts :
    (c : ℕ) (l : List Bytes) (t : Bytes) → FitsParts l t → FitsParts (cons_head c l) (c ∷ t)
unfolding cons_head
cons-parts c [] t f = elim f [ ]
cons-parts c (h ∷ r) t (u, e, f) = (u, ap (◌∷◌ c) e, f)

parts-cons :
    (c : ℕ) (l : List Bytes) (t : Bytes)
    → l ≢ []
    → FitsParts (cons_head c l) t
    → (s : Bytes) × (t ≡ c ∷ s) × FitsParts l s
unfolding cons_head
parts-cons c [] t n f = absurd (n refl)
parts-cons c (h ∷ r) t n (u, e, f) = (h ++ u, e, (u, refl, f))

star-parts :
    (l : List Bytes) (t : Bytes)
    → l ≢ []
    → FitsParts ([] ∷ l) t
    → (run : Bytes) × (rest : Bytes) × (t ≡ run ++ rest) × FitsParts l rest
star-parts [] t n f = absurd (n refl)
star-parts (m ∷ r) t n (u, e, (pre, suf, q, f)) = (pre, m ++ suf, e ∙ q, (suf, refl, f))

cons_head-ne : (c : ℕ) (l : List Bytes) → cons_head c l ≢ []
unfolding cons_head
cons_head-ne c [] e = cc
cons_head-ne c (h ∷ r) e = cc

pub split-ne : (d : ℕ) (p : Bytes) → split d p ≢ []
unfolding split
split-ne d [] e = cc
split-ne d (c ∷ p) e = ground (arith, cons_head-ne c (split d p))

split-star : (c : ℕ) (p : Bytes) → c ≡ star → split star (c ∷ p) ≡ [] ∷ split star p
unfolding split
split-star c p e = ground arith

split_literal : (c : ℕ) (p : Bytes) → c ≢ star → split star (c ∷ p) ≡ cons_head c (split star p)
unfolding split
split_literal c p e = ground arith

split_nil : split star [] ≡ [] ∷ []
unfolding split
split_nil = refl

pub Matches→parts : {p t : Bytes} → Matches p t → FitsParts (split star p) t
Matches→parts done = rw split_nil ([], refl, refl)
Matches→parts (literal {c = c} {p = p} {t = t} n m) =
    rw (split_literal c p n) (cons-parts c (split star p) t (Matches→parts m))
Matches→parts (wildcard {c = c} {p = p} {t = t} run rest e q m) =
    rw (split-star c p e) (parts-star (split star p) run rest t q (Matches→parts m))

pub parts→Matches : (p t : Bytes) → FitsParts (split star p) t → Matches p t
parts→Matches [] t f = let (u, e, q) = rw split_nil at f in subst (Matches []) (sym (e ∙ q)) done
parts→Matches (c ∷ p) t f = elim (Bool-cases (c == star)) [
  | inl y ↦
      let e = (==_iff c star).0 y in
      let (run, rest, q, g) =
        star-parts (split star p) t (split-ne star p) (rw (split-star c p e) at f) in
      wildcard run rest e q (parts→Matches p rest g)
  | inr n ↦
      let ne : c ≢ star = ground arith in
      let (s, q, g) =
        parts-cons c (split star p) t (split-ne star p) (rw (split_literal c p ne) at f) in
      subst (Matches (c ∷ p)) (sym q) (literal ne (parts→Matches p s g))
]
