-- ===== src/Prelude/Map.antt =====
-- `HashMap` as an association list without repeated keys; the program relies on no iteration order.
use chaperone.Prelude.{
  ◌≡◌, refl, ◌↔◌, Bool, true, ◌&&◌, Option, none, some, List, [], ◌∷◌, arith, Bytes, str_eq,
  str_eq_iff, if◌then◌else◌,
}

pub record Eq {ℓ} (K : Type ℓ) : Type ℓ where
  pub beq : K → K → Bool
  pub beq_iff : (a b : K) → (beq a b ≡ true) ↔ (a ≡ b)

instance abbrev pub text_eq : Eq Bytes
text_eq = record { beq = str_eq; beq_iff = str_eq_iff }

abbrev pub both_eq : Bytes × Bytes → Bytes × Bytes → Bool
both_eq (a, b) (c, d) = str_eq a c && str_eq b d

pub both_eq_iff : (a b : Bytes × Bytes) → (both_eq a b ≡ true) ↔ (a ≡ b)
both_eq_iff (a, b) (c, d) = (
  λ h. ground (arith, str_eq_iff a c, str_eq_iff b d),
  λ h. ground (arith, str_eq_iff a c, str_eq_iff b d),
)

instance abbrev pub pair_eq : Eq (Bytes × Bytes)
pair_eq = record { beq = both_eq; beq_iff = both_eq_iff }

abbrev pub Map {ℓ} : Type 0 → Type ℓ → Type ℓ
Map K V = List (K × V)

module _ {ℓ} {K : Type 0} {V : Type ℓ} ⦃e : Eq K⦄ where
  unfoldable pub lookup : K → List (K × V) → Option V
  lookup k [] = none
  lookup k ((j, v) ∷ m) = if e.beq j k then some v else lookup k m

  unfoldable pub remove : K → List (K × V) → List (K × V)
  remove k [] = []
  remove k ((j, v) ∷ m) = let rest = remove k m in if e.beq j k then rest else (j, v) ∷ rest

  unfoldable pub insert : K → V → List (K × V) → List (K × V)
  unfolding remove
  insert k v m = (k, v) ∷ remove k m

  pub lookup-remove :
      (k j : K) (m : List (K × V))
      → lookup j (remove k m) ≡ (if e.beq k j then none else lookup j m)
  unfolding lookup remove
  lookup-remove k j [] = ground arith
  lookup-remove k j ((i, v) ∷ m) =
      ground (arith, lookup-remove k j m, e.beq_iff i k, e.beq_iff i j, e.beq_iff k j)

  pub lookup-insert :
      (k j : K) (v : V) (m : List (K × V))
      → lookup j (insert k v m) ≡ (if e.beq k j then some v else lookup j m)
  unfolding lookup insert
  lookup-insert k j v m = ground (arith, lookup-remove k j m)

pub beq_refl : {K : Type 0} ⦃e : Eq K⦄ (k : K) → e.beq k k ≡ true
beq_refl ⦃e⦄ k = (e.beq_iff k k).1 refl
