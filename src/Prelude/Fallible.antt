-- ===== src/Prelude/Fallible.antt =====
-- `Result` of the source, over the error type of the crate at hand, with the `?` operator as a `do` block.
use mathlib.Core.Path.{◌≡◌, refl}
use mathlib.Core.Bool.{Bool, true, false}
use mathlib.Core.Logic.{◌⊎◌, inl, inr}

pub data Fallible {ℓ} (E : Type 0) (V : Type ℓ) : Type ℓ where
  err : E → Fallible E V
  ok : V → Fallible E V

infixl 5 ◌>>=◌ ◌>>◌
abbrev pub ◌>>=◌ {ℓ κ} :
    {E : Type 0} {V : Type ℓ} {W : Type κ} → Fallible E V → (V → Fallible E W) → Fallible E W
err why >>= then_do = err why
ok value >>= then_do = then_do value

abbrev pub ◌>>◌ {ℓ} :
    {E : Type 0} {W : Type ℓ} → Fallible E (Unit {0}) → Fallible E W → Fallible E W
first >> later = first >>= (λ done. later)

-- An early return of the error unless the test passes.
abbrev pub ensure : {E : Type 0} → E → Bool → Fallible E (Unit {0})
ensure why false = err why
ensure why true = ok tt

pub Fallible-cases {ℓ} :
    {E : Type 0} {V : Type ℓ} (x : Fallible E V) → ((v : V) × (x ≡ ok v)) ⊎ ((e : E) × (x ≡ err e))
Fallible-cases (err why) = inr (why, refl)
Fallible-cases (ok value) = inl (value, refl)

-- A chain that succeeds has a first step that succeeds, and goes on from its value.
pub chain_succeeds {ℓ κ} :
    {E : Type 0} {V : Type ℓ} {W : Type κ} {w : W} (first : Fallible E V) (rest : V → Fallible E W)
    → (first >>= rest) ≡ ok w
    → (v : V) × (first ≡ ok v) × (rest v ≡ ok w)
chain_succeeds (err why) rest made = absurd (cc made)
chain_succeeds (ok value) rest made = (value, refl, made)

pub same_value {ℓ} :
    {E : Type 0} {V : Type ℓ} {v w : V} → ◌≡◌ {A = Fallible E V} (ok v) (ok w) → v ≡ w
same_value equal = cc
