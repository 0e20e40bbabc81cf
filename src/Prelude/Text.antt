-- ===== src/Prelude/Text.antt =====
-- A `str` as its UTF-8 bytes, with the operations of the standard library that the program calls.
-- On valid UTF-8 a search for one text in another finds the same place by bytes as by characters.
use Prim.Native.Nat.{ℕ, suc, ◌-◌}
use Prim.Native.Char.{code}
use Prim.Native.String.{String}
use mathlib.Core.Path.{◌≡◌, refl}
use mathlib.Core.Logic.{◌↔◌}
use mathlib.Core.Bool.{Bool, true, false, ◌&&◌, ◌||◌}
use mathlib.Core.Option
use mathlib.Core.Option.{Option, none, some}
use mathlib.Core.List.{List, [], ◌∷◌, ◌++◌}
use native.Mathlib.Omega.{arith}
use chaperone.Prelude.Tests.{◌==◌, if◌then◌else◌, leb}
use chaperone.Prelude.Lists.{length, drop}

abbrev pub Bytes : Type 0
Bytes = List ℕ

-- The bytes of an ASCII literal.
abbrev pub ascii : String → Bytes
ascii String.[] = []
ascii (String.◌∷◌ c s) = code c ∷ ascii s

-- `==` on `str`.
unfoldable pub str_eq : Bytes → Bytes → Bool
str_eq [] [] = true
str_eq [] (b ∷ bs) = false
str_eq (a ∷ as') [] = false
str_eq (a ∷ as') (b ∷ bs) = a == b && str_eq as' bs

pub str_eq_iff : (a b : Bytes) → (str_eq a b ≡ true) ↔ (a ≡ b)
unfolding str_eq
str_eq_iff [] [] = (λ _. refl, λ _. refl)
str_eq_iff [] (b ∷ bs) = (λ h. cc, λ h. cc)
str_eq_iff (a ∷ s) [] = (λ h. cc, λ h. cc)
str_eq_iff (a ∷ s) (b ∷ bs) =
    (λ h. ground (arith, str_eq_iff s bs), λ h. ground (arith, str_eq_iff s bs))

pub str_eq_refl : (a : Bytes) → str_eq a a ≡ true
str_eq_refl a = (str_eq_iff a a).1 refl

-- `str::strip_prefix`.
unfoldable pub strip_prefix : Bytes → Bytes → Option Bytes
strip_prefix [] t = some t
strip_prefix (a ∷ p) [] = none
strip_prefix (a ∷ p) (b ∷ t) = if a == b then strip_prefix p t else none

pub strip_prefix_iff : (p t s : Bytes) → (strip_prefix p t ≡ some s) ↔ (t ≡ p ++ s)
unfolding strip_prefix
strip_prefix_iff [] t s = (λ h. cc, λ h. cc)
strip_prefix_iff (a ∷ p) [] s = (λ h. cc, λ h. cc)
strip_prefix_iff (a ∷ p) (b ∷ t) s =
    (λ h. ground (arith, strip_prefix_iff p t s), λ h. ground (arith, strip_prefix_iff p t s))

-- `str::starts_with`.
unfoldable pub starts_with : Bytes → Bytes → Bool
unfolding strip_prefix
starts_with p t = elim (strip_prefix p t) [ none ↦ false | some _ ↦ true ]

-- `str::ends_with`.
unfoldable pub ends_with : Bytes → Bytes → Bool
unfolding str_eq
ends_with s t = leb (length s) (length t) && str_eq (drop (length t - length s) t) s

-- `str::find`: the leftmost place.
unfoldable pub find : Bytes → Bytes → Option ℕ
find n [] = if starts_with n [] then some 0 else none
find n (c ∷ t) = if starts_with n (c ∷ t) then some 0 else Option.map suc (find n t)

-- `str::contains` of one character.
unfoldable pub contains : ℕ → Bytes → Bool
contains c [] = false
contains c (b ∷ t) = b == c || contains c t

-- `str::split` at one character.
unfoldable pub cons_head : ℕ → List Bytes → List Bytes
cons_head c [] = (c ∷ []) ∷ []
cons_head c (h ∷ r) = (c ∷ h) ∷ r

unfoldable pub split : ℕ → Bytes → List Bytes
unfolding cons_head
split d [] = [] ∷ []
split d (c ∷ t) = if c == d then [] ∷ split d t else cons_head c (split d t)
