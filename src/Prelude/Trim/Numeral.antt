-- ===== src/Prelude/Trim/Numeral.antt =====
-- `str::trim` of a number behind a space.
use chaperone.Prelude.{
  ℕ, zero, suc, ◌<◌, ◌≡◌, refl, ap, ◌∙◌, [], ◌∷◌, arith, Bytes, length, if◌then◌else◌,
}
use chaperone.Prelude.Lists.{All, All-reverse}
use chaperone.Prelude.Trim.{is_space, space_at_front, space_at_end, cut_while, trim}
use chaperone.Prelude.Decimal.{IsDigit, IsNumeral}
use mathlib.Core.List.{reverse, reverse-reverse}

front_ascii : (a : ℕ) (t : Bytes) → a < 128 → space_at_front (a ∷ t) ≡ (if is_space a then 1 else 0)
unfolding space_at_front
front_ascii a [] h = refl
front_ascii a (b ∷ []) h = ground arith
front_ascii a (b ∷ c ∷ t) h = ground arith

digit_at_front : (a : ℕ) (t : Bytes) → IsDigit a → space_at_front (a ∷ t) ≡ 0
digit_at_front a t h = ground (arith, front_ascii a t)

digits_at_end : (t : Bytes) → All IsDigit t → space_at_end t ≡ 0
unfolding space_at_end
digits_at_end [] h = refl
digits_at_end (a ∷ []) h = ground arith
digits_at_end (a ∷ b ∷ []) h = ground arith
digits_at_end (a ∷ b ∷ c ∷ t) h = ground arith

cut_none : (k : ℕ) (space : Bytes → ℕ) (t : Bytes) → space t ≡ 0 → cut_while k space t ≡ t
unfolding cut_while
cut_none zero space t h = refl
cut_none (suc k) space t h = rw (h, cut_while) refl

cut_space :
    (a : ℕ) (t : Bytes)
    → IsDigit a
    → cut_while (suc (length (a ∷ t))) space_at_front (32 ∷ a ∷ t) ≡ a ∷ t
unfolding cut_while
cut_space a t h =
    rw (front_ascii 32 (a ∷ t) (omega arith), cut_while)
      (cut_none (length (a ∷ t)) space_at_front (a ∷ t) (digit_at_front a t h))

pub trim-numeral : (d : Bytes) → IsNumeral d → trim (32 ∷ d) ≡ d
unfolding trim
trim-numeral [] h = absurd (omega (arith, h.0))
trim-numeral (a ∷ t) (_, (ha, ht)) = rw (cut_space a t ha) (
    ap reverse (
      cut_none (length (a ∷ t)) space_at_end (reverse (a ∷ t))
        (digits_at_end (reverse (a ∷ t)) (All-reverse IsDigit (a ∷ t) (ha, ht))))
    ∙ reverse-reverse (a ∷ t))
