-- ===== src/Prelude/Trim.antt =====
-- `str::trim`: characters with the Unicode property White_Space are cut from both ends. The tables
-- give such a character's length in bytes, 0 for none, at the front of a text and, with the bytes
-- in reverse, at its end.
pub mod Numeral
use chaperone.Prelude.{
  ℕ, zero, suc, Bool, ◌&&◌, ◌||◌, [], ◌∷◌, Bytes, length, drop, leb, ◌==◌, if◌then◌else◌,
}
use mathlib.Core.List.{reverse}

-- U+0009 to U+000D and U+0020.
abbrev pub is_space : ℕ → Bool
is_space b = leb 9 b && leb b 13 || b == 32

-- U+0085 and U+00A0, after the lead byte 0xC2.
abbrev space_2 : ℕ → ℕ → Bool
space_2 a b = a == 0xC2 && (b == 0x85 || b == 0xA0)

-- U+1680, U+2000 to U+200A, U+2028, U+2029, U+202F, U+205F and U+3000.
abbrev space_3 : ℕ → ℕ → ℕ → Bool
space_3 a b c =
    a == 0xE1 && (b == 0x9A && c == 0x80)
    || (a == 0xE2
          && (b == 0x80 && (leb 0x80 c && leb c 0x8A || (c == 0xA8 || (c == 0xA9 || c == 0xAF)))
              || b == 0x81 && c == 0x9F)
        || a == 0xE3 && (b == 0x80 && c == 0x80))

space_at_front : Bytes → ℕ
space_at_front [] = 0
space_at_front (a ∷ []) = if is_space a then 1 else 0
space_at_front (a ∷ b ∷ []) = if is_space a then 1 else if space_2 a b then 2 else 0
space_at_front (a ∷ b ∷ c ∷ t) =
    if is_space a then 1 else if space_2 a b then 2 else if space_3 a b c then 3 else 0

space_at_end : Bytes → ℕ
space_at_end [] = 0
space_at_end (a ∷ []) = if is_space a then 1 else 0
space_at_end (a ∷ b ∷ []) = if is_space a then 1 else if space_2 b a then 2 else 0
space_at_end (a ∷ b ∷ c ∷ t) =
    if is_space a then 1 else if space_2 b a then 2 else if space_3 c b a then 3 else 0

-- A text of n bytes holds at most n such characters, so its length is fuel enough.
cut_while : ℕ → (Bytes → ℕ) → Bytes → Bytes
cut_while zero space t = t
cut_while (suc n) space t = elim (space t) [ zero ↦ t | suc k ↦ cut_while n space (drop (suc k) t) ]

abbrev trim_start : Bytes → Bytes
trim_start t = cut_while (length t) space_at_front t

abbrev trim_end : Bytes → Bytes
trim_end t = reverse (cut_while (length t) space_at_end (reverse t))

unfoldable pub trim : Bytes → Bytes
unfolding cut_while space_at_front space_at_end
trim t = trim_end (trim_start t)
