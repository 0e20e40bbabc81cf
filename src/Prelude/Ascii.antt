-- ===== src/Prelude/Ascii.antt =====
-- ASCII case and the cuts of a text at `:` and at the ends of lines, of the standard library.
use Prim.Native.Nat.{ℕ, zero, suc, ◌+◌}
use mathlib.Core.Path.{◌≡◌, refl, ap, ◌∙◌}
use mathlib.Core.Logic.{◌≢◌}
use mathlib.Core.Bool.{Bool, true, false, ◌&&◌}
use mathlib.Core.Option
use mathlib.Core.Option.{Option, none, some}
use mathlib.Core.List.{List, [], ◌∷◌, ◌++◌, reverse, reverse-append, reverse-reverse}
use native.Mathlib.Omega.{arith}
use chaperone.Prelude.Tests.{◌==◌, if◌then◌else◌, leb}
use chaperone.Prelude.Lists.{All, All-reverse, length, length-append}
use chaperone.Prelude.Text.{Bytes, strip_prefix, cons_head}

-- `u8::to_ascii_lowercase`
unfoldable pub lower : ℕ → ℕ
lower b = if leb 65 b && leb b 90 then b + 32 else b

unfoldable pub to_ascii_lowercase : Bytes → Bytes
unfolding lower
to_ascii_lowercase [] = []
to_ascii_lowercase (b ∷ s) = lower b ∷ to_ascii_lowercase s

unfoldable pub eq_ignore_ascii_case : Bytes → Bytes → Bool
unfolding lower
eq_ignore_ascii_case [] [] = true
eq_ignore_ascii_case [] (b ∷ bs) = false
eq_ignore_ascii_case (a ∷ as') [] = false
eq_ignore_ascii_case (a ∷ as') (b ∷ bs) = lower a == lower b && eq_ignore_ascii_case as' bs

-- `str::split_once` at one character.
unfoldable pub split_once : ℕ → Bytes → Option (Bytes × Bytes)
split_once d [] = none
split_once d (c ∷ t) =
    if c == d then some ([], t) else Option.map (λ (a, b). (c ∷ a, b)) (split_once d t)

-- `str::split("\r\n")`
unfoldable pub split_crlf : Bytes → List Bytes
unfolding cons_head
split_crlf [] = [] ∷ []
split_crlf (a ∷ []) = (a ∷ []) ∷ []
split_crlf (a ∷ b ∷ t) =
    if a == 13 && b == 10 then [] ∷ split_crlf t else cons_head a (split_crlf (b ∷ t))

-- Each round cuts the prefix once more; a text has fewer copies of a nonempty one than bytes.
cut_prefixes : ℕ → Bytes → Bytes → Bytes
cut_prefixes zero p t = t
cut_prefixes (suc k) p t = elim (strip_prefix p t) [ none ↦ t | some s ↦ cut_prefixes k p s ]

-- `str::trim_end_matches`
unfoldable pub trim_end_matches : Bytes → Bytes → Bytes
unfolding cut_prefixes
trim_end_matches p t = reverse (cut_prefixes (length t) (reverse p) (reverse t))

abbrev pub Lacks : ℕ → Bytes → Type 0
Lacks d t = All (λ c. c ≢ d) t

pub split_crlf-line : (a : ℕ) (t : Bytes) → Lacks 13 (a ∷ t) → split_crlf (a ∷ t) ≡ (a ∷ t) ∷ []
unfolding split_crlf
split_crlf-line a [] h = refl
split_crlf-line a (b ∷ t) (ha, h) = ground (arith, split_crlf-line b t h)

none_left : (r : Bytes) → Lacks 13 r → strip_prefix (10 ∷ 13 ∷ 10 ∷ 13 ∷ []) r ≡ none
unfolding strip_prefix
none_left [] h = refl
none_left (x ∷ []) h = ground arith
none_left (x ∷ y ∷ r) (hx, (hy, h)) = ground arith

cut_one :
    (k : ℕ) (r : Bytes)
    → Lacks 13 r
    → cut_prefixes (suc k) (10 ∷ 13 ∷ 10 ∷ 13 ∷ []) (10 ∷ 13 ∷ 10 ∷ 13 ∷ r) ≡ r
unfolding cut_prefixes strip_prefix
cut_one zero r h = refl
cut_one (suc k) r h = rw (none_left r h, cut_prefixes) refl

-- A blank line is cut once from behind a text with no carriage return.
pub trim_end_matches-blank :
    (t : Bytes)
    → Lacks 13 t
    → trim_end_matches (13 ∷ 10 ∷ 13 ∷ 10 ∷ []) (t ++ (13 ∷ 10 ∷ 13 ∷ 10 ∷ [])) ≡ t
unfolding trim_end_matches
trim_end_matches-blank t h =
    let blank : Bytes = 13 ∷ 10 ∷ 13 ∷ 10 ∷ [] in
    let size : length (t ++ blank) ≡ suc (length t + 3) = omega (arith, length-append t blank) in
    rw (size, reverse-append t blank)
      (ap reverse (cut_one (length t + 3) (reverse t) (All-reverse (λ c. c ≢ 13) t h))
        ∙ reverse-reverse t)
