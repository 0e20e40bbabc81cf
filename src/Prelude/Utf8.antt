-- ===== src/Prelude/Utf8.antt =====
-- `str::from_utf8` of the standard library: the well-formed byte sequences of the Unicode Standard.
use Prim.Native.Nat.{ℕ, zero, suc, ◌<◌}
use mathlib.Core.Path.{◌≡◌, refl}
use mathlib.Core.Bool.{Bool, true, false, ◌&&◌}
use mathlib.Core.List.{[], ◌∷◌}
use native.Mathlib.Omega.{arith}
use chaperone.Prelude.Tests.{◌==◌, if◌then◌else◌, leb, ltb}
use chaperone.Prelude.Lists.{All}
use chaperone.Prelude.Text.{Bytes}

-- For a lead byte above 127: how many bytes follow it, and the range of the first of these.
lead : ℕ → ℕ × (ℕ × ℕ)
lead b =
    if ltb b 0xC2
    then (0, (0, 0))
    else if ltb b 0xE0
    then (1, (0x80, 0xBF))
    else if b == 0xE0
    then (2, (0xA0, 0xBF))
    else if b == 0xED
    then (2, (0x80, 0x9F))
    else if ltb b 0xF0
    then (2, (0x80, 0xBF))
    else if b == 0xF0
    then (3, (0x90, 0xBF))
    else if ltb b 0xF4
    then (3, (0x80, 0xBF))
    else if b == 0xF4
    then (3, (0x80, 0x8F))
    else (0, (0, 0))

-- `need` more bytes belong to the character begun, the next of them from `lo` to `hi`.
well_formed : ℕ → ℕ → ℕ → Bytes → Bool
unfolding lead
well_formed zero lo hi [] = true
well_formed (suc need) lo hi [] = false
well_formed zero lo hi (b ∷ s) =
    let (need, (lo', hi')) = lead b in
    let rest = well_formed need lo' hi' s in
    let ascii_rest = well_formed 0 0 0 s in
    if ltb b 0x80 then ascii_rest else (if need == 0 then false else rest)
well_formed (suc need) lo hi (b ∷ s) =
    let rest = well_formed need 0x80 0xBF s in if leb lo b && leb b hi then rest else false

unfoldable pub is_utf8 : Bytes → Bool
unfolding well_formed
is_utf8 s = well_formed 0 0 0 s

pub ascii-is_utf8 : (s : Bytes) → All (λ b. b < 128) s → is_utf8 s ≡ true
unfolding is_utf8
ascii-is_utf8 [] h = refl
ascii-is_utf8 (b ∷ s) (hb, h) = ground (arith, ascii-is_utf8 s h)
