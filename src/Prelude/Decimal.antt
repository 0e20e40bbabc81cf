-- ===== src/Prelude/Decimal.antt =====
-- `u64::to_string` and `str::parse::<u64>` of the standard library.
use Prim.Native.Nat.{ℕ, zero, suc, ◌+◌, ◌-◌, ◌*◌, ◌/◌, ◌%◌, ◌^◌, ◌≤◌, ◌<◌}
use mathlib.Core.Path.{◌≡◌, ◌∙◌}
use mathlib.Core.Bool.{◌&&◌}
use mathlib.Core.Option.{Option, none, some}
use mathlib.Core.List.{[], ◌∷◌}
use native.Mathlib.Omega.{arith}
use chaperone.Prelude.Tests.{ltb, leb, ◌==◌, if◌then◌else◌}
use chaperone.Prelude.Lists.{All, length}
use chaperone.Prelude.Text.{Bytes}

-- The digits of n before those of `out`, one each round; `digits` gives rounds enough.
emit : ℕ → ℕ → Bytes → Bytes
emit zero n out = out
emit (suc k) n out =
    let higher = emit k (n / 10) ((b'0' + n % 10) ∷ out) in
    if ltb n 10 then (b'0' + n) ∷ out else higher

unfoldable pub digits : ℕ → Bytes
unfolding emit
digits n = emit (suc n) n []

-- `checked_mul` and `checked_add` refuse a number that 64 bits do not hold.
scan : Bytes → ℕ → Option ℕ
scan [] n = some n
scan (c ∷ s) n =
    let m = n * 10 + (c - b'0') in
    if leb b'0' c && leb c b'9' then (if ltb m (2 ^ 64) then scan s m else none) else none

-- A `+` is taken before the digits, and the empty text is refused.
unfoldable pub parse_u64 : Bytes → Option ℕ
unfolding scan
parse_u64 [] = none
parse_u64 (c ∷ []) = if c == b'+' then none else scan (c ∷ []) 0
parse_u64 (c ∷ d ∷ s) = if c == b'+' then scan (d ∷ s) 0 else scan (c ∷ d ∷ s) 0

abbrev pub IsDigit : ℕ → Type 0
IsDigit c = (b'0' ≤ c) × (c ≤ b'9')

-- A nonempty run of digits.
abbrev pub IsNumeral : Bytes → Type 0
IsNumeral s = (0 < length s) × All IsDigit s

emit-IsNumeral : (k n : ℕ) (out : Bytes) → n < k → All IsDigit out → IsNumeral (emit k n out)
unfolding emit
emit-IsNumeral zero n out h ds = absurd (omega arith)
emit-IsNumeral (suc k) n out h ds =
    ground (arith, emit-IsNumeral k (n / 10) ((b'0' + n % 10) ∷ out))

scan-emit : (k n : ℕ) (out : Bytes) → n < k → n < 2 ^ 64 → scan (emit k n out) 0 ≡ scan out n
unfolding emit scan
scan-emit zero n out h fits = absurd (omega arith)
scan-emit (suc k) n out h fits = ground (arith, scan-emit k (n / 10) ((b'0' + n % 10) ∷ out))

parse_u64-scan : (s : Bytes) → IsNumeral s → parse_u64 s ≡ scan s 0
unfolding parse_u64
parse_u64-scan [] h = absurd (omega (arith, h.0))
parse_u64-scan (c ∷ []) h = ground arith
parse_u64-scan (c ∷ d ∷ s) h = ground arith

pub digits-IsNumeral : (n : ℕ) → IsNumeral (digits n)
unfolding digits
digits-IsNumeral n = emit-IsNumeral (suc n) n [] (omega arith) tt

pub parse_u64-digits : (n : ℕ) → n < 2 ^ 64 → parse_u64 (digits n) ≡ some n
unfolding digits scan
parse_u64-digits n h =
    parse_u64-scan (digits n) (digits-IsNumeral n) ∙ scan-emit (suc n) n [] (omega arith) h

length-emit :
    (j k n : ℕ) (out : Bytes) → n < k → n < 10 ^ suc j → length (emit k n out) ≤ suc j + length out
unfolding emit
length-emit j zero n out h few = absurd (omega arith)
length-emit zero (suc k) n out h few = ground arith
length-emit (suc j) (suc k) n out h few =
    ground (arith, length-emit j k (n / 10) ((b'0' + n % 10) ∷ out))

-- 64 bits need at most twenty digits.
pub length-digits : (n : ℕ) → n < 2 ^ 64 → length (digits n) ≤ 20
unfolding digits
length-digits n h = omega (arith, length-emit 19 (suc n) n [] (omega arith) (omega arith))
