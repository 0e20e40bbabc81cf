-- ===== src/Audit/Hex.antt =====
-- `hex` and `unhex` of crates/audit/src/writer.rs.
use chaperone.Prelude.{
  ℕ, ◌+◌, ◌-◌, ◌*◌, ◌/◌, ◌%◌, ◌<◌, ◌≡◌, refl, ap, Bytes, [], ◌∷◌, All, ◌&&◌, Option, none, some,
  arith, leb, ltb, if◌then◌else◌,
}

-- `char::from_digit(d, 16)`, for a digit.
unfoldable pub from_digit : ℕ → ℕ
from_digit d = if ltb d 10 then 48 + d else 87 + d

unfoldable pub hex : Bytes → Bytes
hex [] = []
hex (b ∷ t) = from_digit (b / 16) ∷ from_digit (b % 16) ∷ hex t

-- `char::to_digit(16)`, which takes capitals too.
pub to_digit : ℕ → Option ℕ
to_digit c =
    if leb 48 c && leb c 57
    then some (c - 48)
    else if leb 97 c && leb c 102
    then some (c - 87)
    else if leb 65 c && leb c 70
    then some (c - 55)
    else none

pub join_digits : Option ℕ → Option ℕ → Option Bytes → Option Bytes
join_digits (some hi) (some lo) (some rest) = some ((hi * 16 + lo) ∷ rest)
join_digits _ _ _ = none

pub unhex : Bytes → Option Bytes
unhex [] = some []
unhex (c ∷ []) = none
unhex (c ∷ d ∷ t) = let rest = unhex t in join_digits (to_digit c) (to_digit d) rest

to_digit-from_digit : (d : ℕ) → d < 16 → to_digit (from_digit d) ≡ some d
unfolding to_digit from_digit
to_digit-from_digit d h = ground arith

-- What `hex` writes of bytes, `unhex` reads back.
pub unhex-hex : (t : Bytes) → All (λ b. b < 256) t → unhex (hex t) ≡ some t
unfolding unhex hex join_digits
unhex-hex [] h = refl
unhex-hex (b ∷ t) h =
    let high : b / 16 < 16 = omega (arith, h.0) in
    let low : b % 16 < 16 = omega arith in
    let whole : (b / 16) * 16 + b % 16 ≡ b = omega arith in
    rw (to_digit-from_digit (b / 16) high, to_digit-from_digit (b % 16) low, unhex-hex t h.1)
      (ap (λ c. some (c ∷ t)) whole)
