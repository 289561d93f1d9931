-- ===== src/Config/Number.antt =====
-- `std::strtoull` in base 10, as `parse_uint` of config_parser.cpp calls it. `none` is a text with no
-- number at its front.
use ngfwtraffic_gen.Common.{
  ℕ, ◌+◌, ◌-◌, ◌*◌, ◌^◌, Bool, ◌&&◌, Option, none, some, [], ◌∷◌, Bytes, ltb, leb, ◌==◌,
  if◌then◌else◌, u64,
}
use ngfwtraffic_gen.Config.Scan.{skip_space}

abbrev pub is_digit : ℕ → Bool
is_digit c = leb b'0' c && leb c b'9'

unfoldable pub digits_value : ℕ → Bytes → ℕ
digits_value acc [] = acc
digits_value acc (c ∷ s) =
    let next = digits_value (acc * 10 + (c - b'0')) s in if is_digit c then next else acc

-- The number that the digits write, or the largest where it is too large.
unfoldable pub clamped : ℕ → ℕ
clamped n = if ltb n (2 ^ 64) then n else 2 ^ 64 - 1

-- A minus sign negates in 64 bits, where the number is in range.
unfoldable pub negated : ℕ → ℕ
negated n = if ltb n (2 ^ 64) then u64 (2 ^ 64 - n) else 2 ^ 64 - 1

magnitude : (ℕ → ℕ) → Bytes → Option ℕ
unfolding digits_value
magnitude f [] = none
magnitude f (c ∷ s) = if is_digit c then some (f (digits_value 0 (c ∷ s))) else none

unfoldable pub signed : Bytes → Option ℕ
unfolding magnitude clamped negated
signed [] = none
signed (c ∷ s) =
    if c == b'-'
    then magnitude negated s
    else if c == b'+'
    then magnitude clamped s
    else magnitude clamped (c ∷ s)

unfoldable pub strtoull : Bytes → Option ℕ
unfolding signed skip_space
strtoull s = signed (skip_space s)
