-- ===== src/Constraints/Integers.antt =====
-- spacesuit/src/signed_integer.rs: integers with an absolute value below 2 ^ 64.
use zioncoin_poc.Prelude.{
  ℕ, zero, suc, ◌+◌, ◌-◌, ◌*◌, ◌^◌, Bool, false, Option, none, some, ltb, ◌==◌, if◌then◌else◌,
}
use zioncoin_poc.Items.{ℤ, pos, negsuc}

-- `-n`
unfoldable pub from_neg : ℕ → ℤ
from_neg zero = pos 0
from_neg (suc n) = negsuc n

-- `Neg for SignedInteger`
unfoldable pub neg_int : ℤ → ℤ
neg_int (pos n) = from_neg n
neg_int (negsuc n) = pos (n + 1)

-- The sum and the product as `i128`s
unfoldable pub add_i128 : ℤ → ℤ → ℤ
add_i128 (pos a) (pos b) = pos (a + b)
add_i128 (pos a) (negsuc b) = if ltb b a then pos (a - (b + 1)) else negsuc (b - a)
add_i128 (negsuc a) (pos b) = if ltb a b then pos (b - (a + 1)) else negsuc (a - b)
add_i128 (negsuc a) (negsuc b) = negsuc (a + b + 1)

unfoldable pub mul_i128 : ℤ → ℤ → ℤ
mul_i128 (pos a) (pos b) = pos (a * b)
mul_i128 (pos a) (negsuc b) = from_neg (a * (b + 1))
mul_i128 (negsuc a) (pos b) = from_neg ((a + 1) * b)
mul_i128 (negsuc a) (negsuc b) = pos ((a + 1) * (b + 1))

-- `p <= max && p >= -max`
unfoldable pub in_u64 : ℤ → Bool
in_u64 (pos n) = ltb n (2 ^ 64)
in_u64 (negsuc n) = ltb (n + 1) (2 ^ 64)

unfoldable pub checked : ℤ → Option ℤ
checked i = if in_u64 i then some i else none

-- `Add for SignedInteger`
unfoldable pub add_int : ℤ → ℤ → Option ℤ
add_int a b = checked (add_i128 a b)

-- `Mul for SignedInteger`: a product past `i128` is past the bounds too.
unfoldable pub mul_int : ℤ → ℤ → Option ℤ
mul_int a b = checked (mul_i128 a b)

-- The derived `PartialEq`
unfoldable pub eq_int : ℤ → ℤ → Bool
eq_int (pos a) (pos b) = a == b
eq_int (negsuc a) (negsuc b) = a == b
eq_int (pos a) (negsuc b) = false
eq_int (negsuc a) (pos b) = false
