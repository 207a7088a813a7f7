-- ===== src/Shared/Int.antt =====
-- Go's `int` on the 64-bit targets of the Dockerfile: a bit pattern below 2 ^ 64, read as a signed
-- number in two's complement. A number below 2 ^ 63 is itself.
use inventory_storage.Prelude.{ℕ, ◌+◌, ◌-◌, ◌%◌, ◌≤◌, ◌<◌, ◌≡◌, Bool, arith, ltb, leb}

abbrev pub Int64 : Type 0
Int64 = ℕ

abbrev pub modulus : ℕ
modulus = 18446744073709551616

-- 2 ^ 63, the first pattern of a negative number.
abbrev pub sign : ℕ
sign = 9223372036854775808

-- The pattern stands for a number that is not negative.
abbrev pub IsNonneg : Int64 → Type 0
IsNonneg a = a < sign

unfoldable pub is_negative : Int64 → Bool
is_negative a = leb sign a

-- `a + b` and `a - b` wrap around.
unfoldable pub add : Int64 → Int64 → Int64
add a b = (a + b) % modulus

unfoldable pub sub : Int64 → Int64 → Int64
sub a b = (a + modulus - b) % modulus

-- `a < b` and `a <= b`, of signed numbers.
unfoldable pub less : Int64 → Int64 → Bool
less a b = ltb ((a + sign) % modulus) ((b + sign) % modulus)

unfoldable pub less_eq : Int64 → Int64 → Bool
less_eq a b = leb ((a + sign) % modulus) ((b + sign) % modulus)

module _ (a b : ℕ) (ha : IsNonneg a) (hb : IsNonneg b) where
  pub less-nonneg : less a b ≡ ltb a b
  unfolding less
  less-nonneg = ground arith

  pub less_eq-nonneg : less_eq a b ≡ leb a b
  unfolding less_eq
  less_eq-nonneg = ground arith

  pub is_negative-sub : is_negative (sub a b) ≡ ltb a b
  unfolding is_negative sub
  is_negative-sub = ground arith

  pub sub-nonneg : b ≤ a → sub a b ≡ a - b
  unfolding sub
  sub-nonneg h = omega arith

  pub add-nonneg : IsNonneg (a + b) → add a b ≡ a + b
  unfolding add
  add-nonneg h = omega arith
