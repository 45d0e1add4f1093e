-- ===== src/Prelude/Int.antt =====
-- Signed integers over the native numbers, and `i64` with the wrap-around of release builds.
use Prim.Native.Nat.{ℕ, suc, ◌+◌, ◌-◌, ◌*◌, ◌/◌, ◌%◌, ◌^◌, ◌<◌, compare, Ordering}
use mathlib.Core.Path.{◌≡◌}
use mathlib.Core.Bool.{Bool, true, false}
use mathlib.Core.List.{◌∷◌}
use native.Mathlib.Omega.{arith}
use tracescript.Prelude.Tests.{ltb, leb, ◌==◌, if◌then◌else◌}
use tracescript.Prelude.Texts.{Text, show_nat}

-- `negsuc n` is -(n + 1).
pub data ℤ : Type 0 where
  pos : ℕ → ℤ
  negsuc : ℕ → ℤ

abbrev pub pos_part : ℤ → ℕ
pos_part (pos n) = n
pos_part (negsuc n) = 0

abbrev pub neg_part : ℤ → ℕ
neg_part (pos n) = 0
neg_part (negsuc n) = suc n

-- a - b, as an integer.
abbrev pub sub_ℕ : ℕ → ℕ → ℤ
sub_ℕ a b = if leb b a then pos (a - b) else negsuc (b - a - 1)

-- The two's complement reading of 64 bits, and the bits of an integer.
unfoldable pub to_bits : ℤ → ℕ
to_bits (pos n) = n % 2 ^ 64
to_bits (negsuc n) = 2 ^ 64 - 1 - n % 2 ^ 64

unfoldable pub of_bits : ℕ → ℤ
of_bits u = if ltb u (2 ^ 63) then pos u else negsuc (2 ^ 64 - 1 - u)

unfoldable pub wrap : ℤ → ℤ
unfolding to_bits of_bits
wrap z = of_bits (to_bits z)

-- `+`, `-`, `*` and unary `-` on `i64`.
unfoldable pub i64_add : ℤ → ℤ → ℤ
unfolding wrap
i64_add a b = wrap (sub_ℕ (pos_part a + pos_part b) (neg_part a + neg_part b))

unfoldable pub i64_sub : ℤ → ℤ → ℤ
unfolding wrap
i64_sub a b = wrap (sub_ℕ (pos_part a + neg_part b) (neg_part a + pos_part b))

unfoldable pub i64_mul : ℤ → ℤ → ℤ
unfolding wrap
i64_mul a b = wrap (
    sub_ℕ (pos_part a * pos_part b + neg_part a * neg_part b)
      (pos_part a * neg_part b + neg_part a * pos_part b))

unfoldable pub i64_neg : ℤ → ℤ
unfolding wrap
i64_neg a = wrap (sub_ℕ (neg_part a) (pos_part a))

abbrev pub is_negative : ℤ → Bool
is_negative (pos n) = false
is_negative (negsuc n) = true

abbrev pub magnitude : ℤ → ℕ
magnitude (pos n) = n
magnitude (negsuc n) = suc n

abbrev signed : Bool → ℕ → ℤ
signed neg m = if neg then sub_ℕ 0 m else pos m

abbrev differ : Bool → Bool → Bool
differ true true = false
differ false false = false
differ _ _ = true

-- `a / b` and `a % b` for `b ≢ 0`, except `i64::MIN / -1`: towards zero, the remainder has the
-- sign of the dividend.
unfoldable pub i64_div : ℤ → ℤ → ℤ
i64_div a b = signed (differ (is_negative a) (is_negative b)) (magnitude a / magnitude b)

unfoldable pub i64_rem : ℤ → ℤ → ℤ
i64_rem a b = signed (is_negative a) (magnitude a % magnitude b)

abbrev pub int_eq : ℤ → ℤ → Bool
int_eq (pos a) (pos b) = a == b
int_eq (negsuc a) (negsuc b) = a == b
int_eq _ _ = false

-- `i64::MIN / -1` and `i64::MIN % -1` panic in every build.
unfoldable pub divides_badly : ℤ → ℤ → Bool
divides_badly (negsuc a) (negsuc b) = if a == 2 ^ 63 - 1 then b == 0 else false
divides_badly _ _ = false

-- `Ord for i64`
unfoldable pub int_compare : ℤ → ℤ → Ordering
int_compare a b = compare (pos_part a + neg_part b) (pos_part b + neg_part a)

-- `Display for i64`
unfoldable pub show_int : ℤ → Text
unfolding show_nat
show_int (pos n) = show_nat n
show_int (negsuc n) = b'-' ∷ show_nat (suc n)

abbrev pub IsI64 : ℤ → Type 0
IsI64 (pos n) = n < 2 ^ 63
IsI64 (negsuc n) = n < 2 ^ 63

-- Wrapping lands in the range of `i64`, and is the identity on it.
pub wrap-IsI64 : (z : ℤ) → IsI64 (wrap z)
unfolding wrap
wrap-IsI64 z = ground arith

pub wrap_of_IsI64 : (z : ℤ) → IsI64 z → wrap z ≡ z
unfolding wrap
wrap_of_IsI64 (pos n) h = ground arith
wrap_of_IsI64 (negsuc n) h = ground arith
