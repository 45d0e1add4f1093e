-- ===== src/Vm/Operators.antt =====
-- The value operations of src/bytecode/vm.rs: `arith`, the arms of `Div`, `Mod`, `Neg` and
-- `Contains`, `values_equal` and `values_compare`. No error has a position.
use tracescript.Prelude.{
  ℕ, Bool, true, false, not, Option, none, some, Text, text_eq, text_compare, contains, ℤ, pos,
  int_eq, int_compare, i64_neg, i64_div, i64_rem, divides_badly, if◌then◌else◌, Ordering, codes,
}
use tracescript.Value.{Value, Platform, to_string, type_error, division_by_zero}
use tracescript.Result.{Result, ok, fail, panic}

unfoldable pub arith :
    Platform
    → (ℤ → ℤ → ℤ)
    → (ℕ → ℕ → ℕ)
    → Option (Text → Text → Text)
    → Value
    → Value
    → Result Value
arith pf f g h (Value.int a) (Value.int b) = ok (Value.int (f a b))
arith pf f g h (Value.float a) (Value.float b) = ok (Value.float (g a b))
arith pf f g h (Value.int a) (Value.float b) = ok (Value.float (g (pf.f64_of_int a) b))
arith pf f g h (Value.float a) (Value.int b) = ok (Value.float (g a (pf.f64_of_int b)))
arith pf f g none (Value.str a) (Value.str b) = fail (type_error (codes "strings"))
arith pf f g (some h) (Value.str a) (Value.str b) = ok (Value.str (h a b))
arith pf f g h _ _ = fail (type_error (codes "arithmetic"))

unfoldable pub vm_div : Platform → Value → Value → Result Value
vm_div pf (Value.int a) (Value.int b) =
    if int_eq b (pos 0)
    then fail division_by_zero
    else if divides_badly a b
    then panic
    else ok (Value.int (i64_div a b))
vm_div pf (Value.float a) (Value.float b) =
    if pf.f64_eq b 0 then fail division_by_zero else ok (Value.float (pf.f64_div a b))
vm_div pf (Value.int a) (Value.float b) = ok (Value.float (pf.f64_div (pf.f64_of_int a) b))
vm_div pf (Value.float a) (Value.int b) = ok (Value.float (pf.f64_div a (pf.f64_of_int b)))
vm_div pf _ _ = fail (type_error (codes "DIV"))

unfoldable pub vm_mod : Platform → Value → Value → Result Value
vm_mod pf (Value.int a) (Value.int b) =
    if int_eq b (pos 0)
    then panic
    else if divides_badly a b
    then panic
    else ok (Value.int (i64_rem a b))
vm_mod pf (Value.float a) (Value.float b) = ok (Value.float (pf.f64_rem a b))
vm_mod pf _ _ = fail (type_error (codes "MOD"))

unfoldable pub vm_neg : Platform → Value → Result Value
vm_neg pf (Value.int n) = ok (Value.int (i64_neg n))
vm_neg pf (Value.float n) = ok (Value.float (pf.f64_neg n))
vm_neg pf _ = fail (type_error (codes "NEG"))

unfoldable pub vm_contains : Platform → Value → Value → Result Value
vm_contains pf (Value.str h) (Value.str n) = ok (Value.bool (contains h n))
vm_contains pf (Value.str h) other = ok (Value.bool (contains h (to_string pf other)))
vm_contains pf _ _ = fail (type_error (codes "CONTAINS"))

abbrev bool_eq : Bool → Bool → Bool
bool_eq true b = b
bool_eq false b = not b

unfoldable pub values_equal : Platform → Value → Value → Bool
values_equal pf (Value.int a) (Value.int b) = int_eq a b
values_equal pf (Value.float a) (Value.float b) = pf.f64_eq a b
values_equal pf (Value.str a) (Value.str b) = text_eq a b
values_equal pf (Value.bool a) (Value.bool b) = bool_eq a b
values_equal pf Value.unit Value.unit = true
values_equal pf _ _ = false

abbrev or_equal : Option Ordering → Ordering
or_equal none = Ordering.eq
or_equal (some o) = o

-- `false < true`
abbrev bool_compare : Bool → Bool → Ordering
bool_compare true true = Ordering.eq
bool_compare false false = Ordering.eq
bool_compare true false = Ordering.gt
bool_compare false true = Ordering.lt

unfoldable pub values_compare : Platform → Value → Value → Ordering
values_compare pf (Value.int a) (Value.int b) = int_compare a b
values_compare pf (Value.float a) (Value.float b) = or_equal (pf.f64_partial_cmp a b)
values_compare pf (Value.int a) (Value.float b) = or_equal (pf.f64_partial_cmp (pf.f64_of_int a) b)
values_compare pf (Value.float a) (Value.int b) = or_equal (pf.f64_partial_cmp a (pf.f64_of_int b))
values_compare pf (Value.str a) (Value.str b) = text_compare a b
values_compare pf (Value.bool a) (Value.bool b) = bool_compare a b
values_compare pf _ _ = Ordering.eq

abbrev pub is_less : Ordering → Bool
is_less Ordering.lt = true
is_less _ = false

abbrev pub is_greater : Ordering → Bool
is_greater Ordering.gt = true
is_greater _ = false
