-- ===== src/Interp/Operators.antt =====
-- `eval_binop`, the unary operators and the comparisons of src/interp/mod.rs. Integer arithmetic
-- wraps, as in a release build; a remainder by zero and `i64::MIN / -1` panic in every build.
use tracescript.Prelude.{
  ℕ, Bool, true, false, not, ◌&&◌, ◌||◌, ◌++◌, Option, none, some, text_eq, text_compare, contains,
  ℤ, pos, int_eq, int_compare, i64_add, i64_sub, i64_mul, i64_neg, i64_div, i64_rem, divides_badly,
  if◌then◌else◌, Ordering, codes,
}
use tracescript.Error.{SourcePos}
use tracescript.Value.{
  Value, Platform, Message, runtime, is_truthy, to_string, type_name, type_error, division_by_zero,
  cannot_negate,
}
use tracescript.Result.{Result, ok, err, panic}
use tracescript.Syntax.{BinOp, UnOp}

-- `TraceError::Runtime { msg, pos: Some(pos) }`
abbrev pub fail_at {ℓ} : {A : Type ℓ} → SourcePos → Message → Result A
fail_at p m = err (runtime m (some p))

abbrev bool_eq : Bool → Bool → Bool
bool_eq true b = b
bool_eq false b = not b

unfoldable pub values_eq : Platform → Value → Value → Bool
values_eq pf (Value.int a) (Value.int b) = int_eq a b
values_eq pf (Value.float a) (Value.float b) = pf.f64_eq a b
values_eq pf (Value.str a) (Value.str b) = text_eq a b
values_eq pf (Value.bool a) (Value.bool b) = bool_eq a b
values_eq pf Value.unit Value.unit = true
values_eq pf _ _ = false

-- `partial_cmp(..).unwrap_or(Ordering::Equal)`
abbrev pub or_equal : Option Ordering → Ordering
or_equal none = Ordering.eq
or_equal (some o) = o

-- the `match` of `compare_values`
unfoldable pub value_order : Platform → Value → Value → Option Ordering
value_order pf (Value.int a) (Value.int b) = some (int_compare a b)
value_order pf (Value.float a) (Value.float b) = some (or_equal (pf.f64_partial_cmp a b))
value_order pf (Value.int a) (Value.float b) =
    some (or_equal (pf.f64_partial_cmp (pf.f64_of_int a) b))
value_order pf (Value.float a) (Value.int b) =
    some (or_equal (pf.f64_partial_cmp a (pf.f64_of_int b)))
value_order pf (Value.str a) (Value.str b) = some (text_compare a b)
value_order pf _ _ = none

unfoldable pub compare_values :
    Platform → Value → Value → SourcePos → (Ordering → Bool) → Result Value
unfolding value_order
compare_values pf l r p f = elim (value_order pf l r) [
  | none ↦ fail_at p (type_error (codes "comparison"))
  | some o ↦ ok (Value.bool (f o))
]

abbrev pub is_less : Ordering → Bool
is_less Ordering.lt = true
is_less _ = false

abbrev pub is_greater : Ordering → Bool
is_greater Ordering.gt = true
is_greater _ = false

-- the arms that `+`, `-` and `*` share
unfoldable pub arith_values : Platform → (ℤ → ℤ → ℤ) → (ℕ → ℕ → ℕ) → Value → Value → Option Value
arith_values pf f g (Value.int a) (Value.int b) = some (Value.int (f a b))
arith_values pf f g (Value.float a) (Value.float b) = some (Value.float (g a b))
arith_values pf f g (Value.int a) (Value.float b) = some (Value.float (g (pf.f64_of_int a) b))
arith_values pf f g (Value.float a) (Value.int b) = some (Value.float (g a (pf.f64_of_int b)))
arith_values pf f g _ _ = none

abbrev pub or_type_error : SourcePos → Option Value → Result Value
or_type_error p none = fail_at p (type_error (codes "binary"))
or_type_error p (some v) = ok v

unfoldable pub eval_add : Platform → Value → Value → SourcePos → Result Value
unfolding arith_values
eval_add pf (Value.str a) (Value.str b) p = ok (Value.str (a ++ b))
eval_add pf l r p = or_type_error p (arith_values pf i64_add pf.f64_add l r)

unfoldable pub eval_div : Platform → Value → Value → SourcePos → Result Value
eval_div pf (Value.int a) (Value.int b) p =
    if int_eq b (pos 0)
    then fail_at p division_by_zero
    else if divides_badly a b
    then panic
    else ok (Value.int (i64_div a b))
eval_div pf (Value.float a) (Value.float b) p =
    if pf.f64_eq b 0 then fail_at p division_by_zero else ok (Value.float (pf.f64_div a b))
eval_div pf (Value.int a) (Value.float b) p = ok (Value.float (pf.f64_div (pf.f64_of_int a) b))
eval_div pf (Value.float a) (Value.int b) p = ok (Value.float (pf.f64_div a (pf.f64_of_int b)))
eval_div pf _ _ p = fail_at p (type_error (codes "binary"))

unfoldable pub eval_mod : Platform → Value → Value → SourcePos → Result Value
eval_mod pf (Value.int a) (Value.int b) p =
    if int_eq b (pos 0)
    then panic
    else if divides_badly a b
    then panic
    else ok (Value.int (i64_rem a b))
eval_mod pf (Value.float a) (Value.float b) p = ok (Value.float (pf.f64_rem a b))
eval_mod pf _ _ p = fail_at p (type_error (codes "binary"))

unfoldable pub eval_contains : Platform → Value → Value → SourcePos → Result Value
eval_contains pf (Value.str hay) (Value.str needle) p = ok (Value.bool (contains hay needle))
eval_contains pf (Value.str hay) other p = ok (Value.bool (contains hay (to_string pf other)))
eval_contains pf _ _ p = fail_at p (type_error (codes "binary"))

unfoldable pub eval_binop : Platform → BinOp → Value → Value → SourcePos → Result Value
unfolding eval_add eval_div eval_mod eval_contains arith_values values_eq compare_values
eval_binop pf BinOp.add l r p = eval_add pf l r p
eval_binop pf BinOp.sub l r p = or_type_error p (arith_values pf i64_sub pf.f64_sub l r)
eval_binop pf BinOp.mul l r p = or_type_error p (arith_values pf i64_mul pf.f64_mul l r)
eval_binop pf BinOp.div l r p = eval_div pf l r p
eval_binop pf BinOp.mod_ l r p = eval_mod pf l r p
eval_binop pf BinOp.eq l r p = ok (Value.bool (values_eq pf l r))
eval_binop pf BinOp.not_eq l r p = ok (Value.bool (not (values_eq pf l r)))
eval_binop pf BinOp.lt l r p = compare_values pf l r p is_less
eval_binop pf BinOp.gt l r p = compare_values pf l r p is_greater
eval_binop pf BinOp.lt_eq l r p = compare_values pf l r p (λ o. not (is_greater o))
eval_binop pf BinOp.gt_eq l r p = compare_values pf l r p (λ o. not (is_less o))
eval_binop pf BinOp.and l r p = ok (Value.bool (is_truthy pf l && is_truthy pf r))
eval_binop pf BinOp.or l r p = ok (Value.bool (is_truthy pf l || is_truthy pf r))
eval_binop pf BinOp.contains l r p = eval_contains pf l r p

unfoldable pub eval_unop : Platform → UnOp → Value → SourcePos → Result Value
eval_unop pf UnOp.not v p = ok (Value.bool (not (is_truthy pf v)))
eval_unop pf UnOp.neg (Value.int n) p = ok (Value.int (i64_neg n))
eval_unop pf UnOp.neg (Value.float n) p = ok (Value.float (pf.f64_neg n))
eval_unop pf UnOp.neg v p = fail_at p (cannot_negate (type_name v))
