-- ===== src/Codegen/Agree.antt =====
-- The operators and the table accesses of the two engines, src/interp/mod.rs and
-- src/bytecode/vm.rs: where the interpreter gives a value, the VM gives the same one.
use tracescript.Prelude.{
  ℕ, ◌≡◌, refl, sym, ap, ◌∙◌, Bool, not, ◌&&◌, ◌||◌, ◌++◌, none, some, Text, ℤ, arith, Option-cases,
  inl, inr, i64_add, i64_sub, i64_mul, Ordering, pos, negsuc,
}
use tracescript.Error.{SourcePos}
use tracescript.Value.{Value, Platform, is_truthy}
use tracescript.Result.{Result, ok}
use tracescript.Tables.{TableStore}
use tracescript.Syntax.{BinOp, UnOp}
use tracescript.Interp.Operators.{
  eval_binop, eval_unop, eval_add, eval_div, eval_mod, eval_contains, arith_values, values_eq,
  compare_values, value_order, or_type_error,
}
use tracescript.Interp.Access.{read_field, row_index, index_table}
use tracescript.Vm.Operators.{
  arith as vm_arith, vm_div, vm_mod, vm_neg, vm_contains, values_equal, values_compare, is_less,
  is_greater,
}
use tracescript.Vm.Access
use tracescript.Vm.Access.{event_field}

-- the value function in the arm of each binary opcode, which `exec_binary` ties to the arm
abbrev pub vm_binop : Platform → BinOp → Value → Value → Result Value
vm_binop pf BinOp.add = vm_arith pf i64_add pf.f64_add (some ◌++◌)
vm_binop pf BinOp.sub = vm_arith pf i64_sub pf.f64_sub none
vm_binop pf BinOp.mul = vm_arith pf i64_mul pf.f64_mul none
vm_binop pf BinOp.div = vm_div pf
vm_binop pf BinOp.mod_ = vm_mod pf
vm_binop pf BinOp.eq = λ l r. ok (Value.bool (values_equal pf l r))
vm_binop pf BinOp.not_eq = λ l r. ok (Value.bool (not (values_equal pf l r)))
vm_binop pf BinOp.lt = λ l r. ok (Value.bool (is_less (values_compare pf l r)))
vm_binop pf BinOp.gt = λ l r. ok (Value.bool (is_greater (values_compare pf l r)))
vm_binop pf BinOp.lt_eq = λ l r. ok (Value.bool (not (is_greater (values_compare pf l r))))
vm_binop pf BinOp.gt_eq = λ l r. ok (Value.bool (not (is_less (values_compare pf l r))))
vm_binop pf BinOp.and = λ l r. ok (Value.bool (is_truthy pf l && is_truthy pf r))
vm_binop pf BinOp.or = λ l r. ok (Value.bool (is_truthy pf l || is_truthy pf r))
vm_binop pf BinOp.contains = vm_contains pf

values_agree : (pf : Platform) (l r : Value) → values_eq pf l r ≡ values_equal pf l r
unfolding values_eq values_equal
values_agree pf (Value.int a) (Value.int b) = refl
values_agree pf _ _ = refl

order_agrees :
    (pf : Platform) (l r : Value) (o : Ordering)
    → value_order pf l r ≡ some o
    → values_compare pf l r ≡ o
unfolding value_order values_compare
order_agrees pf (Value.int a) (Value.int b) o h = ground arith
order_agrees pf _ _ o h = ground arith

compare_agrees :
    (pf : Platform) (l r : Value) (p : SourcePos) (f : Ordering → Bool) (v : Value)
    → compare_values pf l r p f ≡ ok v
    → ok (Value.bool (f (values_compare pf l r))) ≡ ok v
unfolding compare_values
compare_agrees pf l r p f v h = elim (Option-cases (value_order pf l r)) [
  | inl e ↦ ground (arith, e, h)
  | inr (o, e) ↦ ground (arith, e, h, order_agrees pf l r o e)
]

arith_agrees :
    (pf : Platform) (g : ℤ → ℤ → ℤ) (k : ℕ → ℕ → ℕ) (l r v : Value)
    → arith_values pf g k l r ≡ some v
    → vm_arith pf g k none l r ≡ ok v
unfolding arith_values vm_arith
arith_agrees pf g k (Value.int a) (Value.int b) v h = ground arith
arith_agrees pf g k _ _ v h = ground arith

add_agrees :
    (pf : Platform) (l r : Value) (p : SourcePos) (v : Value)
    → eval_add pf l r p ≡ ok v
    → vm_arith pf i64_add pf.f64_add (some ◌++◌) l r ≡ ok v
unfolding eval_add vm_arith arith_values
add_agrees pf (Value.int a) (Value.int b) p v h = h
add_agrees pf (Value.str a) (Value.str b) p v h = h
add_agrees pf _ _ p v h = ground arith

div_agrees :
    (pf : Platform) (l r : Value) (p : SourcePos) (v : Value)
    → eval_div pf l r p ≡ ok v
    → vm_div pf l r ≡ ok v
unfolding eval_div vm_div
div_agrees pf (Value.int a) (Value.int b) p v h = ground arith
div_agrees pf _ _ p v h = ground arith

mod_agrees :
    (pf : Platform) (l r : Value) (p : SourcePos) (v : Value)
    → eval_mod pf l r p ≡ ok v
    → vm_mod pf l r ≡ ok v
unfolding eval_mod vm_mod
mod_agrees pf (Value.int a) (Value.int b) p v h = ground arith
mod_agrees pf _ _ p v h = ground arith

contains_agrees :
    (pf : Platform) (l r : Value) (p : SourcePos) (v : Value)
    → eval_contains pf l r p ≡ ok v
    → vm_contains pf l r ≡ ok v
unfolding eval_contains vm_contains
contains_agrees pf (Value.str a) (Value.str b) p v h = h
contains_agrees pf _ _ p v h = ground arith

or_type_error_agrees :
    (pf : Platform) (g : ℤ → ℤ → ℤ) (k : ℕ → ℕ → ℕ) (op : BinOp) (l r : Value) (p : SourcePos)
    (v : Value)
    → or_type_error p (arith_values pf g k l r) ≡ ok v
    → vm_arith pf g k none l r ≡ ok v
or_type_error_agrees pf g k op l r p v h = elim (Option-cases (arith_values pf g k l r)) [
  | inl e ↦ absurd (cc (sym h ∙ ap (or_type_error p) e))
  | inr (w, e) ↦ arith_agrees pf g k l r v (ground (arith, e, h))
]

-- The value functions of the VM against those of the interpreter.
pub vm_binop-eval_binop :
    (pf : Platform) (op : BinOp) (l r : Value) (p : SourcePos) (v : Value)
    → eval_binop pf op l r p ≡ ok v
    → vm_binop pf op l r ≡ ok v
unfolding eval_binop
vm_binop-eval_binop pf BinOp.add l r p v h = add_agrees pf l r p v h
vm_binop-eval_binop pf BinOp.sub l r p v h =
    or_type_error_agrees pf i64_sub pf.f64_sub BinOp.sub l r p v h
vm_binop-eval_binop pf BinOp.mul l r p v h =
    or_type_error_agrees pf i64_mul pf.f64_mul BinOp.mul l r p v h
vm_binop-eval_binop pf BinOp.div l r p v h = div_agrees pf l r p v h
vm_binop-eval_binop pf BinOp.mod_ l r p v h = mod_agrees pf l r p v h
vm_binop-eval_binop pf BinOp.eq l r p v h = rw (← values_agree pf l r) h
vm_binop-eval_binop pf BinOp.not_eq l r p v h = rw (← values_agree pf l r) h
vm_binop-eval_binop pf BinOp.lt l r p v h = compare_agrees pf l r p _ v h
vm_binop-eval_binop pf BinOp.gt l r p v h = compare_agrees pf l r p _ v h
vm_binop-eval_binop pf BinOp.lt_eq l r p v h = compare_agrees pf l r p _ v h
vm_binop-eval_binop pf BinOp.gt_eq l r p v h = compare_agrees pf l r p _ v h
vm_binop-eval_binop pf BinOp.and l r p v h = h
vm_binop-eval_binop pf BinOp.or l r p v h = h
vm_binop-eval_binop pf BinOp.contains l r p v h = contains_agrees pf l r p v h

-- the same for the unary opcodes
abbrev pub vm_unop : Platform → UnOp → Value → Result Value
vm_unop pf UnOp.not = λ v. ok (Value.bool (not (is_truthy pf v)))
vm_unop pf UnOp.neg = vm_neg pf

pub vm_unop-eval_unop :
    (pf : Platform) (op : UnOp) (x : Value) (p : SourcePos) (v : Value)
    → eval_unop pf op x p ≡ ok v
    → vm_unop pf op x ≡ ok v
unfolding eval_unop vm_neg
vm_unop-eval_unop pf UnOp.not x p v h = h
vm_unop-eval_unop pf UnOp.neg (Value.int n) p v h = h
vm_unop-eval_unop pf UnOp.neg _ p v h = ground arith

pub event_field-read_field :
    (m : Value) (f : Text) (p : SourcePos) (v : Value)
    → read_field m f p ≡ ok v
    → event_field m f ≡ ok v
unfolding read_field event_field
event_field-read_field (Value.event m) f p v h = ground arith
event_field-read_field (Value.int n) f p v h = ground arith
event_field-read_field _ f p v h = ground arith

pub row_index_agrees :
    (tbl : Text) (x : Value) (p : SourcePos) (i : ℕ)
    → row_index tbl x p ≡ ok i
    → Access.row_index tbl x ≡ ok i
unfolding row_index Access.row_index
row_index_agrees tbl (Value.int (pos n)) p i h = h
row_index_agrees tbl (Value.int (negsuc n)) p i h = ground arith
row_index_agrees tbl _ p i h = ground arith

pub index_table_agrees :
    (pf : Platform) (s : TableStore) (tbl : Text) (i : ℕ) (p : SourcePos) (v : Value)
    → index_table pf s tbl i p ≡ ok v
    → Access.index_table pf s tbl i ≡ ok v
unfolding index_table Access.index_table
index_table_agrees pf s tbl i p v h = ground arith
