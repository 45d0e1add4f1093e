-- ===== src/Vm.antt =====
-- src/bytecode/vm.rs: the stack machine. `Vec`s that are used as stacks are lists, last pushed
-- first. `exec_instr` is the `match` of `run_until_return` and takes the way to run the code of a
-- function as an argument; the loop spends a unit of fuel on each instruction, and the calls that an
-- instruction makes run on what is left.
pub mod Operators
pub mod Access
pub mod Exec
pub mod Engine
use tracescript.Prelude.{
  ℕ, zero, suc, ◌+◌, ◌≡◌, Bool, true, false, not, ◌&&◌, ◌||◌, List, [], ◌∷◌, ◌++◌, Option, none,
  some, Text, codes, text_eq, length, get_elem?, set, replicate, ◌-◌, ◌==◌, ltb, if◌then◌else◌, ℤ,
  i64_add, i64_sub, i64_mul, map,
}
use mathlib.Core.List.{reverse}
use tracescript.Value.{
  Value, Row, Fields, Message, TraceError, runtime, Platform, is_truthy, to_string, as_str,
  get_field, type_name, row_to_string, bad_index, unknown_table, row_out_of_range, unknown_field,
  undefined_function, no_field_access, stack_underflow, empty_stack, no_active_frame, bad_constant,
  constant_not_string, missing_operand, expected_pop,
}
use tracescript.Result.{Result, ok, err, panic, fail, ok_or, or_panic}
use tracescript.Tables.{
  Table, TableField, TableStore, get, put, position, from_str, TypeName, create,
}
use tracescript.Tables
use tracescript.Host
use tracescript.Effects.{Output, Files, printed, alerted, show_table, export_table}
use tracescript.Machine.{
  Stop, raised, panicked, out_of_fuel, Ran, done, stop, Run, pure, ◌>>=◌, ◌>>◌, get_state,
  put_state, throw, lift,
}
use tracescript.Builtins.{arity, try_call}
use tracescript.Interp.Access.{HostFunction, host_of}
use tracescript.Vm.Access.{str_or_empty}
use tracescript.Opcode.{
  Opcode, Instr, CompiledFunction, CompiledEventHandler, CompiledTable, BytecodeModule,
}
use tracescript.Vm.Operators.{
  arith, vm_div, vm_mod, vm_neg, vm_contains, values_equal, values_compare, is_less, is_greater,
}

pub record CallFrame : Type 0 where
  pub function : Text
  pub locals : List Value
  pub ip : ℕ

-- `module` is `program` here, a reserved word.
pub record Vm : Type 0 where
  pub program : BytecodeModule
  pub tables : TableStore
  pub alerts : List (List Value)
  pub stack : List Value
  pub frames : List CallFrame
  pub iterators : List (ℕ × List Row)
  pub console : List Output

abbrev pub Step : Type 0 → Type 0
Step = Run Vm

-- what the loop does behind an instruction
pub data Flow : Type 0 where
  next returned : Flow

abbrev pub push : Value → Step (Unit {0})
push v vm = done tt (record vm { stack = v ∷ vm.stack })

abbrev pub pop_from : List Value → Step Value
pop_from [] vm = stop (raised (runtime stack_underflow none)) vm
pop_from (v ∷ vs) vm = done v (record vm { stack = vs })

-- `self.pop()?`
abbrev pub pop : Step Value
pop vm = pop_from vm.stack vm

-- `n` pops, the last popped first: `args.reverse()` is made on the way.
unfoldable pub pop_onto : ℕ → List Value → Step (List Value)
pop_onto zero vs = pure vs
pop_onto (suc n) vs = do v ← pop; pop_onto n (v ∷ vs)

-- `const_str`
abbrev pub as_const_str : Text → ℕ → Option Value → Result Text
as_const_str op i none = fail (bad_constant op i)
as_const_str op i (some (Value.str s)) = ok s
as_const_str op i (some _) = fail (constant_not_string op)

abbrev pub const_str : ℕ → Text → Step Text
const_str i op = do vm ← get_state; lift (as_const_str op i (get_elem? vm.program.constants i))

-- `self.frames.last().unwrap()`
abbrev top_frame : List CallFrame → Result CallFrame
top_frame [] = panic
top_frame (f ∷ fs) = ok f

abbrev change_top : (CallFrame → CallFrame) → List CallFrame → List CallFrame
change_top g [] = []
change_top g (f ∷ fs) = g f ∷ fs

abbrev on_frame : (CallFrame → CallFrame) → Step (Unit {0})
on_frame g = do
  vm ← get_state
  f ← lift (top_frame vm.frames)
  put_state (record vm { frames = change_top g vm.frames })

abbrev pub goto : ℕ → Step (Unit {0})
goto n = on_frame λ f. record f { ip = n }

abbrev binary : (Value → Value → Result Value) → Step Flow
binary f = do r ← pop; l ← pop; v ← lift (f l r); push v; pure next

abbrev emit : Output → Step (Unit {0})
emit o vm = done tt (record vm { console = vm.console ++ o ∷ [] })

abbrev set_tables : TableStore → Step (Unit {0})
set_tables ts vm = done tt (record vm { tables = ts })

-- `ForNext`: a row of the last iterator, or the end of the loop
unfoldable pub for_next : Platform → ℕ → List (ℕ × List Row) → Step Flow
for_next pf exit ((k, row ∷ rows) ∷ its) vm =
    done next (record vm {
      iterators = (k, rows) ∷ its;
      stack = Value.str (row_to_string pf row) ∷ vm.stack;
    })
for_next pf exit ((k, []) ∷ its) vm = (goto exit >> pure next) (record vm { iterators = its })
for_next pf exit [] vm = (goto exit >> pure next) vm

-- `Return`
unfoldable pub return_from : List Value → List CallFrame → Step Flow
return_from vs [] vm = done returned (record vm { stack = elim vs [ [] ↦ [] | _ ∷ rest ↦ rest ] })
return_from vs (f ∷ []) vm =
    done returned (record vm { stack = elim vs [ [] ↦ [] | _ ∷ rest ↦ rest ]; frames = [] })
return_from [] (f ∷ g ∷ fs) vm =
    done returned (record vm { stack = Value.unit ∷ []; frames = g ∷ fs })
return_from (v ∷ vs) (f ∷ g ∷ fs) vm = done returned (record vm { stack = v ∷ vs; frames = g ∷ fs })

find_function : List CompiledFunction → Text → Option CompiledFunction
find_function [] n = none
find_function (f ∷ fs) n = if text_eq f.name n then some f else find_function fs n

abbrev with_tables : Value × TableStore → Step (Unit {0})
with_tables (v, ts) = set_tables ts >> push v

-- the host arms of `do_call`
unfoldable pub host_instr : Platform → HostFunction → Step (Unit {0})
unfolding str_or_empty
host_instr pf HostFunction.count = do
  n ← pop
  vm ← get_state
  v ← lift (Host.count vm.tables (str_or_empty n))
  push v
host_instr pf HostFunction.filter = do
  needle ← pop
  f ← pop
  n ← pop
  vm ← get_state
  r ← lift (Host.filter vm.tables (str_or_empty n) (str_or_empty f) (str_or_empty needle))
  with_tables r
host_instr pf HostFunction.sort = do
  f ← pop
  n ← pop
  vm ← get_state
  r ← lift (Host.sort pf vm.tables (str_or_empty n) (str_or_empty f))
  with_tables r

-- `builtins::arity` finds a builtin for whose name `try_call` has no arm: `unreachable!`
abbrev builtin_result : Option (Result Value) → Step Value
builtin_result none = throw panicked
builtin_result (some r) = lift r

-- `do_call`
unfoldable pub do_call : Platform → (List Instr → Step (Unit {0})) → Text → Step (Unit {0})
unfolding host_instr find_function pop_onto arity try_call host_of
do_call pf run_code n vm = elim (arity n) [
  | some k ↦ (do args ← pop_onto k []; v ← builtin_result (try_call pf n args); push v) vm
  | none ↦ elim (host_of n) [
    | some h ↦ host_instr pf h vm
    | none ↦ elim (find_function vm.program.functions n) [
      | none ↦ stop (raised (runtime (undefined_function n) none)) vm
      | some f ↦
          (do
            args ← pop_onto f.arity []
            s ← get_state
            put_state
                (record s { frames = (record { function = n; locals = args; ip = 0 }) ∷ s.frames })
            run_code f.code)
            vm
    ]
  ]
]
