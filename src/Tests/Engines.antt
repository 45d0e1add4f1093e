-- ===== src/Tests/Engines.antt =====
-- The two engines, src/interp/mod.rs and src/bytecode/, on `len(x) + 1`.
use tracescript.Prelude.Assoc
use tracescript.Prelude.{
  ℕ, ◌≡◌, ◌↔◌, refl, List, [], ◌∷◌, some, none, codes, text_eq, pos, length, Text, Bool-cases, inl,
  inr, Prefix-refl, i64_add,
}
use tracescript.Error.{no_pos}
use tracescript.Value.{Value}
use tracescript.Result.{Result, ok}
use tracescript.Effects.{Files}
use tracescript.Machine.{done, throw, out_of_fuel}
use tracescript.Syntax.{BinOp, Expr, nil, cons, Block}
use tracescript.Opcode.{Opcode, Instr}
use tracescript.Builtins.{arity, try_call}
use tracescript.Builtins.Names.{try_call-arity}
use tracescript.Interp
use tracescript.Interp.{Interpreter, Scope, Locals, eval_expr, apply_call, call_by}
use tracescript.Interp.Operators.{eval_binop}
use tracescript.Interp.Locals.{eval_expr-locals, locals_after}
use tracescript.Vm.{Vm, CallFrame, Step, next, do_call}
use tracescript.Vm.Exec.{exec_instr}
use tracescript.Codegen.{Compiler, binary_opcode, compile_expr, emit_const, find_local}
use tracescript.Codegen.Emit.{Extends, EmitsConst, compile_expr-Extends, emit_const-EmitsConst}
use tracescript.Codegen.Correct.Calls.{push_all, do_call-call_by}
use tracescript.Codegen.Correct.Steps.{at, Reaches, exec_instr-eval_binop}
use tracescript.Codegen.Correct.Exprs.{Direct, Agrees, compile_expr-eval_expr}
use tracescript.Tests.Fixtures.{test_platform, test_store}

abbrev pub no_files : Files
no_files = record { write_csv = λ path t. none; write_json = λ path t. none }

abbrev pub x_name : Text
x_name = codes "x"

abbrev pub word : Value
word = Value.str (codes "ab")

abbrev pub len_plus_one : Expr
len_plus_one =
    Expr.binary (Expr.call (codes "len") (cons (Expr.identifier x_name) nil) no_pos) BinOp.add
      (Expr.integer (pos 1)) no_pos

abbrev interp : Interpreter
interp = record {
  tables = test_store;
  alerts = [];
  functions = [];
  event_handlers = [];
  finish_handlers = [];
  source = none;
  repl_locals = [];
  console = [];
}

abbrev pub scope : Scope
scope = record { interp = interp; locals = (x_name, word) ∷ [] }

abbrev pub empty_compiler : Compiler
empty_compiler = record { code = []; locals = x_name ∷ []; constants = [] }

abbrev compiled : Compiler
compiled = compile_expr len_plus_one empty_compiler

abbrev pub vm : Vm
vm = record {
  program = record {
    version = 1;
    constants = compiled.constants;
    functions = [];
    event_handlers = [];
    finish_handlers = [];
    tables = [];
    source_path = none;
    entry = [];
  };
  tables = test_store;
  alerts = [];
  stack = [];
  frames = [];
  iterators = [];
  console = [];
}

abbrev pub frame : CallFrame
frame = record { function = codes "f"; locals = word ∷ []; ip = 0 }

pub one_variable : (x : Text) (v : Value) → Agrees (x ∷ []) ((x, v) ∷ []) (v ∷ [])
unfolding Assoc.lookup find_local
one_variable x v y w h = elim (Bool-cases (text_eq x y)) [
  | inl e ↦ (0, rw e refl, rw e at h)
  | inr e ↦ absurd (let n : none ≡ some w = (rw e at h) in cc)
]

evaluated :
    eval_expr test_platform (apply_call test_platform no_files 2) len_plus_one no_pos scope
    ≡ done (Value.int (pos 3)) scope
unfolding eval_expr apply_call call_by eval_binop text_eq Assoc.lookup i64_add
evaluated = refl

pub only_builtins : Direct len_plus_one
unfolding Direct arity text_eq
only_builtins = ((refl, (tt, tt)), tt)

compile_expr-eval_expr_example :
    (scope ≡ scope)
    × Reaches test_platform no_files compiled.code
        (at vm frame [] 0 [] test_store)
        (at vm frame [] (length compiled.code) (Value.int (pos 3) ∷ []) test_store)
compile_expr-eval_expr_example =
    compile_expr-eval_expr test_platform no_files 2 len_plus_one no_pos (Value.int (pos 3)) scope
      scope empty_compiler compiled.code vm frame [] [] only_builtins (one_variable x_name word)
      (record {
        code = Prefix-refl compiled.code;
        constants = Prefix-refl compiled.constants;
        locals = (compile_expr-Extends len_plus_one empty_compiler).locals;
      })
      evaluated

eval_expr-locals_example :
    locals_after
      (eval_expr test_platform (apply_call test_platform no_files 2) len_plus_one no_pos scope)
    ≡ scope.locals
eval_expr-locals_example = eval_expr-locals test_platform no_files 2 len_plus_one no_pos scope

abbrev no_code : List Instr → Step (Unit {0})
no_code is = throw out_of_fuel

added :
    eval_binop test_platform BinOp.add (Value.int (pos 2)) (Value.int (pos 3)) no_pos
    ≡ ok (Value.int (pos 5))
unfolding eval_binop i64_add
added = refl

exec_instr-eval_binop_example :
    exec_instr test_platform no_files no_code []
      (binary_opcode BinOp.add)
      0
      (at vm frame [] 1 (Value.int (pos 3) ∷ Value.int (pos 2) ∷ []) test_store)
    ≡ done next (at vm frame [] 1 (Value.int (pos 5) ∷ []) test_store)
exec_instr-eval_binop_example =
    exec_instr-eval_binop test_platform no_files [] vm frame [] BinOp.add no_code 1 no_pos
      (Value.int (pos 2)) (Value.int (pos 3)) (Value.int (pos 5)) [] test_store added

compile_expr-Extends_example : Extends empty_compiler compiled
compile_expr-Extends_example = compile_expr-Extends len_plus_one empty_compiler

emit_const-EmitsConst_example :
    EmitsConst Opcode.load_const word empty_compiler
      (emit_const Opcode.load_const word empty_compiler)
emit_const-EmitsConst_example = emit_const-EmitsConst Opcode.load_const word empty_compiler

len_arity : arity (codes "len") ≡ some 1
unfolding arity text_eq
len_arity = refl

try_call-arity_example :
    ((k : ℕ) × (arity (codes "len") ≡ some k))
    ↔ ((r : Result Value) × (try_call test_platform (codes "len") [] ≡ some r))
try_call-arity_example = try_call-arity test_platform (codes "len") []

abbrev no_body : Block → Interp.Step (Unit {0})
no_body b = throw out_of_fuel

called :
    call_by test_platform no_body (codes "len") (word ∷ []) no_pos scope
    ≡ done (Value.int (pos 2)) scope
unfolding call_by text_eq
called = refl

do_call-call_by_example :
    (scope ≡ scope)
    × (do_call test_platform
          (λ code. throw out_of_fuel)
          (codes "len")
          (at vm frame [] 1 (push_all (word ∷ []) []) test_store)
        ≡ done tt (at vm frame [] 1 (Value.int (pos 2) ∷ []) test_store))
do_call-call_by_example =
    do_call-call_by vm frame [] 1 test_store test_platform no_body (λ code. throw out_of_fuel)
      (codes "len") (word ∷ []) [] (Value.int (pos 2)) no_pos scope scope len_arity called
