-- ===== src/Tests/Let.antt =====
-- `let y = len(x) + 1` in the two engines.
use tracescript.Prelude.Assoc
use tracescript.Prelude.{
  ◌≡◌, refl, [], ◌∷◌, List, codes, text_eq, pos, length, Text, i64_add, Prefix-refl,
}
use tracescript.Error.{no_pos}
use tracescript.Value.{Value}
use tracescript.Machine.{done}
use tracescript.Syntax.{Expr, cons, nil, Stmt, Block, then_}
use tracescript.Interp.Validity.{HasValidTables, scope_after}
use tracescript.Interp.Invariant.{exec_block-IsValid}
use tracescript.Tests.Tables.{test_store-IsValid}
use tracescript.Interp.{Scope, exec_stmt, exec_block, apply_call, call_by}
use tracescript.Interp.Operators.{eval_binop}
use tracescript.Vm.{Vm}
use tracescript.Codegen.{Compiler, compile_stmt}
use tracescript.Codegen.Correct.Steps.{at, Reaches}
use tracescript.Codegen.Correct.Exprs.{Agrees}
use tracescript.Codegen.Correct.Stmts.{compile_stmt-exec_let}
use tracescript.Tests.Fixtures.{test_platform, test_store}
use tracescript.Tests.Engines.{
  no_files, x_name, word, len_plus_one, scope, empty_compiler, vm, frame, one_variable,
  only_builtins,
}

abbrev y_name : Text
y_name = codes "y"

abbrev let_y : Stmt
let_y = Stmt.let_ y_name len_plus_one no_pos

abbrev compiled_let : Compiler
compiled_let = compile_stmt let_y empty_compiler

abbrev vm_let : Vm
vm_let = record vm { program = record (vm.program) { constants = compiled_let.constants } }

abbrev scope_with_y : Scope
scope_with_y = record scope { locals = (x_name, word) ∷ (y_name, Value.int (pos 3)) ∷ [] }

executed :
    exec_stmt test_platform no_files (apply_call test_platform no_files 2) let_y scope
    ≡ done tt scope_with_y
unfolding exec_stmt apply_call call_by eval_binop text_eq Assoc.lookup Assoc.insert i64_add
executed = refl

compile_stmt-exec_let_example :
    (v : Value) × (vs : List Value) × (scope_with_y
      ≡ record scope { locals = Assoc.insert scope.locals y_name v })
    × Agrees compiled_let.locals scope_with_y.locals vs
    × Reaches test_platform no_files compiled_let.code
        (at vm_let frame [] 0 [] test_store)
        (at vm_let (record frame { locals = vs }) [] (length compiled_let.code) (v ∷ []) test_store)
compile_stmt-exec_let_example =
    compile_stmt-exec_let test_platform no_files 2 y_name len_plus_one no_pos scope scope_with_y
      empty_compiler compiled_let.code vm_let frame [] [] only_builtins (one_variable x_name word)
      (Prefix-refl compiled_let.code) (Prefix-refl compiled_let.constants) executed

abbrev let_and_insert : Block
let_and_insert = then_ let_y (
    then_
      (Stmt.insert (codes "hosts") (cons (Expr.str y_name) (cons (Expr.integer (pos 1)) nil))
        no_pos)
      Block.done)

exec_block-IsValid_example : HasValidTables (
    scope_after (
      exec_block test_platform no_files (apply_call test_platform no_files 2) let_and_insert scope))
exec_block-IsValid_example =
    exec_block-IsValid test_platform no_files 2 let_and_insert scope test_store-IsValid
