-- ===== src/Tests/Sema.antt =====
-- Programs that src/sema.rs accepts and refuses; the refused ones are those of its own tests.
use tracescript.Prelude.{some, ◌≡◌, refl, ◌↔◌, [], ◌∷◌, ℤ, codes, text_eq}
use tracescript.Prelude.Assoc.{lookup, insert}
use tracescript.Error.{no_pos}
use tracescript.Value.{semantic, insert_arity, unknown_table, undefined_function}
use tracescript.Result.{ok, err}
use tracescript.Syntax.{Program, Decl, Block, then_, Stmt, Expr, Exprs, nil, cons, count_args}
use tracescript.Opcode.{BytecodeModule}
use tracescript.Interp.{Interpreter}
use tracescript.Interp.Engine.{new as new_interpreter}
use tracescript.Codegen.{compile}
use tracescript.Vm.{Vm}
use tracescript.Vm.Engine.{new as new_vm}
use tracescript.Sema.{analyze, new}
use tracescript.Sema.Accepts.{IsAccepted, analyze-IsAccepted}
use tracescript.Sema.Start.{analyze-new}
use tracescript.Tests.Fixtures.{hosts}

abbrev pcap : Decl
pcap = Decl.source (record { source_type = codes "pcap"; path = codes "x.pcap"; pos = no_pos })

abbrev hosts_table : Decl
hosts_table = Decl.table (record { name = codes "hosts"; fields = hosts.fields; pos = no_pos })

abbrev on_event : Stmt → Decl
on_event c = Decl.event_handler (record {
  event_name = codes "e";
  param_name = codes "x";
  body = then_ c Block.done;
  pos = no_pos;
})

abbrev insert_host : Exprs → Stmt
insert_host es = Stmt.insert (codes "hosts") es no_pos

abbrev one_value : Exprs
one_value = cons (Expr.str (codes "a")) nil

abbrev good : Program
good = record {
  declarations =
      pcap
      ∷ hosts_table
      ∷ on_event
          (insert_host (cons (Expr.identifier (codes "x")) (cons (Expr.integer (ℤ.pos 1)) nil)))
      ∷ [];
}

no_errors : (analyze new good).0 ≡ ok tt
unfolding analyze lookup insert text_eq count_args
no_errors = refl

wrong_insert_arity :
    (analyze new (record { declarations = hosts_table ∷ on_event (insert_host one_value) ∷ [] })).0
    ≡ err (semantic (insert_arity (codes "hosts") 2 1) no_pos)
unfolding analyze lookup insert text_eq count_args
wrong_insert_arity = refl

unknown_table_refused :
    (analyze new (record { declarations = on_event (insert_host one_value) ∷ [] })).0
    ≡ err (semantic (unknown_table (codes "hosts")) no_pos)
unfolding analyze lookup
unknown_table_refused = refl

undefined_function_refused :
    (analyze new
      (record { declarations = on_event (Stmt.call_stmt (codes "missing") nil no_pos) ∷ [] })).0
    ≡ err (semantic (undefined_function (codes "missing")) no_pos)
unfolding analyze lookup text_eq
undefined_function_refused = refl

analyze-IsAccepted_example : ((analyze new good).0 ≡ ok tt) ↔ IsAccepted good
analyze-IsAccepted_example = analyze-IsAccepted good

analyze-new_example :
    (i : Interpreter) × (m : BytecodeModule) × (vm : Vm) × (new_interpreter good ≡ ok i)
    × (compile good ≡ some m)
    × (new_vm m ≡ ok vm)
    × (vm.tables ≡ i.tables)
analyze-new_example = analyze-new good no_errors
