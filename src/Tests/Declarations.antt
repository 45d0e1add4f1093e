-- ===== src/Tests/Declarations.antt =====
-- A program with one table and an empty finish handler, in both engines.
use tracescript.Prelude.{◌≡◌, refl, [], ◌∷◌, some, none, codes, text_eq}
use tracescript.Error.{no_pos}
use tracescript.Result.{ok}
use tracescript.Tables.{new_table, create, get, put}
use tracescript.Syntax.{Program, Decl, Block}
use tracescript.Opcode.{Opcode, instr, BytecodeModule, current_version}
use tracescript.Interp.{Interpreter}
use tracescript.Interp.Engine.{new}
use tracescript.Vm.{Vm}
use tracescript.Vm.Engine.{new as new_vm}
use tracescript.Codegen.{compile}
use tracescript.Codegen.Declarations.{new-compile}
use tracescript.Tests.Fixtures.{hosts}

abbrev table_program : Program
table_program = record {
  declarations =
      Decl.table (record { name = codes "hosts"; fields = hosts.fields; pos = no_pos })
      ∷ Decl.finish_handler (record { body = Block.done; pos = no_pos })
      ∷ [];
}

abbrev started : Interpreter
started = record {
  tables = (codes "hosts", new_table (codes "hosts") hosts.fields) ∷ [];
  alerts = [];
  functions = [];
  event_handlers = [];
  finish_handlers = (record { body = Block.done; pos = no_pos }) ∷ [];
  source = none;
  repl_locals = [];
  console = [];
}

interpreter_made : new table_program ≡ ok started
unfolding new text_eq create get put
interpreter_made = refl

abbrev table_module : BytecodeModule
table_module = record {
  version = current_version;
  constants = [];
  functions = [];
  event_handlers = [];
  finish_handlers =
      (record { name = codes "finish"; arity = 0; locals = []; code = instr Opcode.return 0 ∷ [] })
      ∷ [];
  tables =
      (record {
        name = codes "hosts";
        columns = (codes "ip", codes "ip") ∷ (codes "hits", codes "int") ∷ [];
      })
      ∷ [];
  source_path = none;
  entry = instr Opcode.halt 0 ∷ [];
}

module_made : compile table_program ≡ some table_module
unfolding compile
module_made = refl

new-compile_example :
    (machine : Vm) × (new_vm table_module ≡ ok machine) × (machine.tables ≡ started.tables)
new-compile_example = new-compile table_program started table_module interpreter_made module_made
