-- ===== src/Vm/Engine.antt =====
-- The entry points of src/bytecode/vm.rs: `VM::new`, `dispatch_event`, `run_finish` and `run`. An
-- error leaves the frame that was pushed on the stack of frames.
use tracescript.Prelude.{
  ℕ, List, [], ◌∷◌, ◌++◌, Option, none, some, Text, codes, text_eq, map, if◌then◌else◌,
}
use tracescript.Value.{Value, Fields, Platform}
use tracescript.Result.{Result, ok, ◌>>=◌}
use tracescript.Effects.{Files}
use tracescript.Tables.{TableField, TableStore, TypeName, from_str, create}
use tracescript.Machine.{done, pure, ◌>>◌}
use tracescript.Opcode.{
  BytecodeModule, CompiledTable, CompiledEventHandler, CompiledFunction, Instr,
}
use tracescript.Vm.Exec.{run_until_return}
use tracescript.Vm.{Vm, Step}

-- `TypeName::from_str(ty).unwrap_or(TypeName::Str)`
unfoldable pub field_of_column : Text × Text → TableField
unfolding from_str
field_of_column (n, ty) = record {
  name = n;
  field_type = elim (from_str ty) [ none ↦ TypeName.str | some k ↦ k ];
}

unfoldable pub create_tables : List CompiledTable → TableStore → Result TableStore
unfolding field_of_column create
create_tables [] s = ok s
create_tables (t ∷ ts) s = create s t.name (map field_of_column t.columns) >>= create_tables ts

unfoldable pub new : BytecodeModule → Result Vm
unfolding create_tables
new m = create_tables m.tables [] >>= λ ts. ok (record {
  program = m;
  tables = ts;
  alerts = [];
  stack = [];
  frames = [];
  iterators = [];
  console = [];
})

unfoldable pub find_handler : List CompiledEventHandler → Text → Option CompiledEventHandler
find_handler [] n = none
find_handler (h ∷ hs) n =
    let later = find_handler hs n in if text_eq h.event_name n then some h else later

abbrev pop_frame : Step (Unit {0})
pop_frame vm = done tt (record vm { frames = elim vm.frames [ [] ↦ [] | f ∷ fs ↦ fs ] })

module _ (pf : Platform) (fs : Files) (fuel : ℕ) where
  -- push a frame, run the code, pop a frame
  unfoldable pub run_framed : Text → List Value → List Instr → Step (Unit {0})
  unfolding run_until_return
  run_framed n vs code vm =
      (run_until_return pf fs fuel code >> pop_frame)
        (record vm { frames = (record { function = n; locals = vs; ip = 0 }) ∷ vm.frames })

  unfoldable pub dispatch_event : Text → Fields → Step (Unit {0})
  unfolding find_handler run_framed
  dispatch_event n m vm = elim (find_handler vm.program.event_handlers n) [
    | none ↦ done tt vm
    | some h ↦ run_framed (codes "on_" ++ n) (Value.event m ∷ []) h.code vm
  ]

  run_handlers : List CompiledFunction → Step (Unit {0})
  unfolding run_framed
  run_handlers [] = pure tt
  run_handlers (h ∷ hs) = run_framed (codes "finish") [] h.code >> run_handlers hs

  unfoldable pub run_finish : Step (Unit {0})
  unfolding run_handlers
  run_finish vm = run_handlers vm.program.finish_handlers vm

  unfoldable pub run : Step (Unit {0})
  unfolding run_framed
  run vm = run_framed (codes "<entry>") [] vm.program.entry vm
