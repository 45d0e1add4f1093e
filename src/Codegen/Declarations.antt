-- ===== src/Codegen/Declarations.antt =====
-- The tables of a program in the two engines: `Interpreter::new` of src/interp/mod.rs against
-- `compile` of src/bytecode/codegen.rs with `VM::new` of src/bytecode/vm.rs.
use mathlib.Core.List.{append-nil, append_assoc}
use tracescript.Prelude.{
  ◌≡◌, refl, sym, ap, ◌∙◌, false, List, [], ◌∷◌, ◌++◌, Option, none, some, Text, map, Bool-cases,
  inl, inr, text_eq,
}
use tracescript.Result.{Result, ok, err, panic}
use tracescript.Tables.{TableField, TableStore, TypeName, from_str, as_str, create}
use tracescript.Syntax.{Decl, Program, TableDecl}
use tracescript.Opcode.{BytecodeModule, CompiledTable}
use tracescript.Interp.{Interpreter}
use tracescript.Interp.Engine.{declare, declare_all, new as new_interpreter}
use tracescript.Codegen.{compile_decl, compile_decls, has_second_source, compile}
use tracescript.Vm.{Vm}
use tracescript.Vm.Engine.{field_of_column, create_tables, new as new_vm}

from_str-as_str : (k : TypeName) → from_str (as_str k) ≡ some k
unfolding from_str as_str text_eq
from_str-as_str TypeName.int = refl
from_str-as_str TypeName.float = refl
from_str-as_str TypeName.str = refl
from_str-as_str TypeName.bool = refl
from_str-as_str TypeName.time = refl
from_str-as_str TypeName.ip = refl

abbrev column : TableField → Text × Text
column f = (f.name, as_str f.field_type)

field_of_column-column : (f : TableField) → field_of_column (column f) ≡ f
unfolding field_of_column
field_of_column-column f = rw (from_str-as_str f.field_type) refl

map-column : (fs : List TableField) → map field_of_column (map column fs) ≡ fs
map-column [] = refl
map-column (f ∷ fs) = rw (field_of_column-column f, map-column fs) refl

-- what a declaration adds to the tables of the module
tables_of : Decl → List CompiledTable
tables_of (Decl.table t) = (record { name = t.name; columns = map column t.fields }) ∷ []
tables_of _ = []

compile_decl-tables :
    (d : Decl) (m : BytecodeModule) → (compile_decl d m).tables ≡ m.tables ++ tables_of d
unfolding compile_decl tables_of
compile_decl-tables (Decl.table t) m = refl
compile_decl-tables (Decl.source s) m = sym (append-nil m.tables)
compile_decl-tables (Decl.function f) m = sym (append-nil m.tables)
compile_decl-tables (Decl.event_handler h) m = sym (append-nil m.tables)
compile_decl-tables (Decl.finish_handler f) m = sym (append-nil m.tables)

all_tables_of : List Decl → List CompiledTable
all_tables_of [] = []
all_tables_of (d ∷ ds) = tables_of d ++ all_tables_of ds

compile_decls-tables :
    (ds : List Decl) (m : BytecodeModule)
    → (compile_decls ds m).tables ≡ m.tables ++ all_tables_of ds
unfolding compile_decls all_tables_of
compile_decls-tables [] m = sym (append-nil m.tables)
compile_decls-tables (d ∷ ds) m =
    compile_decls-tables ds (compile_decl d m)
    ∙ ap (λ ts. ts ++ all_tables_of ds) (compile_decl-tables d m)
    ∙ append_assoc m.tables (tables_of d) (all_tables_of ds)

abbrev tables_in : Result Interpreter → TableStore
tables_in (ok i) = i.tables
tables_in (err e) = []
tables_in panic = []

-- what an error passed on in a loop was not
passed_on_inv :
    {A B : Type 0} (r : Result A) (k : A → Result B) {b : B}
    → (elim r [ ok a ↦ k a | err e ↦ err e | panic ↦ panic ]) ≡ ok b
    → (a : A) × (r ≡ ok a) × (k a ≡ ok b)
passed_on_inv (ok a) k h = (a, refl, h)
passed_on_inv (err e) k h = cc
passed_on_inv panic k h = cc

create-declare :
    (t : TableDecl) (i i' : Interpreter)
    → declare i (Decl.table t) ≡ ok i'
    → create i.tables t.name t.fields ≡ ok i'.tables
unfolding declare
create-declare t i i' h =
    let (ts, e, g) = passed_on_inv (create i.tables t.name t.fields) _ h in
    e ∙ ap ok (ap tables_in g)

create_tables-declare :
    (d : Decl) (i i' : Interpreter) (ts : List CompiledTable)
    → declare i d ≡ ok i'
    → create_tables (tables_of d ++ ts) i.tables ≡ create_tables ts i'.tables
unfolding declare tables_of create_tables
create_tables-declare (Decl.table t) i i' ts h =
    rw (map-column t.fields, create-declare t i i' h) refl
create_tables-declare (Decl.source s) i i' ts h = ap (create_tables ts) (ap tables_in h)
create_tables-declare (Decl.function f) i i' ts h = ap (create_tables ts) (ap tables_in h)
create_tables-declare (Decl.event_handler e) i i' ts h = ap (create_tables ts) (ap tables_in h)
create_tables-declare (Decl.finish_handler f) i i' ts h = ap (create_tables ts) (ap tables_in h)

create_tables-declare_all :
    (ds : List Decl) (i i' : Interpreter)
    → declare_all i ds ≡ ok i'
    → create_tables (all_tables_of ds) i.tables ≡ ok i'.tables
unfolding declare_all all_tables_of create_tables
create_tables-declare_all [] i i' h = ap ok (ap tables_in h)
create_tables-declare_all (d ∷ ds) i i' h =
    let (j, e, g) = passed_on_inv (declare i d) (λ j. declare_all j ds) h in
    create_tables-declare d i j (all_tables_of ds) e ∙ create_tables-declare_all ds j i' g

compile-tables :
    (p : Program) (m : BytecodeModule)
    → compile p ≡ some m
    → m.tables ≡ all_tables_of p.declarations
unfolding compile
compile-tables p m h = elim (Bool-cases (has_second_source false p.declarations)) [
  | inl e ↦ absurd (let b : none ≡ some m = (rw e at h) in cc)
  | inr e ↦
      let b : some _ ≡ some m = (rw e at h) in
      ap (λ (o : Option BytecodeModule). elim o [ none ↦ [] | some n ↦ n.tables ]) (sym b)
      ∙ compile_decls-tables p.declarations _
]

-- For a program from which the interpreter can be made, and which compiles, the VM can be made from the
-- module, and it starts with the tables that the interpreter starts with.
pub new-compile :
    (p : Program) (i : Interpreter) (m : BytecodeModule)
    → new_interpreter p ≡ ok i
    → compile p ≡ some m
    → (vm : Vm) × (new_vm m ≡ ok vm) × (vm.tables ≡ i.tables)
unfolding new_interpreter new_vm
new-compile p i m h c =
    let e : create_tables m.tables [] ≡ ok i.tables =
      ap (λ ts. create_tables ts []) (compile-tables p m c)
      ∙ create_tables-declare_all p.declarations _ i h in
    let vm : Vm = record {
      program = m;
      tables = i.tables;
      alerts = [];
      stack = [];
      frames = [];
      iterators = [];
      console = [];
    } in
    (vm, rw e refl, refl)
