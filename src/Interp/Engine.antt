-- ===== src/Interp/Engine.antt =====
-- `Interpreter::new`, `dispatch_event`, `run_finish` and the REPL block of src/interp/mod.rs.
use tracescript.Prelude.Assoc
use tracescript.Prelude.{ℕ, List, [], ◌∷◌, ◌++◌, Option, none, some, Text}
use tracescript.Value.{Value, Fields, to_string, Platform}
use tracescript.Result.{Result, ok, err, panic}
use tracescript.Tables.{create}
use tracescript.Effects.{Files, printed}
use tracescript.Machine.{done, stop, Run, pure, ◌>>=◌, ◌>>◌, get_state, put_state}
use tracescript.Syntax.{Stmt, Block, then_, Decl, Program, FinishHandlerDecl}
use tracescript.Interp.{Interpreter, Step, Locals, eval_expr, exec_stmt, exec_block, apply_call}

abbrev pub empty : Interpreter
empty = record {
  tables = [];
  alerts = [];
  functions = [];
  event_handlers = [];
  finish_handlers = [];
  source = none;
  repl_locals = [];
  console = [];
}

-- one round of the loop of `Interpreter::new`
unfoldable pub declare : Interpreter → Decl → Result Interpreter
declare i (Decl.source s) = ok (record i { source = some s.path })
declare i (Decl.table t) = elim (create i.tables t.name t.fields) [
  | ok ts ↦ ok (record i { tables = ts })
  | err e ↦ err e
  | panic ↦ panic
]
declare i (Decl.function f) = ok (record i { functions = Assoc.insert i.functions f.name f })
declare i (Decl.event_handler h) =
    ok (record i { event_handlers = Assoc.insert i.event_handlers h.event_name h })
declare i (Decl.finish_handler f) = ok (record i { finish_handlers = i.finish_handlers ++ f ∷ [] })

unfoldable pub declare_all : Interpreter → List Decl → Result Interpreter
unfolding declare
declare_all i [] = ok i
declare_all i (d ∷ ds) = elim (declare i d) [
  | ok i' ↦ declare_all i' ds
  | err e ↦ err e
  | panic ↦ panic
]

unfoldable pub new : Program → Result Interpreter
unfolding declare_all
new p = declare_all empty p.declarations

module _ (pf : Platform) (fs : Files) (fuel : ℕ) where
  -- a body over variables of its own
  unfoldable pub run_body : Block → Locals → Run Interpreter (Unit {0})
  unfolding exec_block
  run_body b m i =
      elim (exec_block pf fs (apply_call pf fs fuel) b (record { interp = i; locals = m })) [
        | done u s ↦ done tt s.interp
        | stop e s ↦ stop e s.interp
      ]

  -- An event that no handler names changes nothing.
  unfoldable pub dispatch_event : Text → Fields → Run Interpreter (Unit {0})
  unfolding run_body
  dispatch_event n m i = elim (Assoc.lookup i.event_handlers n) [
    | none ↦ done tt i
    | some h ↦ run_body h.body ((h.param_name, Value.event m) ∷ []) i
  ]

  run_handlers : List FinishHandlerDecl → Run Interpreter (Unit {0})
  unfolding run_body
  run_handlers [] = pure tt
  run_handlers (h ∷ hs) = run_body h.body [] >> run_handlers hs

  unfoldable pub run_finish : Run Interpreter (Unit {0})
  unfolding run_handlers
  run_finish i = run_handlers i.finish_handlers i

  -- `exec_stmt_with_return`
  unfoldable pub exec_stmt_with_return : Stmt → Step (Option Value)
  unfolding exec_stmt
  exec_stmt_with_return (Stmt.let_ x e p) = do
    v ← eval_expr pf (apply_call pf fs fuel) e p
    s ← get_state
    put_state (record s { locals = Assoc.insert s.locals x v })
    pure (some v)
  exec_stmt_with_return (Stmt.assign x e p) = do
    v ← eval_expr pf (apply_call pf fs fuel) e p
    s ← get_state
    put_state (record s { locals = Assoc.insert s.locals x v })
    pure (some v)
  exec_stmt_with_return (Stmt.print e p) = do
    v ← eval_expr pf (apply_call pf fs fuel) e p
    s ← get_state
    put_state (record s {
      interp = record (s.interp) { console = s.interp.console ++ printed (to_string pf v) ∷ [] };
    })
    pure (some v)
  exec_stmt_with_return (Stmt.return none p) = pure (some Value.unit)
  exec_stmt_with_return (Stmt.return (some e) p) = do
    v ← eval_expr pf (apply_call pf fs fuel) e p
    pure (some v)
  exec_stmt_with_return other = do exec_stmt pf fs (apply_call pf fs fuel) other; pure none

  repl_loop : Block → Value → Step Value
  unfolding exec_stmt_with_return
  repl_loop Block.done last = pure last
  repl_loop (then_ c b) last = do
    r ← exec_stmt_with_return c
    repl_loop b (elim r [ none ↦ last | some v ↦ v ])

  -- The variables are saved whether the block succeeds or fails.
  unfoldable pub eval_repl_block : Block → Run Interpreter Value
  unfolding repl_loop
  eval_repl_block b i =
      elim (repl_loop b Value.unit (record { interp = i; locals = i.repl_locals })) [
        | done v s ↦ done v (record (s.interp) { repl_locals = s.locals })
        | stop e s ↦ stop e (record (s.interp) { repl_locals = s.locals })
      ]
