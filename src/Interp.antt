-- ===== src/Interp.antt =====
-- src/interp/mod.rs: the tree-walking interpreter. A method takes the interpreter and the variables
-- of the running block, and gives them back changed, also where it fails. `eval_expr` and the
-- statements take the way to call a function as an argument; `apply_call` ties the knot, with the
-- depth of calls as its fuel.
pub mod Operators
pub mod Access
pub mod Engine
pub mod Locals
pub mod Cells
pub mod Validity
pub mod Invariant
use tracescript.Prelude.Assoc
use tracescript.Prelude.{
  ℕ, zero, suc, ◌≡◌, Bool, true, false, List, [], ◌∷◌, ◌++◌, Option, none, some, Text, codes,
  text_eq, length, get_elem?, set, ◌==◌, if◌then◌else◌, ℤ, pos, negsuc,
}
use tracescript.Error.{SourcePos}
use tracescript.Value.{
  Value, Row, Fields, Message, TraceError, runtime, return_signal, Platform, is_truthy, to_string,
  as_str, get_field, type_name, row_to_string, bad_index, unknown_table, row_out_of_range,
  unknown_field, undefined_identifier, undefined_variable, undefined_function, no_such_event_field,
  no_field_access, count_needs_name, wrong_arity,
}
use tracescript.Result.{Result, ok, err, panic, or_panic}
use tracescript.Tables.{Table, TableStore, get, put, position, create}
use tracescript.Tables
use tracescript.Host
use tracescript.Effects.{Output, Files, printed, alerted, told, show_table, export_table}
use tracescript.Machine.{
  Stop, raised, panicked, out_of_fuel, Ran, done, stop, Run, pure, ◌>>=◌, ◌>>◌, get_state,
  put_state, throw, lift,
}
use tracescript.Syntax.{
  BinOp, UnOp, Expr, Exprs, nil, cons, Stmt, Block, Else, no_else, else_, then_, Decl, Program,
  FunctionDecl, EventHandlerDecl, FinishHandlerDecl,
}
use tracescript.Builtins.{try_call}
use tracescript.Interp.Operators.{eval_binop, eval_unop, fail_at}
use tracescript.Interp.Access.{
  read_field, row_index, index_table, ok_or_at, at_pos, assign_cell, host_of, host_call,
}

abbrev pub Locals : Type 0
Locals = List (Text × Value)

pub record Interpreter : Type 0 where
  pub tables : TableStore
  pub alerts : List (List Value)
  pub functions : List (Text × FunctionDecl)
  pub event_handlers : List (Text × EventHandlerDecl)
  pub finish_handlers : List FinishHandlerDecl
  pub source : Option Text
  pub repl_locals : Locals
  pub console : List Output

-- `&mut self` and `locals`
pub record Scope : Type 0 where
  pub interp : Interpreter
  pub locals : Locals

abbrev pub Step : Type 0 → Type 0
Step = Run Scope

abbrev pub Caller : Type 0
Caller = Text → List Value → SourcePos → Step Value

module _ (pf : Platform) (call : Caller) where
  unfoldable mutual
    unfolding eval_binop eval_unop read_field row_index index_table

    pub eval_expr : Expr → SourcePos → Step Value
    eval_expr (Expr.integer n) p = pure (Value.int n)
    eval_expr (Expr.float n) p = pure (Value.float n)
    eval_expr (Expr.str s) p = pure (Value.str s)
    eval_expr (Expr.bool b) p = pure (Value.bool b)
    eval_expr (Expr.identifier n) p = do
      s ← get_state
      lift (ok_or_at p (Assoc.lookup s.locals n) (undefined_identifier n))
    eval_expr (Expr.binary l op r q) p = do
      a ← eval_expr l q
      b ← eval_expr r q
      lift (eval_binop pf op a b q)
    eval_expr (Expr.unary op e q) p = do v ← eval_expr e q; lift (eval_unop pf op v q)
    eval_expr (Expr.call n args q) p = do vs ← eval_exprs args q; call n vs q
    eval_expr (Expr.field_access e f q) p = do v ← eval_expr e q; lift (read_field v f q)
    eval_expr (Expr.index tbl e q) p = do
      v ← eval_expr e q
      i ← lift (row_index tbl v q)
      s ← get_state
      lift (index_table pf s.interp.tables tbl i q)

    -- the loops over argument lists
    pub eval_exprs : Exprs → SourcePos → Step (List Value)
    eval_exprs nil p = pure []
    eval_exprs (cons e es) p = do v ← eval_expr e p; vs ← eval_exprs es p; pure (v ∷ vs)

abbrev set_local : Text → Value → Step (Unit {0})
set_local x v = do s ← get_state; put_state (record s { locals = Assoc.insert s.locals x v })

abbrev set_tables : TableStore → Step (Unit {0})
set_tables ts = do
  s ← get_state
  put_state (record s { interp = record (s.interp) { tables = ts } })

abbrev emit : Output → Step (Unit {0})
emit o = do
  s ← get_state
  put_state (record s { interp = record (s.interp) { console = s.interp.console ++ o ∷ [] } })

-- `self.alerts.push(..)` and the line on stderr
abbrev raise_alert : List Value → Step (Unit {0})
raise_alert vs = do
  s ← get_state
  put_state (record s { interp = record (s.interp) { alerts = s.interp.alerts ++ vs ∷ [] } })
  emit (alerted vs)

-- `assign to undefined variable`
abbrev check_defined : Text → SourcePos → Step (Unit {0})
check_defined x p s = elim (Assoc.lookup s.locals x) [
  | none ↦ stop (raised (runtime (undefined_variable x) (some p))) s
  | some v ↦ done tt s
]

-- the loop of `Stmt::For` over the snapshot
unfoldable pub for_rows : Platform → Step (Unit {0}) → Text → List Row → Step (Unit {0})
for_rows pf body x [] = pure tt
for_rows pf body x (row ∷ rows) = do
  set_local x (Value.str (row_to_string pf row))
  body
  for_rows pf body x rows

-- the rows that `Stmt::For` clones
abbrev snapshot : TableStore → Text → SourcePos → Result (List Row)
snapshot s tbl p = elim (get s tbl) [ none ↦ fail_at p (unknown_table tbl) | some t ↦ ok t.rows ]

module _ (pf : Platform) (fs : Files) (call : Caller) where
  unfoldable mutual
    unfolding eval_expr assign_cell for_rows

    pub exec_stmt : Stmt → Step (Unit {0})
    exec_stmt (Stmt.let_ x e p) = do v ← eval_expr pf call e p; set_local x v
    exec_stmt (Stmt.assign x e p) = do v ← eval_expr pf call e p; check_defined x p; set_local x v
    exec_stmt (Stmt.index_assign tbl ix f e p) = do
      iv ← eval_expr pf call ix p
      i ← lift (row_index tbl iv p)
      v ← eval_expr pf call e p
      s ← get_state
      ts ← lift (assign_cell s.interp.tables tbl i f v p)
      set_tables ts
    exec_stmt (Stmt.if_ c t e p) = do
      let taken = exec_block t
      let orelse = exec_else e
      v ← eval_expr pf call c p
      if is_truthy pf v then taken else orelse
    exec_stmt (Stmt.for_ x tbl b p) = do
      let body = exec_block b
      s ← get_state
      rows ← lift (snapshot s.interp.tables tbl p)
      for_rows pf body x rows
    exec_stmt (Stmt.insert tbl es p) = do
      row ← eval_exprs pf call es p
      s ← get_state
      ts ← lift (at_pos p (Tables.insert s.interp.tables tbl row))
      set_tables ts
    exec_stmt (Stmt.alert es p) = do vs ← eval_exprs pf call es p; raise_alert vs
    exec_stmt (Stmt.show tbl p) = do
      s ← get_state
      o ← lift (at_pos p (show_table s.interp.tables tbl))
      emit o
    exec_stmt (Stmt.export tbl path p) = do
      s ← get_state
      o ← lift (at_pos p (export_table pf fs s.interp.tables tbl path))
      emit o
      emit (told tbl path)
    exec_stmt (Stmt.print e p) = do v ← eval_expr pf call e p; emit (printed (to_string pf v))
    exec_stmt (Stmt.call_stmt n args p) = do
      vs ← eval_exprs pf call args p
      v ← call n vs p
      pure tt
    exec_stmt (Stmt.return none p) = throw (raised (return_signal none))
    exec_stmt (Stmt.return (some e) p) = do
      v ← eval_expr pf call e p
      throw (raised (return_signal (some v)))

    pub exec_block : Block → Step (Unit {0})
    exec_block Block.done = pure tt
    exec_block (then_ c b) = do exec_stmt c; exec_block b

    exec_else : Else → Step (Unit {0})
    exec_else no_else = pure tt
    exec_else (else_ b) = exec_block b

-- `frame.insert(p, v)` for each parameter and value
unfoldable pub bind_params : List Text → List Value → Locals → Locals
bind_params (x ∷ xs) (v ∷ vs) m = bind_params xs vs (Assoc.insert m x v)
bind_params _ _ m = m

-- the `match` on what the body gave; the variables of the caller come back
unfoldable pub end_call : Locals → Ran Scope (Unit {0}) → Ran Scope Value
end_call old (done u s) = done Value.unit (record s { locals = old })
end_call old (stop (raised (return_signal none)) s) = done Value.unit (record s { locals = old })
end_call old (stop (raised (return_signal (some v))) s) = done v (record s { locals = old })
end_call old (stop e s) = stop e (record s { locals = old })

-- a user function: the arity check, the frame, the body
unfoldable pub run_function :
    (Block → Step (Unit {0})) → FunctionDecl → List Value → SourcePos → Step Value
unfolding bind_params end_call
run_function body f vs p s =
    if length f.params == length vs
    then end_call s.locals (body f.body (record s { locals = bind_params f.params vs [] }))
    else stop (raised (runtime (wrong_arity f.name (length f.params) (length vs)) (some p))) s

-- `eval_call` behind the arguments
unfoldable pub call_by : Platform → (Block → Step (Unit {0})) → Caller
unfolding run_function host_call try_call
call_by pf body n vs p s = elim (try_call pf n vs) [
  | some r ↦ lift r s
  | none ↦ elim (host_of n) [
    | some h ↦ elim (host_call pf h s.interp.tables vs p) [
      | ok (v, ts) ↦ done v (record s { interp = record (s.interp) { tables = ts } })
      | err e ↦ stop (raised e) s
      | panic ↦ stop panicked s
    ]
    | none ↦ elim (Assoc.lookup s.interp.functions n) [
      | none ↦ stop (raised (runtime (undefined_function n) (some p))) s
      | some f ↦ run_function body f vs p s
    ]
  ]
]

-- Calls nested deeper than the fuel stop by `out_of_fuel`.
unfoldable pub apply_call : Platform → Files → ℕ → Caller
unfolding call_by exec_stmt
apply_call pf fs zero = call_by pf (λ b. throw out_of_fuel)
apply_call pf fs (suc d) = call_by pf (exec_block pf fs (apply_call pf fs d))
