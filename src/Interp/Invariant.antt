-- ===== src/Interp/Invariant.antt =====
-- The invariant of the tables over the statements of src/interp/mod.rs.
use tracescript.Prelude.Assoc
use tracescript.Prelude.{
  ℕ, zero, suc, List, [], ◌∷◌, none, some, Text, Bool, true, false, if◌then◌else◌,
}
use tracescript.Error.{SourcePos}
use tracescript.Value.{Value, Row, Platform, is_truthy}
use tracescript.Tables.{insert}
use tracescript.Tables.Laws.{insert-IsValid}
use tracescript.Effects.{Files, show_table, export_table}
use tracescript.Machine.{out_of_fuel, throw}
use tracescript.Syntax.{Expr, Exprs, nil, cons, Stmt, Block, then_, Else, no_else, else_}
use tracescript.Interp.Operators.{eval_binop, eval_unop}
use tracescript.Interp.Access.{ok_or_at, read_field, row_index, index_table, at_pos, assign_cell}
use tracescript.Interp.Cells.{assign_cell-IsValid}
use tracescript.Interp.Validity.{
  HasValidTables, scope_after, KeepsValid, bind-Sound, Option-Sound, lift-KeepsValid, store-Sound,
  at_pos-IsValid, call_by-KeepsValid,
}
use tracescript.Interp.{
  Scope, Step, Caller, eval_expr, eval_exprs, exec_stmt, exec_block, exec_else, for_rows, snapshot,
  apply_call,
}

for_rows-KeepsValid :
    (pf : Platform) (body : Step (Unit {0})) (x : Text)
    → KeepsValid body
    → (rows : List Row) → KeepsValid (for_rows pf body x rows)
unfolding for_rows
for_rows-KeepsValid pf body x h [] s v = record { valid = v }
for_rows-KeepsValid pf body x h (row ∷ rows) s v =
    bind-Sound _ _ (h _ v) (λ u. for_rows-KeepsValid pf body x h rows)

if-KeepsValid :
    (b : Bool) (m n : Step (Unit {0}))
    → KeepsValid m
    → KeepsValid n
    → KeepsValid (if b then m else n)
if-KeepsValid true m n h k = h
if-KeepsValid false m n h k = k

module _ (pf : Platform) (fs : Files) (call : Caller)
    (calls : (n : Text) (vs : List Value) (p : SourcePos) → KeepsValid (call n vs p)) where
  mutual
    unfolding eval_expr

    expr_keeps : (e : Expr) (p : SourcePos) → KeepsValid (eval_expr pf call e p)
    expr_keeps (Expr.integer n) p s v = record { valid = v }
    expr_keeps (Expr.float n) p s v = record { valid = v }
    expr_keeps (Expr.str n) p s v = record { valid = v }
    expr_keeps (Expr.bool n) p s v = record { valid = v }
    expr_keeps (Expr.identifier x) p s v =
        lift-KeepsValid (ok_or_at p (Assoc.lookup s.locals x) _) s v
    expr_keeps (Expr.binary l op r q) p s v = bind-Sound _ _ (expr_keeps l q s v) (λ a t w.
        bind-Sound _ _ (expr_keeps r q t w) (λ b. lift-KeepsValid (eval_binop pf op a b q)))
    expr_keeps (Expr.unary op e q) p s v =
        bind-Sound _ _ (expr_keeps e q s v) (λ a. lift-KeepsValid (eval_unop pf op a q))
    expr_keeps (Expr.call n args q) p s v =
        bind-Sound _ _ (exprs_keep args q s v) (λ vs. calls n vs q)
    expr_keeps (Expr.field_access e f q) p s v =
        bind-Sound _ _ (expr_keeps e q s v) (λ a. lift-KeepsValid (read_field a f q))
    expr_keeps (Expr.index tbl e q) p s v = bind-Sound _ _ (expr_keeps e q s v) (λ a t w.
        bind-Sound _ _ (lift-KeepsValid (row_index tbl a q) t w)
          (λ i u. lift-KeepsValid (index_table pf u.interp.tables tbl i q) u))

    exprs_keep : (es : Exprs) (p : SourcePos) → KeepsValid (eval_exprs pf call es p)
    exprs_keep nil p s v = record { valid = v }
    exprs_keep (cons e es) p s v =
        bind-Sound _ _ (expr_keeps e p s v)
          (λ a t w. bind-Sound _ _ (exprs_keep es p t w) (λ vs u k. record { valid = k }))

  mutual
    unfolding exec_stmt

    stmt_keeps : (c : Stmt) → KeepsValid (exec_stmt pf fs call c)
    stmt_keeps (Stmt.let_ x e p) s v =
        bind-Sound _ _ (expr_keeps e p s v) (λ a t w. record { valid = w })
    stmt_keeps (Stmt.assign x e p) s v = bind-Sound _ _ (expr_keeps e p s v) (λ a t w.
        bind-Sound _ _
          (Option-Sound (Assoc.lookup t.locals x) _ _ (record { valid = w })
            (λ old. record { valid = w }))
          (λ u z k. record { valid = k }))
    stmt_keeps (Stmt.index_assign tbl ix f e p) s v = bind-Sound _ _ (expr_keeps ix p s v) (λ a t w.
        bind-Sound _ _ (lift-KeepsValid (row_index tbl a p) t w) (λ i u k.
          bind-Sound _ _ (expr_keeps e p u k) (λ b z m.
            store-Sound (assign_cell z.interp.tables tbl i f b p) z _ m
              (assign_cell-IsValid z.interp.tables tbl i f b p m) (λ ts g. record { valid = g }))))
    stmt_keeps (Stmt.if_ c t e p) s v =
        bind-Sound _ _ (expr_keeps c p s v)
          (λ a. if-KeepsValid (is_truthy pf a) _ _ (block_keeps t) (else_keeps e))
    stmt_keeps (Stmt.for_ x tbl b p) s v =
        bind-Sound _ _ (lift-KeepsValid (snapshot s.interp.tables tbl p) s v)
          (λ rows. for_rows-KeepsValid pf _ x (block_keeps b) rows)
    stmt_keeps (Stmt.insert tbl es p) s v = bind-Sound _ _ (exprs_keep es p s v) (λ row t w.
        store-Sound (at_pos p (insert t.interp.tables tbl row)) t _ w
          (at_pos-IsValid p _ (insert-IsValid t.interp.tables tbl row w))
          (λ ts g. record { valid = g }))
    stmt_keeps (Stmt.alert es p) s v =
        bind-Sound _ _ (exprs_keep es p s v) (λ vs t w. record { valid = w })
    stmt_keeps (Stmt.show tbl p) s v =
        bind-Sound _ _ (lift-KeepsValid (at_pos p (show_table s.interp.tables tbl)) s v)
          (λ o t w. record { valid = w })
    stmt_keeps (Stmt.export tbl path p) s v =
        bind-Sound _ _
          (lift-KeepsValid (at_pos p (export_table pf fs s.interp.tables tbl path)) s v)
          (λ o t w. record { valid = w })
    stmt_keeps (Stmt.print e p) s v =
        bind-Sound _ _ (expr_keeps e p s v) (λ a t w. record { valid = w })
    stmt_keeps (Stmt.call_stmt n args p) s v =
        bind-Sound _ _ (exprs_keep args p s v)
          (λ vs t w. bind-Sound _ _ (calls n vs p t w) (λ a u k. record { valid = k }))
    stmt_keeps (Stmt.return none p) s v = record { valid = v }
    stmt_keeps (Stmt.return (some e) p) s v =
        bind-Sound _ _ (expr_keeps e p s v) (λ a t w. record { valid = w })

    block_keeps : (b : Block) → KeepsValid (exec_block pf fs call b)
    block_keeps Block.done s v = record { valid = v }
    block_keeps (then_ c b) s v = bind-Sound _ _ (stmt_keeps c s v) (λ u. block_keeps b)

    else_keeps : (e : Else) → KeepsValid (exec_else pf fs call e)
    else_keeps no_else s v = record { valid = v }
    else_keeps (else_ b) s v = block_keeps b s v

apply_call-KeepsValid :
    (pf : Platform) (fs : Files) (depth : ℕ) (n : Text) (vs : List Value) (p : SourcePos)
    → KeepsValid (apply_call pf fs depth n vs p)
unfolding apply_call
apply_call-KeepsValid pf fs zero n vs p =
    call_by-KeepsValid pf (λ b. throw out_of_fuel) (λ b s v. record { valid = v }) n vs p
apply_call-KeepsValid pf fs (suc d) n vs p =
    call_by-KeepsValid pf (exec_block pf fs (apply_call pf fs d))
      (block_keeps pf fs (apply_call pf fs d) (apply_call-KeepsValid pf fs d)) n vs p

-- Any block of statements, run over a valid store at any depth of calls, leaves a valid store, whether
-- it ends, returns, fails, panics or runs out of fuel.
pub exec_block-IsValid :
    (pf : Platform) (fs : Files) (depth : ℕ) (b : Block) (s : Scope)
    → HasValidTables s
    → HasValidTables (scope_after (exec_block pf fs (apply_call pf fs depth) b s))
exec_block-IsValid pf fs depth b s v =
    (block_keeps pf fs (apply_call pf fs depth) (apply_call-KeepsValid pf fs depth) b s v).valid
