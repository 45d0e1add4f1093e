-- ===== src/Interp/Locals.antt =====
-- The variables of a running block in src/interp/mod.rs: evaluating an expression never changes them,
-- the calls of user functions included.
use tracescript.Prelude.Assoc
use tracescript.Prelude.{
  ℕ, zero, suc, ◌≡◌, refl, ◌∙◌, List, Option, none, some, Text, inl, inr, length, ◌==◌, Bool-cases,
}
use tracescript.Error.{SourcePos}
use tracescript.Value.{Value, Platform, return_signal}
use tracescript.Result.{Result, ok, err, panic}
use tracescript.Effects.{Files}
use tracescript.Machine.{Ran, done, stop, raised, panicked, out_of_fuel, and_then, lift, throw}
use tracescript.Syntax.{Expr, Exprs, nil, cons, Block, FunctionDecl}
use tracescript.Builtins.{try_call}
use tracescript.Interp.Operators.{eval_binop, eval_unop}
use tracescript.Interp.Access.{ok_or_at, read_field, row_index, index_table, host_of, host_call}
use tracescript.Interp.{
  Locals, Scope, Step, Caller, eval_expr, eval_exprs, end_call, run_function, call_by, apply_call,
  exec_block,
}

-- the variables that a run leaves, whether it succeeds or stops
abbrev pub locals_after : {A : Type 0} → Ran Scope A → Locals
locals_after (done a s) = s.locals
locals_after (stop e s) = s.locals

-- The run `r` leaves the variables of `s`.
pub record Kept {A : Type 0} (s : Scope) (r : Ran Scope A) : Type 0 where
  pub kept : locals_after r ≡ s.locals

abbrev pub KeepsLocals : {A : Type 0} → Step A → Type 0
KeepsLocals m = (s : Scope) → Kept s (m s)

bind-Kept :
    {A B : Type 0} (s : Scope) (r : Ran Scope A) (k : A → Step B)
    → Kept s r
    → ((a : A) → KeepsLocals (k a))
    → Kept s (and_then r k)
bind-Kept s (done a t) k h g = record { kept = (g a t).kept ∙ h.kept }
bind-Kept s (stop e t) k h g = record { kept = h.kept }

lift-KeepsLocals : {A : Type 0} (r : Result A) → KeepsLocals (lift r)
lift-KeepsLocals (ok a) s = record { kept = refl }
lift-KeepsLocals (err e) s = record { kept = refl }
lift-KeepsLocals panic s = record { kept = refl }

end_call-Kept : (s : Scope) (r : Ran Scope (Unit {0})) → Kept s (end_call s.locals r)
unfolding end_call
end_call-Kept s (done u t) = record { kept = refl }
end_call-Kept s (stop (raised (return_signal none)) t) = record { kept = refl }
end_call-Kept s (stop (raised (return_signal (some v))) t) = record { kept = refl }
end_call-Kept s (stop _ t) = record { kept = refl }

run_function-KeepsLocals :
    (body : Block → Step (Unit {0})) (f : FunctionDecl) (vs : List Value) (p : SourcePos)
    → KeepsLocals (run_function body f vs p)
unfolding run_function
run_function-KeepsLocals body f vs p s = elim (Bool-cases (length f.params == length vs)) [
  | inl e ↦ rw e (end_call-Kept s _)
  | inr e ↦ rw e (record { kept = refl })
]

Option-Kept :
    {A B : Type 0} (s : Scope) (o : Option A) (r : Ran Scope B) (g : A → Ran Scope B)
    → Kept s r
    → ((a : A) → Kept s (g a))
    → Kept s (elim o [ none ↦ r | some a ↦ g a ])
Option-Kept s none r g h k = h
Option-Kept s (some a) r g h k = k a

Result-Kept :
    {A B : Type 0} (s : Scope) (o : Result A) (g : A → Ran Scope B)
    → ((a : A) → Kept s (g a))
    → Kept s (elim o [ ok a ↦ g a | err e ↦ stop (raised e) s | panic ↦ stop panicked s ])
Result-Kept s (ok a) g k = k a
Result-Kept s (err e) g k = record { kept = refl }
Result-Kept s panic g k = record { kept = refl }

call_by-KeepsLocals :
    (pf : Platform) (body : Block → Step (Unit {0})) (n : Text) (vs : List Value) (p : SourcePos)
    → KeepsLocals (call_by pf body n vs p)
unfolding call_by
call_by-KeepsLocals pf body n vs p s =
    Option-Kept s (try_call pf n vs) _ _
      (Option-Kept s (host_of n) _ _
        (Option-Kept s (Assoc.lookup s.interp.functions n) _ _ (record { kept = refl })
          (λ f. run_function-KeepsLocals body f vs p s))
        (λ h. Result-Kept s (host_call pf h s.interp.tables vs p) _ (λ x. record { kept = refl })))
      (λ r. lift-KeepsLocals r s)

module _ (pf : Platform) (call : Caller)
    (calls : (n : Text) (vs : List Value) (p : SourcePos) → KeepsLocals (call n vs p)) where
  mutual
    unfolding eval_expr

    eval_keeps : (e : Expr) (p : SourcePos) → KeepsLocals (eval_expr pf call e p)
    eval_keeps (Expr.integer n) p s = record { kept = refl }
    eval_keeps (Expr.float n) p s = record { kept = refl }
    eval_keeps (Expr.str n) p s = record { kept = refl }
    eval_keeps (Expr.bool n) p s = record { kept = refl }
    eval_keeps (Expr.identifier x) p s = lift-KeepsLocals (ok_or_at p (Assoc.lookup s.locals x) _) s
    eval_keeps (Expr.binary l op r q) p s =
        bind-Kept s _ _ (eval_keeps l q s) (λ a t.
          bind-Kept t _ _ (eval_keeps r q t) (λ b. lift-KeepsLocals (eval_binop pf op a b q)))
    eval_keeps (Expr.unary op e q) p s =
        bind-Kept s _ _ (eval_keeps e q s) (λ a. lift-KeepsLocals (eval_unop pf op a q))
    eval_keeps (Expr.call n args q) p s =
        bind-Kept s _ _ (eval_all_keeps args q s) (λ vs. calls n vs q)
    eval_keeps (Expr.field_access e f q) p s =
        bind-Kept s _ _ (eval_keeps e q s) (λ a. lift-KeepsLocals (read_field a f q))
    eval_keeps (Expr.index tbl e q) p s = bind-Kept s _ _ (eval_keeps e q s) (λ a t.
        bind-Kept t _ _ (lift-KeepsLocals (row_index tbl a q) t)
          (λ i u. lift-KeepsLocals (index_table pf u.interp.tables tbl i q) u))

    eval_all_keeps : (es : Exprs) (p : SourcePos) → KeepsLocals (eval_exprs pf call es p)
    eval_all_keeps nil p s = record { kept = refl }
    eval_all_keeps (cons e es) p s =
        bind-Kept s _ _ (eval_keeps e p s)
          (λ a t. bind-Kept t _ _ (eval_all_keeps es p t) (λ vs u. record { kept = refl }))

apply_call-KeepsLocals :
    (pf : Platform) (fs : Files) (depth : ℕ) (n : Text) (vs : List Value) (p : SourcePos)
    → KeepsLocals (apply_call pf fs depth n vs p)
unfolding apply_call
apply_call-KeepsLocals pf fs zero n vs p = call_by-KeepsLocals pf (λ b. throw out_of_fuel) n vs p
apply_call-KeepsLocals pf fs (suc d) n vs p =
    call_by-KeepsLocals pf (exec_block pf fs (apply_call pf fs d)) n vs p

-- Evaluating any expression, at any depth of calls, leaves the variables of the running block as they
-- were, whether it gives a value, an error, a panic or runs out of fuel.
pub eval_expr-locals :
    (pf : Platform) (fs : Files) (depth : ℕ) (e : Expr) (p : SourcePos) (s : Scope)
    → locals_after (eval_expr pf (apply_call pf fs depth) e p s) ≡ s.locals
eval_expr-locals pf fs depth e p s =
    (eval_keeps pf (apply_call pf fs depth) (apply_call-KeepsLocals pf fs depth) e p s).kept
