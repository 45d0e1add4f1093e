-- ===== src/Codegen/Correct/Stmts.antt =====
-- `Stmt::Let` compiled by `compile_stmt` of src/bytecode/codegen.rs, against `exec_stmt` of
-- src/interp/mod.rs.
use tracescript.Prelude.Assoc
use tracescript.Prelude.{
  ℕ, suc, ◌+◌, ◌≡◌, refl, sym, ap, ◌∙◌, List, [], ◌∷◌, ◌++◌, some, Text, length, length-append,
  get_elem?, get_elem?-append, get_elem?-Prefix, Prefix, Prefix-trans, Option-cases, inl, inr,
  arith,
}
use tracescript.Error.{SourcePos}
use tracescript.Value.{Value, Platform}
use tracescript.Tables.{TableStore}
use tracescript.Effects.{Files}
use tracescript.Machine.{Ran, done, stop, and_then-done}
use tracescript.Syntax.{Expr, Stmt}
use tracescript.Opcode.{Opcode, Instr, instr}
use tracescript.Interp.{Scope, eval_expr, apply_call, exec_stmt}
use tracescript.Vm.Access.{store_at}
use tracescript.Vm.Exec.{exec_instr, run_until_return}
use tracescript.Vm.{Vm, CallFrame}
use tracescript.Codegen.{Compiler, find_local, ensure_local, compile_expr, compile_stmt, emit}
use tracescript.Codegen.Emit.{compile_expr-Extends}
use tracescript.Codegen.Correct.Steps.{at, Reaches, Reaches-trans}
use tracescript.Codegen.Correct.Exprs.{Direct, Agrees, Fits, compile_expr-eval_expr}
use tracescript.Codegen.Correct.Locals.{Agrees-insert}

-- `StoreVar` writes the slot and leaves the value where it is.
step_store :
    (pf : Platform) (fs : Files) (code : List Instr) (base : Vm) (f : CallFrame)
    (rest : List CallFrame) (p k : ℕ) (v : Value) (st : List Value) (ts : TableStore)
    → get_elem? code p ≡ some (instr Opcode.store_var k)
    → Reaches pf fs code
        (at base f rest p (v ∷ st) ts)
        (at base (record f { locals = store_at f.locals k v }) rest (p + 1) (v ∷ st) ts)
unfolding run_until_return exec_instr
step_store pf fs code base f rest p k v st ts e = (
  1,
  λ m.
      let one : 1 + m ≡ suc m = omega arith in
      ap (λ j. run_until_return pf fs j code (at base f rest p (v ∷ st) ts)) one
      ∙ rw (e, run_until_return) refl,
)

-- a new slot is not code
ensure_local-code : (x : Text) (cx : Compiler) → (ensure_local x cx).1.code ≡ cx.code
unfolding ensure_local
ensure_local-code x cx = elim (Option-cases (find_local cx.locals x)) [
  | inl e ↦ rw (ensure_local, e) refl
  | inr (i, e) ↦ rw (ensure_local, e) refl
]

ensure_local-constants : (x : Text) (cx : Compiler) → (ensure_local x cx).1.constants ≡ cx.constants
unfolding ensure_local
ensure_local-constants x cx = elim (Option-cases (find_local cx.locals x)) [
  | inl e ↦ rw (ensure_local, e) refl
  | inr (i, e) ↦ rw (ensure_local, e) refl
]

abbrev scope_of : {A : Type 0} → Ran Scope A → Scope
scope_of (done a s) = s
scope_of (stop e s) = s

-- For a `let` that the interpreter completes, of an expression whose calls are all calls of builtins with
-- the right number of arguments: the interpreter binds the value and changes nothing else; the VM,
-- with the same tables and locals that hold the interpreter's variables, gets to the end of the
-- compiled code with locals that hold the new variables, and with the value left on its stack.
pub compile_stmt-exec_let :
    (pf : Platform) (fs : Files) (depth : ℕ) (x : Text) (e : Expr) (p : SourcePos) (s s' : Scope)
    (cx : Compiler) (code : List Instr) (base : Vm) (f : CallFrame) (rest : List CallFrame)
    (st : List Value)
    → Direct e
    → Agrees cx.locals s.locals f.locals
    → Prefix (compile_stmt (Stmt.let_ x e p) cx).code code
    → Prefix (compile_stmt (Stmt.let_ x e p) cx).constants base.program.constants
    → exec_stmt pf fs (apply_call pf fs depth) (Stmt.let_ x e p) s ≡ done tt s'
    → (v : Value) × (vs : List Value) × (s' ≡ record s { locals = Assoc.insert s.locals x v })
      × Agrees (compile_stmt (Stmt.let_ x e p) cx).locals s'.locals vs
      × Reaches pf fs code (at base f rest (length cx.code) st s.interp.tables) (
          at base
            (record f { locals = vs })
            rest
            (length (compile_stmt (Stmt.let_ x e p) cx).code)
            (v ∷ st)
            s.interp.tables)
unfolding exec_stmt compile_stmt
compile_stmt-exec_let pf fs depth x e p s s' cx code base f rest st d a hc hk r =
    let (v, s₁, r₁, k₁) = and_then-done (eval_expr pf (apply_call pf fs depth) e p s) _ r in
    let ce = compile_expr e cx in
    let cl = ensure_local x ce in
    let emitted : (emit Opcode.store_var cl.0 cl.1).code
        ≡ ce.code ++ instr Opcode.store_var cl.0 ∷ [] =
      ap (λ c. c ++ instr Opcode.store_var cl.0 ∷ []) (ensure_local-code x ce) in
    let ext = compile_expr-Extends e cx in
    let fits : Fits code base.program.constants cx.locals ce = record {
      code = Prefix-trans ce.code _ code (instr Opcode.store_var cl.0 ∷ [], emitted) hc;
      constants = (hk.0, hk.1 ∙ ap (λ ks. ks ++ hk.0) (ensure_local-constants x ce));
      locals = ext.locals;
    } in
    let (e₁, g₁) =
      compile_expr-eval_expr pf fs depth e p v s s₁ cx code base f rest st d a fits r₁ in
    let s_is : s' ≡ record s { locals = Assoc.insert s.locals x v } =
      sym (ap scope_of k₁)
      ∙ ap (λ (t : Scope). record t { locals = Assoc.insert t.locals x v }) e₁ in
    let i = instr Opcode.store_var cl.0 in
    let here : get_elem? code (length ce.code) ≡ some i =
      get_elem?-Prefix _ code (length ce.code) hc
        (ap (λ c. get_elem? c (length ce.code)) emitted ∙ get_elem?-append ce.code [] i) in
    let n : length (emit Opcode.store_var cl.0 cl.1).code ≡ length ce.code + 1 =
      ap length emitted ∙ length-append ce.code (i ∷ []) in
    let before : Agrees ce.locals s.locals f.locals = rw ext.locals a in
    (
      v,
      store_at f.locals cl.0 v,
      s_is,
      rw s_is (Agrees-insert x v ce s.locals f.locals before),
      Reaches-trans pf fs code _ _ _ g₁ (
          rw n (step_store pf fs code base f rest (length ce.code) cl.0 v st s.interp.tables here)),
    )
