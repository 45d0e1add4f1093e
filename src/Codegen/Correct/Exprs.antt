-- ===== src/Codegen/Correct/Exprs.antt =====
-- `compile_expr` of src/bytecode/codegen.rs against `eval_expr` of src/interp/mod.rs: the code of an
-- expression, run by the VM, pushes the value that the interpreter computes.
use tracescript.Prelude.Assoc
use tracescript.Prelude.{
  ℕ, zero, suc, ◌+◌, ◌≡◌, refl, sym, ap, ◌∙◌, List, [], ◌∷◌, ◌++◌, Option, none, some, Text, length,
  length-append, get_elem?, get_elem?-append, get_elem?-Prefix, Prefix, Prefix-trans,
}
use tracescript.Error.{SourcePos}
use tracescript.Value.{Value, Platform, Message}
use tracescript.Result.{ok}
use tracescript.Effects.{Files}
use tracescript.Machine.{done, throw, out_of_fuel, and_then-done, lift-done}
use tracescript.Syntax.{Expr, Exprs, nil, cons, Block, count_args}
use tracescript.Opcode.{Opcode, Instr, instr}
use tracescript.Builtins.{arity}
use tracescript.Interp
use tracescript.Interp.{Locals, Scope, eval_expr, eval_exprs, call_by, apply_call, exec_block}
use tracescript.Interp.Access.{ok_or_at, read_field, row_index, index_table}
use tracescript.Interp.Operators.{eval_binop, eval_unop}
use tracescript.Vm.{Vm, CallFrame, Step as VmStep}
use tracescript.Codegen.{
  Compiler, emit_const, find_local, compile_identifier, compile_expr, compile_exprs, binary_opcode,
  unary_opcode,
}
use tracescript.Codegen.Emit.{
  Extends, emit-Extends, emit_const-Extends, compile_identifier-Extends, emit_const-EmitsConst,
  compile_expr-Extends, compile_exprs-Extends,
}
use tracescript.Codegen.Agree.{event_field-read_field, row_index_agrees, index_table_agrees}
use tracescript.Codegen.Correct.Calls.{push_all, do_call-call_by}
use tracescript.Codegen.Correct.Steps.{
  at, Reaches, Reaches-refl, Reaches-trans, step_const, step_var, step_binary, step_unary,
  step_field, step_index, step_call,
}

-- Every call is one of a builtin, with as many arguments as the VM pops.
unfoldable mutual
  unfolding count_args arity

  pub Direct : Expr → Type 0
  Direct (Expr.binary l op r p) = Direct l × Direct r
  Direct (Expr.unary op e p) = Direct e
  Direct (Expr.call n args p) = (arity n ≡ some (count_args args)) × AllDirect args
  Direct (Expr.field_access e f p) = Direct e
  Direct (Expr.index tbl e p) = Direct e
  Direct _ = Unit {0}

  pub AllDirect : Exprs → Type 0
  AllDirect nil = Unit {0}
  AllDirect (cons e es) = Direct e × AllDirect es

-- The locals of a frame hold the variables of the interpreter, at the indices of the compiler.
abbrev pub Agrees : List Text → Locals → List Value → Type 0
Agrees xs vars vs =
    (x : Text) (v : Value)
    → Assoc.lookup vars x ≡ some v
    → (i : ℕ) × (find_local xs x ≡ some i) × (get_elem? vs i ≡ some v)

ok_or_at-some :
    (p : SourcePos) (o : Option Value) (m : Message) (v : Value)
    → ok_or_at p o m ≡ ok v
    → o ≡ some v
ok_or_at-some p none m v h = cc
ok_or_at-some p (some w) m v h = cc

-- What was compiled so far is part of the code that runs.
pub record Fits (instrs : List Instr) (ks : List Value) (xs : List Text) (cx : Compiler)
    : Type 0 where
  pub code : Prefix cx.code instrs
  pub constants : Prefix cx.constants ks
  pub locals : cx.locals ≡ xs

Fits-Extends :
    {instrs : List Instr} {ks : List Value} {xs : List Text} {a b : Compiler}
    → Extends a b
    → Fits instrs ks xs b
    → Fits instrs ks xs a
Fits-Extends e h = record {
  code = Prefix-trans _ _ _ e.code h.code;
  constants = Prefix-trans _ _ _ e.constants h.constants;
  locals = sym e.locals ∙ h.locals;
}

module _ (pf : Platform) (fs : Files) (body : Block → Interp.Step (Unit {0})) (code : List Instr)
    (base : Vm) (f : CallFrame) (rest : List CallFrame) (xs : List Text) (s : Scope)
    (agrees : Agrees xs s.locals f.locals) where
  abbrev FitsHere : Compiler → Type 0
  FitsHere = Fits code base.program.constants xs

  abbrev here : ℕ → List Value → Vm
  here p st = at base f rest p st s.interp.tables

  -- from the code of one compiler to that of a later one
  abbrev Runs : Compiler → Compiler → List Value → List Value → Type 0
  Runs cx cx' st st' = Reaches pf fs code (here (length cx.code) st) (here (length cx'.code) st')

  -- an instruction that was just emitted
  run_last :
      (cx cx' : Compiler) (i : Instr) (st st' : List Value)
      → cx'.code ≡ cx.code ++ i ∷ []
      → FitsHere cx'
      → (get_elem? code (length cx.code) ≡ some i
          → Reaches pf fs code (here (length cx.code) st) (here (length cx.code + 1) st'))
      → Runs cx cx' st st'
  run_last cx cx' i st st' e h r =
      let n : length cx'.code ≡ length cx.code + 1 = ap length e ∙ length-append cx.code (i ∷ []) in
      let g : get_elem? cx'.code (length cx.code) ≡ some i =
        ap (λ c. get_elem? c (length cx.code)) e ∙ get_elem?-append cx.code [] i in
      rw n (r (get_elem?-Prefix cx'.code code (length cx.code) h.code g))

  run_const :
      (v : Value) (cx : Compiler) (st : List Value)
      → FitsHere (emit_const Opcode.load_const v cx)
      → Runs cx (emit_const Opcode.load_const v cx) st (v ∷ st)
  run_const v cx st h =
      let m = emit_const-EmitsConst Opcode.load_const v cx in
      run_last cx _ _ st (v ∷ st) m.code h (λ e.
        step_const pf fs code base f rest _ m.index v st _ e
          (get_elem?-Prefix _ _ m.index h.constants m.found))

  run_identifier :
      (x : Text) (v : Value) (cx : Compiler) (st : List Value)
      → FitsHere (compile_identifier x cx)
      → Assoc.lookup s.locals x ≡ some v
      → Runs cx (compile_identifier x cx) st (v ∷ st)
  unfolding compile_identifier
  run_identifier x v cx st h l =
      let (i, e, g) = agrees x v l in
      let ls : cx.locals ≡ xs = sym (compile_identifier-Extends x cx).locals ∙ h.locals in
      let e' : find_local cx.locals x ≡ some i = ap (λ ys. find_local ys x) ls ∙ e in
      let c : (compile_identifier x cx).code ≡ cx.code ++ instr Opcode.load_var i ∷ [] =
        rw (compile_identifier, e') refl in
      run_last cx (compile_identifier x cx) _ st (v ∷ st) c h
        (λ j. step_var pf fs code base f rest _ i v st _ j g)

  -- an instruction with a constant argument, behind code that has run
  run_emit_const :
      (o : Opcode) (v : Value) (cx cx₁ : Compiler) (st st₁ st₂ : List Value)
      → FitsHere (emit_const o v cx₁)
      → Runs cx cx₁ st st₁
      → ((k : ℕ)
          → get_elem? code (length cx₁.code) ≡ some (instr o k)
          → get_elem? base.program.constants k ≡ some v
          → Reaches pf fs code (here (length cx₁.code) st₁) (here (length cx₁.code + 1) st₂))
      → Runs cx (emit_const o v cx₁) st st₂
  run_emit_const o v cx cx₁ st st₁ st₂ h r step =
      let m = emit_const-EmitsConst o v cx₁ in
      Reaches-trans pf fs code _ _ _ r (
        run_last cx₁ _ _ st₁ st₂ m.code h
          (λ e. step m.index e (get_elem?-Prefix _ _ m.index h.constants m.found)))

  run_literal :
      (w v : Value) (s' : Scope) (cx : Compiler) (st : List Value)
      → FitsHere (emit_const Opcode.load_const w cx)
      → done w s ≡ done v s'
      → (s' ≡ s) × Runs cx (emit_const Opcode.load_const w cx) st (v ∷ st)
  run_literal w v s' cx st h r = let e : v ≡ w = cc in (cc, rw e (run_const w cx st h))

  mutual
    unfolding eval_expr compile_expr Direct AllDirect count_args

    execute :
        (e : Expr) (p : SourcePos) (v : Value) (s' : Scope) (cx : Compiler) (st : List Value)
        → Direct e
        → FitsHere (compile_expr e cx)
        → eval_expr pf (call_by pf body) e p s ≡ done v s'
        → (s' ≡ s) × Runs cx (compile_expr e cx) st (v ∷ st)
    execute (Expr.integer n) p v s' cx st d h r = run_literal (Value.int n) v s' cx st h r
    execute (Expr.float n) p v s' cx st d h r = run_literal (Value.float n) v s' cx st h r
    execute (Expr.str n) p v s' cx st d h r = run_literal (Value.str n) v s' cx st h r
    execute (Expr.bool n) p v s' cx st d h r = run_literal (Value.bool n) v s' cx st h r
    execute (Expr.identifier x) p v s' cx st d h r =
        let (o, e) = lift-done (ok_or_at p (Assoc.lookup s.locals x) _) s r in
        (e, run_identifier x v cx st h (ok_or_at-some p _ _ v o))
    execute (Expr.binary l op y q) p v s' cx st (dl, dy) h r =
        let (a, s₁, r₁, k₁) = and_then-done _ _ r in
        let cl = compile_expr l cx in
        let cy = compile_expr y cl in
        let hy = Fits-Extends (emit-Extends (binary_opcode op) 0 cy) h in
        let hl = Fits-Extends (compile_expr-Extends y cl) hy in
        let (e₁, g₁) = execute l q a s₁ cx st dl hl r₁ in
        let (b, s₂, r₂, k₂) = and_then-done _ _ k₁ in
        let (e₂, g₂) =
          execute y q b s₂ cl (a ∷ st) dy hy
            (sym (ap (eval_expr pf (call_by pf body) y q) e₁) ∙ r₂) in
        let (o, e₃) = lift-done (eval_binop pf op a b q) s₂ k₂ in
        (
          e₃ ∙ e₂,
          Reaches-trans pf fs code _ _ _ g₁ (
              Reaches-trans pf fs code _ _ _ g₂ (
                run_last cy _ _ (b ∷ a ∷ st) (v ∷ st) refl h
                  (λ j. step_binary pf fs code base f rest op _ q a b v st _ j o))),
        )
    execute (Expr.unary op e q) p v s' cx st d h r =
        let (a, s₁, r₁, k₁) = and_then-done _ _ r in
        let ce = compile_expr e cx in
        let (e₁, g₁) =
          execute e q a s₁ cx st d (Fits-Extends (emit-Extends (unary_opcode op) 0 ce) h) r₁ in
        let (o, e₂) = lift-done (eval_unop pf op a q) s₁ k₁ in
        (
          e₂ ∙ e₁,
          Reaches-trans pf fs code _ _ _ g₁ (
              run_last ce _ _ (a ∷ st) (v ∷ st) refl h
                (λ j. step_unary pf fs code base f rest op _ q a v st _ j o)),
        )
    execute (Expr.call n args q) p v s' cx st (da, ds) h r =
        let (vs, s₁, r₁, k₁) = and_then-done _ _ r in
        let ca = compile_exprs args cx in
        let (e₁, n₁, g₁) =
          execute_all args q vs s₁ cx st ds
            (Fits-Extends (emit_const-Extends Opcode.call (Value.str n) ca) h) r₁ in
        let k₂ : call_by pf body n vs q s ≡ done v s' = sym (ap (call_by pf body n vs q) e₁) ∙ k₁ in
        let called = λ (run : List Instr → VmStep (Unit {0})).
          do_call-call_by base f rest (length ca.code + 1) s.interp.tables pf body run n vs st v q s
            s' (da ∙ ap some (sym n₁)) k₂ in
        (
          (called (λ is. done tt)).0,
          run_emit_const Opcode.call (Value.str n) cx ca st (push_all vs st) (v ∷ st) h g₁
              (λ k j c. step_call pf fs code base f rest _ k n _ _ _ _ j c (λ run. (called run).1)),
        )
    execute (Expr.field_access e g q) p v s' cx st d h r =
        let (a, s₁, r₁, k₁) = and_then-done _ _ r in
        let ce = compile_expr e cx in
        let (e₁, g₁) =
          execute e q a s₁ cx st d
            (Fits-Extends (emit_const-Extends Opcode.get_event_field (Value.str g) ce) h) r₁ in
        let (o, e₂) = lift-done (read_field a g q) s₁ k₁ in
        (
          e₂ ∙ e₁,
          run_emit_const Opcode.get_event_field (Value.str g) cx ce st (a ∷ st) (v ∷ st) h g₁
              (λ k j c.
                step_field pf fs code base f rest _ k g a v st _ j c
                  (event_field-read_field a g q v o)),
        )
    execute (Expr.index tbl e q) p v s' cx st d h r =
        let (a, s₁, r₁, k₁) = and_then-done _ _ r in
        let ce = compile_expr e cx in
        let (e₁, g₁) =
          execute e q a s₁ cx st d
            (Fits-Extends (emit_const-Extends Opcode.index_get (Value.str tbl) ce) h) r₁ in
        let (i, s₂, r₂, k₂) = and_then-done _ _ k₁ in
        let (o, e₂) = lift-done (row_index tbl a q) s₁ r₂ in
        let (w, e₃) = lift-done (index_table pf s₂.interp.tables tbl i q) s₂ k₂ in
        let w' = sym (ap (λ (z : Scope). index_table pf z.interp.tables tbl i q) (e₂ ∙ e₁)) ∙ w in
        (
          e₃ ∙ e₂ ∙ e₁,
          run_emit_const Opcode.index_get (Value.str tbl) cx ce st (a ∷ st) (v ∷ st) h g₁ (λ k j c.
              step_index pf fs code base f rest _ k tbl a v i st _ j c
                (row_index_agrees tbl a q i o) (index_table_agrees pf _ tbl i q v w')),
        )

    execute_all :
        (es : Exprs) (p : SourcePos) (vs : List Value) (s' : Scope) (cx : Compiler)
        (st : List Value)
        → AllDirect es
        → FitsHere (compile_exprs es cx)
        → eval_exprs pf (call_by pf body) es p s ≡ done vs s'
        → (s' ≡ s) × (length vs ≡ count_args es) × Runs cx (compile_exprs es cx) st (push_all vs st)
    execute_all nil p vs s' cx st d h r =
        let e : vs ≡ [] = cc in rw e (cc, refl, Reaches-refl pf fs code _)
    execute_all (cons e es) p vs s' cx st (d, ds) h r =
        let (a, s₁, r₁, k₁) = and_then-done _ _ r in
        let ce = compile_expr e cx in
        let (e₁, g₁) = execute e p a s₁ cx st d (Fits-Extends (compile_exprs-Extends es ce) h) r₁ in
        let (ws, s₂, r₂, k₂) = and_then-done _ _ k₁ in
        let (e₂, n₂, g₂) =
          execute_all es p ws s₂ ce (a ∷ st) ds h
            (sym (ap (eval_exprs pf (call_by pf body) es p) e₁) ∙ r₂) in
        let e₃ : vs ≡ a ∷ ws = cc in
        let e₄ : s' ≡ s₂ = cc in rw e₃ (e₄ ∙ e₂, ap suc n₂, Reaches-trans pf fs code _ _ _ g₁ g₂)

-- An expression whose calls are all calls of builtins with the right number of arguments, and to which
-- the interpreter gives a value: the interpreter's state is unchanged, and the VM, started at the
-- expression's code with the same tables, with the frame's locals holding the interpreter's variables
-- and with the code and the constants of the module extending the compiler's, gets in a fixed number
-- of instructions to the end of that code, with that value pushed and nothing else changed.
pub compile_expr-eval_expr :
    (pf : Platform) (fs : Files) (depth : ℕ) (e : Expr) (p : SourcePos) (v : Value) (s s' : Scope)
    (cx : Compiler) (code : List Instr) (base : Vm) (f : CallFrame) (rest : List CallFrame)
    (st : List Value)
    → Direct e
    → Agrees cx.locals s.locals f.locals
    → Fits code base.program.constants cx.locals (compile_expr e cx)
    → eval_expr pf (apply_call pf fs depth) e p s ≡ done v s'
    → (s' ≡ s)
      × Reaches pf fs code
          (at base f rest (length cx.code) st s.interp.tables)
          (at base f rest (length (compile_expr e cx).code) (v ∷ st) s.interp.tables)
unfolding apply_call
compile_expr-eval_expr pf fs zero e p v s s' cx code base f rest st d a h r =
    execute pf fs (λ b. throw out_of_fuel) code base f rest cx.locals s a e p v s' cx st d h r
compile_expr-eval_expr pf fs (suc depth) e p v s s' cx code base f rest st d a h r =
    execute pf fs (exec_block pf fs (apply_call pf fs depth)) code base f rest cx.locals s a e p v
      s' cx st d h r
