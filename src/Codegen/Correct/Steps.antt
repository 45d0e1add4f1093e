-- ===== src/Codegen/Correct/Steps.antt =====
-- The loop of the VM over straight-line code: one lemma for each kind of instruction that
-- `compile_expr` emits.
use tracescript.Prelude.{ℕ, suc, ◌+◌, ◌≡◌, refl, ap, ◌∙◌, List, ◌∷◌, some, Text, get_elem?, arith}
use tracescript.Value.{Value, Platform}
use tracescript.Result.{Result, ok}
use tracescript.Tables.{TableStore}
use tracescript.Effects.{Files}
use tracescript.Machine.{done, and_then, lift, pure, ◌>>◌}
use tracescript.Syntax.{BinOp, UnOp}
use tracescript.Opcode.{Opcode, Instr, instr}
use tracescript.Codegen.{binary_opcode, unary_opcode}
use tracescript.Codegen.Agree.{vm_binop, vm_unop, vm_binop-eval_binop, vm_unop-eval_unop}
use tracescript.Interp.Operators.{eval_binop, eval_unop}
use tracescript.Error.{SourcePos}
use tracescript.Vm.Access.{event_field, row_index, index_table}
use tracescript.Vm.Exec.{exec_instr, run_until_return}
use tracescript.Vm.{Vm, CallFrame, Step, next, do_call, push}

-- the machine in frame `f` at instruction `p`, with the stack `st` and the tables `ts`
abbrev pub at : Vm → CallFrame → List CallFrame → ℕ → List Value → TableStore → Vm
at base f rest p st ts = record base {
  frames = (record f { ip = p }) ∷ rest;
  stack = st;
  tables = ts;
}

module _ (pf : Platform) (fs : Files) (code : List Instr) where
  -- The loop gets from one state to the other, whatever fuel is left then.
  abbrev pub Reaches : Vm → Vm → Type 0
  Reaches vm vm' =
      (n : ℕ) × ((m : ℕ)
        → run_until_return pf fs (n + m) code vm ≡ run_until_return pf fs m code vm')

  pub Reaches-refl : (vm : Vm) → Reaches vm vm
  Reaches-refl vm = (0, λ m. let e : 0 + m ≡ m = omega arith in rw e)

  pub Reaches-trans : (a b c : Vm) → Reaches a b → Reaches b c → Reaches a c
  Reaches-trans a b c (n, p) (k, q) = (
    n + k,
    λ m.
        let e : n + k + m ≡ n + (k + m) = omega arith in
        ap (λ j. run_until_return pf fs j code a) e ∙ p (k + m) ∙ q m,
  )

  module _ (base : Vm) (f : CallFrame) (rest : List CallFrame) where
    -- An instruction that goes on, whatever the fuel.
    pub one_step :
        (p : ℕ) (i : Instr) (st st' : List Value) (ts ts' : TableStore)
        → get_elem? code p ≡ some i
        → ((run : List Instr → Step (Unit {0}))
            → exec_instr pf fs run code i.op i.arg (at base f rest (p + 1) st ts)
              ≡ done next (at base f rest (p + 1) st' ts'))
        → Reaches (at base f rest p st ts) (at base f rest (p + 1) st' ts')
    unfolding run_until_return
    one_step p i st st' ts ts' e h = (
      1,
      λ m.
          let one : 1 + m ≡ suc m = omega arith in
          ap (λ j. run_until_return pf fs j code (at base f rest p st ts)) one
          ∙ rw (e, run_until_return, h (run_until_return pf fs m)) refl,
    )

    -- the instructions, with the value that each leaves on the stack
    pub step_const :
        (p k : ℕ) (v : Value) (st : List Value) (ts : TableStore)
        → get_elem? code p ≡ some (instr Opcode.load_const k)
        → get_elem? base.program.constants k ≡ some v
        → Reaches (at base f rest p st ts) (at base f rest (p + 1) (v ∷ st) ts)
    step_const p k v st ts e c =
        one_step p _ st (v ∷ st) ts ts e (λ run. unfold exec_instr in rw c refl)

    pub step_var :
        (p k : ℕ) (v : Value) (st : List Value) (ts : TableStore)
        → get_elem? code p ≡ some (instr Opcode.load_var k)
        → get_elem? f.locals k ≡ some v
        → Reaches (at base f rest p st ts) (at base f rest (p + 1) (v ∷ st) ts)
    step_var p k v st ts e c =
        one_step p _ st (v ∷ st) ts ts e (λ run. unfold exec_instr in rw c refl)

    -- the end of an instruction that leaves one value
    pushed :
        (r : Result Value) (p : ℕ) (v : Value) (st : List Value) (ts : TableStore)
        → r ≡ ok v
        → and_then (lift r (at base f rest p st ts)) (λ w. push w >> pure next)
          ≡ done next (at base f rest p (v ∷ st) ts)
    pushed r p v st ts h = rw h refl

    exec_binary :
        (op : BinOp) (run : List Instr → Step (Unit {0})) (p : ℕ) (l r v : Value) (st : List Value)
        (ts : TableStore)
        → vm_binop pf op l r ≡ ok v
        → exec_instr pf fs run code (binary_opcode op) 0 (at base f rest p (r ∷ l ∷ st) ts)
          ≡ done next (at base f rest p (v ∷ st) ts)
    unfolding binary_opcode exec_instr
    exec_binary BinOp.add run p l r v st ts h = pushed _ p v st ts h
    exec_binary BinOp.sub run p l r v st ts h = pushed _ p v st ts h
    exec_binary BinOp.mul run p l r v st ts h = pushed _ p v st ts h
    exec_binary BinOp.div run p l r v st ts h = pushed _ p v st ts h
    exec_binary BinOp.mod_ run p l r v st ts h = pushed _ p v st ts h
    exec_binary BinOp.eq run p l r v st ts h = pushed _ p v st ts h
    exec_binary BinOp.not_eq run p l r v st ts h = pushed _ p v st ts h
    exec_binary BinOp.lt run p l r v st ts h = pushed _ p v st ts h
    exec_binary BinOp.gt run p l r v st ts h = pushed _ p v st ts h
    exec_binary BinOp.lt_eq run p l r v st ts h = pushed _ p v st ts h
    exec_binary BinOp.gt_eq run p l r v st ts h = pushed _ p v st ts h
    exec_binary BinOp.and run p l r v st ts h = pushed _ p v st ts h
    exec_binary BinOp.or run p l r v st ts h = pushed _ p v st ts h
    exec_binary BinOp.contains run p l r v st ts h = pushed _ p v st ts h

    -- For every binary operator and all operands, where the interpreter gives a value, the opcode that
    -- the compiler emits for the operator makes the VM replace the operands on its stack by the same
    -- value, and changes nothing else.
    pub exec_instr-eval_binop :
        (op : BinOp) (run : List Instr → Step (Unit {0})) (p : ℕ) (q : SourcePos) (l r v : Value)
        (st : List Value) (ts : TableStore)
        → eval_binop pf op l r q ≡ ok v
        → exec_instr pf fs run code (binary_opcode op) 0 (at base f rest p (r ∷ l ∷ st) ts)
          ≡ done next (at base f rest p (v ∷ st) ts)
    exec_instr-eval_binop op run p q l r v st ts h =
        exec_binary op run p l r v st ts (vm_binop-eval_binop pf op l r q v h)

    pub step_binary :
        (op : BinOp) (p : ℕ) (q : SourcePos) (l r v : Value) (st : List Value) (ts : TableStore)
        → get_elem? code p ≡ some (instr (binary_opcode op) 0)
        → eval_binop pf op l r q ≡ ok v
        → Reaches (at base f rest p (r ∷ l ∷ st) ts) (at base f rest (p + 1) (v ∷ st) ts)
    step_binary op p q l r v st ts e h =
        one_step p _ (r ∷ l ∷ st) (v ∷ st) ts ts e
          (λ run. exec_instr-eval_binop op run (p + 1) q l r v st ts h)

    exec_unary :
        (op : UnOp) (run : List Instr → Step (Unit {0})) (p : ℕ) (x v : Value) (st : List Value)
        (ts : TableStore)
        → vm_unop pf op x ≡ ok v
        → exec_instr pf fs run code (unary_opcode op) 0 (at base f rest p (x ∷ st) ts)
          ≡ done next (at base f rest p (v ∷ st) ts)
    unfolding unary_opcode exec_instr
    exec_unary UnOp.not run p x v st ts h = pushed _ p v st ts h
    exec_unary UnOp.neg run p x v st ts h = pushed _ p v st ts h

    pub step_unary :
        (op : UnOp) (p : ℕ) (q : SourcePos) (x v : Value) (st : List Value) (ts : TableStore)
        → get_elem? code p ≡ some (instr (unary_opcode op) 0)
        → eval_unop pf op x q ≡ ok v
        → Reaches (at base f rest p (x ∷ st) ts) (at base f rest (p + 1) (v ∷ st) ts)
    step_unary op p q x v st ts e h =
        one_step p _ (x ∷ st) (v ∷ st) ts ts e
          (λ run. exec_unary op run (p + 1) x v st ts (vm_unop-eval_unop pf op x q v h))

    pub step_field :
        (p k : ℕ) (name : Text) (m v : Value) (st : List Value) (ts : TableStore)
        → get_elem? code p ≡ some (instr Opcode.get_event_field k)
        → get_elem? base.program.constants k ≡ some (Value.str name)
        → event_field m name ≡ ok v
        → Reaches (at base f rest p (m ∷ st) ts) (at base f rest (p + 1) (v ∷ st) ts)
    step_field p k name m v st ts e c h =
        one_step p _ (m ∷ st) (v ∷ st) ts ts e (λ run. unfold exec_instr in rw (c, h) refl)

    pub step_index :
        (p k : ℕ) (tbl : Text) (x v : Value) (i : ℕ) (st : List Value) (ts : TableStore)
        → get_elem? code p ≡ some (instr Opcode.index_get k)
        → get_elem? base.program.constants k ≡ some (Value.str tbl)
        → row_index tbl x ≡ ok i
        → index_table pf ts tbl i ≡ ok v
        → Reaches (at base f rest p (x ∷ st) ts) (at base f rest (p + 1) (v ∷ st) ts)
    step_index p k tbl x v i st ts e c h g =
        one_step p _ (x ∷ st) (v ∷ st) ts ts e (λ run. unfold exec_instr in rw (c, h, g) refl)

    pub step_call :
        (p k : ℕ) (n : Text) (st st' : List Value) (ts ts' : TableStore)
        → get_elem? code p ≡ some (instr Opcode.call k)
        → get_elem? base.program.constants k ≡ some (Value.str n)
        → ((run : List Instr → Step (Unit {0}))
            → do_call pf run n (at base f rest (p + 1) st ts)
              ≡ done tt (at base f rest (p + 1) st' ts'))
        → Reaches (at base f rest p st ts) (at base f rest (p + 1) st' ts')
    step_call p k n st st' ts ts' e c h =
        one_step p _ st st' ts ts' e (λ run. unfold exec_instr in rw (c, h run) refl)
