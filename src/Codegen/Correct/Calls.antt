-- ===== src/Codegen/Correct/Calls.antt =====
-- A call of a builtin in the two engines: `eval_call` of src/interp/mod.rs and `do_call` of
-- src/bytecode/vm.rs.
use tracescript.Prelude.{
  ℕ, suc, ◌+◌, ◌≡◌, refl, sym, ap, ◌∙◌, List, [], ◌∷◌, ◌++◌, some, Text, length, arith,
}
use mathlib.Core.List.{append-nil}
use tracescript.Error.{SourcePos}
use tracescript.Value.{Value, Platform}
use tracescript.Result.{ok}
use tracescript.Tables.{TableStore}
use tracescript.Machine.{done, lift, lift-done}
use tracescript.Syntax.{Block}
use tracescript.Opcode.{Instr}
use tracescript.Builtins.{arity, try_call}
use tracescript.Builtins.Names.{try_call-arity}
use tracescript.Interp
use tracescript.Interp.{Scope, call_by}
use tracescript.Vm.{Vm, CallFrame, Step, pop_onto, do_call}
use tracescript.Codegen.Correct.Steps.{at}

-- the values pushed in order on the stack
abbrev pub push_all : List Value → List Value → List Value
push_all [] st = st
push_all (v ∷ vs) st = push_all vs (v ∷ st)

module _ (base : Vm) (f : CallFrame) (rest : List CallFrame) (p : ℕ) (ts : TableStore) where
  pop_onto-push_all :
      (vs acc st : List Value) (k : ℕ)
      → pop_onto (length vs + k) acc (at base f rest p (push_all vs st) ts)
        ≡ pop_onto k (vs ++ acc) (at base f rest p st ts)
  unfolding pop_onto
  pop_onto-push_all [] acc st k = let e : 0 + k ≡ k = omega arith in rw e refl
  pop_onto-push_all (v ∷ vs) acc st k =
      let e : suc (length vs) + k ≡ length vs + suc k = omega arith in
      ap (λ n. pop_onto n acc (at base f rest p (push_all vs (v ∷ st)) ts)) e
      ∙ pop_onto-push_all vs acc (v ∷ st) (suc k)

  pop_onto_lem :
      (vs st : List Value)
      → pop_onto (length vs) [] (at base f rest p (push_all vs st) ts)
        ≡ done vs (at base f rest p st ts)
  unfolding pop_onto
  pop_onto_lem vs st =
      let e : length vs ≡ length vs + 0 = omega arith in
      ap (λ n. pop_onto n [] (at base f rest p (push_all vs st) ts)) e
      ∙ pop_onto-push_all vs [] st 0
      ∙ ap (λ w. done w (at base f rest p st ts)) (append-nil vs)

  do_call_lem :
      (pf : Platform) (run : List Instr → Step (Unit {0})) (n : Text) (vs st : List Value)
      (v : Value)
      → arity n ≡ some (length vs)
      → try_call pf n vs ≡ some (ok v)
      → do_call pf run n (at base f rest p (push_all vs st) ts)
        ≡ done tt (at base f rest p (v ∷ st) ts)
  unfolding do_call
  do_call_lem pf run n vs st v a t = rw (do_call, a, pop_onto_lem vs st, t) refl

  -- A call by name that gives the interpreter a value, with as many arguments as the VM pops for a
  -- builtin of that name, leaves the interpreter's state as it was, and makes the VM replace the
  -- arguments on its stack by the same value.
  pub do_call-call_by :
      (pf : Platform) (body : Block → Interp.Step (Unit {0})) (run : List Instr → Step (Unit {0}))
      (n : Text) (vs st : List Value) (v : Value) (q : SourcePos) (s s' : Scope)
      → arity n ≡ some (length vs)
      → call_by pf body n vs q s ≡ done v s'
      → (s' ≡ s)
        × (do_call pf run n (at base f rest p (push_all vs st) ts)
            ≡ done tt (at base f rest p (v ∷ st) ts))
  unfolding call_by
  do_call-call_by pf body run n vs st v q s s' a h =
      let (r, t) = (try_call-arity pf n vs).0 (_, a) in
      let h' : lift r s ≡ done v s' = sym (rw (call_by, t) refl) ∙ h in
      let (e, e') = lift-done r s h' in (e', do_call_lem pf run n vs st v a (t ∙ ap some e))
