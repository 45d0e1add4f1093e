-- ===== src/Sema/Start.antt =====
-- A program that src/sema.rs accepts, in `Interpreter::new` of src/interp/mod.rs, `compile` of
-- src/bytecode/codegen.rs and `VM::new` of src/bytecode/vm.rs.
use tracescript.Prelude.{
  ◌≡◌, refl, inl, inr, Bool, true, false, List, [], ◌∷◌, ◌++◌, none, some, Bool-cases, text_eq,
  text_eq_iff,
}
use tracescript.Result.{ok}
use tracescript.Tables.{get, put, create, new_table}
use tracescript.Tables.Store.{get-put}
use tracescript.Syntax.{Decl, TableDecl, SourceDecl, Program}
use tracescript.Opcode.{BytecodeModule}
use tracescript.Interp.{Interpreter}
use tracescript.Interp.Engine.{empty, declare, declare_all, new as new_interpreter}
use tracescript.Codegen.{has_second_source, compile, compile_decls, empty_module}
use tracescript.Codegen.Declarations.{new-compile}
use tracescript.Vm.{Vm}
use tracescript.Vm.Engine.{new as new_vm}
use tracescript.Sema.{new, analyze}
use tracescript.Sema.Collect.{IsFresh, Clash, AreDistinct}
use tracescript.Sema.Accepts.{IsAccepted, analyze-IsAccepted}

IsFresh-snoc :
    (d e : Decl) (es : List Decl) → IsFresh d (es ++ e ∷ []) → IsFresh d es × (Clash e d → ⊥)
unfolding IsFresh
IsFresh-snoc d e [] h = (tt, h.0)
IsFresh-snoc d e (c ∷ es) h = let (l, r) = IsFresh-snoc d e es h.1 in ((h.0, l), r)

-- a table without a namesake in `es` can be created
HasRoom : List Decl → Interpreter → Type 0
HasRoom es i = (t : TableDecl) → IsFresh (Decl.table t) es → get i.tables t.name ≡ none

-- one declaration of `Interpreter::new`
declare-HasRoom :
    (es : List Decl) (d : Decl) (i : Interpreter)
    → HasRoom es i
    → IsFresh d es
    → (j : Interpreter) × (declare i d ≡ ok j) × HasRoom (es ++ d ∷ []) j
unfolding declare create Clash HasRoom
declare-HasRoom es (Decl.table u) i h f = (
  record i { tables = put i.tables u.name (new_table u.name u.fields) },
  rw (declare, create, h u f) refl,
  λ t g.
      let (l, r) = IsFresh-snoc (Decl.table t) (Decl.table u) es g in
      elim (Bool-cases (text_eq u.name t.name)) [
        | inl e ↦ absurd (r ((text_eq_iff u.name t.name).0 e))
        | inr e ↦ rw (get-put, e, h t l) refl
      ],
)
declare-HasRoom es (Decl.source s) i h f = (_, refl, λ t g. h t (IsFresh-snoc _ _ es g).0)
declare-HasRoom es (Decl.event_handler s) i h f = (_, refl, λ t g. h t (IsFresh-snoc _ _ es g).0)
declare-HasRoom es (Decl.finish_handler s) i h f = (_, refl, λ t g. h t (IsFresh-snoc _ _ es g).0)
declare-HasRoom es (Decl.function s) i h f = (_, refl, λ t g. h t (IsFresh-snoc _ _ es g).0)

declare_all-AreDistinct :
    (es ds : List Decl) (i : Interpreter)
    → HasRoom es i
    → AreDistinct es ds
    → (j : Interpreter) × (declare_all i ds ≡ ok j)
unfolding declare_all AreDistinct IsFresh
declare_all-AreDistinct es [] i h a = (i, refl)
declare_all-AreDistinct es (d ∷ ds) i h (s, (f, a)) =
    let (j, e, k) = declare-HasRoom es d i h f in
    let (l, g) = declare_all-AreDistinct (es ++ d ∷ []) ds j k a in (l, rw (declare_all, e) g)

-- the flag is set only behind a source
SourceSeen : List Decl → Bool → Type 0
SourceSeen es seen = (s : SourceDecl) → IsFresh (Decl.source s) es → seen ≡ false

has_second_source-AreDistinct :
    (es ds : List Decl) (seen : Bool)
    → SourceSeen es seen
    → AreDistinct es ds
    → has_second_source seen ds ≡ false
unfolding has_second_source AreDistinct IsFresh SourceSeen Clash
has_second_source-AreDistinct es [] seen h a = refl
has_second_source-AreDistinct es (Decl.source s ∷ ds) seen h (u, (f, a)) = rw (h s f) (
    has_second_source-AreDistinct (es ++ Decl.source s ∷ []) ds true
      (λ t g. absurd ((IsFresh-snoc (Decl.source t) (Decl.source s) es g).1 tt)) a)
has_second_source-AreDistinct es (Decl.table t ∷ ds) seen h (u, (f, a)) =
    has_second_source-AreDistinct _ ds seen (λ s g. h s (IsFresh-snoc _ _ es g).0) a
has_second_source-AreDistinct es (Decl.event_handler t ∷ ds) seen h (u, (f, a)) =
    has_second_source-AreDistinct _ ds seen (λ s g. h s (IsFresh-snoc _ _ es g).0) a
has_second_source-AreDistinct es (Decl.finish_handler t ∷ ds) seen h (u, (f, a)) =
    has_second_source-AreDistinct _ ds seen (λ s g. h s (IsFresh-snoc _ _ es g).0) a
has_second_source-AreDistinct es (Decl.function t ∷ ds) seen h (u, (f, a)) =
    has_second_source-AreDistinct _ ds seen (λ s g. h s (IsFresh-snoc _ _ es g).0) a

-- For a program that the analyzer accepts, the interpreter can be made, the program compiles, the VM
-- can be made from its module, and the two engines start with the same tables.
pub analyze-new :
    (p : Program)
    → (analyze new p).0 ≡ ok tt
    → (i : Interpreter) × (m : BytecodeModule) × (vm : Vm) × (new_interpreter p ≡ ok i)
      × (compile p ≡ some m)
      × (new_vm m ≡ ok vm)
      × (vm.tables ≡ i.tables)
unfolding IsAccepted new_interpreter compile HasRoom SourceSeen get
analyze-new p h =
    let (a, _) = (analyze-IsAccepted p).0 h in
    let (i, e) = declare_all-AreDistinct [] p.declarations empty (λ t f. refl) a in
    let single = has_second_source-AreDistinct [] p.declarations false (λ s f. refl) a in
    let compiled : compile p ≡ some (compile_decls p.declarations empty_module) = rw single refl in
    let (vm, g, k) = new-compile p i (compile_decls p.declarations empty_module) e compiled in
    (i, compile_decls p.declarations empty_module, vm, e, compiled, g, k)
