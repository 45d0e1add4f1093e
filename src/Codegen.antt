-- ===== src/Codegen.antt =====
-- src/bytecode/codegen.rs: from the syntax tree to bytecode. The vectors that the compiler appends
-- to are one record; a jump is emitted with argument 0 and patched when its target is known. Indices
-- stay natural numbers: the casts to `u32` and `u16` matter only past four billion instructions or
-- 65,535 parameters.
pub mod Emit
pub mod Agree
pub mod Declarations
pub mod Correct
use tracescript.Prelude.{
  ℕ, zero, suc, ◌+◌, ◌-◌, Bool, true, false, List, [], ◌∷◌, ◌++◌, Option, none, some, Text, codes,
  text_eq, length, get_elem?, set, ◌==◌, if◌then◌else◌, int_eq, map, ◌%◌, ◌^◌,
}
use tracescript.Value.{Value}
use tracescript.Tables.{TableField, as_str}
use tracescript.Syntax.{
  BinOp, UnOp, Expr, Exprs, nil, cons, Stmt, Block, Else, no_else, else_, then_, Decl, Program,
  count_args,
}
use tracescript.Opcode.{
  Opcode, Instr, instr, CompiledFunction, CompiledEventHandler, CompiledTable, BytecodeModule,
  current_version,
}

-- `code`, `locals` and the constant pool of `cx`
pub record Compiler : Type 0 where
  pub code : List Instr
  pub locals : List Text
  pub constants : List Value

-- Whether two constants have one `{:?}` key. Events are no constants.
unfoldable pub same_constant : Value → Value → Bool
same_constant (Value.int a) (Value.int b) = int_eq a b
same_constant (Value.float a) (Value.float b) = a == b
same_constant (Value.str a) (Value.str b) = text_eq a b
same_constant (Value.bool true) (Value.bool b) = b
same_constant (Value.bool false) (Value.bool b) = if b then false else true
same_constant Value.unit Value.unit = true
same_constant _ _ = false

-- `const_index.get(&key)`
unfoldable pub find_const : List Value → Value → Option ℕ
unfolding same_constant
find_const [] v = none
find_const (w ∷ ws) v =
    let later = find_const ws v in
    if same_constant w v then some 0 else elim later [ none ↦ none | some i ↦ some (suc i) ]

unfoldable pub intern_const : Value → Compiler → ℕ × Compiler
unfolding find_const
intern_const v cx = elim (find_const cx.constants v) [
  | some i ↦ (i, cx)
  | none ↦ (length cx.constants, record cx { constants = cx.constants ++ v ∷ [] })
]

-- `code.push(Instr::new(op, arg))`
abbrev pub emit : Opcode → ℕ → Compiler → Compiler
emit o a cx = record cx { code = cx.code ++ instr o a ∷ [] }

-- an instruction whose argument is a constant
unfoldable pub emit_const : Opcode → Value → Compiler → Compiler
unfolding intern_const
emit_const o v cx = let (i, cx') = intern_const v cx in emit o i cx'

-- `locals.iter().position(|l| l == name)`
unfoldable pub find_local : List Text → Text → Option ℕ
find_local [] x = none
find_local (y ∷ ys) x =
    let later = find_local ys x in
    if text_eq y x then some 0 else elim later [ none ↦ none | some i ↦ some (suc i) ]

unfoldable pub ensure_local : Text → Compiler → ℕ × Compiler
unfolding find_local
ensure_local x cx = elim (find_local cx.locals x) [
  | some i ↦ (i, cx)
  | none ↦ (length cx.locals, record cx { locals = cx.locals ++ x ∷ [] })
]

unfoldable pub binary_opcode : BinOp → Opcode
binary_opcode BinOp.add = Opcode.add
binary_opcode BinOp.sub = Opcode.sub
binary_opcode BinOp.mul = Opcode.mul
binary_opcode BinOp.div = Opcode.div
binary_opcode BinOp.mod_ = Opcode.mod_
binary_opcode BinOp.eq = Opcode.eq
binary_opcode BinOp.not_eq = Opcode.not_eq
binary_opcode BinOp.lt = Opcode.lt
binary_opcode BinOp.gt = Opcode.gt
binary_opcode BinOp.lt_eq = Opcode.lt_eq
binary_opcode BinOp.gt_eq = Opcode.gt_eq
binary_opcode BinOp.and = Opcode.and
binary_opcode BinOp.or = Opcode.or
binary_opcode BinOp.contains = Opcode.contains

unfoldable pub unary_opcode : UnOp → Opcode
unary_opcode UnOp.not = Opcode.not
unary_opcode UnOp.neg = Opcode.neg

unfoldable pub compile_identifier : Text → Compiler → Compiler
unfolding find_local emit_const
compile_identifier x cx = elim (find_local cx.locals x) [
  | some i ↦ emit Opcode.load_var i cx
  | none ↦ emit_const Opcode.load_const (Value.str x) cx
]

unfoldable mutual
  unfolding compile_identifier emit_const binary_opcode unary_opcode

  pub compile_expr : Expr → Compiler → Compiler
  compile_expr (Expr.integer n) cx = emit_const Opcode.load_const (Value.int n) cx
  compile_expr (Expr.float n) cx = emit_const Opcode.load_const (Value.float n) cx
  compile_expr (Expr.str s) cx = emit_const Opcode.load_const (Value.str s) cx
  compile_expr (Expr.bool b) cx = emit_const Opcode.load_const (Value.bool b) cx
  compile_expr (Expr.identifier x) cx = compile_identifier x cx
  compile_expr (Expr.binary l op r p) cx =
      emit (binary_opcode op) 0 (compile_expr r (compile_expr l cx))
  compile_expr (Expr.unary op e p) cx = emit (unary_opcode op) 0 (compile_expr e cx)
  compile_expr (Expr.call n args p) cx =
      emit_const Opcode.call (Value.str n) (compile_exprs args cx)
  compile_expr (Expr.field_access e f p) cx =
      emit_const Opcode.get_event_field (Value.str f) (compile_expr e cx)
  compile_expr (Expr.index tbl e p) cx =
      emit_const Opcode.index_get (Value.str tbl) (compile_expr e cx)

  pub compile_exprs : Exprs → Compiler → Compiler
  compile_exprs nil cx = cx
  compile_exprs (cons e es) cx = compile_exprs es (compile_expr e cx)

-- `code[at].arg = target`
unfoldable pub patch : ℕ → ℕ → Compiler → Compiler
patch at target cx = elim (get_elem? cx.code at) [
  | none ↦ cx
  | some i ↦ record cx { code = set cx.code at (instr i.op target) }
]

-- `code.push(Instr::new(StoreVar, ensure_local(locals, name)))`
unfoldable pub store_local : Text → Compiler → Compiler
unfolding ensure_local
store_local x cx = let (i, cx') = ensure_local x cx in emit Opcode.store_var i cx'

-- the two constants of an index assignment are interned before its two instructions
unfoldable pub emit_index_assign : Text → Text → Compiler → Compiler
unfolding intern_const
emit_index_assign tbl f cx =
    let (t, cx₁) = intern_const (Value.str tbl) cx in
    let (k, cx₂) = intern_const (Value.str f) cx₁ in
    emit Opcode.pop k (emit Opcode.index_assign t cx₂)

unfoldable mutual
  unfolding compile_expr patch store_local emit_index_assign

  pub compile_stmt : Stmt → Compiler → Compiler
  compile_stmt (Stmt.let_ x e p) cx = store_local x (compile_expr e cx)
  compile_stmt (Stmt.assign x e p) cx = store_local x (compile_expr e cx)
  compile_stmt (Stmt.index_assign tbl ix f e p) cx =
      emit_index_assign tbl f (compile_expr ix (compile_expr e cx))
  compile_stmt (Stmt.if_ c t e p) cx =
      let cx₁ = compile_expr c cx in
      let jump_to_else = length cx₁.code in
      let cx₂ = compile_block t (emit Opcode.jump_if_false 0 cx₁) in
      let jump_to_end = length cx₂.code in
      let cx₃ = emit Opcode.jump 0 cx₂ in
      let else_start = length cx₃.code in
      let cx₄ = compile_else e cx₃ in
      patch jump_to_end (length cx₄.code) (patch jump_to_else else_start cx₄)
  compile_stmt (Stmt.for_ x tbl b p) cx =
      let cx₁ = emit_const Opcode.for_init (Value.str tbl) cx in
      let (var, cx₂) = ensure_local x cx₁ in
      let for_next_pos = length cx₂.code in
      let cx₃ = emit Opcode.store_var var (emit Opcode.for_next 0 cx₂) in
      let cx₄ = emit Opcode.jump 0 (compile_block b cx₃) in
      let exit = length cx₄.code in patch (exit - 1) for_next_pos (patch for_next_pos exit cx₄)
  compile_stmt (Stmt.insert tbl es p) cx =
      emit_const Opcode.insert_table (Value.str tbl) (compile_exprs es cx)
  compile_stmt (Stmt.alert es p) cx = emit Opcode.alert (count_args es) (compile_exprs es cx)
  compile_stmt (Stmt.show tbl p) cx = emit_const Opcode.show_table (Value.str tbl) cx
  compile_stmt (Stmt.export tbl path p) cx =
      emit_const Opcode.export_table (Value.str tbl) (compile_expr (Expr.str path) cx)
  compile_stmt (Stmt.print e p) cx = emit Opcode.print 0 (compile_expr e cx)
  compile_stmt (Stmt.call_stmt n args p) cx =
      emit Opcode.pop 0 (emit_const Opcode.call (Value.str n) (compile_exprs args cx))
  compile_stmt (Stmt.return none p) cx =
      emit Opcode.return 0 (emit_const Opcode.load_const Value.unit cx)
  compile_stmt (Stmt.return (some e) p) cx = emit Opcode.return 0 (compile_expr e cx)

  pub compile_block : Block → Compiler → Compiler
  compile_block Block.done cx = cx
  compile_block (then_ c b) cx = compile_block b (compile_stmt c cx)

  compile_else : Else → Compiler → Compiler
  compile_else no_else cx = cx
  compile_else (else_ b) cx = compile_block b cx

-- a fresh code vector over the pool so far
abbrev begin : List Text → List Value → Compiler
begin xs ks = record { code = []; locals = xs; constants = ks }

-- the arms of `collect` and of the loop of `finish`, which visits the declarations in one order
unfoldable pub compile_decl : Decl → BytecodeModule → BytecodeModule
unfolding compile_stmt emit_const as_str
compile_decl (Decl.source s) m = record m { source_path = some s.path }
compile_decl (Decl.table t) m = record m {
  tables =
      m.tables
      ++ (record {
        name = t.name;
        columns = map (λ (f : TableField). (f.name, as_str f.field_type)) t.fields;
      })
        ∷ [];
}
compile_decl (Decl.function f) m =
    let cx = emit Opcode.return 0 (
      emit_const Opcode.load_const Value.unit
        (compile_block f.body (begin f.params m.constants))) in
    record m {
      constants = cx.constants;
      functions =
          m.functions
          ++ (record {
            name = f.name;
            arity = length f.params % 2 ^ 16;
            locals = cx.locals;
            code = cx.code;
          })
            ∷ [];
    }
compile_decl (Decl.event_handler h) m =
    let cx = emit Opcode.return 0 (compile_block h.body (begin (h.param_name ∷ []) m.constants)) in
    record m {
      constants = cx.constants;
      event_handlers =
          m.event_handlers
          ++ (record { event_name = h.event_name; param_name = h.param_name; code = cx.code }) ∷ [];
    }
compile_decl (Decl.finish_handler f) m =
    let cx = emit Opcode.return 0 (compile_block f.body (begin [] m.constants)) in
    record m {
      constants = cx.constants;
      finish_handlers =
          m.finish_handlers
          ++ (record { name = codes "finish"; arity = 0; locals = cx.locals; code = cx.code }) ∷ [];
    }

abbrev pub empty_module : BytecodeModule
empty_module = record {
  version = current_version;
  constants = [];
  functions = [];
  event_handlers = [];
  finish_handlers = [];
  tables = [];
  source_path = none;
  entry = instr Opcode.halt 0 ∷ [];
}

unfoldable pub compile_decls : List Decl → BytecodeModule → BytecodeModule
unfolding compile_decl
compile_decls [] m = m
compile_decls (d ∷ ds) m = compile_decls ds (compile_decl d m)

-- `duplicate source declaration`
unfoldable pub has_second_source : Bool → List Decl → Bool
has_second_source seen [] = false
has_second_source seen (Decl.source s ∷ ds) = if seen then true else has_second_source true ds
has_second_source seen (d ∷ ds) = has_second_source seen ds

-- `none` is the error of a second source declaration.
unfoldable pub compile : Program → Option BytecodeModule
unfolding compile_decls has_second_source
compile p =
    if has_second_source false p.declarations
    then none
    else some (compile_decls p.declarations empty_module)
