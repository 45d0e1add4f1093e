-- ===== src/Codegen/Emit.antt =====
-- What the compiler of src/bytecode/codegen.rs appends: compiling an expression only extends the code
-- and the constant pool, and a constant that was interned is found at its index.
use tracescript.Prelude.{
  ℕ, ◌≡◌, refl, sym, ap, ◌∙◌, true, false, List, [], ◌∷◌, ◌++◌, some, Text, text_eq_iff, length,
  get_elem?, int_eq, ℤ, arith, ==_iff, inl, inr, Bool-cases, Option-cases, get_elem?-append, Prefix,
  Prefix-refl, Prefix-append, Prefix-trans, pos, negsuc,
}
use tracescript.Value.{Value}
use tracescript.Syntax.{Expr, Exprs, nil, cons}
use tracescript.Opcode.{Opcode, instr}
use tracescript.Codegen.{
  Compiler, same_constant, find_const, intern_const, emit, emit_const, find_local,
  compile_identifier, compile_expr, compile_exprs,
}

int_eq→eq : (a b : ℤ) → int_eq a b ≡ true → a ≡ b
int_eq→eq (pos a) (pos b) h = ground arith
int_eq→eq (pos a) (negsuc b) h = cc
int_eq→eq (negsuc a) (pos b) h = cc
int_eq→eq (negsuc a) (negsuc b) h = ground arith

same_constant→eq : (v w : Value) → same_constant v w ≡ true → v ≡ w
unfolding same_constant
same_constant→eq (Value.int a) (Value.int b) h = ap Value.int (int_eq→eq a b h)
same_constant→eq (Value.float a) (Value.float b) h = ap Value.float ((==_iff a b).0 h)
same_constant→eq (Value.str a) (Value.str b) h = ap Value.str ((text_eq_iff a b).0 h)
same_constant→eq (Value.bool true) (Value.bool b) h = ap Value.bool (sym h)
same_constant→eq (Value.bool false) (Value.bool true) h = cc
same_constant→eq (Value.bool false) (Value.bool false) h = refl
same_constant→eq Value.unit Value.unit h = refl
same_constant→eq _ _ h = cc

find_const-get_elem? :
    (ks : List Value) (v : Value) (i : ℕ) → find_const ks v ≡ some i → get_elem? ks i ≡ some v
unfolding find_const
find_const-get_elem? [] v i h = cc
find_const-get_elem? (w ∷ ws) v i h = elim (Bool-cases (same_constant w v)) [
  | inl e ↦ ground (arith, e, h, same_constant→eq w v e)
  | inr e ↦ elim (Option-cases (find_const ws v)) [
    | inl n ↦ ground (arith, e, n, h)
    | inr (j, f) ↦ ground (arith, e, f, h, find_const-get_elem? ws v j f)
  ]
]

-- `cx'` is `cx` with code and constants added.
pub record Extends (cx cx' : Compiler) : Type 0 where
  pub code : Prefix cx.code cx'.code
  pub constants : Prefix cx.constants cx'.constants
  pub locals : cx'.locals ≡ cx.locals

pub Extends-refl : (cx : Compiler) → Extends cx cx
Extends-refl cx = record {
  code = Prefix-refl cx.code;
  constants = Prefix-refl cx.constants;
  locals = refl;
}

pub Extends-trans : {a b c : Compiler} → Extends a b → Extends b c → Extends a c
Extends-trans p q = record {
  code = Prefix-trans _ _ _ p.code q.code;
  constants = Prefix-trans _ _ _ p.constants q.constants;
  locals = q.locals ∙ p.locals;
}

pub emit-Extends : (o : Opcode) (a : ℕ) (cx : Compiler) → Extends cx (emit o a cx)
emit-Extends o a cx = record {
  code = Prefix-append cx.code _;
  constants = Prefix-refl cx.constants;
  locals = refl;
}

-- One instruction was emitted, and its argument is the index of the constant `v`.
pub record EmitsConst (o : Opcode) (v : Value) (cx cx' : Compiler) : Type 0 where
  pub index : ℕ
  pub code : cx'.code ≡ cx.code ++ instr o index ∷ []
  pub found : get_elem? cx'.constants index ≡ some v
  pub constants : Prefix cx.constants cx'.constants
  pub locals : cx'.locals ≡ cx.locals

-- An instruction emitted with a constant is one instruction at the end of the code, its argument is an
-- index at which the pool holds that constant, and the pool is only extended.
pub emit_const-EmitsConst :
    (o : Opcode) (v : Value) (cx : Compiler) → EmitsConst o v cx (emit_const o v cx)
unfolding emit_const intern_const
emit_const-EmitsConst o v cx = elim (Option-cases (find_const cx.constants v)) [
  | inr (i, e) ↦
      rw (e, emit_const, intern_const)
        (record {
          index = i;
          code = refl;
          found = find_const-get_elem? cx.constants v i e;
          constants = Prefix-refl cx.constants;
          locals = refl;
        })
  | inl e ↦
      rw (e, emit_const, intern_const)
        (record {
          index = length cx.constants;
          code = refl;
          found = get_elem?-append cx.constants [] v;
          constants = Prefix-append cx.constants _;
          locals = refl;
        })
]

pub EmitsConst-Extends :
    {o : Opcode} {v : Value} {cx cx' : Compiler} → EmitsConst o v cx cx' → Extends cx cx'
EmitsConst-Extends {o} {v} {cx} m = record {
  code = (instr o m.index ∷ [], m.code);
  constants = m.constants;
  locals = m.locals;
}

pub emit_const-Extends : (o : Opcode) (v : Value) (cx : Compiler) → Extends cx (emit_const o v cx)
emit_const-Extends o v cx = EmitsConst-Extends (emit_const-EmitsConst o v cx)

pub compile_identifier-Extends : (x : Text) (cx : Compiler) → Extends cx (compile_identifier x cx)
unfolding compile_identifier
compile_identifier-Extends x cx = elim (Option-cases (find_local cx.locals x)) [
  | inl e ↦ rw (e, compile_identifier) (emit_const-Extends _ _ cx)
  | inr (i, e) ↦ rw (e, compile_identifier) (emit-Extends _ _ cx)
]

mutual
  unfolding compile_expr

  emits_code : (e : Expr) (cx : Compiler) → Extends cx (compile_expr e cx)
  emits_code (Expr.integer n) cx = emit_const-Extends _ _ cx
  emits_code (Expr.float n) cx = emit_const-Extends _ _ cx
  emits_code (Expr.str s) cx = emit_const-Extends _ _ cx
  emits_code (Expr.bool b) cx = emit_const-Extends _ _ cx
  emits_code (Expr.identifier x) cx = compile_identifier-Extends x cx
  emits_code (Expr.binary l op r p) cx =
      Extends-trans (emits_code l cx)
        (Extends-trans (emits_code r (compile_expr l cx)) (emit-Extends _ _ _))
  emits_code (Expr.unary op e p) cx = Extends-trans (emits_code e cx) (emit-Extends _ _ _)
  emits_code (Expr.call n args p) cx =
      Extends-trans (emits_code_all args cx) (emit_const-Extends _ _ _)
  emits_code (Expr.field_access e f p) cx =
      Extends-trans (emits_code e cx) (emit_const-Extends _ _ _)
  emits_code (Expr.index tbl e p) cx = Extends-trans (emits_code e cx) (emit_const-Extends _ _ _)

  emits_code_all : (es : Exprs) (cx : Compiler) → Extends cx (compile_exprs es cx)
  emits_code_all nil cx = Extends-refl cx
  emits_code_all (cons e es) cx =
      Extends-trans (emits_code e cx) (emits_code_all es (compile_expr e cx))

-- Compiling an expression only appends to the code and to the constant pool, and adds no local.
pub compile_expr-Extends : (e : Expr) (cx : Compiler) → Extends cx (compile_expr e cx)
compile_expr-Extends e cx = emits_code e cx

pub compile_exprs-Extends : (es : Exprs) (cx : Compiler) → Extends cx (compile_exprs es cx)
compile_exprs-Extends es cx = emits_code_all es cx
