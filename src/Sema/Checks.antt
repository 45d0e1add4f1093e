-- ===== src/Sema/Checks.antt =====
-- The second pass of src/sema.rs against the description of a body's scope.
use native.Mathlib.Omega.{arith}
use mathlib.Core.Path.{subst, fun_ext}
use tracescript.Prelude.Assoc
use tracescript.Prelude.{
  ℕ, ◌≡◌, refl, sym, ap, ◌∙◌, ◌↔◌, inl, inr, Bool, true, false, List, [], ◌∷◌, ◌++◌, none, some,
  Text, text_eq_iff, length, ◌==◌, ==_iff, Bool-cases, Option-cases, All, is_some_iff,
}
use tracescript.Error.{SourcePos}
use tracescript.Value.{
  Message, TraceError, unknown_table, insert_arity, undefined_function, wrong_arity,
}
use tracescript.Syntax.{
  Expr, Exprs, nil, cons, Stmt, Block, Else, no_else, else_, then_, count_args, Decl,
}
use tracescript.Sema.{
  Analyzer, SymbolTable, has, is_known, table_exists, expect, builtin_names, validate_call,
  validate_expr, validate_exprs, validate_insert, validate_stmt, validate_block, validate_else,
  validate_decl, validate_decls,
}
use tracescript.Sema.Scoped.{
  IsAmong, IsTable, IsBound, CanCall, CanInsert, IsScoped, AreScoped, bound_after, StmtIsScoped,
  BlockIsScoped, ElseIsScoped, DeclIsScoped,
}

-- A method that reports no error exactly where `P` holds and none was reported before, and leaves
-- the symbols as they are.
pub record Checks (σ : SymbolTable) (P : Type 0) (g : Analyzer → Analyzer) : Type 0 where
  pub keeps : (a : Analyzer) → a.symbols ≡ σ → (g a).symbols ≡ σ
  pub sound : (a : Analyzer) → a.symbols ≡ σ → (g a).diagnostics ≡ [] → (a.diagnostics ≡ []) × P
  pub complete : (a : Analyzer) → a.symbols ≡ σ → a.diagnostics ≡ [] → P → (g a).diagnostics ≡ []

has_iff : (xs : List Text) (x : Text) → (has xs x ≡ true) ↔ IsAmong x xs
unfolding has
has_iff [] x = ground arith
has_iff (y ∷ xs) x = ground (arith, text_eq_iff y x, has_iff xs x)

pub false≢true : false ≡ true → ⊥
false≢true h = cc

pub none≢some {ℓ} : {A : Type ℓ} {a : A} → none ≡ some a → ⊥
none≢some h = cc

some_inj {ℓ} : {A : Type ℓ} {a b : A} → some a ≡ some b → a ≡ b
some_inj h = cc

is_known_iff :
    (σ : SymbolTable) (xs : List Text) (x : Text) → (is_known σ xs x ≡ true) ↔ IsBound σ xs x
is_known_iff σ xs x = ground (
  arith,
  has_iff xs x,
  is_some_iff (Assoc.lookup σ.functions x),
  is_some_iff (Assoc.lookup σ.tables x),
)

pub cons≢nil {ℓ} : {A : Type ℓ} {a : A} {xs : List A} → a ∷ xs ≡ [] → ⊥
cons≢nil h = cc

pub push_ne : (es : List TraceError) (e : TraceError) → es ++ e ∷ [] ≡ [] → ⊥
push_ne [] e h = cc
push_ne (d ∷ es) e h = cc

module _ (σ : SymbolTable) where
  skip-Checks : Checks σ Unit (λ a. a)
  skip-Checks = record { keeps = λ a h. h; sound = λ a h c. (c, tt); complete = λ a h c p. c }

  then-Checks :
      {P Q : Type 0} (g h : Analyzer → Analyzer)
      → Checks σ P g
      → Checks σ Q h
      → Checks σ (P × Q) (λ a. h (g a))
  then-Checks g h c d = record {
    keeps = λ a s. d.keeps (g a) (c.keeps a s);
    sound = λ a s k.
        let (l, q) = d.sound (g a) (c.keeps a s) k in let (m, p) = c.sound a s l in (m, (p, q));
    complete = λ a s k (p, q). d.complete (g a) (c.keeps a s) (c.complete a s k p) q;
  }

  expect_at-Checks :
      {P : Type 0} (g : Analyzer → Analyzer) (b : Bool) (m : Message) (p : SourcePos)
      → ((a : Analyzer) → a.symbols ≡ σ → g a ≡ expect b m p a)
      → (b ≡ true) ↔ P
      → Checks σ P g
  unfolding expect
  expect_at-Checks g true m p e i = record {
    keeps = λ a s. rw (e a s) s;
    sound = λ a s k. ((rw (e a s) at k), i.0 refl);
    complete = λ a s k q. rw (e a s) k;
  }
  expect_at-Checks g false m p e i = record {
    keeps = λ a s. rw (e a s) s;
    sound = λ a s k. absurd (push_ne a.diagnostics _ (rw (e a s) at k));
    complete = λ a s k q. absurd (let f : false ≡ true = i.1 q in cc);
  }

  expect-Checks :
      {P : Type 0} (b : SymbolTable → Bool) (m : Message) (p : SourcePos)
      → (b σ ≡ true) ↔ P
      → Checks σ P (λ a. expect (b a.symbols) m p a)
  expect-Checks b m p i = expect_at-Checks _ (b σ) m p (λ a s. rw s refl) i

  IsTable-Checks :
      (t : Text) (m : Message) (p : SourcePos)
      → Checks σ (IsTable σ t) (λ a. expect (table_exists a.symbols t) m p a)
  IsTable-Checks t m p = expect-Checks (λ s. table_exists s t) m p (is_some_iff _)

  validate_insert-Checks :
      (t : Text) (n : ℕ) (p : SourcePos) → Checks σ (CanInsert σ t n) (validate_insert t n p)
  unfolding validate_insert expect
  validate_insert-Checks t n p = elim (Option-cases (Assoc.lookup σ.tables t)) [
    | inl e ↦
        expect_at-Checks _ false (unknown_table t) p
          (λ a s. rw (validate_insert, ap (λ τ. Assoc.lookup τ.tables t) s ∙ e) refl)
          (λ h. absurd (false≢true h), λ (info, q, r). absurd (none≢some (sym e ∙ q)))
    | inr (info, e) ↦
        expect_at-Checks _ (length info.fields == n) (insert_arity t (length info.fields) n) p
          (λ a s. rw (validate_insert, ap (λ τ. Assoc.lookup τ.tables t) s ∙ e) refl)
          (
            λ h. (info, e, (==_iff _ _).0 h),
            λ (j, q, r). (==_iff _ _).1 (ap (λ i. length i.fields) (some_inj (sym e ∙ q)) ∙ r),
          )
  ]

  validate_call-Checks :
      (f : Text) (n : ℕ) (p : SourcePos) (xs : List Text)
      → Checks σ (CanCall σ f n xs) (validate_call f n p xs)
  unfolding validate_call
  validate_call-Checks f n p xs = elim (Bool-cases (has builtin_names f)) [
    | inl b ↦
        expect_at-Checks _ true (undefined_function f) p (λ a s. rw b refl)
          (λ h. inl ((has_iff builtin_names f).0 b), λ c. refl)
    | inr b ↦ elim (Option-cases (Assoc.lookup σ.functions f)) [
      | inl e ↦
          expect_at-Checks _ (has xs f) (undefined_function f) p
            (λ a s. rw (b, ap (λ τ. Assoc.lookup τ.functions f) s ∙ e) refl)
            (
              λ h. inr (inr (e, (has_iff xs f).0 h)),
              λ c. elim c [
                | inl m ↦ absurd (false≢true (sym b ∙ (has_iff builtin_names f).1 m))
                | inr (inl (info, q, r)) ↦ absurd (none≢some (sym e ∙ q))
                | inr (inr (q, m)) ↦ (has_iff xs f).1 m
              ],
            )
      | inr (info, e) ↦
          expect_at-Checks _ (info.arity == n) (wrong_arity f info.arity n) p
            (λ a s. rw (b, ap (λ τ. Assoc.lookup τ.functions f) s ∙ e) refl)
            (
              λ h. inr (inl (info, e, (==_iff _ _).0 h)),
              λ c. elim c [
                | inl m ↦ absurd (false≢true (sym b ∙ (has_iff builtin_names f).1 m))
                | inr (inl (j, q, r)) ↦
                    (==_iff _ _).1 (ap (λ i. i.arity) (some_inj (sym e ∙ q)) ∙ r)
                | inr (inr (q, m)) ↦ absurd (none≢some (sym q ∙ e))
              ],
            )
    ]
  ]

  mutual
    unfolding validate_expr IsScoped

    expr-Checks : (e : Expr) (xs : List Text) → Checks σ (IsScoped σ e xs) (validate_expr e xs)
    expr-Checks (Expr.integer n) xs = skip-Checks
    expr-Checks (Expr.float f) xs = skip-Checks
    expr-Checks (Expr.str s) xs = skip-Checks
    expr-Checks (Expr.bool b) xs = skip-Checks
    expr-Checks (Expr.identifier x) xs =
        expect-Checks (λ s. is_known s xs x) _ _ (is_known_iff σ xs x)
    expr-Checks (Expr.binary l op r p) xs = then-Checks _ _ (expr-Checks l xs) (expr-Checks r xs)
    expr-Checks (Expr.unary op e p) xs = expr-Checks e xs
    expr-Checks (Expr.call f es p) xs =
        then-Checks _ _ (validate_call-Checks f (count_args es) p xs) (exprs-Checks es xs)
    expr-Checks (Expr.field_access e f p) xs = expr-Checks e xs
    expr-Checks (Expr.index t e p) xs = then-Checks _ _ (IsTable-Checks t _ _) (expr-Checks e xs)

    exprs-Checks :
        (es : Exprs) (xs : List Text) → Checks σ (AreScoped σ es xs) (validate_exprs es xs)
    exprs-Checks nil xs = skip-Checks
    exprs-Checks (cons e es) xs = then-Checks _ _ (expr-Checks e xs) (exprs-Checks es xs)

  stmt-bound_after :
      (c : Stmt) (xs : List Text) (a : Analyzer) → (validate_stmt c xs a).1 ≡ bound_after σ c xs
  unfolding validate_stmt bound_after
  stmt-bound_after (Stmt.let_ x e p) xs a = refl
  stmt-bound_after (Stmt.assign x e p) xs a = refl
  stmt-bound_after (Stmt.if_ c t e p) xs a = refl
  stmt-bound_after (Stmt.for_ x t b p) xs a = refl
  stmt-bound_after (Stmt.index_assign t i f e p) xs a = refl
  stmt-bound_after (Stmt.insert t es p) xs a = refl
  stmt-bound_after (Stmt.alert es p) xs a = refl
  stmt-bound_after (Stmt.show t p) xs a = refl
  stmt-bound_after (Stmt.export t f p) xs a = refl
  stmt-bound_after (Stmt.print e p) xs a = refl
  stmt-bound_after (Stmt.call_stmt f es p) xs a = refl
  stmt-bound_after (Stmt.return none p) xs a = refl
  stmt-bound_after (Stmt.return (some e) p) xs a = refl

  mutual
    unfolding validate_stmt StmtIsScoped bound_after

    stmt-Checks :
        (c : Stmt) (xs : List Text) → Checks σ (StmtIsScoped σ c xs) (λ a. (validate_stmt c xs a).0)
    stmt-Checks (Stmt.let_ x e p) xs = expr-Checks e xs
    stmt-Checks (Stmt.assign x e p) xs =
        then-Checks _ _ (expect-Checks (λ s. has xs x) _ p (has_iff xs x)) (expr-Checks e xs)
    stmt-Checks (Stmt.if_ c t e p) xs =
        then-Checks _ _ (expr-Checks c xs) (then-Checks _ _ (block-Checks t xs) (else-Checks e xs))
    stmt-Checks (Stmt.for_ x t b p) xs =
        then-Checks _ _ (IsTable-Checks t _ _) (block-Checks b (x ∷ xs))
    stmt-Checks (Stmt.index_assign t i f e p) xs =
        then-Checks _ _ (IsTable-Checks t _ _)
          (then-Checks _ _ (expr-Checks i xs) (expr-Checks e xs))
    stmt-Checks (Stmt.insert t es p) xs =
        then-Checks _ _ (validate_insert-Checks t (count_args es) p) (exprs-Checks es xs)
    stmt-Checks (Stmt.alert es p) xs = exprs-Checks es xs
    stmt-Checks (Stmt.show t p) xs = IsTable-Checks t _ p
    stmt-Checks (Stmt.export t f p) xs = IsTable-Checks t _ p
    stmt-Checks (Stmt.print e p) xs = expr-Checks e xs
    stmt-Checks (Stmt.call_stmt f es p) xs =
        then-Checks _ _ (validate_call-Checks f (count_args es) p xs) (exprs-Checks es xs)
    stmt-Checks (Stmt.return none p) xs = skip-Checks
    stmt-Checks (Stmt.return (some e) p) xs = expr-Checks e xs

    block-Checks :
        (b : Block) (xs : List Text) → Checks σ (BlockIsScoped σ b xs) (validate_block b xs)
    block-Checks Block.done xs = skip-Checks
    block-Checks (then_ c b) xs =
        subst (Checks σ _)
          (fun_ext λ a.
            ap (λ ys. validate_block b ys (validate_stmt c xs a).0) (sym (stmt-bound_after c xs a)))
          (then-Checks _ _ (stmt-Checks c xs) (block-Checks b (bound_after σ c xs)))

    else-Checks : (e : Else) (xs : List Text) → Checks σ (ElseIsScoped σ e xs) (validate_else e xs)
    else-Checks no_else xs = skip-Checks
    else-Checks (else_ b) xs = block-Checks b xs

  pub decl-Checks : (d : Decl) → Checks σ (DeclIsScoped σ d) (validate_decl d)
  unfolding validate_decl DeclIsScoped
  decl-Checks (Decl.source s) = skip-Checks
  decl-Checks (Decl.table t) = skip-Checks
  decl-Checks (Decl.event_handler h) = block-Checks h.body (h.param_name ∷ [])
  decl-Checks (Decl.finish_handler f) = block-Checks f.body []
  decl-Checks (Decl.function f) = block-Checks f.body f.params

  pub decls-Checks : (ds : List Decl) → Checks σ (All (DeclIsScoped σ) ds) (validate_decls ds)
  unfolding validate_decls
  decls-Checks [] = skip-Checks
  decls-Checks (d ∷ ds) = then-Checks _ _ (decl-Checks d) (decls-Checks ds)
