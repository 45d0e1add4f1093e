-- ===== src/Sema/Scoped.antt =====
-- What src/sema.rs demands of a body, said of the syntax tree alone: every name is bound, every table
-- is declared, and every call and every insert has the right number of values.
use tracescript.Prelude.Assoc
use tracescript.Prelude.{ℕ, ◌≡◌, ◌⊎◌, List, [], ◌∷◌, none, some, Text, length}
use tracescript.Syntax.{
  Expr, Exprs, nil, cons, Stmt, Block, Else, no_else, else_, then_, count_args, Decl,
}
use tracescript.Sema.{SymbolTable, TableInfo, FunctionInfo, builtin_names}

abbrev pub IsAmong : Text → List Text → Type 0
IsAmong x [] = ⊥
IsAmong x (y ∷ ys) = (y ≡ x) ⊎ IsAmong x ys

module _ (σ : SymbolTable) where
  abbrev pub IsTable : Text → Type 0
  IsTable t = (info : TableInfo) × (Assoc.lookup σ.tables t ≡ some info)

  abbrev pub IsFunction : Text → Type 0
  IsFunction f = (info : FunctionInfo) × (Assoc.lookup σ.functions f ≡ some info)

  -- a variable, a function or a table
  abbrev pub IsBound : List Text → Text → Type 0
  IsBound xs x = IsAmong x xs ⊎ (IsFunction x ⊎ IsTable x)

  -- a builtin with any number of arguments, a declared function with as many as it has parameters,
  -- or else a variable
  abbrev pub CanCall : Text → ℕ → List Text → Type 0
  CanCall f n xs =
      IsAmong f builtin_names
      ⊎ (((info : FunctionInfo) × (Assoc.lookup σ.functions f ≡ some info) × (info.arity ≡ n))
          ⊎ ((Assoc.lookup σ.functions f ≡ none) × IsAmong f xs))

  -- a declared table with as many fields
  abbrev pub CanInsert : Text → ℕ → Type 0
  CanInsert t n =
      (info : TableInfo) × (Assoc.lookup σ.tables t ≡ some info) × (length info.fields ≡ n)

  unfoldable mutual
    pub IsScoped : Expr → List Text → Type 0
    IsScoped (Expr.identifier x) xs = IsBound xs x
    IsScoped (Expr.binary l op r p) xs = IsScoped l xs × IsScoped r xs
    IsScoped (Expr.unary op e p) xs = IsScoped e xs
    IsScoped (Expr.call f es p) xs = CanCall f (count_args es) xs × AreScoped es xs
    IsScoped (Expr.field_access e f p) xs = IsScoped e xs
    IsScoped (Expr.index t e p) xs = IsTable t × IsScoped e xs
    IsScoped _ xs = Unit

    pub AreScoped : Exprs → List Text → Type 0
    AreScoped nil xs = Unit
    AreScoped (cons e es) xs = IsScoped e xs × AreScoped es xs

  -- the variables in scope behind a statement
  unfoldable pub bound_after : Stmt → List Text → List Text
  bound_after (Stmt.let_ x e p) xs = x ∷ xs
  bound_after _ xs = xs

  unfoldable mutual
    unfolding IsScoped bound_after

    pub StmtIsScoped : Stmt → List Text → Type 0
    StmtIsScoped (Stmt.let_ x e p) xs = IsScoped e xs
    StmtIsScoped (Stmt.assign x e p) xs = IsAmong x xs × IsScoped e xs
    StmtIsScoped (Stmt.if_ c t e p) xs = IsScoped c xs × (BlockIsScoped t xs × ElseIsScoped e xs)
    StmtIsScoped (Stmt.for_ x t b p) xs = IsTable t × BlockIsScoped b (x ∷ xs)
    StmtIsScoped (Stmt.index_assign t i f e p) xs = IsTable t × (IsScoped i xs × IsScoped e xs)
    StmtIsScoped (Stmt.insert t es p) xs = CanInsert t (count_args es) × AreScoped es xs
    StmtIsScoped (Stmt.alert es p) xs = AreScoped es xs
    StmtIsScoped (Stmt.show t p) xs = IsTable t
    StmtIsScoped (Stmt.export t f p) xs = IsTable t
    StmtIsScoped (Stmt.print e p) xs = IsScoped e xs
    StmtIsScoped (Stmt.call_stmt f es p) xs = CanCall f (count_args es) xs × AreScoped es xs
    StmtIsScoped (Stmt.return none p) xs = Unit
    StmtIsScoped (Stmt.return (some e) p) xs = IsScoped e xs

    pub BlockIsScoped : Block → List Text → Type 0
    BlockIsScoped Block.done xs = Unit
    BlockIsScoped (then_ c b) xs = StmtIsScoped c xs × BlockIsScoped b (bound_after c xs)

    pub ElseIsScoped : Else → List Text → Type 0
    ElseIsScoped no_else xs = Unit
    ElseIsScoped (else_ b) xs = BlockIsScoped b xs

  unfoldable pub DeclIsScoped : Decl → Type 0
  unfolding BlockIsScoped
  DeclIsScoped (Decl.source s) = Unit
  DeclIsScoped (Decl.table t) = Unit
  DeclIsScoped (Decl.event_handler h) = BlockIsScoped h.body (h.param_name ∷ [])
  DeclIsScoped (Decl.finish_handler f) = BlockIsScoped f.body []
  DeclIsScoped (Decl.function f) = BlockIsScoped f.body f.params
