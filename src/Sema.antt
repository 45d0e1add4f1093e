-- ===== src/Sema.antt =====
-- src/sema.rs: the semantic analyzer. A method takes the analyzer and gives it back changed; none of
-- them but `analyze` fails, so only that one has a result. The variables in scope, a `HashSet`, are
-- a list, and the tables, functions and handlers lists of entries.
pub mod Scoped
pub mod Checks
pub mod Collect
pub mod Step
pub mod Accepts
pub mod Start
use tracescript.Prelude.Assoc
use tracescript.Prelude.{
  ℕ, Bool, true, false, not, ◌&&◌, ◌||◌, List, [], ◌∷◌, ◌++◌, Option, none, some, Text, codes,
  text_eq, length, ◌==◌, if◌then◌else◌, is_some,
}
use tracescript.Error.{SourcePos, no_pos}
use tracescript.Value.{
  Message, TraceError, semantic, unknown_table, undefined_identifier, undefined_function,
  undefined_variable, wrong_arity, unsupported_source, duplicate_source, duplicate_table,
  duplicate_handler, duplicate_finish, duplicate_function, insert_arity,
}
use tracescript.Result.{Result, ok, err}
use tracescript.Tables.{TableField}
use tracescript.Syntax.{
  Expr, Exprs, nil, cons, Stmt, Block, Else, no_else, else_, then_, count_args, Decl, Program,
}

pub record TableInfo : Type 0 where
  pub name : Text
  pub fields : List TableField
  pub pos : SourcePos

pub record FunctionInfo : Type 0 where
  pub name : Text
  pub arity : ℕ
  pub pos : SourcePos

pub record EventHandlerInfo : Type 0 where
  pub event_name : Text
  pub param_name : Text
  pub pos : SourcePos

pub record SymbolTable : Type 0 where
  pub tables : List (Text × TableInfo)
  pub functions : List (Text × FunctionInfo)
  pub event_handlers : List (Text × EventHandlerInfo)
  pub finish_handlers : List SourcePos
  pub source : Option Text

pub record Analyzer : Type 0 where
  pub symbols : SymbolTable
  pub diagnostics : List TraceError

-- `Analyzer::new`
abbrev pub new : Analyzer
new = record {
  symbols = record {
    tables = [];
    functions = [];
    event_handlers = [];
    finish_handlers = [];
    source = none;
  };
  diagnostics = [];
}

abbrev is_empty : List SourcePos → Bool
is_empty [] = true
is_empty (p ∷ ps) = false

-- `HashSet::contains`
unfoldable pub has : List Text → Text → Bool
has [] x = false
has (y ∷ ys) x = text_eq y x || has ys x

-- `err`, and `err_unknown`
abbrev pub push : Message → SourcePos → Analyzer → Analyzer
push m p a = record a { diagnostics = a.diagnostics ++ semantic m p ∷ [] }

abbrev pub push_unknown : Text → Analyzer → Analyzer
push_unknown t = push (unknown_table t) no_pos

-- `if !b { self.err(m, p) }`
unfoldable pub expect : Bool → Message → SourcePos → Analyzer → Analyzer
expect b m p a = if b then a else push m p a

abbrev is_source_type : Text → Bool
is_source_type t = text_eq t (codes "pcap") || text_eq t (codes "jsonl") || text_eq t (codes "csv")

unfoldable pub collect_decl : Decl → Analyzer → Analyzer
unfolding expect
collect_decl (Decl.source s) a =
    let b = expect (is_source_type s.source_type) (unsupported_source s.source_type) s.pos a in
    if is_some b.symbols.source
    then push duplicate_source s.pos b
    else record b { symbols = record (b.symbols) { source = some s.path } }
collect_decl (Decl.table t) a =
    if is_some (Assoc.lookup a.symbols.tables t.name)
    then push (duplicate_table t.name) t.pos a
    else record a {
      symbols = record (a.symbols) {
        tables =
            Assoc.insert a.symbols.tables t.name
              (record { name = t.name; fields = t.fields; pos = t.pos });
      };
    }
collect_decl (Decl.event_handler h) a =
    if is_some (Assoc.lookup a.symbols.event_handlers h.event_name)
    then push (duplicate_handler h.event_name) h.pos a
    else record a {
      symbols = record (a.symbols) {
        event_handlers =
            Assoc.insert a.symbols.event_handlers h.event_name
              (record { event_name = h.event_name; param_name = h.param_name; pos = h.pos });
      };
    }
collect_decl (Decl.finish_handler f) a =
    if is_empty a.symbols.finish_handlers
    then record a {
      symbols = record (a.symbols) { finish_handlers = a.symbols.finish_handlers ++ f.pos ∷ [] };
    }
    else push duplicate_finish f.pos a
collect_decl (Decl.function f) a =
    if is_some (Assoc.lookup a.symbols.functions f.name)
    then push (duplicate_function f.name) f.pos a
    else record a {
      symbols = record (a.symbols) {
        functions =
            Assoc.insert a.symbols.functions f.name
              (record { name = f.name; arity = length f.params; pos = f.pos });
      };
    }

-- `table_exists`, and `is_known`
abbrev pub table_exists : SymbolTable → Text → Bool
table_exists s t = is_some (Assoc.lookup s.tables t)

abbrev pub is_known : SymbolTable → List Text → Text → Bool
is_known s xs x = has xs x || is_some (Assoc.lookup s.functions x) || table_exists s x

-- the names that `validate_call` leaves to the engines
abbrev pub builtin_names : List Text
builtin_names =
    codes "len"
    ∷ codes "contains"
    ∷ codes "starts_with"
    ∷ codes "ends_with"
    ∷ codes "to_string"
    ∷ codes "now"
    ∷ codes "count"
    ∷ codes "filter"
    ∷ codes "sort"
    ∷ codes "hash_sha256"
    ∷ codes "substring"
    ∷ codes "lower"
    ∷ codes "upper"
    ∷ codes "trim"
    ∷ []

unfoldable pub validate_call : Text → ℕ → SourcePos → List Text → Analyzer → Analyzer
unfolding has expect
validate_call f n p xs a =
    if has builtin_names f then a else elim (Assoc.lookup a.symbols.functions f) [
      | some info ↦ expect (info.arity == n) (wrong_arity f info.arity n) p a
      | none ↦ expect (has xs f) (undefined_function f) p a
    ]

unfoldable mutual
  unfolding validate_call expect has

  pub validate_expr : Expr → List Text → Analyzer → Analyzer
  validate_expr (Expr.integer n) xs a = a
  validate_expr (Expr.float f) xs a = a
  validate_expr (Expr.str s) xs a = a
  validate_expr (Expr.bool b) xs a = a
  validate_expr (Expr.identifier x) xs a =
      expect (is_known a.symbols xs x) (undefined_identifier x) no_pos a
  validate_expr (Expr.binary l op r p) xs a = validate_expr r xs (validate_expr l xs a)
  validate_expr (Expr.unary op e p) xs a = validate_expr e xs a
  validate_expr (Expr.call f es p) xs a =
      validate_exprs es xs (validate_call f (count_args es) p xs a)
  validate_expr (Expr.field_access e f p) xs a = validate_expr e xs a
  validate_expr (Expr.index t e p) xs a =
      validate_expr e xs (expect (table_exists a.symbols t) (unknown_table t) no_pos a)

  pub validate_exprs : Exprs → List Text → Analyzer → Analyzer
  validate_exprs nil xs a = a
  validate_exprs (cons e es) xs a = validate_exprs es xs (validate_expr e xs a)

-- the check of the number of values in `Stmt::Insert`
unfoldable pub validate_insert : Text → ℕ → SourcePos → Analyzer → Analyzer
unfolding expect
validate_insert t n p a = elim (Assoc.lookup a.symbols.tables t) [
  | some info ↦ expect (length info.fields == n) (insert_arity t (length info.fields) n) p a
  | none ↦ push (unknown_table t) p a
]

-- A statement gives back the variables in scope behind it; those of an inner block are lost with it.
unfoldable mutual
  unfolding validate_expr validate_insert validate_call expect has

  pub validate_stmt : Stmt → List Text → Analyzer → Analyzer × List Text
  validate_stmt (Stmt.let_ x e p) xs a = (validate_expr e xs a, x ∷ xs)
  validate_stmt (Stmt.assign x e p) xs a =
      (validate_expr e xs (expect (has xs x) (undefined_variable x) p a), xs)
  validate_stmt (Stmt.if_ c t e p) xs a =
      (validate_else e xs (validate_block t xs (validate_expr c xs a)), xs)
  validate_stmt (Stmt.for_ x t b p) xs a =
      (validate_block b (x ∷ xs) (expect (table_exists a.symbols t) (unknown_table t) no_pos a), xs)
  validate_stmt (Stmt.index_assign t i f e p) xs a =
      let b = expect (table_exists a.symbols t) (unknown_table t) no_pos a in
      (validate_expr e xs (validate_expr i xs b), xs)
  validate_stmt (Stmt.insert t es p) xs a =
      (validate_exprs es xs (validate_insert t (count_args es) p a), xs)
  validate_stmt (Stmt.alert es p) xs a = (validate_exprs es xs a, xs)
  validate_stmt (Stmt.show t p) xs a = (expect (table_exists a.symbols t) (unknown_table t) p a, xs)
  validate_stmt (Stmt.export t f p) xs a =
      (expect (table_exists a.symbols t) (unknown_table t) p a, xs)
  validate_stmt (Stmt.print e p) xs a = (validate_expr e xs a, xs)
  validate_stmt (Stmt.call_stmt f es p) xs a =
      (validate_exprs es xs (validate_call f (count_args es) p xs a), xs)
  validate_stmt (Stmt.return none p) xs a = (a, xs)
  validate_stmt (Stmt.return (some e) p) xs a = (validate_expr e xs a, xs)

  pub validate_block : Block → List Text → Analyzer → Analyzer
  validate_block Block.done xs a = a
  validate_block (then_ c b) xs a = let r = validate_stmt c xs a in validate_block b (r.1) (r.0)

  pub validate_else : Else → List Text → Analyzer → Analyzer
  validate_else no_else xs a = a
  validate_else (else_ b) xs a = validate_block b xs a

unfoldable pub validate_decl : Decl → Analyzer → Analyzer
unfolding validate_block
validate_decl (Decl.source s) a = a
validate_decl (Decl.table t) a = a
validate_decl (Decl.event_handler h) a = validate_block h.body (h.param_name ∷ []) a
validate_decl (Decl.finish_handler f) a = validate_block f.body [] a
validate_decl (Decl.function f) a = validate_block f.body f.params a

unfoldable pub collect_decls : List Decl → Analyzer → Analyzer
unfolding collect_decl
collect_decls [] a = a
collect_decls (d ∷ ds) a = collect_decls ds (collect_decl d a)

unfoldable pub validate_decls : List Decl → Analyzer → Analyzer
unfolding validate_decl
validate_decls [] a = a
validate_decls (d ∷ ds) a = validate_decls ds (validate_decl d a)

-- the first diagnostic, which is removed
abbrev pub first_error : Analyzer → Result (Unit {0}) × Analyzer
first_error a = elim (a.diagnostics) [
  | [] ↦ (ok tt, a)
  | e ∷ es ↦ (err e, record a { diagnostics = es })
]

unfoldable pub analyze : Analyzer → Program → Result (Unit {0}) × Analyzer
unfolding collect_decls validate_decls
analyze a p = first_error (validate_decls p.declarations (collect_decls p.declarations a))
