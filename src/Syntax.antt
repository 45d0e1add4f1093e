-- ===== src/Syntax.antt =====
-- The syntax tree of src/parser.rs (`ast_inline`). A `Vec` of nodes inside a node is a type of the
-- mutual block, as is the optional `else` branch.
use tracescript.Prelude.{ℕ, suc, List, Option, Text, ℤ, Bool}
use tracescript.Error.{SourcePos}
use tracescript.Tables.{TableField}

pub data BinOp : Type 0 where
  add sub mul div mod_ eq not_eq lt gt lt_eq gt_eq and or contains : BinOp

pub data UnOp : Type 0 where
  not neg : UnOp

mutual
  pub data Expr : Type 0 where
    integer : ℤ → Expr
    float : ℕ → Expr
    str : Text → Expr
    bool : Bool → Expr
    identifier : Text → Expr
    binary : Expr → BinOp → Expr → SourcePos → Expr
    unary : UnOp → Expr → SourcePos → Expr
    call : Text → Exprs → SourcePos → Expr
    field_access : Expr → Text → SourcePos → Expr
    index : Text → Expr → SourcePos → Expr

  pub data Exprs : Type 0 where
    nil : Exprs
    cons : Expr → Exprs → Exprs

mutual
  pub data Stmt : Type 0 where
    let_ : Text → Expr → SourcePos → Stmt
    assign : Text → Expr → SourcePos → Stmt
    index_assign : Text → Expr → Text → Expr → SourcePos → Stmt
    if_ : Expr → Block → Else → SourcePos → Stmt
    for_ : Text → Text → Block → SourcePos → Stmt
    insert : Text → Exprs → SourcePos → Stmt
    alert : Exprs → SourcePos → Stmt
    show : Text → SourcePos → Stmt
    export : Text → Text → SourcePos → Stmt
    print : Expr → SourcePos → Stmt
    call_stmt : Text → Exprs → SourcePos → Stmt
    return : Option Expr → SourcePos → Stmt

  pub data Block : Type 0 where
    done : Block
    then_ : Stmt → Block → Block

  pub data Else : Type 0 where
    no_else : Else
    else_ : Block → Else

unfoldable pub count_args : Exprs → ℕ
count_args nil = 0
count_args (cons e es) = suc (count_args es)

pub record SourceDecl : Type 0 where
  pub source_type : Text
  pub path : Text
  pub pos : SourcePos

pub record TableDecl : Type 0 where
  pub name : Text
  pub fields : List TableField
  pub pos : SourcePos

pub record EventHandlerDecl : Type 0 where
  pub event_name : Text
  pub param_name : Text
  pub body : Block
  pub pos : SourcePos

pub record FinishHandlerDecl : Type 0 where
  pub body : Block
  pub pos : SourcePos

pub record FunctionDecl : Type 0 where
  pub name : Text
  pub params : List Text
  pub body : Block
  pub pos : SourcePos

pub data Decl : Type 0 where
  source : SourceDecl → Decl
  table : TableDecl → Decl
  event_handler : EventHandlerDecl → Decl
  finish_handler : FinishHandlerDecl → Decl
  function : FunctionDecl → Decl

pub record Program : Type 0 where
  pub declarations : List Decl
