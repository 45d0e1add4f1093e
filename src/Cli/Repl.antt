-- ===== src/Cli/Repl.antt =====
-- The interactive loop of src/cli.rs. A line is answered by a reply and the bindings that the next
-- one sees; what the line printed is in the reply.
pub mod First
pub mod Total
use tracescript.Prelude.{
  ℕ, suc, ◌≡◌, refl, ◌⊎◌, inl, inr, Bool, true, false, ◌||◌, List, [], ◌∷◌, ◌++◌, Option, none,
  some, Text, codes, text_eq, length, arith,
}
use tracescript.Value.{Value, Platform, TraceError}
use tracescript.Result.{
  Result, ok, err, panic, ◌>>=◌, Settles, bind-Settles, weaken-Settles, Bool-Settles,
  Option-Settles,
}
use tracescript.Packet.{Bytes}
use tracescript.Effects.{Files, Output}
use tracescript.Machine.{Ran, done, stop, raised}
use tracescript.Builtins.{trim_text, utf8}
use tracescript.Syntax.{Block, Decl, Program}
use tracescript.Lexer.{tokenize}
use tracescript.Parser.Program.{parse_program}
use tracescript.Interp.{Interpreter, Locals}
use tracescript.Interp.Engine.{new, eval_repl_block}

pub data Reply : Type 0 where
  skipped helped cleared quit internal_error : Reply
  rejected : Text → TraceError → Reply
  ran : List Output → Value → Reply
  stopped : List Output → TraceError → Reply
  crashed : List Output → Reply

-- the line as the body of a function, as bytes
unfoldable pub repl_script : Text → Bytes
unfolding utf8
repl_script line = utf8 (codes "function __repl__() { " ++ (line ++ codes " }"))

-- A panic of the interpreter ends the program, as a call that nests too deep does.
abbrev pub ends_loop : Reply → Bool
ends_loop Reply.quit = true
ends_loop (Reply.crashed o) = true
ends_loop _ = false

module _ (pf : Platform) (fs : Files) (fuel : ℕ) where
  abbrev pub answer : Locals → Ran Interpreter Value → Reply × Locals
  answer env (done v i) = (Reply.ran i.console v, i.repl_locals)
  answer env (stop (raised e) i) = (Reply.stopped i.console e, env)
  answer env (stop _ i) = (Reply.crashed i.console, env)

  -- the block of the first declaration, over the bindings
  unfoldable pub run_declaration : Interpreter → Locals → List Decl → Result (Reply × Locals)
  unfolding eval_repl_block
  run_declaration i env [] = panic
  run_declaration i env (Decl.function f ∷ ds) =
      ok (answer env (eval_repl_block pf fs fuel f.body (record i { repl_locals = env })))
  run_declaration i env (d ∷ ds) = ok (Reply.internal_error, env)

  unfoldable pub run_program : Locals → Program → Result (Reply × Locals)
  unfolding new run_declaration
  run_program env p = elim (new p) [
    | ok i ↦ run_declaration i env p.declarations
    | err e ↦ ok (Reply.rejected (codes "init error") e, env)
    | panic ↦ panic
  ]

  -- a line that is no command
  unfoldable pub run_line : Locals → Text → Result (Reply × Locals)
  unfolding repl_script tokenize parse_program run_program
  run_line env line = elim (tokenize pf (repl_script line)) [
    | err e ↦ ok (Reply.rejected (codes "lex error") e, env)
    | panic ↦ panic
    | ok ts ↦ elim (parse_program pf ts) [
      | err e ↦ ok (Reply.rejected (codes "parse error") e, env)
      | panic ↦ panic
      | ok r ↦ run_program env r.0
    ]
  ]

  -- the answer to the text of a line without the white space around it
  unfoldable pub answer_line : Locals → Text → Result (Reply × Locals)
  unfolding text_eq run_line
  answer_line env [] = ok (Reply.skipped, env)
  answer_line env (c ∷ s) =
      elim (text_eq (c ∷ s) (codes ":quit") || text_eq (c ∷ s) (codes ":exit")) [
        | true ↦ ok (Reply.quit, env)
        | false ↦ elim (text_eq (c ∷ s) (codes ":help")) [
          | true ↦ ok (Reply.helped, env)
          | false ↦ elim (text_eq (c ∷ s) (codes ":reset")) [
            | true ↦ ok (Reply.cleared, [])
            | false ↦ run_line env (c ∷ s)
          ]
        ]
      ]

  -- one round of `repl_cmd`, on the text that was read
  unfoldable pub repl_line : Locals → Text → Result (Reply × Locals)
  unfolding trim_text answer_line
  repl_line env input = answer_line env (trim_text pf.is_whitespace input)

  -- `repl_cmd` on the lines of its input, which it reads to the end or to a quit
  unfoldable pub repl_cmd : Locals → List Text → Result (List Reply)
  unfolding repl_line
  repl_cmd env [] = ok []
  repl_cmd env (l ∷ ls) = do
    r ← repl_line env l
    elim (ends_loop r.0) [
      | true ↦ ok (r.0 ∷ [])
      | false ↦ (repl_cmd r.1 ls >>= λ rs. ok (r.0 ∷ rs))
    ]
