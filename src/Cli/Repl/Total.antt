-- ===== src/Cli/Repl/Total.antt =====
-- The interactive loop of src/cli.rs on any line: the first declaration of its program is there.
use tracescript.Prelude.{
  ℕ, suc, ◌≡◌, refl, sym, ◌∙◌, Bool, true, false, ◌||◌, List, [], ◌∷◌, ◌++◌, Text, codes, text_eq,
  length, ap, ◌⊎◌, inl, inr, if◌then◌else◌,
}
use tracescript.Value.{Platform, TraceError}
use tracescript.Result.{
  Result, ok, err, panic, Ensures, Settles, bind-Settles, Option-Settles, Bool-Settles,
}
use tracescript.Packet.{Bytes}
use tracescript.Effects.{Files}
use tracescript.Tables.{TableField, TableStore, get, create}
use tracescript.Builtins.{trim_text, utf8}
use tracescript.Syntax.{Decl, Program}
use tracescript.Lexer.{Spanned, tokenize}
use tracescript.Lexer.Loops.{IsLexErrorIn}
use tracescript.Lexer.Total.{IsStream, tokenize-IsStream}
use tracescript.Parser.{Tokens}
use tracescript.Parser.Program.{parse_program}
use tracescript.Parser.Total.{IsParseError}
use tracescript.Parser.Total.Program.{IsFinished, parse_program-IsFinished}
use tracescript.Interp.{Interpreter, Locals}
use tracescript.Interp.Engine.{declare, declare_all, new as new_interpreter}
use tracescript.Cli.Repl.{
  Reply, ends_loop, answer, repl_script, run_declaration, run_program, run_line, answer_line,
  repl_line, repl_cmd,
}
use tracescript.Cli.Repl.First.{Begins, NonEmpty, tokenize-Begins, parse_program-NonEmpty}
use tracescript.Machine.{Ran, done, stop, raised}
use tracescript.Value.{Value}
use tracescript.Interp.Engine.{eval_repl_block}

-- `?` written out
try-Settles {ℓ κ} :
    {A : Type ℓ} {B : Type κ} {E : TraceError → Type 0} {P : A → Type 0} {Q : B → Type 0}
    (m : Result A) (f : A → Result B)
    → Settles E P m
    → ((a : A) → P a → Settles E Q (f a))
    → Settles E Q (elim m [ ok a ↦ f a | err e ↦ err e | panic ↦ panic ])
try-Settles (ok a) f h k = k a h.ends
try-Settles (err e) f h k = record { ends = h.ends }
try-Settles panic f h k = absurd h.ends

-- declaring does not panic
create-Settles :
    (s : TableStore) (n : Text) (fs : List TableField)
    → Settles (λ e. Unit {0}) (λ t. Unit {0}) (create s n fs)
unfolding create
create-Settles s n fs =
    Option-Settles (get s n) _ _ (λ e. record { ends = tt }) (λ t e. record { ends = tt })

declare-Settles :
    (i : Interpreter) (d : Decl) → Settles (λ e. Unit {0}) (λ j. Unit {0}) (declare i d)
unfolding declare
declare-Settles i (Decl.source s) = record { ends = tt }
declare-Settles i (Decl.table t) =
    try-Settles (create i.tables t.name t.fields) _ (create-Settles i.tables t.name t.fields)
      λ ts u. record { ends = tt }
declare-Settles i (Decl.event_handler h) = record { ends = tt }
declare-Settles i (Decl.finish_handler h) = record { ends = tt }
declare-Settles i (Decl.function f) = record { ends = tt }

declare_all-Settles :
    (i : Interpreter) (ds : List Decl) → Settles (λ e. Unit {0}) (λ j. Unit {0}) (declare_all i ds)
unfolding declare_all
declare_all-Settles i [] = record { ends = tt }
declare_all-Settles i (d ∷ ds) =
    try-Settles (declare i d) _ (declare-Settles i d) λ j u. declare_all-Settles j ds

new-Settles : (p : Program) → Settles (λ e. Unit {0}) (λ j. Unit {0}) (new_interpreter p)
unfolding new_interpreter
new-Settles p = declare_all-Settles _ p.declarations

abbrev IsCrash : Reply → Type 0
IsCrash (Reply.crashed o) = Unit
IsCrash _ = ⊥

crash_ends : (r : Reply) → IsCrash r → ends_loop r ≡ true
crash_ends (Reply.crashed o) h = refl
crash_ends _ h = absurd h

-- One of the replies, the last, is a crash of the interpreter.
abbrev pub Crashes : List Reply → Type 0
Crashes [] = ⊥
Crashes (r ∷ rs) = IsCrash r ⊎ Crashes rs

-- An answer, and neither an error nor a panic. The flag is whether it ends the loop, unless the
-- interpreter crashed.
abbrev Answers : Bool → Result (Reply × Locals) → Type 0
Answers b = Settles (λ e. ⊥) (λ r. IsCrash r.0 ⊎ (ends_loop r.0 ≡ b))

-- the commands that quit
abbrev is_quit : Text → Bool
is_quit t = text_eq t (codes ":quit") || text_eq t (codes ":exit")

module _ (pf : Platform) (fs : Files) (fuel : ℕ) (env : Locals) where
  answer-open :
      (r : Ran Interpreter Value)
      → IsCrash (answer pf fs fuel env r).0 ⊎ (ends_loop (answer pf fs fuel env r).0 ≡ false)
  answer-open (done v i) = inr refl
  answer-open (stop (raised e) i) = inr refl
  answer-open (stop _ i) = inl tt

  run_declaration-Answers :
      (i : Interpreter) (ds : List Decl)
      → NonEmpty ds
      → Answers false (run_declaration pf fs fuel i env ds)
  unfolding run_declaration
  run_declaration-Answers i [] h = absurd h
  run_declaration-Answers i (Decl.function f ∷ ds) h = record {
    ends = answer-open (eval_repl_block pf fs fuel f.body (record i { repl_locals = env }));
  }
  run_declaration-Answers i (d ∷ ds) h = record { ends = inr refl }

  run_program-Answers :
      (p : Program) → NonEmpty p.declarations → Answers false (run_program pf fs fuel env p)
  unfolding run_program
  run_program-Answers p h = go (new_interpreter p) (new-Settles p)
    where
      go :
          (m : Result Interpreter)
          → Settles (λ e. Unit {0}) (λ j. Unit {0}) m
          → Answers false (elim m [
            | ok i ↦ run_declaration pf fs fuel i env p.declarations
            | err e ↦ ok (Reply.rejected (codes "init error") e, env)
            | panic ↦ panic
          ])
      go (ok i) k = run_declaration-Answers i p.declarations h
      go (err e) k = record { ends = inr refl }
      go panic k = absurd k.ends

  parsed-Answers :
      (m : Result (Program × Tokens))
      → Settles IsParseError IsFinished m
      → Ensures (λ r. NonEmpty r.0.declarations) m
      → Answers false (elim m [
        | err e ↦ ok (Reply.rejected (codes "parse error") e, env)
        | panic ↦ panic
        | ok r ↦ run_program pf fs fuel env r.0
      ])
  parsed-Answers (ok r) h k = run_program-Answers r.0 k
  parsed-Answers (err e) h k = record { ends = inr refl }
  parsed-Answers panic h k = absurd h.ends

  lexed-Answers :
      (source : Bytes) (m : Result (List Spanned))
      → Settles (IsLexErrorIn source) (IsStream source 0) m
      → Ensures Begins m
      → Answers false (elim m [
        | err e ↦ ok (Reply.rejected (codes "lex error") e, env)
        | panic ↦ panic
        | ok ts ↦ elim (parse_program pf ts) [
          | err e ↦ ok (Reply.rejected (codes "parse error") e, env)
          | panic ↦ panic
          | ok r ↦ run_program pf fs fuel env r.0
        ]
      ])
  lexed-Answers source (ok ts) h k =
      parsed-Answers (parse_program pf ts) (parse_program-IsFinished pf ts)
        (parse_program-NonEmpty pf ts k)
  lexed-Answers source (err e) h k = record { ends = inr refl }
  lexed-Answers source panic h k = absurd h.ends

  run_line-Answers : (line : Text) → Answers false (run_line pf fs fuel env line)
  unfolding run_line repl_script utf8
  run_line-Answers line =
      lexed-Answers (repl_script line) (tokenize pf (repl_script line))
        (tokenize-IsStream (repl_script line) pf)
        (tokenize-Begins pf (utf8 (codes "unction __repl__() { " ++ (line ++ codes " }"))))

  answer_line-Answers : (t : Text) → Answers (is_quit t) (answer_line pf fs fuel env t)
  unfolding answer_line text_eq
  answer_line-Answers [] = record { ends = inr refl }
  answer_line-Answers (c ∷ s) =
      Bool-Settles (text_eq (c ∷ s) (codes ":quit") || text_eq (c ∷ s) (codes ":exit")) _ _
        (λ e. record { ends = inr (sym e) })
        λ e. rw e (
          Bool-Settles (text_eq (c ∷ s) (codes ":help")) _ _ (λ f. record { ends = inr refl })
            λ f.
              Bool-Settles (text_eq (c ∷ s) (codes ":reset")) _ _ (λ g. record { ends = inr refl })
                (λ g. run_line-Answers (c ∷ s)))

-- The lines that the loop reads: up to the first command that quits.
abbrev pub lines_read : Platform → List Text → List Text
lines_read pf [] = []
lines_read pf (l ∷ ls) =
    let more = lines_read pf ls in
    if is_quit (trim_text pf.is_whitespace l) then l ∷ [] else l ∷ more

-- The loop ends without an error, with one reply for each line that it reads, unless the
-- interpreter crashes on a line.
pub repl_cmd-lines_read :
    (pf : Platform) (fs : Files) (fuel : ℕ) (env : Locals) (ls : List Text)
    → Settles
        (λ e. ⊥)
        (λ rs. Crashes rs ⊎ (length rs ≡ length (lines_read pf ls)))
        (repl_cmd pf fs fuel env ls)
unfolding repl_cmd repl_line
repl_cmd-lines_read pf fs fuel env [] = record { ends = inr refl }
repl_cmd-lines_read pf fs fuel env (l ∷ ls) =
    bind-Settles (answer_line pf fs fuel env (trim_text pf.is_whitespace l)) _
      (answer_line-Answers pf fs fuel env (trim_text pf.is_whitespace l))
      λ r h.
        Bool-Settles (ends_loop r.0) _ _ (λ e. record { ends = last l ls r.0 e h })
          (λ e.
            bind-Settles (repl_cmd pf fs fuel r.1 ls) _ (repl_cmd-lines_read pf fs fuel r.1 ls)
              λ rs k. record { ends = more l ls r.0 rs e h k })
  where
    last :
        (l : Text) (ls : List Text) (r : Reply)
        → ends_loop r ≡ true
        → IsCrash r ⊎ (ends_loop r ≡ is_quit (trim_text pf.is_whitespace l))
        → Crashes (r ∷ []) ⊎ (1 ≡ length (lines_read pf (l ∷ ls)))
    last l ls r e (inl c) = inl (inl c)
    last l ls r e (inr h) = inr (rw (sym h ∙ e) refl)

    more :
        (l : Text) (ls : List Text) (r : Reply) (rs : List Reply)
        → ends_loop r ≡ false
        → IsCrash r ⊎ (ends_loop r ≡ is_quit (trim_text pf.is_whitespace l))
        → Crashes rs ⊎ (length rs ≡ length (lines_read pf ls))
        → Crashes (r ∷ rs) ⊎ (suc (length rs) ≡ length (lines_read pf (l ∷ ls)))
    more l ls r rs e (inl c) k = absurd (let f : true ≡ false = sym (crash_ends r c) ∙ e in cc)
    more l ls r rs e (inr h) (inl k) = inl (inr k)
    more l ls r rs e (inr h) (inr k) = inr (rw (sym h ∙ e) (ap suc k))
