-- ===== src/Tests/Cli.antt =====
-- Commands of src/cli.rs on small sources.
use tracescript.Prelude.{
  ◌≡◌, refl, ◌⊎◌, List, [], ◌∷◌, none, codes, pos, Text, text_eq, length, inl, inr, Option, some,
  ap, ◌∙◌, if◌then◌else◌,
}
use tracescript.Prelude.Assoc
use tracescript.Syntax.{count_args, Program}
use tracescript.Codegen.{compile}
use tracescript.Opcode.{BytecodeModule, ModuleFiles}
use tracescript.Value.{Value, to_string, parse, expected_found}
use tracescript.Result.{Result, ok, ◌>>=◌, Settles}
use tracescript.Effects.{printed}
use tracescript.Runtime.{Sources}
use tracescript.Cli.{checked, check_cmd, compile_cmd, vm_cmd, run_vm}
use tracescript.Cli.Start.{IsRejection, Starts, ReadsBack, checked-Starts, run_vm-vm_cmd}
use tracescript.Cli.Repl.{Reply, repl_cmd}
use tracescript.Cli.Repl.Total.{Crashes, lines_read, repl_cmd-lines_read}
use tracescript.Parser.Total.Source.{IsParsed}
use tracescript.Tests.Fixtures.{test_platform}
use tracescript.Tests.Engines.{no_files, vm}

abbrev no_sources : Sources
no_sources = record {
  read_pcap = λ p. ok [];
  read_lines = λ p. ok [];
  parse_json = λ s. inr none;
  read_csv = λ p. ok ([], []);
}

abbrev script : Text
script = codes "source pcap \"a.pcap\" table t { n: int } on dns(e) { insert t(1) }"

declarations : check_cmd test_platform script ≡ ok 3
unfolding check_cmd Assoc.lookup Assoc.insert count_args
declarations = refl

-- The bindings of a line are there for the next one. The help names the expression `1 + 2` as
-- something to type; a line is a statement, and an expression is none.
abbrev session : List Text
session =
    codes "let x = 2" ∷ codes " print x " ∷ codes "1 + 2" ∷ codes ":quit" ∷ codes "let y = 1" ∷ []

replies :
    repl_cmd test_platform no_files 9 [] session
    ≡ ok (
        Reply.ran [] (Value.int (pos 2))
        ∷ Reply.ran (printed (codes "2") ∷ []) (Value.int (pos 2))
        ∷ Reply.rejected (codes "parse error") (
            parse
              (expected_found (codes "statement") (codes "Integer(1)"))
              (record { line = 1; col = 23; offset = 22 }))
        ∷ Reply.quit
        ∷ [])
unfolding repl_cmd Assoc.lookup Assoc.insert to_string
replies = refl

checked-Starts_example :
    Settles
      (IsRejection test_platform script)
      (λ p. IsParsed test_platform script p × Starts p)
      (checked test_platform script)
checked-Starts_example = checked-Starts test_platform script

abbrev compiled : Result Program → Option BytecodeModule
compiled (ok p) = compile p
compiled _ = none

abbrev module_of : Option BytecodeModule → BytecodeModule
module_of (some m) = m
module_of none = vm.program

-- the module of the script
abbrev script_module : BytecodeModule
script_module = module_of (compiled (checked test_platform script))

-- a serialiser for one module, whose file is a single byte
abbrev one_module : ModuleFiles
one_module = record {
  to_vec = λ m. inr (b'm' ∷ []);
  from_slice =
      λ b. if text_eq b (b'm' ∷ []) then inr script_module else inl (codes "unknown module");
  write = λ b. none;
}

script-ReadsBack :
    (p : Program) (m : BytecodeModule)
    → checked test_platform script ≡ ok p
    → compile p ≡ some m
    → ReadsBack one_module m
unfolding text_eq
script-ReadsBack p m c k =
    (b'm' ∷ [], refl, refl, ap inr (ap (λ r. module_of (compiled r)) c ∙ ap module_of k))

run_vm-vm_cmd_example : run_vm test_platform no_files no_sources 9 script none none none ≡ (
    compile_cmd test_platform one_module script >>= λ b.
    vm_cmd test_platform no_files no_sources 9 one_module (inr b) none none none)
run_vm-vm_cmd_example =
    run_vm-vm_cmd test_platform no_files one_module no_sources 9 script none none none
      script-ReadsBack

repl_cmd-lines_read_example :
    Settles
      (λ e. ⊥)
      (λ rs. Crashes rs ⊎ (length rs ≡ length (lines_read test_platform session)))
      (repl_cmd test_platform no_files 9 [] session)
repl_cmd-lines_read_example = repl_cmd-lines_read test_platform no_files 9 [] session
