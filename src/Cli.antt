-- ===== src/Cli.antt =====
-- src/cli.rs, behind the reading of files and arguments: what `check`, `compile`, `run` and the
-- interactive loop do with a source. `anyhow` passes the errors on; what is printed is a value.
pub mod Start
pub mod Repl
use tracescript.Prelude.{ℕ, List, [], ◌∷◌, ◌++◌, Option, none, some, Text, codes, length, ◌⊎◌}
use tracescript.Value.{Value, Platform, to_string, compile_failed}
use tracescript.Result.{Result, ok, ok_or, ◌>>=◌}
use tracescript.Packet.{Bytes}
use tracescript.Effects.{Files}
use tracescript.Machine
use tracescript.Machine.{Ran, Run}
use tracescript.Syntax.{Program}
use tracescript.Parser.Program.{parse_source}
use tracescript.Sema
use tracescript.Sema.{analyze}
use tracescript.Filter.{Filter}
use tracescript.Filter.Parser as Filters
use tracescript.Opcode.{ModuleFiles, save, load}
use tracescript.Codegen.{compile}
use tracescript.Interp.{Interpreter}
use tracescript.Interp.Engine as Interpreting
use tracescript.Vm.{Vm}
use tracescript.Vm.Engine as Executing
use tracescript.Runtime.{Sources, run_script}

module _ (pf : Platform) where
  -- the steps that `check`, `compile` and `run` begin with
  unfoldable pub checked : Bytes → Result Program
  unfolding parse_source analyze
  checked src = do p ← parse_source pf src; u ← (analyze Sema.new p).0; ok p

  -- `check_cmd`: the number of declarations
  unfoldable pub check_cmd : Bytes → Result ℕ
  unfolding checked
  check_cmd src = do p ← checked src; ok (length p.declarations)

  -- `compile_cmd`: the bytes of the file that it writes
  unfoldable pub compile_cmd : ModuleFiles → Bytes → Result Bytes
  unfolding checked compile save
  compile_cmd mf src = do p ← checked src; m ← ok_or (compile p) compile_failed; save mf m

  unfoldable pub filter_arg : Option Text → Result (Option Filter)
  unfolding Filters.parse
  filter_arg none = ok none
  filter_arg (some s) = do f ← Filters.parse pf s; ok (some f)

  -- `parts.join(" ")` in `write_alerts_jsonl`
  unfoldable pub alert_message : List Value → Text
  unfolding to_string
  alert_message [] = []
  alert_message (v ∷ []) = to_string pf v
  alert_message (v ∷ w ∷ vs) = to_string pf v ++ (codes " " ++ alert_message (w ∷ vs))

  module _ (fs : Files) (files : Sources) (fuel : ℕ) where
    -- The engine over the capture, and its finish handlers. What stops it leaves it as it was then.
    unfoldable pub drive_interpreter :
        Option Text → Option Filter → Option Text → Run Interpreter (Unit {0})
    unfolding run_script Interpreting.dispatch_event Interpreting.run_finish
    drive_interpreter pcap filter grep i =
        Machine.◌>>◌
          (run_script (λ e. Interpreting.dispatch_event pf fs fuel e.0 e.1) pf files i.source pcap
            filter grep)
          (Interpreting.run_finish pf fs fuel) i

    unfoldable pub drive_vm : Option Text → Option Filter → Option Text → Run Vm (Unit {0})
    unfolding run_script Executing.dispatch_event Executing.run_finish
    drive_vm pcap filter grep vm =
        Machine.◌>>◌
          (run_script (λ e. Executing.dispatch_event pf fs fuel e.0 e.1) pf files
            vm.program.source_path pcap filter grep)
          (Executing.run_finish pf fs fuel) vm

    -- `run_cmd` without and with `--vm`: an error in front of the run, or the run
    unfoldable pub run_interpreter :
        Bytes → Option Text → Option Text → Option Text → Result (Ran Interpreter (Unit {0}))
    unfolding checked filter_arg Interpreting.new drive_interpreter
    run_interpreter src pcap filter grep = do
      p ← checked src
      f ← filter_arg filter
      i ← Interpreting.new p
      ok (drive_interpreter pcap f grep i)

    -- `vm_cmd` on a file, given by what reading it gives
    unfoldable pub vm_cmd :
        ModuleFiles
        → Text ⊎ Bytes
        → Option Text
        → Option Text
        → Option Text
        → Result (Ran Vm (Unit {0}))
    unfolding filter_arg Executing.new drive_vm load
    vm_cmd mf file pcap filter grep = do
      m ← load mf file
      vm ← Executing.new m
      f ← filter_arg filter
      ok (drive_vm pcap f grep vm)

    unfoldable pub run_vm :
        Bytes → Option Text → Option Text → Option Text → Result (Ran Vm (Unit {0}))
    unfolding checked filter_arg compile Executing.new drive_vm
    run_vm src pcap filter grep = do
      p ← checked src
      f ← filter_arg filter
      m ← ok_or (compile p) compile_failed
      vm ← Executing.new m
      ok (drive_vm pcap f grep vm)
