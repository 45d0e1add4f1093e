-- ===== src/Cli/Start.antt =====
-- What src/cli.rs does with any source, up to the start of an engine.
use tracescript.Prelude.{ℕ, ◌≡◌, refl, ◌⊎◌, inl, inr, List, [], ◌∷◌, Option, none, some, Text}
use tracescript.Value.{Platform, TraceError}
use tracescript.Result.{Result, ok, err, panic, ◌>>=◌, Settles, bind-Settles}
use tracescript.Packet.{Bytes}
use tracescript.Effects.{Files}
use tracescript.Syntax.{Program}
use tracescript.Parser.Program.{parse_source}
use tracescript.Parser.Total.Source.{IsSyntaxErrorIn, IsParsed, widen, parse_source-IsParsed}
use tracescript.Sema.{Analyzer, analyze, new, first_error}
use tracescript.Sema.Start.{analyze-new}
use tracescript.Opcode.{BytecodeModule, ModuleFiles, serialize, deserialize, save, load}
use tracescript.Codegen.{compile}
use tracescript.Interp.{Interpreter}
use tracescript.Interp.Engine.{new as new_interpreter}
use tracescript.Vm.{Vm}
use tracescript.Vm.Engine.{new as new_vm}
use tracescript.Runtime.{Sources}
use tracescript.Cli.{checked, compile_cmd, vm_cmd, run_vm}

-- Both engines start on the program, with the same tables.
abbrev pub Starts : Program → Type 0
Starts p =
    (i : Interpreter) × (m : BytecodeModule) × (vm : Vm) × (new_interpreter p ≡ ok i)
    × (compile p ≡ some m)
    × (new_vm m ≡ ok vm)
    × (vm.tables ≡ i.tables)

-- A syntax error, or the error of the analyzer on the program that the source has.
abbrev pub IsRejection : Platform → Bytes → TraceError → Type 0
IsRejection pf src e =
    IsSyntaxErrorIn src e ⊎ ((p : Program) × IsParsed pf src p × ((analyze new p).0 ≡ err e))

first_error-Settles :
    (a : Analyzer) (ds : List TraceError)
    → a.diagnostics ≡ ds
    → Settles (λ e. Unit {0}) (λ u. Unit {0}) (first_error a).0
first_error-Settles a [] e = rw e (record { ends = tt })
first_error-Settles a (d ∷ ds) e = rw e (record { ends = tt })

-- the analyzer ends without a panic
analyze-Settles : (p : Program) → Settles (λ e. Unit {0}) (λ u. Unit {0}) (analyze new p).0
unfolding analyze
analyze-Settles p = first_error-Settles _ _ refl

analyzed :
    (pf : Platform) (src : Bytes) (p : Program) (r : Result (Unit {0}))
    → (analyze new p).0 ≡ r
    → Settles (λ e. Unit {0}) (λ u. Unit {0}) r
    → IsParsed pf src p
    → Settles (IsRejection pf src) (λ q. IsParsed pf src q × Starts q) (r >>= λ u. ok p)
analyzed pf src p (ok tt) e n h = record { ends = (h, analyze-new p e) }
analyzed pf src p (err x) e n h = record { ends = inr (p, h, e) }
analyzed pf src p panic e n h = absurd n.ends

-- Checking any source ends: with a program of the source on which both engines start, or with a
-- syntax error, or with the analyzer's error on the source's program.
pub checked-Starts :
    (pf : Platform) (src : Bytes)
    → Settles (IsRejection pf src) (λ p. IsParsed pf src p × Starts p) (checked pf src)
unfolding checked
checked-Starts pf src =
    bind-Settles (parse_source pf src) _
      (widen (parse_source pf src) (parse_source-IsParsed pf src) (λ e h. inl h))
      λ p h. analyzed pf src p (analyze new p).0 refl (analyze-Settles p) h

-- what is saved of the module is what is then loaded: `serialize` and the write succeed, and
-- `deserialize` reads the module back from those bytes
abbrev pub ReadsBack : ModuleFiles → BytecodeModule → Type 0
ReadsBack mf m =
    (b : Bytes) × (mf.to_vec m ≡ inr b) × (mf.write b ≡ none) × (mf.from_slice b ≡ inr m)

module _ (mf : ModuleFiles) (m : BytecodeModule) (h : ReadsBack mf m) where
  save-ReadsBack : save mf m ≡ ok h.0
  unfolding save serialize
  save-ReadsBack = let (b, to, w, from) = h in rw (save, serialize, to, w) refl

  load-ReadsBack : load mf (inr h.0) ≡ ok m
  unfolding load deserialize
  load-ReadsBack = let (b, to, w, from) = h in rw (load, deserialize, from) refl

module _ (pf : Platform) (fs : Files) (mf : ModuleFiles) (files : Sources) (fuel : ℕ) where
  run_vm_by_parts :
      (src : Bytes) (pcap filter grep : Option Text) (r : Result Program)
      → ((p : Program) (m : BytecodeModule)
          → checked pf src ≡ ok p
          → compile p ≡ some m
          → ReadsBack mf m)
      → checked pf src ≡ r
      → Settles (IsRejection pf src) (λ p. IsParsed pf src p × Starts p) r
      → run_vm pf fs files fuel src pcap filter grep
        ≡ (compile_cmd pf mf src >>= λ b. vm_cmd pf fs files fuel mf (inr b) pcap filter grep)
  unfolding run_vm compile_cmd vm_cmd
  run_vm_by_parts src pcap filter grep (ok p) reads e h =
      let (i, m, vm, a, b, c, d) = h.ends.1 in
      let back = reads p m e b in
      rw (e, run_vm, compile_cmd)
        (rw b (rw (save-ReadsBack mf m back, vm_cmd, load-ReadsBack mf m back) (rw c refl)))
  run_vm_by_parts src pcap filter grep (err x) reads e h = rw (e, run_vm, compile_cmd) refl
  run_vm_by_parts src pcap filter grep panic reads e h = absurd h.ends

  -- For any source and arguments, `run --vm` is `compile` and then `vm` on the file that was written:
  -- the same error, or the same run. The hypothesis is on the serialiser and the file system, for the
  -- one module that the source may have: it is written, and read back as it was.
  pub run_vm-vm_cmd :
      (src : Bytes) (pcap filter grep : Option Text)
      → ((p : Program) (m : BytecodeModule)
          → checked pf src ≡ ok p
          → compile p ≡ some m
          → ReadsBack mf m)
      → run_vm pf fs files fuel src pcap filter grep
        ≡ (compile_cmd pf mf src >>= λ b. vm_cmd pf fs files fuel mf (inr b) pcap filter grep)
  run_vm-vm_cmd src pcap filter grep reads =
      run_vm_by_parts src pcap filter grep (checked pf src) reads refl (checked-Starts pf src)
