-- ===== src/Opcode.antt =====
-- src/bytecode/opcode.rs: the instructions and the compiled module. `DispatchEvent` and `Halt` are
-- the opcodes that the compiler does not emit, or emits for the entry only. The text of
-- `serialize` is the work of serde_json, and the file system's answers are its own.
use tracescript.Prelude.{ℕ, List, Option, none, some, Text, ◌⊎◌, inl, inr}
use tracescript.Value.{Value, io, save_failed, load_failed}
use tracescript.Result.{Result, ok, err, ◌>>=◌}
use tracescript.Packet.{Bytes}

pub data Opcode : Type 0 where
  load_const pop load_var store_var : Opcode
  add sub mul div mod_ : Opcode
  eq not_eq lt gt lt_eq gt_eq and or not neg contains : Opcode
  jump jump_if_false jump_if_true call return : Opcode
  get_event_field dispatch_event insert_table show_table export_table alert print : Opcode
  index_get index_assign for_init for_next halt : Opcode

pub record Instr : Type 0 where
  pub op : Opcode
  pub arg : ℕ

-- `Instr::new`
abbrev pub instr : Opcode → ℕ → Instr
instr o a = record { op = o; arg = a }

pub record CompiledFunction : Type 0 where
  pub name : Text
  pub arity : ℕ
  pub locals : List Text
  pub code : List Instr

pub record CompiledEventHandler : Type 0 where
  pub event_name : Text
  pub param_name : Text
  pub code : List Instr

pub record CompiledTable : Type 0 where
  pub name : Text
  pub columns : List (Text × Text)

pub record BytecodeModule : Type 0 where
  pub version : ℕ
  pub constants : List Value
  pub functions : List CompiledFunction
  pub event_handlers : List CompiledEventHandler
  pub finish_handlers : List CompiledFunction
  pub tables : List CompiledTable
  pub source_path : Option Text
  pub entry : List Instr

abbrev pub current_version : ℕ
current_version = 1

-- What saving and loading take from `serde_json` and from the file system: the bytes of a module or an
-- error's text, the module of some bytes or an error's text, and what goes wrong in a write.
pub record ModuleFiles : Type 0 where
  pub to_vec : BytecodeModule → Text ⊎ Bytes
  pub from_slice : Bytes → Text ⊎ BytecodeModule
  pub write : Bytes → Option Text

module _ (mf : ModuleFiles) where
  -- `BytecodeModule::serialize` and `deserialize`, with the error that the commands make of theirs
  unfoldable pub serialize : BytecodeModule → Result Bytes
  serialize m = elim (mf.to_vec m) [ inl e ↦ err (io (save_failed e)) | inr b ↦ ok b ]

  unfoldable pub deserialize : Bytes → Result BytecodeModule
  deserialize b = elim (mf.from_slice b) [ inl e ↦ err (io (load_failed e)) | inr m ↦ ok m ]

  -- `BytecodeModule::save`: the bytes that are then in the file
  unfoldable pub save : BytecodeModule → Result Bytes
  unfolding serialize
  save m = do b ← serialize m; elim (mf.write b) [ some e ↦ err (io (save_failed e)) | none ↦ ok b ]

  -- `BytecodeModule::load`, of a file by what reading it gives
  unfoldable pub load : Text ⊎ Bytes → Result BytecodeModule
  unfolding deserialize
  load (inl e) = err (io (load_failed e))
  load (inr b) = deserialize b
