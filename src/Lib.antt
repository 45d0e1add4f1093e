-- ===== src/Lib.antt =====
-- TraceScript: a small language for packet captures, with two engines. A program is parsed to a
-- syntax tree; the interpreter walks the tree, and the bytecode compiler translates it to code for a
-- stack machine. Both engines run event handlers over a store of tables, call the builtins and the
-- host functions, raise alerts and print.
--
-- The parts, with the file that each models:
--   Error, Result     src/error.rs: positions, and results; a panic is a third outcome of a result
--   Value             src/interp/value.rs: values, their conversions and printing
--   Tables            src/tables.rs: the store of tables; Tables.Store reads it as a finite map,
--                     Tables.Laws has its validity: a value for each field in each row, and each
--                     table under its own name; Tables.Show has the lines of a shown table
--   Host              src/host.rs: `count`, `filter`, `sort`
--   Sha256            src/sha256.rs: the streaming hasher; Sha256.Compress is `process_block`,
--                     Sha256.Stream a machine that takes one byte at a time, Sha256.Padding the end
--                     of a message
--   Lexer             src/lexer.rs: Show prints tokens; Places and Loops say where a lexer stands and
--                     what its loops do to that, Starts and Total are about the tokens of a source
--   Syntax            the syntax tree in src/parser.rs
--   Parser            src/parser.rs: Expressions, Statements and Program (declarations); Total has the
--                     same parts, about what each leaves of the tokens, and Source, the lexer and the
--                     parser in sequence
--   Sema              src/sema.rs: Scoped (what a body may use) and Collect (what declarations have to
--                     be) describe the accepted programs; Checks, Step and Accepts are about the two
--                     passes; Start takes an accepted program to the two engines
--   Packet            the headers of src/runtime.rs; Total has their decoders on any bytes
--   Filter            src/filter.rs: Tokens (the tokenizer, addresses) and Parser; Numbers is about the
--                     range of a number, Total about what the parser leaves of the tokens
--   Runtime           src/runtime.rs: Dates, Messages (DNS and HTTP) and Frame; Calendar, Years and Days
--                     are the calendar behind the dates, Labels and Questions the names of DNS
--                     messages, Total the decoding of any frame, Extract the copying of packets to a
--                     new capture
--   Builtins          src/interp/builtins.rs; Names compares the names of its two matches
--   Effects           what the engines print, show and export, as a list of outputs
--   Machine           the runs of both engines: a value and a new state, or a stop in a state
--   Interp            src/interp/mod.rs: Operators, Access (fields, rows, host calls), Engine
--                     (declarations, handlers, the interactive loop), Locals (the running block's
--                     variables), Cells, Validity and Invariant (the tables over a run)
--   Opcode            src/bytecode/opcode.rs: the module, and saving and loading it
--   Codegen           src/bytecode/codegen.rs: Emit (what the compiler appends), Agree (the value
--                     operations of the two engines), Declarations (the tables of a program),
--                     Correct (compiled code against the interpreter)
--   Vm                src/bytecode/vm.rs: Operators, Access, Exec (the loop), Engine (entry points)
--   Cli               src/cli.rs: the commands behind the reading of files; Start is about any source
--                     up to the start of an engine, Repl the interactive loop, with First and Total
--                     about any line
--   Prelude           the numbers, texts, lists and maps that the others share
--
-- A function of the source keeps its name. `&mut self` is a state that is passed on; the variables of
-- the running block are part of the interpreter's state. A `HashMap` is a list of entries with one
-- entry for a key. Integers are 64 bits with wrap-around, as in a release build; `f64` values are
-- their bits, and the operations on them, the clock and the tables of Unicode are the parameter
-- Platform. Writing a file is the parameter Files; the serialiser of modules, with the file system's
-- answers, is the parameter ModuleFiles.
--
-- Fuel: the interpreter spends one unit on each nested call of a user function, the VM one on each
-- instruction; a run without fuel stops by `out_of_fuel`, which no function of the source returns. A
-- statement about the VM says how many instructions it takes, with any fuel left over.
--
-- The loop over the labels of a name has the length of the message as fuel, and the filter's parser six
-- units for each token and for the end; both count as a panic without fuel. The loops of the lexer have
-- the length of the source and one; those of the parser, and its calls that nest, the number of tokens
-- that are left and one.
--
-- Not modelled: the text of exported files and of saved modules, which libraries write, and the
-- arguments and most of the output of the command line. The readers of pcap, JSON and CSV
-- files are parameters of Runtime.
pub mod Prelude
pub mod Error
pub mod Value
pub mod Result
pub mod Tables
pub mod Host
pub mod Sha256
pub mod Syntax
pub mod Builtins
pub mod Effects
pub mod Machine
pub mod Interp
pub mod Opcode
pub mod Codegen
pub mod Vm
pub mod Cli
pub mod Filter
pub mod Lexer
pub mod Packet
pub mod Parser
pub mod Runtime
pub mod Sema
pub mod Tests
