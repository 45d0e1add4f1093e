-- ===== src/Vm/Exec.antt =====
-- The `match` over opcodes in `run_until_return` of src/bytecode/vm.rs, and its loop.
use tracescript.Prelude.{
  ℕ, zero, suc, ◌+◌, Bool, true, false, not, ◌&&◌, ◌||◌, List, [], ◌∷◌, ◌++◌, none, some, codes,
  get_elem?, length, i64_add, i64_sub, i64_mul,
}
use tracescript.Value.{
  Value, Platform, runtime, is_truthy, to_string, unknown_table, empty_stack, no_active_frame,
  bad_constant,
}
use tracescript.Result.{Result, ok, ok_or, or_panic, fail}
use tracescript.Tables.{get}
use tracescript.Tables
use tracescript.Effects.{Files, printed, alerted, show_table, export_table}
use tracescript.Machine.{
  raised, out_of_fuel, done, stop, pure, ◌>>=◌, ◌>>◌, get_state, put_state, lift,
}
use tracescript.Opcode.{Opcode, Instr}
use tracescript.Vm.Operators.{
  arith, vm_div, vm_mod, vm_neg, vm_contains, values_equal, values_compare, is_less, is_greater,
}
use tracescript.Vm.Access.{
  store_at, row_index, event_field, str_or_empty, field_operand, write_field, drop_iterator,
  index_table,
}
use tracescript.Vm.{
  Step, Flow, next, returned, push, pop, pop_onto, const_str, top_frame, on_frame, goto, binary,
  emit, set_tables, for_next, return_from, do_call,
}

-- an instruction that leaves the loop going
abbrev then_next : Step (Unit {0}) → Step Flow
then_next m = m >> pure next

abbrev compare_by : Platform → (Value → Value → Bool) → Step Flow
compare_by pf f = binary λ l r. ok (Value.bool (f l r))

abbrev peek : List Value → Result Value
peek [] = fail empty_stack
peek (v ∷ vs) = ok v

-- `JumpIfFalse` and `JumpIfTrue`
abbrev jump_when : Bool → ℕ → Step Flow
jump_when true n = then_next (goto n)
jump_when false n = pure next

module _ (pf : Platform) (fs : Files) (run_code : List Instr → Step (Unit {0}))
    (code : List Instr) where
  unfoldable pub exec_instr : Opcode → ℕ → Step Flow
  unfolding arith vm_div vm_mod vm_neg vm_contains values_equal values_compare store_at row_index
      event_field str_or_empty field_operand write_field drop_iterator index_table for_next
      return_from do_call pop_onto
  exec_instr Opcode.load_const a = do
    vm ← get_state
    v ← lift (ok_or (get_elem? vm.program.constants a) (bad_constant (codes "LoadConst") a))
    then_next (push v)
  exec_instr Opcode.pop a = do
    vm ← get_state
    then_next (put_state (record vm { stack = elim vm.stack [ [] ↦ [] | v ∷ vs ↦ vs ] }))
  exec_instr Opcode.load_var a = do
    vm ← get_state
    f ← lift (top_frame vm.frames)
    v ← lift (or_panic (get_elem? f.locals a))
    then_next (push v)
  exec_instr Opcode.store_var a = do
    vm ← get_state
    v ← lift (peek vm.stack)
    then_next (on_frame λ f. record f { locals = store_at f.locals a v })
  exec_instr Opcode.add a = binary (arith pf i64_add pf.f64_add (some ◌++◌))
  exec_instr Opcode.sub a = binary (arith pf i64_sub pf.f64_sub none)
  exec_instr Opcode.mul a = binary (arith pf i64_mul pf.f64_mul none)
  exec_instr Opcode.div a = binary (vm_div pf)
  exec_instr Opcode.mod_ a = binary (vm_mod pf)
  exec_instr Opcode.eq a = compare_by pf (values_equal pf)
  exec_instr Opcode.not_eq a = compare_by pf (λ l r. not (values_equal pf l r))
  exec_instr Opcode.lt a = compare_by pf (λ l r. is_less (values_compare pf l r))
  exec_instr Opcode.gt a = compare_by pf (λ l r. is_greater (values_compare pf l r))
  exec_instr Opcode.lt_eq a = compare_by pf (λ l r. not (is_greater (values_compare pf l r)))
  exec_instr Opcode.gt_eq a = compare_by pf (λ l r. not (is_less (values_compare pf l r)))
  exec_instr Opcode.and a = compare_by pf (λ l r. is_truthy pf l && is_truthy pf r)
  exec_instr Opcode.or a = compare_by pf (λ l r. is_truthy pf l || is_truthy pf r)
  exec_instr Opcode.not a = do v ← pop; then_next (push (Value.bool (not (is_truthy pf v))))
  exec_instr Opcode.neg a = do v ← pop; r ← lift (vm_neg pf v); then_next (push r)
  exec_instr Opcode.contains a = binary (vm_contains pf)
  exec_instr Opcode.jump a = then_next (goto a)
  exec_instr Opcode.jump_if_false a = do v ← pop; jump_when (not (is_truthy pf v)) a
  exec_instr Opcode.jump_if_true a = do v ← pop; jump_when (is_truthy pf v) a
  exec_instr Opcode.call a = do n ← const_str a (codes "CALL"); then_next (do_call pf run_code n)
  exec_instr Opcode.return a = do vm ← get_state; return_from vm.stack vm.frames
  exec_instr Opcode.get_event_field a = do
    f ← const_str a (codes "GETFIELD")
    v ← pop
    r ← lift (event_field v f)
    then_next (push r)
  exec_instr Opcode.dispatch_event a = pure next
  exec_instr Opcode.insert_table a = do
    n ← const_str a (codes "INSERT")
    vm ← get_state
    t ← lift (ok_or (get vm.tables n) (unknown_table n))
    row ← pop_onto (length t.fields) []
    vm' ← get_state
    ts ← lift (Tables.insert vm'.tables n row)
    then_next (set_tables ts)
  exec_instr Opcode.show_table a = do
    n ← const_str a (codes "SHOW")
    vm ← get_state
    o ← lift (show_table vm.tables n)
    then_next (emit o)
  exec_instr Opcode.export_table a = do
    n ← const_str a (codes "EXPORT")
    path ← pop
    vm ← get_state
    o ← lift (export_table pf fs vm.tables n (str_or_empty path))
    then_next (emit o)
  exec_instr Opcode.alert a = do
    parts ← pop_onto a []
    vm ← get_state
    put_state (record vm { alerts = vm.alerts ++ parts ∷ [] })
    then_next (emit (alerted parts))
  exec_instr Opcode.print a = do v ← pop; then_next (emit (printed (to_string pf v)))
  exec_instr Opcode.index_get a = do
    tbl ← const_str a (codes "INDEXGET")
    v ← pop
    i ← lift (row_index tbl v)
    vm ← get_state
    r ← lift (index_table pf vm.tables tbl i)
    then_next (push r)
  exec_instr Opcode.index_assign a = do
    tbl ← const_str a (codes "INDEXASSIGN")
    iv ← pop
    v ← pop
    i ← lift (row_index tbl iv)
    vm ← get_state
    t ← lift (ok_or (get vm.tables tbl) (unknown_table tbl))
    f ← lift (top_frame vm.frames)
    field ← lift (field_operand vm.program.constants (get_elem? code f.ip))
    goto (f.ip + 1)
    vm' ← get_state
    ts ← lift (write_field vm'.tables tbl t i field v)
    then_next (set_tables ts)
  exec_instr Opcode.for_init a = do
    tbl ← const_str a (codes "FORINIT")
    vm ← get_state
    t ← lift (ok_or (get vm.tables tbl) (unknown_table tbl))
    then_next (put_state (record vm { iterators = (a, t.rows) ∷ drop_iterator a vm.iterators }))
  exec_instr Opcode.for_next a = do vm ← get_state; for_next pf a vm.iterators
  exec_instr Opcode.halt a = pure returned

-- `run_until_return`
unfoldable pub run_until_return : Platform → Files → ℕ → List Instr → Step (Unit {0})
unfolding exec_instr
run_until_return pf fs zero code vm = stop out_of_fuel vm
run_until_return pf fs (suc n) code vm =
    let again = run_until_return pf fs n in
    elim vm.frames [
      | [] ↦ stop (raised (runtime no_active_frame none)) vm
      | f ∷ rest ↦ elim (get_elem? code f.ip) [
        | none ↦ done tt (record vm { frames = rest })
        | some i ↦
            (do
              r ← exec_instr pf fs again code i.op i.arg
              elim r [ returned ↦ pure tt | next ↦ again code ])
              (record vm { frames = (record f { ip = f.ip + 1 }) ∷ rest })
      ]
    ]
