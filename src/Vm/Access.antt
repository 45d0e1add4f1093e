-- ===== src/Vm/Access.antt =====
-- The parts of src/bytecode/vm.rs that only look at values, tables and constants.
use tracescript.Prelude.{
  ℕ, ◌+◌, ◌-◌, Bool, true, false, List, [], ◌∷◌, ◌++◌, Option, none, some, Text, codes, length,
  get_elem?, set, replicate, ltb, ◌==◌, if◌then◌else◌, ℤ,
}
use tracescript.Value.{
  Value, Row, Platform, as_str, get_field, type_name, row_to_string, bad_index, unknown_table,
  row_out_of_range, unknown_field, no_field_access, bad_constant, constant_not_string,
  missing_operand, expected_pop,
}
use tracescript.Result.{Result, ok, fail, ok_or, ◌>>=◌}
use tracescript.Tables.{Table, TableStore, get, put, position}
use tracescript.Interp.Access.{write_cell}
use tracescript.Opcode.{Opcode, Instr}

-- `locals.resize(idx + 1, Unit)` where it is too short, then the write
unfoldable pub store_at : List Value → ℕ → Value → List Value
store_at ls i v =
    set (if ltb i (length ls) then ls else ls ++ replicate (i + 1 - length ls) Value.unit) i v

-- `Value::Int(n) if n >= 0 => n as usize`
unfoldable pub row_index : Text → Value → Result ℕ
row_index tbl (Value.int (ℤ.pos n)) = ok n
row_index tbl v = fail (bad_index tbl (type_name v))

unfoldable pub event_field : Value → Text → Result Value
event_field (Value.event m) f = elim (get_field m f) [ none ↦ ok Value.unit | some v ↦ ok v ]
event_field _ f = fail (no_field_access f)

-- `as_str().unwrap_or("")`
unfoldable pub str_or_empty : Value → Text
str_or_empty v = elim (as_str v) [ none ↦ [] | some s ↦ s ]

abbrev is_pop : Opcode → Bool
is_pop Opcode.pop = true
is_pop _ = false

abbrev as_field : Option Value → Result Text
as_field none = fail (bad_constant (codes "INDEXASSIGN") 0)
as_field (some (Value.str s)) = ok s
as_field (some _) = fail (constant_not_string (codes "INDEXASSIGN"))

-- the operand of `IndexAssign`: the `Pop` behind it names the field
unfoldable pub field_operand : List Value → Option Instr → Result Text
field_operand ks none = fail missing_operand
field_operand ks (some i) = if is_pop i.op then as_field (get_elem? ks i.arg) else fail expected_pop

-- the write at the end of `IndexAssign`
unfoldable pub write_field : TableStore → Text → Table → ℕ → Text → Value → Result TableStore
unfolding write_cell
write_field s tbl t i f v = do
  k ← ok_or (position t.fields f) (unknown_field f tbl)
  row ← ok_or (get_elem? t.rows i) (row_out_of_range tbl (length t.rows) i)
  row' ← write_cell row k v
  ok (put s tbl (record t { rows = set t.rows i row' }))

-- the first iterator with another key, and so on: `retain(|(k, _)| *k != key)`
unfoldable pub drop_iterator : ℕ → List (ℕ × List Row) → List (ℕ × List Row)
drop_iterator k [] = []
drop_iterator k ((j, rows) ∷ its) =
    if j == k then drop_iterator k its else (j, rows) ∷ drop_iterator k its

-- the rest of `IndexGet`
unfoldable pub index_table : Platform → TableStore → Text → ℕ → Result Value
index_table pf s tbl i = do
  t ← ok_or (get s tbl) (unknown_table tbl)
  row ← ok_or (get_elem? t.rows i) (row_out_of_range tbl (length t.rows) i)
  ok (Value.str (row_to_string pf row))
