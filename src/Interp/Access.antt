-- ===== src/Interp/Access.antt =====
-- The parts of src/interp/mod.rs that only look at values and tables: field access, `table[i]`,
-- `table[i].field = v`, and the host functions.
use tracescript.Prelude.{
  ℕ, List, [], Option, none, some, Text, codes, length, get_elem?, set, ℤ, if◌then◌else◌, ltb,
  text_eq,
}
use tracescript.Error.{SourcePos}
use tracescript.Value.{
  Value, Row, Message, runtime, Platform, as_str, get_field, type_name, row_to_string, bad_index,
  unknown_table, row_out_of_range, unknown_field, no_such_event_field, no_field_access,
  count_needs_name,
}
use tracescript.Result.{Result, ok, err, panic, ◌>>=◌}
use tracescript.Tables.{TableStore, get, put, position}
use tracescript.Host
use tracescript.Interp.Operators.{fail_at}

-- the pure arm of `Expr::FieldAccess`
unfoldable pub read_field : Value → Text → SourcePos → Result Value
read_field (Value.event m) f p = elim (get_field m f) [
  | none ↦ fail_at p (no_such_event_field f)
  | some v ↦ ok v
]
read_field v f p = fail_at p (no_field_access (type_name v))

-- `Value::Int(n) if n >= 0 => n as usize`
unfoldable pub row_index : Text → Value → SourcePos → Result ℕ
row_index tbl (Value.int (ℤ.pos n)) p = ok n
row_index tbl v p = fail_at p (bad_index tbl (type_name v))

abbrev pub ok_or_at {ℓ} : {A : Type ℓ} → SourcePos → Option A → Message → Result A
ok_or_at p (some a) m = ok a
ok_or_at p none m = fail_at p m

-- the rest of `Expr::Index`
unfoldable pub index_table : Platform → TableStore → Text → ℕ → SourcePos → Result Value
index_table pf s tbl i p = do
  t ← ok_or_at p (get s tbl) (unknown_table tbl)
  row ← ok_or_at p (get_elem? t.rows i) (row_out_of_range tbl (length t.rows) i)
  ok (Value.str (row_to_string pf row))

-- a `Runtime` error gets the position of the statement
abbrev pub at_pos {ℓ} : {A : Type ℓ} → SourcePos → Result A → Result A
at_pos p (err (runtime m q)) = err (runtime m (some p))
at_pos p r = r

-- `t.fields.iter().position(..)` on the table of a name
unfoldable pub field_of : TableStore → Text → Text → Option ℕ
field_of s tbl f = elim (get s tbl) [ none ↦ none | some t ↦ position t.fields f ]

-- `row[field_idx] = new_val` panics out of range.
unfoldable pub write_cell : Row → ℕ → Value → Result Row
write_cell row i v = if ltb i (length row) then ok (set row i v) else panic

-- the rest of `Stmt::IndexAssign`
unfoldable pub assign_cell : TableStore → Text → ℕ → Text → Value → SourcePos → Result TableStore
unfolding field_of write_cell
assign_cell s tbl i f v p = do
  k ← ok_or_at p (field_of s tbl f) (unknown_field f tbl)
  t ← ok_or_at p (get s tbl) (unknown_table tbl)
  row ← ok_or_at p (get_elem? t.rows i) (row_out_of_range tbl (length t.rows) i)
  row' ← write_cell row k v
  ok (put s tbl (record t { rows = set t.rows i row' }))

pub data HostFunction : Type 0 where
  count filter sort : HostFunction

-- the names of the `match` in `eval_call` and in `do_call`
unfoldable pub host_of : Text → Option HostFunction
host_of n =
    if text_eq n (codes "count")
    then some HostFunction.count
    else if text_eq n (codes "filter")
    then some HostFunction.filter
    else if text_eq n (codes "sort")
    then some HostFunction.sort
    else none

-- `as_str().unwrap_or("")`
unfoldable pub str_or_empty : Option Value → Text
str_or_empty none = []
str_or_empty (some v) = elim (as_str v) [ none ↦ [] | some s ↦ s ]

-- `evaluated.get(i).and_then(|v| v.as_str())`
abbrev pub str_arg : List Value → ℕ → Option Text
str_arg vs i = elim (get_elem? vs i) [ none ↦ none | some v ↦ as_str v ]

-- the host arms of `eval_call`, with the tables that they leave
unfoldable pub host_call :
    Platform → HostFunction → TableStore → List Value → SourcePos → Result (Value × TableStore)
unfolding str_or_empty
host_call pf HostFunction.count s vs p = do
  n ← ok_or_at p (str_arg vs 0) count_needs_name
  v ← Host.count s n
  ok (v, s)
host_call pf HostFunction.filter s vs p =
    Host.filter s (str_or_empty (get_elem? vs 0)) (str_or_empty (get_elem? vs 1))
      (str_or_empty (get_elem? vs 2))
host_call pf HostFunction.sort s vs p =
    Host.sort pf s (str_or_empty (get_elem? vs 0)) (str_or_empty (get_elem? vs 1))
