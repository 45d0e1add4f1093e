-- ===== src/Host.antt =====
-- src/host.rs: the functions of the language that need the tables. `sort_by` of the standard
-- library is a stable sort, so the insertion sort here gives the same rows in the same order.
pub mod Filter
pub mod Sort
use tracescript.Prelude.{
  ℕ, Bool, true, false, List, [], ◌∷◌, Option, none, some, Text, text_eq, length, if◌then◌else◌,
  Ordering, text_compare, get_elem?, ℤ,
}
use tracescript.Value.{Row, Value, Platform, to_string, filter_unknown, sort_unknown, Message}
use tracescript.Result.{Result, ok, ok_or, or_panic, ◌>>=◌}
use tracescript.Tables.{Table, TableStore, TableField, get, put, position}
use tracescript.Tables

-- `store.get(name).and_then(|t| t.fields.iter().position(..))`
unfoldable pub find_field : TableStore → Text → Text → Option (Table × ℕ)
find_field s n f = elim (get s n) [
  | none ↦ none
  | some t ↦ elim (position t.fields f) [ none ↦ none | some i ↦ some (t, i) ]
]

unfoldable pub count : TableStore → Text → Result Value
unfolding Tables.count
count s n = do k ← Tables.count s n; ok (Value.int (ℤ.pos k))

-- `matches!(v, Value::Str(s) if s == needle)`
unfoldable pub is_needle : Text → Value → Bool
is_needle needle (Value.str s) = text_eq s needle
is_needle needle _ = false

-- `rows.retain(|row| matches!(&row[field_idx], ..))`
unfoldable pub retain : ℕ → Text → List Row → Result (List Row)
unfolding is_needle
retain i needle [] = ok []
retain i needle (row ∷ rows) = do
  v ← or_panic (get_elem? row i)
  kept ← retain i needle rows
  ok (if is_needle needle v then row ∷ kept else kept)

unfoldable pub filter : TableStore → Text → Text → Text → Result (Value × TableStore)
filter s n f needle = do
  (t, i) ← ok_or (find_field s n f) (filter_unknown f)
  kept ← retain i needle t.rows
  ok (Value.int (ℤ.pos (length kept)), put s n (record t { rows = kept }))

-- the sort key of a row: `a.get(idx).map(|v| v.to_string()).unwrap_or_default()`
unfoldable pub sort_key : Platform → ℕ → Row → Text
sort_key pf i row = elim (get_elem? row i) [ none ↦ [] | some v ↦ to_string pf v ]

unfoldable pub text_leb : Text → Text → Bool
text_leb a b = elim (text_compare a b) [ Ordering.gt ↦ false | _ ↦ true ]

unfoldable pub insert_sorted : Platform → ℕ → Row → List Row → List Row
unfolding text_leb
insert_sorted pf i row [] = row ∷ []
insert_sorted pf i row (x ∷ xs) =
    let later = x ∷ insert_sorted pf i row xs in
    if text_leb (sort_key pf i row) (sort_key pf i x) then row ∷ x ∷ xs else later

unfoldable pub sort_rows : Platform → ℕ → List Row → List Row
unfolding insert_sorted
sort_rows pf i [] = []
sort_rows pf i (row ∷ rows) = insert_sorted pf i row (sort_rows pf i rows)

unfoldable pub sort : Platform → TableStore → Text → Text → Result (Value × TableStore)
sort pf s n f = do
  (t, i) ← ok_or (find_field s n f) (sort_unknown f)
  ok (Value.unit, put s n (record t { rows = sort_rows pf i t.rows }))
