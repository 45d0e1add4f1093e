-- ===== src/Tables.antt =====
-- src/tables.rs: tables and the store. The store's `BTreeMap` is a list of entries in key order.
-- `show` and the two exports print or write files: what they hand to the console and to the file is
-- in Effects.
pub mod Store
pub mod Laws
pub mod Show
use tracescript.Prelude.{
  ℕ, Bool, true, false, List, [], ◌∷◌, ◌++◌, Option, none, some, Text, codes, text_eq, length, ◌==◌,
  if◌then◌else◌, suc, Ordering, text_compare, map,
}
use tracescript.Value.{Row, Value, table_expects, table_exists, unknown_table}
use tracescript.Result.{Result, ok, fail, ok_or, ◌>>=◌}

pub data TypeName : Type 0 where
  int float str bool time ip : TypeName

-- `TypeName::from_str` and `TypeName::as_str`
unfoldable pub from_str : Text → Option TypeName
from_str s =
    if text_eq s (codes "int")
    then some TypeName.int
    else if text_eq s (codes "float")
    then some TypeName.float
    else if text_eq s (codes "string")
    then some TypeName.str
    else if text_eq s (codes "bool")
    then some TypeName.bool
    else if text_eq s (codes "time")
    then some TypeName.time
    else if text_eq s (codes "ip")
    then some TypeName.ip
    else none

unfoldable pub as_str : TypeName → Text
as_str TypeName.int = codes "int"
as_str TypeName.float = codes "float"
as_str TypeName.str = codes "string"
as_str TypeName.bool = codes "bool"
as_str TypeName.time = codes "time"
as_str TypeName.ip = codes "ip"

pub record TableField : Type 0 where
  pub name : Text
  pub field_type : TypeName

pub record Table : Type 0 where
  pub name : Text
  pub fields : List TableField
  pub rows : List Row

abbrev pub TableStore : Type 0
TableStore = List (Text × Table)

-- `Table::new`
abbrev pub new_table : Text → List TableField → Table
new_table n fs = record { name = n; fields = fs; rows = [] }

-- `Table::insert`
unfoldable pub insert_row : Table → Row → Result Table
insert_row t row =
    if length row == length t.fields
    then ok (record t { rows = t.rows ++ row ∷ [] })
    else fail (table_expects t.name (length t.fields) (length row))

-- `fields.iter().position(|f| f.name == field)`
unfoldable pub position : List TableField → Text → Option ℕ
position [] f = none
position (x ∷ xs) f =
    let later = position xs f in
    if text_eq x.name f then some 0 else elim later [ none ↦ none | some i ↦ some (suc i) ]

-- `BTreeMap::get`
unfoldable pub get : TableStore → Text → Option Table
get [] k = none
get ((j, t) ∷ s) k = if text_eq j k then some t else get s k

-- `BTreeMap::insert`, which also writes a table back through `get_mut`.
unfoldable pub put : TableStore → Text → Table → TableStore
put [] k t = (k, t) ∷ []
put ((j, u) ∷ s) k t =
    let behind = (j, u) ∷ put s k t in
    if text_eq j k
    then (k, t) ∷ s
    else elim (text_compare k j) [ Ordering.lt ↦ (k, t) ∷ (j, u) ∷ s | _ ↦ behind ]

-- `TableStore::create`
unfoldable pub create : TableStore → Text → List TableField → Result TableStore
create s n fs = elim (get s n) [
  | some t ↦ fail (table_exists n)
  | none ↦ ok (put s n (new_table n fs))
]

-- `tables.get(name).ok_or_else(..)`
abbrev pub find : TableStore → Text → Result Table
find s n = ok_or (get s n) (unknown_table n)

-- `TableStore::insert`
unfoldable pub insert : TableStore → Text → Row → Result TableStore
insert s n row = do t ← find s n; t' ← insert_row t row; ok (put s n t')

-- `TableStore::count`
unfoldable pub count : TableStore → Text → Result ℕ
count s n = do t ← find s n; ok (length t.rows)

-- `TableStore::names`
unfoldable pub names : TableStore → List Text
names = map (λ e. e.0)
