-- ===== src/Tables/Laws.antt =====
-- Every row of a table has one value for each of its fields, and a table stands in the store under
-- its own name: the operations of src/tables.rs keep both.
use tracescript.Prelude.{
  ◌≡◌, refl, List, [], ◌∷◌, ◌++◌, none, some, Text, text_eq, text_eq_iff, arith, Ordering,
  text_compare, All, All-append, length, ◌==◌, ==_iff, ◌+◌, ◌≢◌, length-append, ◌∙◌, ap, Bool-cases,
  inl, inr, Option-cases, ◌⊎◌,
}
use tracescript.Value.{Row, unknown_table, table_expects, table_exists}
use tracescript.Result.{ok, fail, Ensures, Ensures-bind, Ensures-ok_or}
use tracescript.Tables.{
  Table, TableField, TableStore, get, put, insert_row, insert, create, count, new_table, find,
}
use tracescript.Tables.Store.{get-put_self, get_other}

pub record IsWellFormed (t : Table) : Type 0 where
  pub widths : All (λ (r : Row). length r ≡ length t.fields) t.rows

abbrev pub IsEntry : Text × Table → Type 0
IsEntry e = IsWellFormed e.1 × (e.1.name ≡ e.0)

abbrev pub IsValid : TableStore → Type 0
IsValid = All IsEntry

pub get-IsValid :
    (s : TableStore) (k : Text) {t : Table} → IsValid s → get s k ≡ some t → IsEntry (k, t)
unfolding get
get-IsValid [] k v h = cc
get-IsValid ((j, u) ∷ s) k {t} v h = elim (Bool-cases (text_eq j k)) [
  | inl e ↦
      let same : some u ≡ some t = (rw e at h) in
      let key = (text_eq_iff j k).0 e in ground (arith, same, key, v.0)
  | inr e ↦ get-IsValid s k v.1 (rw e at h)
]

pub put-IsValid :
    (s : TableStore) (k : Text) (t : Table) → IsValid s → IsEntry (k, t) → IsValid (put s k t)
unfolding put
put-IsValid [] k t v h = (h, tt)
put-IsValid ((j, u) ∷ s) k t v h = elim (Bool-cases (text_eq j k)) [
  | inl e ↦ rw e (h, v.1)
  | inr e ↦
      rw e
        (elim (text_compare k j)
          as (λ o.
            IsValid (elim o [ Ordering.lt ↦ (k, t) ∷ (j, u) ∷ s | _ ↦ (j, u) ∷ put s k t ])) [
              | Ordering.lt ↦ (h, v)
              | _ ↦ (v.0, put-IsValid s k t v.1 h)
            ])
]

pub new_table-IsWellFormed : (n : Text) (fs : List TableField) → IsWellFormed (new_table n fs)
new_table-IsWellFormed n fs = record { widths = tt }

-- `Table::insert` accepts exactly the rows of the table's width, and appends them.
pub insert_row_lem :
    (t : Table) (row : Row)
    → (length row ≡ length t.fields
        → insert_row t row ≡ ok (record t { rows = t.rows ++ row ∷ [] }))
      × (length row ≢ length t.fields
          → insert_row t row ≡ fail (table_expects t.name (length t.fields) (length row)))
unfolding insert_row
insert_row_lem t row = (λ h. ground arith, λ h. ground arith)

-- `t'` is well formed, and has the name and the fields of `t`.
abbrev pub Keeps : Table → Table → Type 0
Keeps t t' = IsWellFormed t' × (t'.name ≡ t.name) × (t'.fields ≡ t.fields)

pub insert_row-Keeps :
    (t : Table) (row : Row) → IsWellFormed t → Ensures (Keeps t) (insert_row t row)
unfolding insert_row
insert_row-Keeps t row w = elim (Bool-cases (length row == length t.fields)) [
  | inl e ↦ rw e (
    record {
      widths =
          All-append (λ (r : Row). length r ≡ length t.fields) t.rows (row ∷ []) w.widths
            ((==_iff _ _).0 e, tt);
    },
    refl,
    refl,
  )
  | inr e ↦ rw e tt
]

-- Writing back a table that keeps name and shape leaves the store valid.
pub put-Keeps :
    (s : TableStore) (k : Text) {t : Table} (t' : Table)
    → IsValid s
    → get s k ≡ some t
    → Keeps t t'
    → IsValid (put s k t')
put-Keeps s k t' v found keeps =
    put-IsValid s k t' v (keeps.0, keeps.1 ∙ (get-IsValid s k v found).1)

-- Creating a table in a valid store fails where the store has a table of that name, which stays as it
-- is. Otherwise it succeeds: the store has an empty table with those fields under the name, every
-- other name is as it was, and the store stays valid.
pub create_lem :
    (s : TableStore) (n : Text) (fs : List TableField)
    → IsValid s
    → ((t : Table) × (get s n ≡ some t) × (create s n fs ≡ fail (table_exists n)))
      ⊎ ((s' : TableStore) × (get s n ≡ none)
          × (create s n fs ≡ ok s')
          × (get s' n ≡ some (record { name = n; fields = fs; rows = [] }))
          × ((j : Text) → j ≢ n → get s' j ≡ get s j)
          × IsValid s')
unfolding create
create_lem s n fs v = elim (Option-cases (get s n)) [
  | inr (t, e) ↦ inl (t, e, rw (create, e) refl)
  | inl e ↦ inr (
    put s n (new_table n fs),
    e,
    rw (create, e) refl,
    get-put_self s n (new_table n fs),
    get_other s n (new_table n fs),
    put-IsValid s n _ v (new_table-IsWellFormed n fs, refl),
  )
]

-- Inserting a row in a valid store gives a valid store, where it succeeds: every table keeps one value
-- per field in each row, and its own name.
pub insert-IsValid :
    (s : TableStore) (n : Text) (row : Row) → IsValid s → Ensures IsValid (insert s n row)
unfolding insert
insert-IsValid s n row v =
    Ensures-bind (λ t. get s n ≡ some t) IsValid (find s n) _
      (Ensures-ok_or _ (get s n) (unknown_table n) (λ t e. e))
      λ t e.
        Ensures-bind (Keeps t) IsValid (insert_row t row) _
          (insert_row-Keeps t row (get-IsValid s n v e).0) λ t' k. put-Keeps s n t' v e k

-- Inserting a row of the right width into a table of the store succeeds: the row is appended to that
-- table, every other table is as it was, and the table's count is one more than its rows were.
pub insert_lem :
    (s : TableStore) (n : Text) (row : Row) (t : Table)
    → get s n ≡ some t
    → length row ≡ length t.fields
    → (s' : TableStore) × (insert s n row ≡ ok s')
      × (get s' n ≡ some (record t { rows = t.rows ++ row ∷ [] }))
      × ((j : Text) → j ≢ n → get s' j ≡ get s j)
      × (count s' n ≡ ok (length t.rows + 1))
unfolding insert count
insert_lem s n row t found w =
    let t' : Table = record t { rows = t.rows ++ row ∷ [] } in
    (
      put s n t',
      rw (found, (insert_row_lem t row).0 w),
      get-put_self s n t',
      get_other s n t',
      rw get-put_self (ap ok (length-append t.rows (row ∷ []) ∙ omega arith)),
    )
