-- ===== src/Host/Filter.antt =====
-- `filter` of src/host.rs against the plain list filter, and its effect on the store.
use tracescript.Prelude.{
  ℕ, ◌≡◌, ◌≢◌, refl, Bool, false, List, [], ◌∷◌, none, some, Text, length, if◌then◌else◌, get_elem?,
  ℤ, All, arith, ◌<◌, suc, zero, Bool-cases, inl, inr, Option-cases,
}
use tracescript.Value.{Row, Value}
use tracescript.Result.{ok}
use tracescript.Tables.{Table, TableField, TableStore, get, put, position}
use tracescript.Tables.Store.{get-put_self, get_other}
use tracescript.Tables.Laws.{IsValid, get-IsValid, put-Keeps}
use tracescript.Host.{find_field, is_needle, retain, filter}

-- The cell `i` of `row` is the string `needle`.
abbrev pub cell_is : ℕ → Text → Row → Bool
cell_is i needle row = elim (get_elem? row i) [ none ↦ false | some v ↦ is_needle needle v ]

abbrev pub matching : ℕ → Text → List Row → List Row
matching i needle [] = []
matching i needle (row ∷ rows) =
    if cell_is i needle row then row ∷ matching i needle rows else matching i needle rows

pub position-lt : (fs : List TableField) (f : Text) (i : ℕ) → position fs f ≡ some i → i < length fs
unfolding position
position-lt [] f i h = cc
position-lt (x ∷ fs) f i h = elim (Option-cases (position fs f)) [
  | inl e ↦ ground (arith, e)
  | inr (j, e) ↦ ground (arith, e, position-lt fs f j e)
]

get_elem?-lt : (row : Row) (i : ℕ) → i < length row → (v : Value) × (get_elem? row i ≡ some v)
get_elem?-lt [] i h = absurd (omega arith)
get_elem?-lt (x ∷ row) zero h = (x, refl)
get_elem?-lt (x ∷ row) (suc i) h = get_elem?-lt row i (omega arith)

pub retain-matching :
    (i : ℕ) (needle : Text) (rows : List Row) (w : ℕ)
    → i < w
    → All (λ (r : Row). length r ≡ w) rows
    → retain i needle rows ≡ ok (matching i needle rows)
unfolding retain
retain-matching i needle [] w h a = refl
retain-matching i needle (row ∷ rows) w h a =
    let (v, e) = get_elem?-lt row i (omega (arith, a.0)) in
    ground (arith, e, retain-matching i needle rows w h a.1)

pub matching-All :
    (P : Row → Type 0) (i : ℕ) (needle : Text) (rows : List Row)
    → All P rows
    → All P (matching i needle rows)
matching-All P i needle [] a = tt
matching-All P i needle (row ∷ rows) a = elim (Bool-cases (cell_is i needle row)) [
  | inl e ↦ rw e (a.0, matching-All P i needle rows a.1)
  | inr e ↦ rw e (matching-All P i needle rows a.1)
]

pub find_field-eq :
    (s : TableStore) (n f : Text) (t : Table) (i : ℕ)
    → get s n ≡ some t
    → position t.fields f ≡ some i
    → find_field s n f ≡ some (t, i)
unfolding find_field
find_field-eq s n f t i g p = ground arith

-- On a valid store, for a known table and field, `filter` succeeds: it keeps exactly the rows whose cell in the field is the
-- string, in their order, returns how many they are, leaves every other table alone, and the store
-- stays valid.
pub filter_lem :
    (s : TableStore) (n f needle : Text) (t : Table) (i : ℕ)
    → IsValid s
    → get s n ≡ some t
    → position t.fields f ≡ some i
    → (s' : TableStore) × (filter s n f needle
        ≡ ok (Value.int (ℤ.pos (length (matching i needle t.rows))), s'))
      × (get s' n ≡ some (record t { rows = matching i needle t.rows }))
      × ((j : Text) → j ≢ n → get s' j ≡ get s j)
      × IsValid s'
unfolding filter
filter_lem s n f needle t i v g p =
    let w = (get-IsValid s n v g).0 in
    let t' : Table = record t { rows = matching i needle t.rows } in
    (
      put s n t',
      rw (
        find_field-eq s n f t i g p,
        retain-matching i needle t.rows _ (position-lt _ f i p) w.widths,
      ),
      get-put_self s n t',
      get_other s n t',
      put-Keeps s n t' v g
          (record { widths = matching-All _ i needle t.rows w.widths }, refl, refl),
    )
