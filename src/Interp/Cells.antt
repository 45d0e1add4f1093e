-- ===== src/Interp/Cells.antt =====
-- What the interpreter of src/interp/mod.rs does to the tables keeps them valid: the host functions
-- that it calls and the assignment of a cell.
use tracescript.Prelude.{
  ℕ, ◌⊎◌, zero, suc, ◌≡◌, refl, ◌∙◌, List, [], ◌∷◌, Option, none, some, Text, length, get_elem?,
  set, length-set, All, Option-cases, inl, inr, Bool-cases, ltb,
}
use tracescript.Error.{SourcePos}
use tracescript.Value.{Value, Row, Platform, Message, count_needs_name}
use tracescript.Result.{Result, ok, err, panic, ◌>>=◌, Ensures, Ensures-bind}
use tracescript.Tables.{Table, TableStore, get, position}
use tracescript.Tables.Laws.{IsValid, get-IsValid, put-Keeps}
use tracescript.Host
use tracescript.Host.{find_field}
use tracescript.Host.Filter.{filter_lem}
use tracescript.Host.Sort.{sort_lem}
use tracescript.Interp.Access.{
  ok_or_at, field_of, write_cell, assign_cell, HostFunction, host_call, str_arg,
}

pub Ensures-ok_or_at :
    {A : Type 0} (P : A → Type 0) (p : SourcePos) (o : Option A) (m : Message)
    → ((a : A) → o ≡ some a → P a)
    → Ensures P (ok_or_at p o m)
Ensures-ok_or_at P p none m h = tt
Ensures-ok_or_at P p (some a) m h = h a refl

pub Ensures-any : {A : Type 0} (r : Result A) → Ensures (λ a. Unit {0}) r
Ensures-any (ok a) = tt
Ensures-any (err e) = tt
Ensures-any panic = tt

find_field-inv :
    (s : TableStore) (n f : Text)
    → (find_field s n f ≡ none)
      ⊎ ((t : Table) × (i : ℕ) × (get s n ≡ some t) × (position t.fields f ≡ some i))
unfolding find_field
find_field-inv s n f = elim (Option-cases (get s n)) [
  | inl e ↦ inl (rw (find_field, e) refl)
  | inr (t, e) ↦ elim (Option-cases (position t.fields f)) [
    | inl g ↦ inl (rw (find_field, e, g) refl)
    | inr (i, g) ↦ inr (t, i, e, g)
  ]
]

-- The tables that a host function leaves are valid.
abbrev pub LeavesValid : Value × TableStore → Type 0
LeavesValid r = IsValid r.1

filter-LeavesValid :
    (s : TableStore) (n f needle : Text)
    → IsValid s
    → Ensures LeavesValid (Host.filter s n f needle)
unfolding Host.filter
filter-LeavesValid s n f needle v = elim (find_field-inv s n f) [
  | inl e ↦ rw (Host.filter, e) tt
  | inr (t, i, g, p) ↦
      let (s', e, found, others, valid) = filter_lem s n f needle t i v g p in rw e valid
]

sort-LeavesValid :
    (pf : Platform) (s : TableStore) (n f : Text)
    → IsValid s
    → Ensures LeavesValid (Host.sort pf s n f)
unfolding Host.sort
sort-LeavesValid pf s n f v = elim (find_field-inv s n f) [
  | inl e ↦ rw (Host.sort, e) tt
  | inr (t, i, g, p) ↦
      let (s', t', e, found, same, sorted, perm, others, valid) = sort_lem pf s n f t i v g p in
      rw e valid
]

pub host_call-LeavesValid :
    (pf : Platform) (h : HostFunction) (s : TableStore) (vs : List Value) (p : SourcePos)
    → IsValid s
    → Ensures LeavesValid (host_call pf h s vs p)
unfolding host_call
host_call-LeavesValid pf HostFunction.count s vs p v =
    Ensures-bind (λ n. Unit {0}) LeavesValid (ok_or_at p (str_arg vs 0) count_needs_name)
      (λ n. Host.count s n >>= λ k. ok (k, s))
      (Ensures-any (ok_or_at p (str_arg vs 0) count_needs_name))
      (λ n u.
        Ensures-bind (λ k. Unit {0}) LeavesValid (Host.count s n) (λ k. ok (k, s))
          (Ensures-any (Host.count s n)) (λ k w. v))
host_call-LeavesValid pf HostFunction.filter s vs p v = filter-LeavesValid s _ _ _ v
host_call-LeavesValid pf HostFunction.sort s vs p v = sort-LeavesValid pf s _ _ v

set-All :
    (P : Row → Type 0) (rows : List Row) (i : ℕ) (row : Row)
    → All P rows
    → P row
    → All P (set rows i row)
set-All P [] i row a h = tt
set-All P (r ∷ rs) zero row a h = (h, a.1)
set-All P (r ∷ rs) (suc i) row a h = (a.0, set-All P rs i row a.1 h)

get_elem?-All :
    (P : Row → Type 0) (rows : List Row) (i : ℕ) {row : Row}
    → All P rows
    → get_elem? rows i ≡ some row
    → P row
get_elem?-All P [] i a h = cc
get_elem?-All P (r ∷ rs) zero {row} a h = let e : row ≡ r = cc in rw e a.0
get_elem?-All P (r ∷ rs) (suc i) a h = get_elem?-All P rs i a.1 h

write_cell-length :
    (row : Row) (i : ℕ) (v : Value) → Ensures (λ r. length r ≡ length row) (write_cell row i v)
unfolding write_cell
write_cell-length row i v = elim (Bool-cases (ltb i (length row))) [
  | inl e ↦ rw e (length-set row i v)
  | inr e ↦ rw e tt
]

pub assign_cell-IsValid :
    (s : TableStore) (tbl : Text) (i : ℕ) (f : Text) (v : Value) (p : SourcePos)
    → IsValid s
    → Ensures IsValid (assign_cell s tbl i f v p)
unfolding assign_cell
assign_cell-IsValid s tbl i f v p w =
    Ensures-bind (λ k. Unit {0}) IsValid (ok_or_at p (field_of s tbl f) _) _
      (Ensures-ok_or_at _ p _ _ (λ a e. tt))
      (λ k u.
        Ensures-bind (λ t. get s tbl ≡ some t) IsValid (ok_or_at p (get s tbl) _) _
          (Ensures-ok_or_at _ p _ _ (λ t e. e))
          (λ t found.
            let widths = (get-IsValid s tbl w found).0.widths in
            Ensures-bind (λ row. length row ≡ length t.fields) IsValid
              (ok_or_at p (get_elem? t.rows i) _) _
              (Ensures-ok_or_at _ p _ _ (λ row e. get_elem?-All _ t.rows i widths e))
              (λ row n.
                Ensures-bind (λ r. length r ≡ length row) IsValid (write_cell row k v) _
                  (write_cell-length row k v)
                  (λ row' m.
                    put-Keeps s tbl (record t { rows = set t.rows i row' }) w found
                      (record { widths = set-All _ t.rows i row' widths (m ∙ n) }, refl, refl)))))
