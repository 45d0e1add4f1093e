-- ===== src/Tables/Store.antt =====
-- The store of src/tables.rs as a finite map: what is read after a write.
use tracescript.Prelude.{
  ◌≡◌, ◌≢◌, sym, refl, [], ◌∷◌, some, Text, text_eq, text_eq_iff, text_eq_refl, arith,
  if◌then◌else◌,
}
use tracescript.Tables.{Table, TableStore, get, put}

pub get-put :
    (s : TableStore) (k j : Text) (t : Table)
    → get (put s k t) j ≡ (if text_eq k j then some t else get s j)
unfolding get put
get-put [] k j t = refl
get-put ((i, u) ∷ s) k j t =
    ground (arith, text_eq_iff i k, text_eq_iff i j, text_eq_iff k j, get-put s k j t)

pub get-put_self : (s : TableStore) (k : Text) (t : Table) → get (put s k t) k ≡ some t
get-put_self s k t = rw (get-put, text_eq_refl k)

pub get_other :
    (s : TableStore) (k : Text) (t : Table) (j : Text) → j ≢ k → get (put s k t) j ≡ get s j
get_other s k t j ne = rw get-put (ground (arith, text_eq_iff k j, λ (e : k ≡ j). ne (sym e)))
