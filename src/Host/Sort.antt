-- ===== src/Host/Sort.antt =====
-- `sort` of src/host.rs: the rows come out in ascending order of their keys, none lost or invented,
-- and the store stays valid.
use mathlib.Core.List.{Perm}
use mathlib.Core.List.Perm
use tracescript.Prelude.{
  ℕ, ◌≡◌, ◌≢◌, refl, true, false, List, [], ◌∷◌, some, Text, All, arith, Bool-cases, inl, inr,
  text_compare,
}
use tracescript.Value.{Row, Value, Platform}
use tracescript.Result.{ok}
use tracescript.Tables.{Table, TableStore, get, put, position}
use tracescript.Tables.Store.{get-put_self, get_other}
use tracescript.Tables.Laws.{IsValid, get-IsValid, put-Keeps}
use tracescript.Host.Filter.{find_field-eq}
use tracescript.Host.{sort_key, text_leb, insert_sorted, sort_rows, sort}

pub text_leb_total : (a b : Text) → text_leb a b ≡ false → text_leb b a ≡ true
unfolding text_leb text_compare
text_leb_total [] [] h = refl
text_leb_total [] (y ∷ b) h = cc
text_leb_total (x ∷ a) [] h = refl
text_leb_total (x ∷ a) (y ∷ b) h = ground (arith, text_leb_total a b)

pub text_leb_trans :
    (a b c : Text) → text_leb a b ≡ true → text_leb b c ≡ true → text_leb a c ≡ true
unfolding text_leb text_compare
text_leb_trans [] b [] h k = refl
text_leb_trans [] b (z ∷ c) h k = refl
text_leb_trans (x ∷ a) [] c h k = cc
text_leb_trans (x ∷ a) (y ∷ b) [] h k = cc
text_leb_trans (x ∷ a) (y ∷ b) (z ∷ c) h k = ground (arith, text_leb_trans a b c)

module _ (pf : Platform) (i : ℕ) where
  -- `a` may stand in front of `b`.
  abbrev pub Before : Row → Row → Type 0
  Before a b = text_leb (sort_key pf i a) (sort_key pf i b) ≡ true

  -- Each row stands before all that follow it.
  abbrev pub IsSorted : List Row → Type 0
  IsSorted [] = Unit
  IsSorted (r ∷ rs) = All (Before r) rs × IsSorted rs

  All-trans : (a b : Row) (rs : List Row) → Before a b → All (Before b) rs → All (Before a) rs
  All-trans a b [] h k = tt
  All-trans a b (r ∷ rs) h k = (text_leb_trans _ _ _ h k.0, All-trans a b rs h k.1)

  insert_sorted-All :
      (P : Row → Type 0) (r : Row) (rs : List Row)
      → P r
      → All P rs
      → All P (insert_sorted pf i r rs)
  unfolding insert_sorted
  insert_sorted-All P r [] h k = (h, tt)
  insert_sorted-All P r (x ∷ xs) h k =
      elim (Bool-cases (text_leb (sort_key pf i r) (sort_key pf i x))) [
        | inl e ↦ rw e (h, k)
        | inr e ↦ rw e (k.0, insert_sorted-All P r xs h k.1)
      ]

  insert_sorted-IsSorted :
      (r : Row) (rs : List Row) → IsSorted rs → IsSorted (insert_sorted pf i r rs)
  unfolding insert_sorted
  insert_sorted-IsSorted r [] s = (tt, tt)
  insert_sorted-IsSorted r (x ∷ xs) s =
      elim (Bool-cases (text_leb (sort_key pf i r) (sort_key pf i x))) [
        | inl e ↦ rw e ((e, All-trans r x xs e s.0), s)
        | inr e ↦ rw e (
          insert_sorted-All (Before x) r xs (text_leb_total _ _ e) s.0,
          insert_sorted-IsSorted r xs s.1,
        )
      ]

  insert_sorted-perm : (r : Row) (rs : List Row) → Perm (insert_sorted pf i r rs) (r ∷ rs)
  unfolding insert_sorted
  insert_sorted-perm r [] = Perm.refl _
  insert_sorted-perm r (x ∷ xs) = elim (Bool-cases (text_leb (sort_key pf i r) (sort_key pf i x))) [
    | inl e ↦ rw e (Perm.refl _)
    | inr e ↦ rw e (Perm.trans (Perm.cons x (insert_sorted-perm r xs)) (Perm.swap r x xs))
  ]

  pub sort_rows-IsSorted : (rs : List Row) → IsSorted (sort_rows pf i rs)
  unfolding sort_rows
  sort_rows-IsSorted [] = tt
  sort_rows-IsSorted (r ∷ rs) = insert_sorted-IsSorted r (sort_rows pf i rs) (sort_rows-IsSorted rs)

  pub sort_rows-perm : (rs : List Row) → Perm (sort_rows pf i rs) rs
  unfolding sort_rows
  sort_rows-perm [] = Perm.refl []
  sort_rows-perm (r ∷ rs) =
      Perm.trans (insert_sorted-perm r (sort_rows pf i rs)) (Perm.cons r (sort_rows-perm rs))

  sort_rows-All : (P : Row → Type 0) (rs : List Row) → All P rs → All P (sort_rows pf i rs)
  unfolding sort_rows
  sort_rows-All P [] h = tt
  sort_rows-All P (r ∷ rs) h =
      insert_sorted-All P r (sort_rows pf i rs) h.0 (sort_rows-All P rs h.1)

-- On a known table and field `sort` succeeds: the rows of the table end up a permutation of the old
-- ones in ascending order of the field's text, every other table is as it was, and the store stays
-- valid.
pub sort_lem :
    (pf : Platform) (s : TableStore) (n f : Text) (t : Table) (i : ℕ)
    → IsValid s
    → get s n ≡ some t
    → position t.fields f ≡ some i
    → (s' : TableStore) × (t' : Table) × (sort pf s n f ≡ ok (Value.unit, s'))
      × (get s' n ≡ some t')
      × (t'.fields ≡ t.fields)
      × IsSorted pf i t'.rows
      × Perm t'.rows t.rows
      × ((j : Text) → j ≢ n → get s' j ≡ get s j)
      × IsValid s'
unfolding sort
sort_lem pf s n f t i v g p =
    let w = (get-IsValid s n v g).0 in
    let t' : Table = record t { rows = sort_rows pf i t.rows } in
    (
      put s n t',
      t',
      rw (find_field-eq s n f t i g p),
      get-put_self s n t',
      refl,
      sort_rows-IsSorted pf i t.rows,
      sort_rows-perm pf i t.rows,
      get_other s n t',
      put-Keeps s n t' v g (record { widths = sort_rows-All pf i _ t.rows w.widths }, refl, refl),
    )
