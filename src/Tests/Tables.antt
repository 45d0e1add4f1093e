-- ===== src/Tests/Tables.antt =====
-- The store of src/tables.rs on a store with one table.
use tracescript.Prelude.{
  All, drop, show_int, ℕ, ◌≡◌, refl, [], ◌∷◌, some, none, codes, text_eq, pos, ◌⊎◌, length, ◌++◌,
  ◌≢◌, Text, ◌+◌,
}
use tracescript.Value.{Value, Row, table_exists}
use tracescript.Result.{ok, fail, Ensures}
use tracescript.Tables.{Table, get, insert, create, count, TableStore}
use tracescript.Tables.Show.{byte_len, show_lines}
use tracescript.Tables.Show.Aligned.{show_lines-aligned}
use tracescript.Tables.Laws.{IsWellFormed, IsValid, insert_lem, insert-IsValid, create_lem}
use tracescript.Tests.Fixtures.{test_store, hosts, test_platform}

pub test_store-IsValid : IsValid test_store
test_store-IsValid = ((record { widths = (refl, (refl, tt)) }, refl), tt)

abbrev new_row : Row
new_row = Value.str (codes "10.0.0.3") ∷ Value.int (pos 1) ∷ []

pub hosts_found : get test_store (codes "hosts") ≡ some hosts
unfolding get text_eq
hosts_found = refl

insert_lem_example :
    (s' : TableStore) × (insert test_store (codes "hosts") new_row ≡ ok s')
    × (get s' (codes "hosts") ≡ some (record hosts { rows = hosts.rows ++ new_row ∷ [] }))
    × ((j : Text) → j ≢ codes "hosts" → get s' j ≡ get test_store j)
    × (count s' (codes "hosts") ≡ ok (length hosts.rows + 1))
insert_lem_example = insert_lem test_store (codes "hosts") new_row hosts hosts_found refl

insert-IsValid_example : Ensures IsValid (insert test_store (codes "hosts") new_row)
insert-IsValid_example = insert-IsValid test_store (codes "hosts") new_row test_store-IsValid

create_lem_example :
    ((t : Table) × (get test_store (codes "dns") ≡ some t)
      × (create test_store (codes "dns") [] ≡ fail (table_exists (codes "dns"))))
    ⊎ ((s' : TableStore) × (get test_store (codes "dns") ≡ none)
        × (create test_store (codes "dns") [] ≡ ok s')
        × (get s' (codes "dns") ≡ some (record { name = codes "dns"; fields = []; rows = [] }))
        × ((j : Text) → j ≢ codes "dns" → get s' j ≡ get test_store j)
        × IsValid s')
create_lem_example = create_lem test_store (codes "dns") [] test_store-IsValid

shown_hosts :
    show_lines test_platform hosts
    ≡ codes "TABLE hosts"
      ∷ codes "ip       hits"
      ∷ codes "-------- ----"
      ∷ codes "10.0.0.2 4   "
      ∷ codes "10.0.0.1 7   "
      ∷ []
unfolding show_lines show_int
shown_hosts = refl

hosts-IsWellFormed : IsWellFormed hosts
hosts-IsWellFormed = record { widths = (refl, (refl, tt)) }

show_lines-aligned_example :
    (w : ℕ) × All (λ l. byte_len l ≡ w) (drop 1 (show_lines test_platform hosts))
show_lines-aligned_example = show_lines-aligned test_platform hosts hosts-IsWellFormed
