-- ===== src/Tests/Host.antt =====
-- The host functions of src/host.rs on a store with one table.
use tracescript.Prelude.{◌≡◌, refl, some, codes, length, ◌≢◌, Text, text_eq, ℤ}
use mathlib.Core.List.{Perm}
use tracescript.Value.{Value}
use tracescript.Result.{ok}
use tracescript.Tables.{get, position, TableStore, Table}
use tracescript.Tables.Laws.{IsValid}
use tracescript.Host.{filter, sort}
use tracescript.Host.Filter.{filter_lem, matching}
use tracescript.Host.Sort.{sort_lem, IsSorted}
use tracescript.Tests.Fixtures.{test_store, hosts, test_platform}
use tracescript.Tests.Tables.{test_store-IsValid, hosts_found}

ip_found : position hosts.fields (codes "ip") ≡ some 0
unfolding position text_eq
ip_found = refl

filter_lem_example :
    (s' : TableStore) × (filter test_store (codes "hosts") (codes "ip") (codes "10.0.0.1")
      ≡ ok (Value.int (ℤ.pos (length (matching 0 (codes "10.0.0.1") hosts.rows))), s'))
    × (get s' (codes "hosts")
        ≡ some (record hosts { rows = matching 0 (codes "10.0.0.1") hosts.rows }))
    × ((j : Text) → j ≢ codes "hosts" → get s' j ≡ get test_store j)
    × IsValid s'
filter_lem_example =
    filter_lem test_store (codes "hosts") (codes "ip") (codes "10.0.0.1") hosts 0 test_store-IsValid
      hosts_found ip_found

sort_lem_example :
    (s' : TableStore) × (t' : Table) × (sort test_platform test_store (codes "hosts") (codes "ip")
      ≡ ok (Value.unit, s'))
    × (get s' (codes "hosts") ≡ some t')
    × (t'.fields ≡ hosts.fields)
    × IsSorted test_platform 0 t'.rows
    × Perm t'.rows hosts.rows
    × ((j : Text) → j ≢ codes "hosts" → get s' j ≡ get test_store j)
    × IsValid s'
sort_lem_example =
    sort_lem test_platform test_store (codes "hosts") (codes "ip") hosts 0 test_store-IsValid
      hosts_found ip_found
