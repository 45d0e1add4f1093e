-- ===== src/Effects.antt =====
-- What a script does to the outside: the console lines and files of `print`, `alert`, `show` and
-- `export`. `TableStore::show` and `TableStore::export` are here.
use tracescript.Prelude.{List, Option, none, some, Text, codes, ends_with, if◌then◌else◌}
use tracescript.Value.{Value, Message, io, Platform}
use tracescript.Result.{Result, ok, err, ◌>>=◌}
use tracescript.Tables.{Table, TableStore, find}

-- the lines on the console, and the files written
pub data Output : Type 0 where
  printed : Text → Output
  alerted : List Value → Output
  shown : Table → Output
  wrote : Text → Table → Output
  told : Text → Text → Output

-- `export_csv` and `export_json` hand a table to the file system: `none`, or what went wrong.
pub record Files : Type 0 where
  pub write_csv : Text → Table → Option Message
  pub write_json : Text → Table → Option Message

-- `TableStore::show`
unfoldable pub show_table : TableStore → Text → Result Output
show_table s n = do t ← find s n; ok (shown t)

-- `TableStore::export`
unfoldable pub export_table : Platform → Files → TableStore → Text → Text → Result Output
export_table pf fs s n path = do
  t ← find s n
  let as_json = ends_with (pf.to_lowercase path) (codes ".json")
  elim (if as_json then fs.write_json path t else fs.write_csv path t) [
    | none ↦ ok (wrote path t)
    | some m ↦ err (io m)
  ]
