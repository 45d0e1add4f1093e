-- ===== src/Tests/Fixtures.antt =====
-- What the tests share: a platform with no real `f64`, and a store with one table.
use tracescript.Prelude.{ℕ, [], ◌∷◌, none, some, pos, codes, ◌==◌}
use tracescript.Value.{Value, Platform}
use tracescript.Tables.{TableStore, Table, TypeName}

abbrev pub no_float : ℕ → ℕ → ℕ
no_float a b = 0

abbrev pub test_platform : Platform
test_platform = record {
  f64_add = no_float;
  f64_sub = no_float;
  f64_mul = no_float;
  f64_div = no_float;
  f64_rem = no_float;
  f64_neg = λ a. a;
  f64_eq = ◌==◌;
  f64_partial_cmp = λ a b. none;
  f64_of_int = λ n. 0;
  f64_show = λ a. [];
  now_secs = pos 1700000000;
  to_lowercase = λ s. s;
  to_uppercase = λ s. s;
  is_whitespace = λ c. c == 32;
  from_utf8 = λ b. some b;
  f64_parse = λ s. none;
  default_hash = λ t s d n. n;
}

abbrev pub hosts : Table
hosts = record {
  name = codes "hosts";
  fields =
      record { name = codes "ip"; field_type = TypeName.ip }
      ∷ record { name = codes "hits"; field_type = TypeName.int }
      ∷ [];
  rows =
      (Value.str (codes "10.0.0.2") ∷ Value.int (pos 4) ∷ [])
      ∷ (Value.str (codes "10.0.0.1") ∷ Value.int (pos 7) ∷ [])
      ∷ [];
}

abbrev pub test_store : TableStore
test_store = (codes "hosts", hosts) ∷ []
