-- ===== src/Value.antt =====
-- src/interp/value.rs, the `TraceError` of src/error.rs, and what the language takes from its
-- platform. An `i64` is an integer, an `f64` its 64 bits. An event's `HashMap` is a list of fields
-- in the map's order of iteration; a lookup takes the first field of a name.
-- The text of an error message is a constructor of `Message`, with what its format string
-- interpolates.
use tracescript.Prelude.{
  ℕ, Bool, true, false, not, List, [], ◌∷◌, ◌++◌, Option, none, some, ℤ, Text, codes, text_eq,
  int_eq, show_int, if◌then◌else◌, Ordering, suc,
}
use tracescript.Error.{SourcePos}

mutual
  pub data Value : Type 0 where
    int : ℤ → Value
    float : ℕ → Value
    str : Text → Value
    bool : Bool → Value
    event : Fields → Value
    unit : Value

  pub data Fields : Type 0 where
    no_fields : Fields
    field : Text → Value → Fields → Fields

abbrev pub Row : Type 0
Row = List Value

-- The operations on `f64` bits, the clock, and the Unicode tables: what the language's own code
-- takes from the machine and from the standard library. `default_hash` hashes the four values that
-- `events_hash` of src/runtime.rs feeds to a `DefaultHasher`.
pub record Platform : Type 0 where
  pub f64_add : ℕ → ℕ → ℕ
  pub f64_sub : ℕ → ℕ → ℕ
  pub f64_mul : ℕ → ℕ → ℕ
  pub f64_div : ℕ → ℕ → ℕ
  pub f64_rem : ℕ → ℕ → ℕ
  pub f64_neg : ℕ → ℕ
  pub f64_eq : ℕ → ℕ → Bool
  pub f64_partial_cmp : ℕ → ℕ → Option Ordering
  pub f64_of_int : ℤ → ℕ
  pub f64_show : ℕ → Text
  pub now_secs : ℤ
  pub to_lowercase : Text → Text
  pub to_uppercase : Text → Text
  pub is_whitespace : ℕ → Bool
  pub from_utf8 : List ℕ → Option Text
  pub f64_parse : Text → Option ℕ
  pub default_hash : ℤ → Text → Text → ℤ → ℤ

pub data Message : Type 0 where
  table_expects : Text → ℕ → ℕ → Message
  table_exists : Text → Message
  unknown_table : Text → Message
  unknown_field : Text → Text → Message
  filter_unknown : Text → Message
  sort_unknown : Text → Message
  bad_index : Text → Text → Message
  row_out_of_range : Text → ℕ → ℕ → Message
  undefined_identifier : Text → Message
  undefined_function : Text → Message
  undefined_variable : Text → Message
  wrong_arity : Text → ℕ → ℕ → Message
  missing_argument : Text → ℕ → Message
  not_a_string : Text → ℕ → Message
  not_an_int : Text → Message
  unsupported_type : Text → Message
  division_by_zero : Message
  type_error : Text → Message
  cannot_negate : Text → Message
  no_such_event_field : Text → Message
  no_field_access : Text → Message
  count_needs_name : Message
  stack_underflow : Message
  empty_stack : Message
  no_active_frame : Message
  bad_constant : Text → ℕ → Message
  constant_not_string : Text → Message
  missing_operand : Message
  expected_pop : Message
  external : Text → Message
  invalid_ip : Text → Message
  invalid_octet : Text → Message
  octet_out_of_range : ℕ → Message
  unexpected_token : ℕ → Message
  expected_close : Message
  unexpected_end : Message
  unknown_filter_token : Text → Message
  invalid_u16 : Text → Message
  invalid_u32 : Text → Message
  expected_ip : Message
  expected_operator : Message
  bad_operator : Text → Message
  expected_number : Message
  bad_number : Text → Message
  no_source : Message
  bad_line : Text → ℕ → Text → Message
  unknown_extension : Text → Message
  unsupported_source : Text → Message
  duplicate_source : Message
  duplicate_table : Text → Message
  duplicate_handler : Text → Message
  duplicate_finish : Message
  duplicate_function : Text → Message
  insert_arity : Text → ℕ → ℕ → Message
  number_not_utf8 : Message
  invalid_float : Text → Message
  invalid_integer : Text → Message
  identifier_not_utf8 : Message
  invalid_escape : ℕ → Message
  unterminated_string : Message
  unexpected_character : ℕ → Message
  expected_found : Text → Text → Message
  expected_found_end : Text → Message
  no_declaration : Message
  bad_source_type : Message
  unknown_field_type : Text → Message
  unexpected_after : Text → Message
  nothing_after : Message
  no_field_name : Message
  only_identifier_calls : Message
  compile_failed : Message
  save_failed load_failed : Text → Message

pub data TraceError : Type 0 where
  lex : Message → SourcePos → TraceError
  parse : Message → SourcePos → TraceError
  semantic : Message → SourcePos → TraceError
  runtime : Message → Option SourcePos → TraceError
  return_signal : Option Value → TraceError
  io : Message → TraceError

unfoldable pub as_bool : Value → Option Bool
as_bool (Value.bool b) = some b
as_bool _ = none

unfoldable pub as_str : Value → Option Text
as_str (Value.str s) = some s
as_str _ = none

unfoldable pub as_int : Value → Option ℤ
as_int (Value.int n) = some n
as_int _ = none

unfoldable pub as_float : Value → Option ℕ
as_float (Value.float n) = some n
as_float _ = none

abbrev is_empty : Text → Bool
is_empty [] = true
is_empty _ = false

-- The bits of 0.0: positive and negative zero are both equal to it under `f64_eq`.
unfoldable pub is_truthy : Platform → Value → Bool
is_truthy pf (Value.bool b) = b
is_truthy pf (Value.int n) = not (int_eq n (ℤ.pos 0))
is_truthy pf (Value.float f) = not (pf.f64_eq f 0)
is_truthy pf (Value.str s) = not (is_empty s)
is_truthy pf (Value.event _) = true
is_truthy pf Value.unit = true

abbrev pub show_bool : Bool → Text
show_bool true = codes "true"
show_bool false = codes "false"

-- `Display for Value`
unfoldable mutual
  pub to_string : Platform → Value → Text
  to_string pf (Value.int n) = show_int n
  to_string pf (Value.float f) = pf.f64_show f
  to_string pf (Value.str s) = s
  to_string pf (Value.bool b) = show_bool b
  to_string pf (Value.event m) = b'{' ∷ show_fields pf m true
  to_string pf Value.unit = codes "()"

  -- the loop over the fields, and the closing brace; the flag is `first`
  pub show_fields : Platform → Fields → Bool → Text
  show_fields pf no_fields first = codes "}"
  show_fields pf (field k v m) first =
      (if first then [] else codes ", ")
      ++ (k ++ (codes ": " ++ (to_string pf v ++ show_fields pf m false)))

-- `HashMap::get` and `HashMap::len`
unfoldable pub get_field : Fields → Text → Option Value
get_field no_fields k = none
get_field (field j v m) k = if text_eq j k then some v else get_field m k

unfoldable pub count_fields : Fields → ℕ
count_fields no_fields = 0
count_fields (field j v m) = suc (count_fields m)

-- `type_name` and `value_type_name`, which the interpreter, the builtins and the VM each have.
unfoldable pub type_name : Value → Text
type_name (Value.int _) = codes "int"
type_name (Value.float _) = codes "float"
type_name (Value.str _) = codes "string"
type_name (Value.bool _) = codes "bool"
type_name (Value.event _) = codes "event"
type_name Value.unit = codes "unit"

-- the cells behind the first, each behind a comma
cells_to_string : Platform → Row → Text
unfolding to_string
cells_to_string pf [] = codes "}"
cells_to_string pf (v ∷ row) = codes ", " ++ (to_string pf v ++ cells_to_string pf row)

-- `row_to_string`, which the interpreter and the VM each have.
unfoldable pub row_to_string : Platform → Row → Text
unfolding to_string cells_to_string
row_to_string pf [] = codes "{}"
row_to_string pf (v ∷ row) = b'{' ∷ (to_string pf v ++ cells_to_string pf row)
