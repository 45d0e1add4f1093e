-- ===== src/Builtins.antt =====
-- src/interp/builtins.rs: the pure builtins, and the number of arguments that the VM pops for each.
-- `to_lowercase`, `to_uppercase`, the whitespace test and the clock come from the platform.
pub mod Names
use tracescript.Prelude.{
  ℕ, ◌+◌, ◌/◌, ◌%◌, ◌^◌, Bool, false, ◌||◌, List, [], ◌∷◌, Option, none, some, Text, codes, text_eq,
  starts_with as has_prefix, contains as has_part, ends_with as has_suffix, length, take, drop,
  get_elem?, ltb, leb, ◌==◌, if◌then◌else◌, ℤ, pos, negsuc,
}
use mathlib.Core.List.{reverse}
use tracescript.Value.{
  Value, Platform, to_string as show_value, as_str, as_int, count_fields, type_name, wrong_arity,
  missing_argument, not_a_string, not_an_int, unsupported_type,
}
use tracescript.Result.{Result, ok, fail, ok_or, ◌>>=◌, ◌>>◌}
use tracescript.Sha256.{hash, hex_digest}

-- the arms of `try_call`, and the names that they match on
pub data Builtin : Type 0 where
  len contains starts_with ends_with to_string now substring lower upper trim hash_sha256 : Builtin

unfoldable pub builtin_of : Text → Option Builtin
builtin_of n =
    if text_eq n (codes "len")
    then some Builtin.len
    else if text_eq n (codes "contains")
    then some Builtin.contains
    else if text_eq n (codes "starts_with")
    then some Builtin.starts_with
    else if text_eq n (codes "ends_with")
    then some Builtin.ends_with
    else if text_eq n (codes "to_string")
    then some Builtin.to_string
    else if text_eq n (codes "now")
    then some Builtin.now
    else if text_eq n (codes "substring")
    then some Builtin.substring
    else if text_eq n (codes "lower")
    then some Builtin.lower
    else if text_eq n (codes "upper")
    then some Builtin.upper
    else if text_eq n (codes "trim")
    then some Builtin.trim
    else if text_eq n (codes "hash_sha256")
    then some Builtin.hash_sha256
    else none

-- the patterns `"a" | "b" | ..` of one arm
unfoldable pub is_one_of : Text → List Text → Bool
is_one_of n [] = false
is_one_of n (x ∷ xs) = text_eq n x || is_one_of n xs

abbrev pub unary_names : List Text
unary_names =
    codes "len"
    ∷ codes "to_string"
    ∷ codes "now"
    ∷ codes "lower"
    ∷ codes "upper"
    ∷ codes "trim"
    ∷ codes "hash_sha256"
    ∷ []

abbrev pub binary_names : List Text
binary_names = codes "contains" ∷ codes "starts_with" ∷ codes "ends_with" ∷ []

abbrev pub ternary_names : List Text
ternary_names = codes "substring" ∷ []

unfoldable pub arity : Text → Option ℕ
unfolding is_one_of
arity n =
    if is_one_of n unary_names
    then some 1
    else if is_one_of n binary_names
    then some 2
    else if is_one_of n ternary_names
    then some 3
    else none

-- `arg_str`
unfoldable pub arg_str : List Value → ℕ → Text → Result Text
arg_str args i fn = do
  v ← ok_or (get_elem? args i) (missing_argument fn i)
  ok_or (as_str v) (not_a_string fn i)

-- `if args.len() != n { return Err(..) }`
unfoldable pub expect_args : Text → ℕ → List Value → Result (Unit {0})
expect_args fn n args = if length args == n then ok tt else fail (wrong_arity fn n (length args))

-- UTF-8, which `s.as_bytes()` gives.
unfoldable pub utf8 : Text → List ℕ
utf8 [] = []
utf8 (c ∷ s) =
    let rest = utf8 s in
    if ltb c 0x80
    then c ∷ rest
    else if ltb c 0x800
    then (0xc0 + c / 2 ^ 6) ∷ (0x80 + c % 2 ^ 6) ∷ rest
    else if ltb c 0x10000
    then (0xe0 + c / 2 ^ 12) ∷ (0x80 + c / 2 ^ 6 % 2 ^ 6) ∷ (0x80 + c % 2 ^ 6) ∷ rest
    else (0xf0 + c / 2 ^ 18)
      ∷ (0x80 + c / 2 ^ 12 % 2 ^ 6)
      ∷ (0x80 + c / 2 ^ 6 % 2 ^ 6)
      ∷ (0x80 + c % 2 ^ 6)
      ∷ rest

unfoldable pub trim_start : (ℕ → Bool) → Text → Text
trim_start p [] = []
trim_start p (c ∷ s) = if p c then trim_start p s else c ∷ s

-- `s.trim()`
unfoldable pub trim_text : (ℕ → Bool) → Text → Text
unfolding trim_start
trim_text p s = reverse (trim_start p (reverse (trim_start p s)))

-- `n.max(0) as usize`
abbrev clamp : ℤ → ℕ
clamp (pos n) = n
clamp (negsuc n) = 0

-- `chars[start..end]` with `end` the lesser of `start + len` and the number of characters
unfoldable pub substring_text : Text → ℕ → ℕ → Text
substring_text s start n = if leb (length s) start then [] else take n (drop start s)

len_of : Value → Result Value
len_of (Value.str s) = ok (Value.int (pos (length s)))
len_of (Value.event m) = ok (Value.int (pos (count_fields m)))
len_of v = fail (unsupported_type (type_name v))

-- the `call_…` functions
unfoldable pub run_builtin : Platform → Builtin → List Value → Result Value
unfolding arg_str expect_args len_of substring_text trim_text utf8
run_builtin pf Builtin.len args = do
  expect_args (codes "len") 1 args
  v ← ok_or (get_elem? args 0) (missing_argument (codes "len") 0)
  len_of v
run_builtin pf Builtin.contains args = do
  expect_args (codes "contains") 2 args
  hay ← arg_str args 0 (codes "contains")
  needle ← arg_str args 1 (codes "contains")
  ok (Value.bool (has_part hay needle))
run_builtin pf Builtin.starts_with args = do
  expect_args (codes "starts_with") 2 args
  hay ← arg_str args 0 (codes "starts_with")
  prefix ← arg_str args 1 (codes "starts_with")
  ok (Value.bool (has_prefix hay prefix))
run_builtin pf Builtin.ends_with args = do
  expect_args (codes "ends_with") 2 args
  hay ← arg_str args 0 (codes "ends_with")
  suffix ← arg_str args 1 (codes "ends_with")
  ok (Value.bool (has_suffix hay suffix))
run_builtin pf Builtin.to_string args = do
  expect_args (codes "to_string") 1 args
  v ← ok_or (get_elem? args 0) (missing_argument (codes "to_string") 0)
  ok (Value.str (show_value pf v))
run_builtin pf Builtin.now args = ok (Value.int pf.now_secs)
run_builtin pf Builtin.substring args = do
  expect_args (codes "substring") 3 args
  s ← arg_str args 0 (codes "substring")
  start_v ← ok_or (get_elem? args 1) (missing_argument (codes "substring") 1)
  start ← ok_or (as_int start_v) (not_an_int (codes "start"))
  len_v ← ok_or (get_elem? args 2) (missing_argument (codes "substring") 2)
  n ← ok_or (as_int len_v) (not_an_int (codes "length"))
  ok (Value.str (substring_text s (clamp start) (clamp n)))
run_builtin pf Builtin.lower args = do
  expect_args (codes "lower") 1 args
  s ← arg_str args 0 (codes "lower")
  ok (Value.str (pf.to_lowercase s))
run_builtin pf Builtin.upper args = do
  expect_args (codes "upper") 1 args
  s ← arg_str args 0 (codes "upper")
  ok (Value.str (pf.to_uppercase s))
run_builtin pf Builtin.trim args = do
  expect_args (codes "trim") 1 args
  s ← arg_str args 0 (codes "trim")
  ok (Value.str (trim_text pf.is_whitespace s))
run_builtin pf Builtin.hash_sha256 args = do
  expect_args (codes "hash_sha256") 1 args
  s ← arg_str args 0 (codes "hash_sha256")
  ok (Value.str (hex_digest (hash (utf8 s))))

unfoldable pub try_call : Platform → Text → List Value → Option (Result Value)
unfolding builtin_of run_builtin
try_call pf n args = elim (builtin_of n) [ none ↦ none | some b ↦ some (run_builtin pf b args) ]
