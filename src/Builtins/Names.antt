-- ===== src/Builtins/Names.antt =====
-- The two matches on names in src/interp/builtins.rs, of `arity` and of `try_call`.
use tracescript.Prelude.{
  ℕ, ◌≡◌, refl, sym, ◌∙◌, ◌↔◌, List, Text, some, Option-cases, is_some, is_some_iff, inl, inr,
  arith,
}
use tracescript.Value.{Value, Platform}
use tracescript.Result.{Result}
use tracescript.Builtins.{builtin_of, arity, is_one_of, try_call}

same_names : (n : Text) → is_some (arity n) ≡ is_some (builtin_of n)
unfolding arity builtin_of is_one_of
same_names n = ground arith

called :
    (pf : Platform) (n : Text) (vs : List Value)
    → is_some (try_call pf n vs) ≡ is_some (builtin_of n)
unfolding try_call
called pf n vs = elim (Option-cases (builtin_of n)) [
  | inl e ↦ rw (try_call, e) refl
  | inr (b, e) ↦ rw (try_call, e) refl
]

-- The two matches are on the same names: `builtins::arity` gives a number of arguments for a name
-- exactly where `try_call` has an arm for it, whatever the arguments. So the VM never reaches the
-- `unreachable!` of `do_call`, and leaves no builtin of the interpreter to the user's functions.
pub try_call-arity :
    (pf : Platform) (n : Text) (vs : List Value)
    → ((k : ℕ) × (arity n ≡ some k)) ↔ ((r : Result Value) × (try_call pf n vs ≡ some r))
try_call-arity pf n vs =
    let e = same_names n ∙ sym (called pf n vs) in
    let (f, g) = is_some_iff (arity n) in
    let (f', g') = is_some_iff (try_call pf n vs) in (λ h. f' (sym e ∙ g h), λ h. f (e ∙ g' h))
