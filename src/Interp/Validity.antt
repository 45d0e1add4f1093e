-- ===== src/Interp/Validity.antt =====
-- Every run of the interpreter of src/interp/mod.rs over a valid store leaves a valid store: the
-- statements, the expressions in them, and the calls of user functions.
use tracescript.Prelude.Assoc
use tracescript.Prelude.{List, Option, none, some, Text, length, ◌==◌, Bool-cases, inl, inr}
use tracescript.Error.{SourcePos}
use tracescript.Value.{Value, Platform, runtime, return_signal}
use tracescript.Result.{Result, ok, err, panic, Ensures}
use tracescript.Tables.{TableStore}
use tracescript.Tables.Laws.{IsValid}
use tracescript.Machine.{Ran, done, stop, raised, panicked, and_then, lift}
use tracescript.Syntax.{Block, FunctionDecl}
use tracescript.Builtins.{try_call}
use tracescript.Interp.Access.{at_pos, host_of, host_call}
use tracescript.Interp.Cells.{LeavesValid, host_call-LeavesValid}
use tracescript.Interp.{Locals, Scope, Step, end_call, run_function, call_by}

abbrev pub HasValidTables : Scope → Type 0
HasValidTables s = IsValid s.interp.tables

abbrev pub scope_after : {A : Type 0} → Ran Scope A → Scope
scope_after (done a s) = s
scope_after (stop e s) = s

-- The run `r` ends with valid tables.
pub record Sound {A : Type 0} (r : Ran Scope A) : Type 0 where
  pub valid : HasValidTables (scope_after r)

abbrev pub KeepsValid : {A : Type 0} → Step A → Type 0
KeepsValid m = (s : Scope) → HasValidTables s → Sound (m s)

pub bind-Sound :
    {A B : Type 0} (r : Ran Scope A) (k : A → Step B)
    → Sound r
    → ((a : A) → KeepsValid (k a))
    → Sound (and_then r k)
bind-Sound (done a t) k h g = g a t h.valid
bind-Sound (stop e t) k h g = record { valid = h.valid }

pub lift-KeepsValid : {A : Type 0} (r : Result A) → KeepsValid (lift r)
lift-KeepsValid (ok a) s v = record { valid = v }
lift-KeepsValid (err e) s v = record { valid = v }
lift-KeepsValid panic s v = record { valid = v }

-- a result that is a new store
pub store-Sound :
    (r : Result TableStore) (s : Scope) (k : TableStore → Step (Unit {0}))
    → HasValidTables s
    → Ensures IsValid r
    → ((ts : TableStore) → IsValid ts → Sound (k ts s))
    → Sound (and_then (lift r s) k)
store-Sound (ok ts) s k v h g = g ts h
store-Sound (err e) s k v h g = record { valid = v }
store-Sound panic s k v h g = record { valid = v }

pub at_pos-IsValid :
    (p : SourcePos) (r : Result TableStore) → Ensures IsValid r → Ensures IsValid (at_pos p r)
at_pos-IsValid p (ok ts) h = h
at_pos-IsValid p (err (runtime m q)) h = tt
at_pos-IsValid p (err _) h = tt
at_pos-IsValid p panic h = tt

end_call-Sound : (old : Locals) (r : Ran Scope (Unit {0})) → Sound r → Sound (end_call old r)
unfolding end_call
end_call-Sound old (done u t) h = record { valid = h.valid }
end_call-Sound old (stop (raised (return_signal none)) t) h = record { valid = h.valid }
end_call-Sound old (stop (raised (return_signal (some v))) t) h = record { valid = h.valid }
end_call-Sound old (stop _ t) h = record { valid = h.valid }

run_function-KeepsValid :
    (body : Block → Step (Unit {0}))
    → ((b : Block) → KeepsValid (body b))
    → (f : FunctionDecl) (vs : List Value) (p : SourcePos) → KeepsValid (run_function body f vs p)
unfolding run_function
run_function-KeepsValid body h f vs p s v = elim (Bool-cases (length f.params == length vs)) [
  | inl e ↦ rw e (end_call-Sound s.locals _ (h f.body _ v))
  | inr e ↦ rw e (record { valid = v })
]

pub Option-Sound :
    {A B : Type 0} (o : Option A) (r : Ran Scope B) (g : A → Ran Scope B)
    → Sound r
    → ((a : A) → Sound (g a))
    → Sound (elim o [ none ↦ r | some a ↦ g a ])
Option-Sound none r g h k = h
Option-Sound (some a) r g h k = k a

host-Sound :
    (s : Scope) (r : Result (Value × TableStore))
    → HasValidTables s
    → Ensures LeavesValid r
    → Sound (elim r [
      | ok x ↦ done x.0 (record s { interp = record (s.interp) { tables = x.1 } })
      | err e ↦ stop (raised e) s
      | panic ↦ stop panicked s
    ])
host-Sound s (ok x) v h = record { valid = h }
host-Sound s (err e) v h = record { valid = v }
host-Sound s panic v h = record { valid = v }

pub call_by-KeepsValid :
    (pf : Platform) (body : Block → Step (Unit {0}))
    → ((b : Block) → KeepsValid (body b))
    → (n : Text) (vs : List Value) (p : SourcePos) → KeepsValid (call_by pf body n vs p)
unfolding call_by
call_by-KeepsValid pf body h n vs p s v =
    Option-Sound (try_call pf n vs) _ _
      (Option-Sound (host_of n) _ _
        (Option-Sound (Assoc.lookup s.interp.functions n) _ _ (record { valid = v })
          (λ f. run_function-KeepsValid body h f vs p s v))
        (λ g.
          host-Sound s (host_call pf g s.interp.tables vs p) v
            (host_call-LeavesValid pf g s.interp.tables vs p v)))
      (λ r. lift-KeepsValid r s v)
