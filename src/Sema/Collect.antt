-- ===== src/Sema/Collect.antt =====
-- The first pass of src/sema.rs: what the declarations of a program have to be for it to report
-- nothing, said of the declarations alone.
use native.Mathlib.Omega.{arith}
use tracescript.Prelude.Assoc
use tracescript.Prelude.{
  ◌≡◌, refl, sym, ap, ◌∙◌, ◌↔◌, ◌⊎◌, inl, inr, true, false, List, [], ◌∷◌, ◌++◌, Option, none, some,
  Text, codes, text_eq, text_eq_iff, length, Bool-cases, if◌then◌else◌, All,
}
use tracescript.Syntax.{
  Decl, TableDecl, FunctionDecl, EventHandlerDecl, SourceDecl, FinishHandlerDecl,
}
use tracescript.Sema.{new, SymbolTable, is_source_type}
use tracescript.Sema.Checks.{none≢some, cons≢nil}

-- `pcap`, `jsonl` and `csv`
unfoldable pub IsSupported : Decl → Type 0
IsSupported (Decl.source s) =
    (s.source_type ≡ codes "pcap")
    ⊎ ((s.source_type ≡ codes "jsonl") ⊎ (s.source_type ≡ codes "csv"))
IsSupported _ = Unit

-- Two declarations that a program does not have both.
unfoldable pub Clash : Decl → Decl → Type 0
Clash (Decl.source s) (Decl.source t) = Unit
Clash (Decl.table s) (Decl.table t) = s.name ≡ t.name
Clash (Decl.event_handler s) (Decl.event_handler t) = s.event_name ≡ t.event_name
Clash (Decl.finish_handler s) (Decl.finish_handler t) = Unit
Clash (Decl.function s) (Decl.function t) = s.name ≡ t.name
Clash _ _ = ⊥

-- Each of `ds` is supported, and clashes with none before it, of which `es` are the first.
unfoldable pub AreDistinct : List Decl → List Decl → Type 0
unfolding IsSupported Clash
AreDistinct es [] = Unit
AreDistinct es (d ∷ ds) =
    IsSupported d × (All (λ e. Clash e d → ⊥) es × AreDistinct (es ++ d ∷ []) ds)

-- the symbols of declarations without a clash
unfoldable pub add : Decl → SymbolTable → SymbolTable
add (Decl.source s) σ = record σ { source = some s.path }
add (Decl.table t) σ = record σ {
  tables = (t.name, record { name = t.name; fields = t.fields; pos = t.pos }) ∷ σ.tables;
}
add (Decl.event_handler h) σ = record σ {
  event_handlers =
      (h.event_name, record { event_name = h.event_name; param_name = h.param_name; pos = h.pos })
      ∷ σ.event_handlers;
}
add (Decl.finish_handler f) σ = record σ { finish_handlers = f.pos ∷ σ.finish_handlers }
add (Decl.function f) σ = record σ {
  functions =
      (f.name, record { name = f.name; arity = length f.params; pos = f.pos }) ∷ σ.functions;
}

unfoldable pub symbols_of : List Decl → SymbolTable
unfolding add
symbols_of [] = new.symbols
symbols_of (d ∷ ds) = add d (symbols_of ds)

-- the symbols of both, where they have one source at most
unfoldable pub join : SymbolTable → SymbolTable → SymbolTable
join σ τ = record {
  tables = σ.tables ++ τ.tables;
  functions = σ.functions ++ τ.functions;
  event_handlers = σ.event_handlers ++ τ.event_handlers;
  finish_handlers = σ.finish_handlers ++ τ.finish_handlers;
  source = elim (σ.source) [ none ↦ τ.source | some p ↦ some p ];
}

pub symbols_of-append :
    (es ds : List Decl) → symbols_of (es ++ ds) ≡ join (symbols_of es) (symbols_of ds)
unfolding symbols_of join add
symbols_of-append [] ds = refl
symbols_of-append (Decl.source s ∷ es) ds = ap (add (Decl.source s)) (symbols_of-append es ds)
symbols_of-append (Decl.table t ∷ es) ds = ap (add (Decl.table t)) (symbols_of-append es ds)
symbols_of-append (Decl.event_handler h ∷ es) ds =
    ap (add (Decl.event_handler h)) (symbols_of-append es ds)
symbols_of-append (Decl.finish_handler f ∷ es) ds =
    ap (add (Decl.finish_handler f)) (symbols_of-append es ds)
symbols_of-append (Decl.function f ∷ es) ds = ap (add (Decl.function f)) (symbols_of-append es ds)

pub is_source_type_iff :
    (s : Text)
    → (is_source_type s ≡ true) ↔ ((s ≡ codes "pcap") ⊎ ((s ≡ codes "jsonl") ⊎ (s ≡ codes "csv")))
is_source_type_iff s = ground (
  arith,
  text_eq_iff s (codes "pcap"),
  text_eq_iff s (codes "jsonl"),
  text_eq_iff s (codes "csv"),
)

pub insert_new {ℓ} :
    {V : Type ℓ} (m : List (Text × V)) (k : Text) (v : V)
    → Assoc.lookup m k ≡ none
    → Assoc.insert m k v ≡ m ++ (k, v) ∷ []
unfolding Assoc.insert Assoc.lookup
insert_new [] k v h = refl
insert_new ((j, w) ∷ m) k v h = elim (Bool-cases (text_eq j k)) [
  | inl e ↦ absurd (let b : some w ≡ none = (rw e at h) in cc)
  | inr e ↦ rw e (ap (◌∷◌ (j, w)) (insert_new m k v (rw e at h)))
]

-- Under a declaration of another kind.
pass_iff : {P : Type 0} {Q : Type 0} → P ↔ Q → P ↔ ((⊥ → ⊥) × Q)
pass_iff i = (λ p. (λ x. x, i.0 p), λ (f, q). i.1 q)

same_iff :
    {V : Type 0} {Q : Type 0} (k j : Text) (v : V) (rest : Option V)
    → (rest ≡ none) ↔ Q
    → ((if text_eq k j then some v else rest) ≡ none) ↔ (((k ≡ j) → ⊥) × Q)
same_iff k j v rest i = elim (Bool-cases (text_eq k j)) [
  | inl e ↦ (
    λ h. absurd (let b : some v ≡ none = (rw e at h) in cc),
    λ (f, q). absurd (f ((text_eq_iff k j).0 e)),
  )
  | inr e ↦ (
    λ h. (
      (λ g. let b : true ≡ false = sym ((text_eq_iff k j).1 g) ∙ e in absurd cc),
      i.0 (rw e at h),
    ),
    λ (f, q). rw e (i.1 q),
  )
]

unfoldable pub IsFresh : Decl → List Decl → Type 0
IsFresh d es = All (λ e. Clash e d → ⊥) es

pub table_iff :
    (t : TableDecl) (es : List Decl)
    → (Assoc.lookup (symbols_of es).tables t.name ≡ none) ↔ IsFresh (Decl.table t) es
unfolding symbols_of add Clash IsFresh Assoc.lookup
table_iff t [] = (λ h. tt, λ h. refl)
table_iff t (Decl.table u ∷ es) = same_iff u.name t.name _ _ (table_iff t es)
table_iff t (Decl.source u ∷ es) = pass_iff (table_iff t es)
table_iff t (Decl.event_handler u ∷ es) = pass_iff (table_iff t es)
table_iff t (Decl.finish_handler u ∷ es) = pass_iff (table_iff t es)
table_iff t (Decl.function u ∷ es) = pass_iff (table_iff t es)

pub function_iff :
    (f : FunctionDecl) (es : List Decl)
    → (Assoc.lookup (symbols_of es).functions f.name ≡ none) ↔ IsFresh (Decl.function f) es
unfolding symbols_of add Clash IsFresh Assoc.lookup
function_iff f [] = (λ h. tt, λ h. refl)
function_iff f (Decl.function u ∷ es) = same_iff u.name f.name _ _ (function_iff f es)
function_iff f (Decl.source u ∷ es) = pass_iff (function_iff f es)
function_iff f (Decl.event_handler u ∷ es) = pass_iff (function_iff f es)
function_iff f (Decl.finish_handler u ∷ es) = pass_iff (function_iff f es)
function_iff f (Decl.table u ∷ es) = pass_iff (function_iff f es)

pub handler_iff :
    (h : EventHandlerDecl) (es : List Decl)
    → (Assoc.lookup (symbols_of es).event_handlers h.event_name ≡ none)
      ↔ IsFresh (Decl.event_handler h) es
unfolding symbols_of add Clash IsFresh Assoc.lookup
handler_iff h [] = (λ k. tt, λ k. refl)
handler_iff h (Decl.event_handler u ∷ es) =
    same_iff u.event_name h.event_name _ _ (handler_iff h es)
handler_iff h (Decl.source u ∷ es) = pass_iff (handler_iff h es)
handler_iff h (Decl.function u ∷ es) = pass_iff (handler_iff h es)
handler_iff h (Decl.finish_handler u ∷ es) = pass_iff (handler_iff h es)
handler_iff h (Decl.table u ∷ es) = pass_iff (handler_iff h es)

pub finish_iff :
    (f : FinishHandlerDecl) (es : List Decl)
    → ((symbols_of es).finish_handlers ≡ []) ↔ IsFresh (Decl.finish_handler f) es
unfolding symbols_of add Clash IsFresh
finish_iff f [] = (λ k. tt, λ k. refl)
finish_iff f (Decl.finish_handler u ∷ es) = (λ k. absurd (cons≢nil k), λ (g, q). absurd (g tt))
finish_iff f (Decl.source u ∷ es) = pass_iff (finish_iff f es)
finish_iff f (Decl.function u ∷ es) = pass_iff (finish_iff f es)
finish_iff f (Decl.event_handler u ∷ es) = pass_iff (finish_iff f es)
finish_iff f (Decl.table u ∷ es) = pass_iff (finish_iff f es)

pub source_iff :
    (s : SourceDecl) (es : List Decl) → ((symbols_of es).source ≡ none) ↔ IsFresh (Decl.source s) es
unfolding symbols_of add Clash IsFresh
source_iff s [] = (λ k. tt, λ k. refl)
source_iff s (Decl.source u ∷ es) = (λ k. absurd (none≢some (sym k)), λ (g, q). absurd (g tt))
source_iff s (Decl.finish_handler u ∷ es) = pass_iff (source_iff s es)
source_iff s (Decl.function u ∷ es) = pass_iff (source_iff s es)
source_iff s (Decl.event_handler u ∷ es) = pass_iff (source_iff s es)
source_iff s (Decl.table u ∷ es) = pass_iff (source_iff s es)
