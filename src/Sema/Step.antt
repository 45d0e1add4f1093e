-- ===== src/Sema/Step.antt =====
-- One declaration in the first pass of src/sema.rs.
use mathlib.Core.Path.{subst}
use mathlib.Core.List.{append-nil}
use tracescript.Prelude.Assoc
use tracescript.Prelude.{
  ◌≡◌, refl, sym, ap, ◌∙◌, ◌⊎◌, inl, inr, true, false, List, [], ◌∷◌, ◌++◌, Option, none, some,
  Bool-cases, Option-cases,
}
use tracescript.Value.{
  TraceError, semantic, duplicate_table, duplicate_source, duplicate_handler, duplicate_finish,
  duplicate_function, unsupported_source,
}
use tracescript.Syntax.{
  Decl, TableDecl, FunctionDecl, EventHandlerDecl, FinishHandlerDecl, SourceDecl,
}
use tracescript.Sema.{Analyzer, SymbolTable, is_source_type, expect, collect_decl}
use tracescript.Sema.Checks.{push_ne, none≢some, cons≢nil}
use tracescript.Sema.Collect.{
  IsSupported, IsFresh, add, join, symbols_of, symbols_of-append, insert_new, is_source_type_iff,
  table_iff, function_iff, handler_iff, finish_iff, source_iff,
}

-- `d`, with `es` before it, in the first pass over analyzer `a`
pub record Collects (es : List Decl) (d : Decl) (a : Analyzer) : Type 0 where
  pub sound :
      (collect_decl d a).diagnostics ≡ [] → (a.diagnostics ≡ []) × (IsSupported d × IsFresh d es)
  pub complete :
      a.diagnostics ≡ [] → IsSupported d → IsFresh d es → (collect_decl d a).diagnostics ≡ []
  pub adds :
      (collect_decl d a).diagnostics ≡ [] → (collect_decl d a).symbols ≡ symbols_of (es ++ d ∷ [])

module _ (es : List Decl) (d : Decl) (a : Analyzer) where
  admit-Collects :
      (σ : SymbolTable)
      → IsSupported d
      → IsFresh d es
      → collect_decl d a ≡ record a { symbols = σ }
      → σ ≡ join (symbols_of es) (symbols_of (d ∷ []))
      → Collects es d a
  admit-Collects σ s f e j = record {
    sound = λ k. (sym (ap (λ b. b.diagnostics) e) ∙ k, (s, f));
    complete = λ k s' f'. ap (λ b. b.diagnostics) e ∙ k;
    adds = λ k. ap (λ b. b.symbols) e ∙ j ∙ sym (symbols_of-append es (d ∷ []));
  }

  refuse-Collects :
      (errors : List TraceError) (e : TraceError)
      → (IsSupported d → IsFresh d es → ⊥)
      → (collect_decl d a).diagnostics ≡ errors ++ e ∷ []
      → Collects es d a
  refuse-Collects errors e n g = record {
    sound = λ k. absurd (push_ne errors e (sym g ∙ k));
    complete = λ k s f. absurd (n s f);
    adds = λ k. absurd (push_ne errors e (sym g ∙ k));
  }

or_none : {A : Type 0} (o : Option A) → (elim o [ none ↦ none | some p ↦ some p ]) ≡ o
or_none none = refl
or_none (some a) = refl

pub List-cases : {A : Type 0} (xs : List A) → (xs ≡ []) ⊎ ((x : A) × (ys : List A) × (xs ≡ x ∷ ys))
List-cases [] = inl refl
List-cases (x ∷ xs) = inr (x, xs, refl)

module _ (es : List Decl) (errors : List TraceError) where
  at_es : Analyzer
  at_es = record { symbols = symbols_of es; diagnostics = errors }

  after_es : Decl → SymbolTable
  after_es d = join (symbols_of es) (symbols_of (d ∷ []))

  table-Collects : (t : TableDecl) → Collects es (Decl.table t) at_es
  unfolding collect_decl IsSupported symbols_of add join at_es after_es
  table-Collects t = elim (Option-cases (Assoc.lookup (symbols_of es).tables t.name)) [
    | inl e ↦
        admit-Collects es _ at_es (after_es (Decl.table t)) tt ((table_iff t es).0 e)
          (rw
            (
              e,
              insert_new _ _ _ e,
              append-nil (symbols_of es).functions,
              append-nil (symbols_of es).event_handlers,
              append-nil (symbols_of es).finish_handlers,
              or_none (symbols_of es).source,
            )
            refl)
          refl
    | inr (info, e) ↦
        refuse-Collects es _ at_es errors (semantic (duplicate_table t.name) t.pos)
          (λ u f. absurd (none≢some (sym ((table_iff t es).1 f) ∙ e))) (rw e refl)
  ]

  function-Collects : (f : FunctionDecl) → Collects es (Decl.function f) at_es
  unfolding collect_decl IsSupported symbols_of add join at_es after_es
  function-Collects f = elim (Option-cases (Assoc.lookup (symbols_of es).functions f.name)) [
    | inl e ↦
        admit-Collects es _ at_es (after_es (Decl.function f)) tt ((function_iff f es).0 e)
          (rw
            (
              e,
              insert_new _ _ _ e,
              append-nil (symbols_of es).tables,
              append-nil (symbols_of es).event_handlers,
              append-nil (symbols_of es).finish_handlers,
              or_none (symbols_of es).source,
            )
            refl)
          refl
    | inr (info, e) ↦
        refuse-Collects es _ at_es errors (semantic (duplicate_function f.name) f.pos)
          (λ u g. absurd (none≢some (sym ((function_iff f es).1 g) ∙ e))) (rw e refl)
  ]

  handler-Collects : (h : EventHandlerDecl) → Collects es (Decl.event_handler h) at_es
  unfolding collect_decl IsSupported symbols_of add join at_es after_es
  handler-Collects h =
      elim (Option-cases (Assoc.lookup (symbols_of es).event_handlers h.event_name)) [
        | inl e ↦
            admit-Collects es _ at_es (after_es (Decl.event_handler h)) tt ((handler_iff h es).0 e)
              (rw
                (
                  e,
                  insert_new _ _ _ e,
                  append-nil (symbols_of es).tables,
                  append-nil (symbols_of es).functions,
                  append-nil (symbols_of es).finish_handlers,
                  or_none (symbols_of es).source,
                )
                refl)
              refl
        | inr (info, e) ↦
            refuse-Collects es _ at_es errors (semantic (duplicate_handler h.event_name) h.pos)
              (λ u g. absurd (none≢some (sym ((handler_iff h es).1 g) ∙ e))) (rw e refl)
      ]

  finish-Collects : (f : FinishHandlerDecl) → Collects es (Decl.finish_handler f) at_es
  unfolding collect_decl IsSupported symbols_of add join at_es after_es
  finish-Collects f = elim (List-cases (symbols_of es).finish_handlers) [
    | inl e ↦
        admit-Collects es _ at_es (after_es (Decl.finish_handler f)) tt ((finish_iff f es).0 e)
          (rw
            (
              e,
              append-nil (symbols_of es).tables,
              append-nil (symbols_of es).functions,
              append-nil (symbols_of es).event_handlers,
              or_none (symbols_of es).source,
            )
            refl)
          refl
    | inr (p, ps, e) ↦
        refuse-Collects es _ at_es errors (semantic duplicate_finish f.pos)
          (λ u g. absurd (cons≢nil (sym e ∙ (finish_iff f es).1 g))) (rw e refl)
  ]

  source-Collects : (s : SourceDecl) → Collects es (Decl.source s) at_es
  unfolding collect_decl IsSupported symbols_of add join at_es after_es expect
  source-Collects s = elim (Bool-cases (is_source_type s.source_type)) [
    | inl b ↦ elim (Option-cases (symbols_of es).source) [
      | inl e ↦
          admit-Collects es _ at_es (after_es (Decl.source s))
            ((is_source_type_iff s.source_type).0 b) ((source_iff s es).0 e)
            (rw
              (
                b,
                e,
                append-nil (symbols_of es).tables,
                append-nil (symbols_of es).functions,
                append-nil (symbols_of es).event_handlers,
                append-nil (symbols_of es).finish_handlers,
              )
              refl)
            refl
      | inr (q, e) ↦
          refuse-Collects es _ at_es errors (semantic duplicate_source s.pos)
            (λ u g. absurd (none≢some (sym ((source_iff s es).1 g) ∙ e))) (rw (b, e) refl)
    ]
    | inr b ↦
        let unsupported : IsSupported (Decl.source s) → ⊥ =
          λ u. let c : false ≡ true = sym b ∙ (is_source_type_iff s.source_type).1 u in cc in
        elim (Option-cases (symbols_of es).source) [
          | inl e ↦
              refuse-Collects es _ at_es errors (semantic (unsupported_source s.source_type) s.pos)
                (λ u g. absurd (unsupported u)) (rw (b, e) refl)
          | inr (q, e) ↦
              refuse-Collects es _ at_es
                (errors ++ semantic (unsupported_source s.source_type) s.pos ∷ [])
                (semantic duplicate_source s.pos) (λ u g. absurd (unsupported u)) (rw (b, e) refl)
        ]
  ]

  decl-Collects : (d : Decl) → Collects es d at_es
  decl-Collects (Decl.source s) = source-Collects s
  decl-Collects (Decl.table t) = table-Collects t
  decl-Collects (Decl.event_handler h) = handler-Collects h
  decl-Collects (Decl.finish_handler f) = finish-Collects f
  decl-Collects (Decl.function f) = function-Collects f

pub collect-Collects :
    (es : List Decl) (d : Decl) (a : Analyzer) → a.symbols ≡ symbols_of es → Collects es d a
unfolding at_es
collect-Collects es d a s =
    subst (Collects es d) (ap (λ σ. record a { symbols = σ }) (sym s))
      (decl-Collects es a.diagnostics d)
