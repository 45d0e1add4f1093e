-- ===== src/Sema/Accepts.antt =====
-- The programs that src/sema.rs accepts.
use mathlib.Core.Path.{subst}
use mathlib.Core.List.{append-nil, append_assoc}
use tracescript.Prelude.{
  ◌≡◌, refl, sym, ap, ◌∙◌, ◌↔◌, inl, inr, Bool, true, false, List, [], ◌∷◌, ◌++◌, if◌then◌else◌,
  All,
}
use tracescript.Value.{TraceError}
use tracescript.Result.{ok, err}
use tracescript.Syntax.{Decl, Program}
use tracescript.Sema.{
  Analyzer, SymbolTable, new, first_error, is_source_type, expect, collect_decl, collect_decls,
  validate_decls, analyze,
}
use tracescript.Sema.Scoped.{DeclIsScoped}
use tracescript.Sema.Checks.{decls-Checks, push_ne}
use tracescript.Sema.Step.{collect-Collects, List-cases}
use tracescript.Sema.Collect.{IsFresh, AreDistinct, symbols_of}

if_push-clean :
    (b : Bool) (e : TraceError) (a c : Analyzer)
    → c.diagnostics ≡ a.diagnostics
    → (if b then record a { diagnostics = a.diagnostics ++ e ∷ [] } else c).diagnostics ≡ []
    → a.diagnostics ≡ []
if_push-clean true e a c s k = absurd (push_ne a.diagnostics e k)
if_push-clean false e a c s k = sym s ∙ k

if_else_push-clean :
    (b : Bool) (e : TraceError) (a c : Analyzer)
    → c.diagnostics ≡ a.diagnostics
    → (if b then c else record a { diagnostics = a.diagnostics ++ e ∷ [] }).diagnostics ≡ []
    → a.diagnostics ≡ []
if_else_push-clean true e a c s k = sym s ∙ k
if_else_push-clean false e a c s k = absurd (push_ne a.diagnostics e k)

collect_decl-clean :
    (d : Decl) (a : Analyzer) → (collect_decl d a).diagnostics ≡ [] → a.diagnostics ≡ []
unfolding collect_decl expect
collect_decl-clean (Decl.source s) a k =
    if_else_push-clean (is_source_type s.source_type) _ a a refl
      (if_push-clean _ _ (expect (is_source_type s.source_type) _ s.pos a) _ refl k)
collect_decl-clean (Decl.table t) a k = if_push-clean _ _ a _ refl k
collect_decl-clean (Decl.event_handler h) a k = if_push-clean _ _ a _ refl k
collect_decl-clean (Decl.finish_handler f) a k = if_else_push-clean _ _ a _ refl k
collect_decl-clean (Decl.function f) a k = if_push-clean _ _ a _ refl k

collect_decls-clean :
    (ds : List Decl) (a : Analyzer) → (collect_decls ds a).diagnostics ≡ [] → a.diagnostics ≡ []
unfolding collect_decls
collect_decls-clean [] a k = k
collect_decls-clean (d ∷ ds) a k =
    collect_decl-clean d a (collect_decls-clean ds (collect_decl d a) k)

-- the first pass behind `es`
collect_decls-AreDistinct :
    (es ds : List Decl) (a : Analyzer)
    → a.symbols ≡ symbols_of es
    → (collect_decls ds a).diagnostics ≡ []
    → (a.diagnostics ≡ [])
      × (AreDistinct es ds × ((collect_decls ds a).symbols ≡ symbols_of (es ++ ds)))
unfolding collect_decls AreDistinct IsFresh
collect_decls-AreDistinct es [] a s k = (k, (tt, rw (append-nil es) s))
collect_decls-AreDistinct es (d ∷ ds) a s k =
    let c = collect-Collects es d a s in
    let clean = collect_decls-clean ds (collect_decl d a) k in
    let (l, (u, f)) = c.sound clean in
    let (_, (r, e)) =
      collect_decls-AreDistinct (es ++ d ∷ []) ds (collect_decl d a) (c.adds clean) k in
    (l, ((u, (f, r)), e ∙ ap symbols_of (append_assoc es (d ∷ []) ds)))

AreDistinct-collect_decls :
    (es ds : List Decl) (a : Analyzer)
    → a.symbols ≡ symbols_of es
    → a.diagnostics ≡ []
    → AreDistinct es ds
    → (collect_decls ds a).diagnostics ≡ []
unfolding collect_decls AreDistinct IsFresh
AreDistinct-collect_decls es [] a s k h = k
AreDistinct-collect_decls es (d ∷ ds) a s k (u, (f, r)) =
    let c = collect-Collects es d a s in
    let clean : (collect_decl d a).diagnostics ≡ [] = c.complete k u f in
    AreDistinct-collect_decls (es ++ d ∷ []) ds (collect_decl d a) (c.adds clean) clean r

first_error-clean : (a : Analyzer) → a.diagnostics ≡ [] → (first_error a).0 ≡ ok tt
first_error-clean a h = rw h refl

first_error_inv : (a : Analyzer) → (first_error a).0 ≡ ok tt → a.diagnostics ≡ []
first_error_inv a h = elim (List-cases a.diagnostics) [
  | inl e ↦ e
  | inr (x, xs, e) ↦ absurd (let b : err x ≡ ok tt = (rw e at h) in cc)
]

-- Every declaration is of a supported kind and clashes with none before it, and every body is well
-- scoped in the symbols of all the declarations.
unfoldable pub IsAccepted : Program → Type 0
unfolding AreDistinct DeclIsScoped symbols_of
IsAccepted p =
    AreDistinct [] p.declarations × All (DeclIsScoped (symbols_of p.declarations)) p.declarations

-- The analyzer accepts a program exactly where each of its declarations is supported and clashes with
-- none before it, and each body uses only the names in its scope, with the right numbers of values.
pub analyze-IsAccepted : (p : Program) → ((analyze new p).0 ≡ ok tt) ↔ IsAccepted p
unfolding analyze IsAccepted
analyze-IsAccepted p =
    let ds : List Decl = p.declarations in
    let passes = decls-Checks (symbols_of ds) ds in
    (
      λ h.
          let clean = first_error_inv (validate_decls ds (collect_decls ds new)) h in
          let σ : SymbolTable = (collect_decls ds new).symbols in
          let (k, r) = (decls-Checks σ ds).sound (collect_decls ds new) refl clean in
          let (_, (u, e)) = collect_decls-AreDistinct [] ds new refl k in
          (u, subst (λ τ. All (DeclIsScoped τ) ds) e r),
      λ (u, r).
          let c = AreDistinct-collect_decls [] ds new refl refl u in
          let (_, (_, e)) = collect_decls-AreDistinct [] ds new refl c in
          first_error-clean (validate_decls ds (collect_decls ds new))
            (passes.complete (collect_decls ds new) e c r),
    )
