-- ===== src/Codegen/Correct/Locals.antt =====
-- A `let` in the two engines: `StoreVar` of src/bytecode/vm.rs against the insertion in the variables
-- of src/interp/mod.rs.
use tracescript.Prelude.Assoc
use tracescript.Prelude.{
  ℕ, zero, suc, ◌+◌, ◌-◌, ◌<◌, ◌≡◌, ◌≢◌, refl, sym, ap, ◌∙◌, true, List, [], ◌∷◌, ◌++◌, none, some,
  Text, length, get_elem?, set, replicate, text_eq, text_eq_iff, length-append, length-replicate,
  get_elem?-append_left, arith, Bool-cases, Option-cases, inl, inr, ltb,
}
use tracescript.Value.{Value}
use tracescript.Interp.{Locals}
use tracescript.Codegen.{Compiler, find_local, ensure_local}
use tracescript.Vm.Access.{store_at}
use tracescript.Codegen.Correct.Exprs.{Agrees}

get_elem?-set :
    {A : Type 0} (xs : List A) (i j : ℕ) (a : A)
    → i < length xs
    → (get_elem? (set xs i a) i ≡ some a) × (j ≢ i → get_elem? (set xs i a) j ≡ get_elem? xs j)
get_elem?-set [] i j a h = absurd (omega arith)
get_elem?-set (x ∷ xs) zero zero a h = (refl, λ n. absurd (n refl))
get_elem?-set (x ∷ xs) zero (suc j) a h = (refl, λ n. refl)
get_elem?-set (x ∷ xs) (suc i) zero a h = ((get_elem?-set xs i 0 a (omega arith)).0, λ n. refl)
get_elem?-set (x ∷ xs) (suc i) (suc j) a h =
    let r = get_elem?-set xs i j a (omega arith) in (r.0, λ n. r.1 (λ e. n (ap suc e)))

-- What `StoreVar` does to the locals of the frame, which it lengthens where the slot is past them.
store_at_lem :
    (vs : List Value) (i j : ℕ) (v : Value)
    → (get_elem? (store_at vs i v) i ≡ some v)
      × ((w : Value) → j ≢ i → get_elem? vs j ≡ some w → get_elem? (store_at vs i v) j ≡ some w)
unfolding store_at
store_at_lem vs i j v = elim (Bool-cases (ltb i (length vs))) [
  | inl e ↦ let r = get_elem?-set vs i j v (ground (arith, e)) in rw e (r.0, λ w n g. r.1 n ∙ g)
  | inr e ↦
      let pad = replicate (i + 1 - length vs) Value.unit in
      let room : i < length (vs ++ pad) =
        ground (arith, e, length-append vs pad, length-replicate (i + 1 - length vs) Value.unit) in
      let r = get_elem?-set (vs ++ pad) i j v room in
      rw e (r.0, λ w n g. r.1 n ∙ get_elem?-append_left vs pad j g)
]

find_local_self :
    (xs : List Text) (x : Text)
    → find_local xs x ≡ none
    → find_local (xs ++ x ∷ []) x ≡ some (length xs)
unfolding find_local
find_local_self [] x h = ground (arith, text_eq_iff x x)
find_local_self (y ∷ ys) x h = ground (arith, text_eq_iff y x, h, find_local_self ys x)

find_local_other :
    (xs : List Text) (x y : Text) (i : ℕ)
    → find_local xs y ≡ some i
    → (find_local (xs ++ x ∷ []) y ≡ some i) × (i < length xs)
unfolding find_local
find_local_other [] x y i h = ground arith
find_local_other (z ∷ zs) x y i h = elim (Option-cases (find_local zs y)) [
  | inl n ↦ ground (arith, n, h)
  | inr (j, e) ↦ ground (arith, e, h, find_local_other zs x y j e)
]

find_local-get_elem? :
    (xs : List Text) (x : Text) (i : ℕ) → find_local xs x ≡ some i → get_elem? xs i ≡ some x
unfolding find_local
find_local-get_elem? [] x i h = cc
find_local-get_elem? (y ∷ ys) x i h = elim (Bool-cases (text_eq y x)) [
  | inl e ↦ ground (arith, e, h, text_eq_iff y x)
  | inr e ↦ elim (Option-cases (find_local ys x)) [
    | inl n ↦ ground (arith, e, n, h)
    | inr (j, g) ↦ ground (arith, e, g, h, find_local-get_elem? ys x j g)
  ]
]

-- The slot of a variable is its own, and no other variable moves.
ensure_local_lem :
    (x : Text) (cx : Compiler)
    → (find_local (ensure_local x cx).1.locals x ≡ some (ensure_local x cx).0)
      × ((y : Text) (j : ℕ)
          → y ≢ x
          → find_local cx.locals y ≡ some j
          → (find_local (ensure_local x cx).1.locals y ≡ some j) × (j ≢ (ensure_local x cx).0))
unfolding ensure_local
ensure_local_lem x cx = elim (Option-cases (find_local cx.locals x)) [
  | inr (i, e) ↦
      rw (ensure_local, e)
        (
          e,
          λ y j n g. (
            g,
            λ (same : j ≡ i).
                let a = find_local-get_elem? cx.locals x i e in
                let b = find_local-get_elem? cx.locals y j g in
                let c : some y ≡ some x = sym b ∙ ap (get_elem? cx.locals) same ∙ a in n cc,
          ),
        )
  | inl e ↦
      rw (ensure_local, e)
        (
          find_local_self cx.locals x e,
          λ y j n g.
              let r = find_local_other cx.locals x y j g in
              (r.0, λ (same : j ≡ length cx.locals). omega (arith, r.1)),
        )
]

pub Agrees-insert :
    (x : Text) (v : Value) (cx : Compiler) (vars : Locals) (vs : List Value)
    → Agrees cx.locals vars vs
    → Agrees
        (ensure_local x cx).1.locals
        (Assoc.insert vars x v)
        (store_at vs (ensure_local x cx).0 v)
Agrees-insert x v cx vars vs a y w h =
    let l = sym (Assoc.lookup-insert vars x y v) ∙ h in
    let (self, others) = ensure_local_lem x cx in
    elim (Bool-cases (text_eq x y)) [
      | inl e ↦
          let same : x ≡ y = (text_eq_iff x y).0 e in
          let value : v ≡ w = (let c : some v ≡ some w = (rw e at l) in cc) in
          (
            (ensure_local x cx).0,
            ap (find_local (ensure_local x cx).1.locals) (sym same) ∙ self,
            (store_at_lem vs (ensure_local x cx).0 0 v).0 ∙ ap some value,
          )
      | inr e ↦
          let (j, g, k) = a y w (rw e at l) in
          let n : y ≢ x =
            λ (q : y ≡ x). (let t : text_eq x y ≡ true = (text_eq_iff x y).1 (sym q) in cc) in
          let (g', m) = others y j n g in
          (j, g', (store_at_lem vs (ensure_local x cx).0 j v).1 w m k)
    ]
