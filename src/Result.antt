-- ===== src/Result.antt =====
-- `Result<T>` of src/error.rs, with the third way in which a call can end: a panic (an index out of
-- range, a remainder by zero), which nothing in the program catches.
use tracescript.Prelude.{◌≡◌, refl, Bool, true, false, Option, none, some, if◌then◌else◌}
use tracescript.Value.{Message, TraceError, runtime}

pub data Result {ℓ} (A : Type ℓ) : Type ℓ where
  ok : A → Result A
  err : TraceError → Result A
  panic : Result A

-- `?`: an error or a panic ends the block.
module _ {ℓ κ} {A : Type ℓ} {B : Type κ} where
  infixl 5 ◌>>=◌
  abbrev pub ◌>>=◌ : Result A → (A → Result B) → Result B
  panic >>= f = panic
  err e >>= f = err e
  ok a >>= f = f a

module _ {ℓ} {B : Type ℓ} where
  infixl 5 ◌>>◌
  abbrev pub ◌>>◌ : Result (Unit {0}) → Result B → Result B
  r >> later = r >>= λ u. later

-- `TraceError::Runtime { msg, pos: None }`
abbrev pub fail {ℓ} : {A : Type ℓ} → Message → Result A
fail m = err (runtime m none)

-- `o.ok_or_else(..)?`
abbrev pub ok_or {ℓ} : {A : Type ℓ} → Option A → Message → Result A
ok_or (some a) m = ok a
ok_or none m = fail m

-- `v[i]` on what `get` finds
abbrev pub or_panic {ℓ} : {A : Type ℓ} → Option A → Result A
or_panic (some a) = ok a
or_panic none = panic

-- `P` holds of the value, if there is one.
abbrev pub Ensures {ℓ κ} : {A : Type ℓ} → (A → Type κ) → Result A → Type κ
Ensures P (ok a) = P a
Ensures P (err e) = Unit
Ensures P panic = Unit

pub Ensures-bind {ℓ κ μ} :
    {A : Type ℓ} {B : Type κ} (P : A → Type μ) (Q : B → Type μ) (m : Result A) (f : A → Result B)
    → Ensures P m
    → ((a : A) → P a → Ensures Q (f a))
    → Ensures Q (m >>= f)
Ensures-bind P Q (ok a) f h k = k a h
Ensures-bind P Q (err e) f h k = tt
Ensures-bind P Q panic f h k = tt

pub Ensures-ok_or {ℓ κ} :
    {A : Type ℓ} (P : A → Type κ) (o : Option A) (m : Message)
    → ((a : A) → o ≡ some a → P a)
    → Ensures P (ok_or o m)
Ensures-ok_or P none m h = tt
Ensures-ok_or P (some a) m h = h a refl

-- The call does not panic: it ends with a value of `P` or an error of `E`.
abbrev Ends {ℓ} : {A : Type ℓ} → (TraceError → Type 0) → (A → Type 0) → Result A → Type 0
Ends E P (ok a) = P a
Ends E P (err e) = E e
Ends E P panic = ⊥

pub record Settles {ℓ} {A : Type ℓ} (E : TraceError → Type 0) (P : A → Type 0) (m : Result A)
    : Type 0 where
  pub ends : Ends E P m

module _ {ℓ} {A : Type ℓ} {E : TraceError → Type 0} {P : A → Type 0} where
  pub bind-Settles {κ} :
      {B : Type κ} {Q : B → Type 0} (m : Result A) (f : A → Result B)
      → Settles E P m
      → ((a : A) → P a → Settles E Q (f a))
      → Settles E Q (m >>= f)
  bind-Settles (ok a) f h k = k a h.ends
  bind-Settles (err e) f h k = record { ends = h.ends }
  bind-Settles panic f h k = absurd h.ends

  pub weaken-Settles :
      {Q : A → Type 0} (m : Result A) → Settles E P m → ((a : A) → P a → Q a) → Settles E Q m
  weaken-Settles (ok a) h k = record { ends = k a h.ends }
  weaken-Settles (err e) h k = record { ends = h.ends }
  weaken-Settles panic h k = absurd h.ends

  -- splitting on a computed option or test
  pub Option-Settles {κ} :
      {B : Type κ} (o : Option B) (m : Result A) (f : B → Result A)
      → (o ≡ none → Settles E P m)
      → ((b : B) → o ≡ some b → Settles E P (f b))
      → Settles E P (elim o [ none ↦ m | some b ↦ f b ])
  Option-Settles none m f h k = h refl
  Option-Settles (some b) m f h k = k b refl

  pub Bool-Settles :
      (b : Bool) (m n : Result A)
      → (b ≡ true → Settles E P m)
      → (b ≡ false → Settles E P n)
      → Settles E P (elim b [ true ↦ m | false ↦ n ])
  Bool-Settles true m n h k = h refl
  Bool-Settles false m n h k = k refl

  pub if-Settles :
      (b : Bool) (m n : Result A)
      → (b ≡ true → Settles E P m)
      → (b ≡ false → Settles E P n)
      → Settles E P (if b then m else n)
  if-Settles true m n h k = h refl
  if-Settles false m n h k = k refl
