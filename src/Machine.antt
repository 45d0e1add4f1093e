-- ===== src/Machine.antt =====
-- The runs of the two engines: a step takes a state to a value and a new state, or stops by an error
-- or a panic in the state reached. An engine that calls user functions has fuel, and can stop for
-- lack of it.
use tracescript.Prelude.{◌≡◌, refl}
use tracescript.Value.{TraceError}
use tracescript.Result.{Result, ok, err, panic}

pub data Stop : Type 0 where
  raised : TraceError → Stop
  panicked : Stop
  out_of_fuel : Stop

pub data Ran (S A : Type 0) : Type 0 where
  done : A → S → Ran S A
  stop : Stop → S → Ran S A

abbrev pub Run : Type 0 → Type 0 → Type 0
Run S A = S → Ran S A

abbrev pub pure : {S A : Type 0} → A → Run S A
pure a = done a

module _ {S A B : Type 0} where
  abbrev pub and_then : Ran S A → (A → Run S B) → Ran S B
  and_then (done a s) k = k a s
  and_then (stop e s) k = stop e s

  infixl 5 ◌>>=◌ ◌>>◌
  abbrev pub ◌>>=◌ : Run S A → (A → Run S B) → Run S B
  m >>= k = λ s. and_then (m s) k

  abbrev pub ◌>>◌ : Run S A → Run S B → Run S B
  m >> n = m >>= λ _. n

module _ {S : Type 0} where
  abbrev pub get_state : Run S S
  get_state s = done s s

  abbrev pub put_state : S → Run S (Unit {0})
  put_state s' s = done tt s'

module _ {S A : Type 0} where
  abbrev pub throw : Stop → Run S A
  throw e = stop e

  -- `?` on a `Result`
  abbrev pub lift : Result A → Run S A
  lift (ok a) = done a
  lift (err e) = stop (raised e)
  lift panic = stop panicked

-- What a step that ended well was made of.
pub and_then-done :
    {S A B : Type 0} (r : Ran S A) (k : A → Run S B) {b : B} {s' : S}
    → and_then r k ≡ done b s'
    → (a : A) × (s : S) × (r ≡ done a s) × (k a s ≡ done b s')
and_then-done (done a s) k h = (a, s, refl, h)
and_then-done (stop e s) k h = cc

pub lift-done :
    {S A : Type 0} (r : Result A) (s : S) {a : A} {s' : S}
    → lift r s ≡ done a s'
    → (r ≡ ok a) × (s' ≡ s)
lift-done (ok a) s h = (cc, cc)
lift-done (err e) s h = cc
lift-done panic s h = cc
