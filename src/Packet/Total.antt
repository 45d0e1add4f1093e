-- ===== src/Packet/Total.antt =====
-- The decoders of headers in src/runtime.rs on any bytes.
use tracescript.Prelude.{
  ℕ, suc, zero, ◌≡◌, refl, ◌+◌, ◌*◌, ◌/◌, ◌≤◌, ◌<◌, Bool, true, false, [], ◌∷◌, length, ltb, leb,
  if◌then◌else◌, ◌&&◌, ◌||◌, arith,
}
use tracescript.Result.{Result, ok, err, panic, ◌>>=◌}
use tracescript.Packet.{
  Bytes, at, slice, slice_from, be16, be32, decode_tcp, decode_udp, ip_to_string,
}

-- A value is returned: neither an error nor a panic.
abbrev pub Returns {ℓ} : {A : Type ℓ} → Result A → Type 0
Returns (ok a) = Unit
Returns (err e) = ⊥
Returns panic = ⊥

module _ {ℓ κ} {A : Type ℓ} {B : Type κ} where
  pub Returns-bind :
      (m : Result A) (f : A → Result B)
      → Returns m
      → ((a : A) → m ≡ ok a → Returns (f a))
      → Returns (m >>= f)
  Returns-bind (ok a) f h k = k a refl
  Returns-bind (err e) f h k = absurd h
  Returns-bind panic f h k = absurd h

pub Returns-inv {ℓ} : {A : Type ℓ} (m : Result A) → Returns m → (a : A) × (m ≡ ok a)
Returns-inv (ok a) h = (a, refl)
Returns-inv (err e) h = absurd h
Returns-inv panic h = absurd h

pub if-Returns {ℓ} :
    {A : Type ℓ} (b : Bool) (m n : Result A)
    → (b ≡ true → Returns m)
    → (b ≡ false → Returns n)
    → Returns (if b then m else n)
if-Returns true m n h k = h refl
if-Returns false m n h k = k refl

pub at-Returns : (b : Bytes) (i : ℕ) → i < length b → Returns (at b i)
at-Returns [] i h = absurd (omega arith)
at-Returns (x ∷ b) zero h = tt
at-Returns (x ∷ b) (suc i) h = at-Returns b i (omega arith)

pub slice-Returns : (b : Bytes) (i j : ℕ) → i ≤ j → j ≤ length b → Returns (slice b i j)
slice-Returns b i j h k =
    if-Returns (leb i j && leb j (length b)) _ _ (λ e. tt) (λ e. absurd (ground arith))

pub be16-Returns : (b : Bytes) (i : ℕ) → i + 1 < length b → Returns (be16 b i)
be16-Returns b i h =
    Returns-bind (at b i) _ (at-Returns b i (omega arith))
      (λ x e. Returns-bind (at b (i + 1)) _ (at-Returns b (i + 1) h) (λ y f. tt))

be32-Returns : (b : Bytes) (i : ℕ) → i + 3 < length b → Returns (be32 b i)
be32-Returns b i h =
    Returns-bind (be16 b i) _ (be16-Returns b i (omega arith))
      (λ x e. Returns-bind (be16 b (i + 2)) _ (be16-Returns b (i + 2) (omega arith)) (λ y f. tt))

pub decode_tcp-Returns : (p : Bytes) → Returns (decode_tcp p)
unfolding decode_tcp
decode_tcp-Returns p =
    if-Returns (ltb (length p) 20) _ _ (λ e. tt)
      (λ e. Returns-bind (be16 p 0) _ (be16-Returns p 0 (ground arith)) λ src e0.
        Returns-bind (be16 p 2) _ (be16-Returns p 2 (ground arith)) λ dst e1.
          Returns-bind (be32 p 4) _ (be32-Returns p 4 (ground arith)) λ seq e2.
            Returns-bind (be32 p 8) _ (be32-Returns p 8 (ground arith)) λ ack e3.
              Returns-bind (at p 12) _ (at-Returns p 12 (ground arith)) λ off e4.
                if-Returns (ltb (off / 16 * 4) 20 || ltb (length p) (off / 16 * 4)) _ _ (λ f. tt)
                  λ g. Returns-bind (at p 13) _ (at-Returns p 13 (ground arith)) λ flags e5.
                    Returns-bind (slice_from p (off / 16 * 4)) _
                      (slice-Returns p (off / 16 * 4) (length p) (ground arith) (omega arith))
                      λ rest e6. tt)

pub decode_udp-Returns : (p : Bytes) → Returns (decode_udp p)
unfolding decode_udp
decode_udp-Returns p =
    if-Returns (ltb (length p) 8) _ _ (λ e. tt)
      (λ e. Returns-bind (be16 p 0) _ (be16-Returns p 0 (ground arith)) λ src e0.
        Returns-bind (be16 p 2) _ (be16-Returns p 2 (ground arith)) λ dst e1.
          Returns-bind (slice_from p 8) _
            (slice-Returns p 8 (length p) (ground arith) (omega arith)) λ rest e2. tt)

pub ip_to_string-Returns : (b : Bytes) → Returns (ip_to_string b)
unfolding ip_to_string
ip_to_string-Returns b =
    if-Returns (ltb (length b) 4) _ _ (λ e. tt)
      (λ e. Returns-bind (at b 0) _ (at-Returns b 0 (ground arith)) λ x e0.
        Returns-bind (at b 1) _ (at-Returns b 1 (ground arith)) λ y e1.
          Returns-bind (at b 2) _ (at-Returns b 2 (ground arith))
            λ z e2. Returns-bind (at b 3) _ (at-Returns b 3 (ground arith)) λ w e3. tt)
