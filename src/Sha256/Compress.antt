-- ===== src/Sha256/Compress.antt =====
-- The constants, the message schedule and the 64 rounds of src/sha256.rs.
use Prim.Native.Nat.{bit_and, bit_xor}
use tracescript.Prelude.{
  ℕ, zero, suc, ◌+◌, ◌-◌, ◌*◌, ◌/◌, ◌%◌, ◌^◌, List, [], ◌∷◌, ◌++◌, length, none, some, get_elem?,
}

-- `[u32; 8]`, the chaining state and the eight working variables
pub record Words : Type 0 where
  pub a : ℕ
  pub b : ℕ
  pub c : ℕ
  pub d : ℕ
  pub e : ℕ
  pub f : ℕ
  pub g : ℕ
  pub h : ℕ

abbrev pub h0 : Words
h0 = record {
  a = 0x6a09e667;
  b = 0xbb67ae85;
  c = 0x3c6ef372;
  d = 0xa54ff53a;
  e = 0x510e527f;
  f = 0x9b05688c;
  g = 0x1f83d9ab;
  h = 0x5be0cd19;
}

-- `K`
abbrev round_constants : List ℕ
round_constants =
    0x428a2f98 ∷ 0x71374491 ∷ 0xb5c0fbcf ∷ 0xe9b5dba5 ∷ 0x3956c25b ∷ 0x59f111f1 ∷ 0x923f82a4
    ∷ 0xab1c5ed5 ∷ 0xd807aa98 ∷ 0x12835b01 ∷ 0x243185be ∷ 0x550c7dc3 ∷ 0x72be5d74 ∷ 0x80deb1fe
    ∷ 0x9bdc06a7 ∷ 0xc19bf174 ∷ 0xe49b69c1 ∷ 0xefbe4786 ∷ 0x0fc19dc6 ∷ 0x240ca1cc ∷ 0x2de92c6f
    ∷ 0x4a7484aa ∷ 0x5cb0a9dc ∷ 0x76f988da ∷ 0x983e5152 ∷ 0xa831c66d ∷ 0xb00327c8 ∷ 0xbf597fc7
    ∷ 0xc6e00bf3 ∷ 0xd5a79147 ∷ 0x06ca6351 ∷ 0x14292967 ∷ 0x27b70a85 ∷ 0x2e1b2138 ∷ 0x4d2c6dfc
    ∷ 0x53380d13 ∷ 0x650a7354 ∷ 0x766a0abb ∷ 0x81c2c92e ∷ 0x92722c85 ∷ 0xa2bfe8a1 ∷ 0xa81a664b
    ∷ 0xc24b8b70 ∷ 0xc76c51a3 ∷ 0xd192e819 ∷ 0xd6990624 ∷ 0xf40e3585 ∷ 0x106aa070 ∷ 0x19a4c116
    ∷ 0x1e376c08 ∷ 0x2748774c ∷ 0x34b0bcb5 ∷ 0x391c0cb3 ∷ 0x4ed8aa4a ∷ 0x5b9cca4f ∷ 0x682e6ff3
    ∷ 0x748f82ee ∷ 0x78a5636f ∷ 0x84c87814 ∷ 0x8cc70208 ∷ 0x90befffa ∷ 0xa4506ceb ∷ 0xbef9a3f7
    ∷ 0xc67178f2 ∷ []

abbrev wrapping_add : ℕ → ℕ → ℕ
wrapping_add a b = (a + b) % 2 ^ 32

-- `x.rotate_right(n)` of a `u32`
abbrev rotate_right : ℕ → ℕ → ℕ
rotate_right x n = x / 2 ^ n + x % 2 ^ n * 2 ^ (32 - n)

abbrev shift_right : ℕ → ℕ → ℕ
shift_right x n = x / 2 ^ n

abbrev complement : ℕ → ℕ
complement x = 2 ^ 32 - 1 - x

abbrev xor3 : ℕ → ℕ → ℕ → ℕ
xor3 x y z = bit_xor (bit_xor x y) z

abbrev word_at : List ℕ → ℕ → ℕ
word_at w i = elim (get_elem? w i) [ none ↦ 0 | some x ↦ x ]

-- `u32::from_be_bytes` on each group of four bytes of a block
be_words : List ℕ → List ℕ
be_words (p ∷ q ∷ r ∷ s ∷ rest) = (p * 2 ^ 24 + q * 2 ^ 16 + r * 2 ^ 8 + s) ∷ be_words rest
be_words _ = []

-- one round of `for i in 16..64`, where `i` is the number of words so far
next_word : List ℕ → ℕ
next_word w =
    let i = length w in
    let x = word_at w (i - 15) in
    let y = word_at w (i - 2) in
    let s0 = xor3 (rotate_right x 7) (rotate_right x 18) (shift_right x 3) in
    let s1 = xor3 (rotate_right y 17) (rotate_right y 19) (shift_right y 10) in
    wrapping_add (wrapping_add (wrapping_add (word_at w (i - 16)) s0) (word_at w (i - 7))) s1

expand : ℕ → List ℕ → List ℕ
unfolding next_word
expand zero w = w
expand (suc n) w = expand n (w ++ next_word w ∷ [])

-- the body of `for i in 0..64` at `K[i]` and `w[i]`
round : ℕ → ℕ → Words → Words
round k w v =
    let s1 = xor3 (rotate_right v.e 6) (rotate_right v.e 11) (rotate_right v.e 25) in
    let ch = bit_xor (bit_and v.e v.f) (bit_and (complement v.e) v.g) in
    let t1 = wrapping_add (wrapping_add (wrapping_add (wrapping_add v.h s1) ch) k) w in
    let s0 = xor3 (rotate_right v.a 2) (rotate_right v.a 13) (rotate_right v.a 22) in
    let mj = xor3 (bit_and v.a v.b) (bit_and v.a v.c) (bit_and v.b v.c) in
    let t2 = wrapping_add s0 mj in
    record {
      a = wrapping_add t1 t2;
      b = v.a;
      c = v.b;
      d = v.c;
      e = wrapping_add v.d t1;
      f = v.e;
      g = v.f;
      h = v.g;
    }

rounds : List ℕ → List ℕ → Words → Words
unfolding round
rounds (k ∷ ks) (w ∷ ws) v = rounds ks ws (round k w v)
rounds _ _ v = v

unfoldable pub process_block : Words → List ℕ → Words
unfolding be_words expand rounds
process_block st block =
    let v = rounds round_constants (expand 48 (be_words block)) st in
    record {
      a = wrapping_add st.a v.a;
      b = wrapping_add st.b v.b;
      c = wrapping_add st.c v.c;
      d = wrapping_add st.d v.d;
      e = wrapping_add st.e v.e;
      f = wrapping_add st.f v.f;
      g = wrapping_add st.g v.g;
      h = wrapping_add st.h v.h;
    }

-- `word.to_be_bytes()`
abbrev be_bytes : ℕ → List ℕ → List ℕ
be_bytes x rest = x / 2 ^ 24 % 256 ∷ x / 2 ^ 16 % 256 ∷ x / 2 ^ 8 % 256 ∷ x % 256 ∷ rest

-- the output loop of `finalize`
unfoldable pub word_bytes : Words → List ℕ
word_bytes v = be_bytes v.a (
    be_bytes v.b
      (be_bytes v.c (be_bytes v.d (be_bytes v.e (be_bytes v.f (be_bytes v.g (be_bytes v.h [])))))))
