-- ===== src/Sha256/Padding.antt =====
-- `finalize` of src/sha256.rs against the padding of FIPS 180-4, and the digest of a message.
use mathlib.Core.List.{append_assoc}
use tracescript.Prelude.{
  ℕ, zero, suc, ◌+◌, ◌-◌, ◌*◌, ◌%◌, ◌^◌, ◌<◌, ◌≤◌, ◌≡◌, refl, sym, ap, ◌∙◌, true, false, List, [],
  ◌∷◌, ◌++◌, arith, length, take, set, replicate, ltb, length-append, length-set, length-take,
  length-replicate, Bool-cases, take_all, inl, inr, ltb→lt,
}
use tracescript.Sha256.Compress.{process_block}
use tracescript.Sha256.Stream.{
  View, feed, feed_all, feed_all-append, feed_all_full, length-copy_at, take-copy_at, IsValid, view,
  update-view,
}
use tracescript.Sha256.{
  Sha256, copy_at, be_bytes64, last_state, finalize, update, new, hash, word_bytes, h0,
}

abbrev zeros : ℕ → List ℕ
zeros n = replicate n 0

-- The end mark, the least number of zeros that leaves room for eight bytes, and the length in bits.
pub padding : ℕ → ℕ → List ℕ
padding n bits = 0x80 ∷ (zeros ((119 - n % 64) % 64) ++ be_bytes64 bits)

take-set :
    (n : ℕ) (x : ℕ) (xs : List ℕ) → n < length xs → take (n + 1) (set xs n x) ≡ take n xs ++ x ∷ []
take-set n x [] h = absurd (omega arith)
take-set zero x (y ∷ xs) h = refl
take-set (suc n) x (y ∷ xs) h =
    let e : suc n + 1 ≡ suc (n + 1) = omega arith in
    ap (λ k. take k (y ∷ set xs n x)) e ∙ ap (◌∷◌ y) (take-set n x xs (omega arith))

padding_mod : (m n bits : ℕ) → m % 64 ≡ n % 64 → padding m bits ≡ padding n bits
unfolding padding
padding_mod m n bits h = rw h

-- A write up to the end of the block.
fill_block :
    (i : ℕ) (src buf : List ℕ)
    → length buf ≡ 64
    → i + length src ≡ 64
    → copy_at i src buf ≡ take i buf ++ src
fill_block i src buf l e =
    sym (take_all 64 _ (omega (arith, length-copy_at i src buf (omega arith))))
    ∙ take-copy_at 64 i src buf (omega arith) (omega arith)

replicate-add : (m n k : ℕ) → k ≡ m + n → zeros k ≡ zeros m ++ zeros n
replicate-add zero n k h = let e : k ≡ n = omega arith in ap zeros e
replicate-add (suc m) n zero h = absurd (omega arith)
replicate-add (suc m) n (suc k) h = ap (◌∷◌ 0) (replicate-add m n k (omega arith))

length-be_bytes64 : (n : ℕ) → length (be_bytes64 n) ≡ 8
unfolding be_bytes64
length-be_bytes64 n = refl

-- The block that `finalize` compresses last, over a buffer whose first `n` bytes count.
last_block :
    (n bits : ℕ) (buf : List ℕ)
    → length buf ≡ 64
    → n ≤ 56
    → copy_at 56 (be_bytes64 bits) (copy_at n (zeros (56 - n)) buf)
      ≡ take n buf ++ (zeros (56 - n) ++ be_bytes64 bits)
last_block n bits buf l h =
    let z : length (zeros (56 - n)) ≡ 56 - n = length-replicate (56 - n) 0 in
    fill_block 56 (be_bytes64 bits) _ (length-copy_at n (zeros (56 - n)) buf (omega arith) ∙ l)
      (omega (arith, length-be_bytes64 bits))
    ∙ ap (λ (w : List ℕ). w ++ be_bytes64 bits)
        (take-copy_at 56 n (zeros (56 - n)) buf (omega arith) (omega arith))
    ∙ append_assoc (take n buf) (zeros (56 - n)) (be_bytes64 bits)

module _ (s : Sha256) (v : IsValid s) where
  abbrev held : List ℕ
  held = take s.buffer_len s.buffer

  abbrev marked : List ℕ
  marked = set s.buffer s.buffer_len 0x80

  length-marked : length marked ≡ 64
  length-marked = length-set s.buffer s.buffer_len 0x80 ∙ v.size

  take-marked : take (s.buffer_len + 1) marked ≡ held ++ 0x80 ∷ []
  take-marked = take-set s.buffer_len 0x80 s.buffer (omega (arith, v.size, v.room))

  length-held : length held ≡ s.buffer_len
  length-held = length-take s.buffer_len s.buffer ∙ omega (arith, v.size, v.room)

  -- The length fits behind the mark.
  one_block :
      s.buffer_len < 56
      → last_state s
        ≡ process_block s.state
            (held ++ (0x80 ∷ (zeros (55 - s.buffer_len) ++ be_bytes64 s.bit_count)))
  unfolding last_state
  one_block h =
      let small : ltb 56 (s.buffer_len + 1) ≡ false = ground arith in
      let n : 56 - (s.buffer_len + 1) ≡ 55 - s.buffer_len = omega arith in
      rw small (
        ap (process_block s.state) (
          last_block (s.buffer_len + 1) s.bit_count marked length-marked (omega arith)
          ∙ rw (take-marked, n) (append_assoc held (0x80 ∷ []) _)))

  -- It does not: the rest of this block is zero, and the length ends a block of its own.
  two_blocks :
      56 ≤ s.buffer_len
      → last_state s
        ≡ process_block
            (process_block s.state (held ++ (0x80 ∷ zeros (63 - s.buffer_len))))
            (zeros 56 ++ be_bytes64 s.bit_count)
  unfolding last_state
  two_blocks h =
      let big : ltb 56 (s.buffer_len + 1) ≡ true = ground (arith, v.room) in
      let n : 64 - (s.buffer_len + 1) ≡ 63 - s.buffer_len = omega arith in
      let z : length (zeros (63 - s.buffer_len)) ≡ 63 - s.buffer_len = length-replicate _ 0 in
      let spilled : copy_at (s.buffer_len + 1) (zeros (63 - s.buffer_len)) marked
          ≡ held ++ (0x80 ∷ zeros (63 - s.buffer_len)) =
        fill_block (s.buffer_len + 1) (zeros (63 - s.buffer_len)) marked length-marked
          (omega (arith, v.room))
        ∙ rw take-marked (append_assoc held (0x80 ∷ []) _) in
      let size =
        length-copy_at (s.buffer_len + 1) (zeros (63 - s.buffer_len)) marked
          (omega (arith, length-marked, v.room))
        ∙ length-marked in
      rw (big, n)
        (ap (process_block _) (last_block 0 s.bit_count _ size (omega arith))
          ∙ ap
              (λ (w : List ℕ).
                process_block (process_block s.state w) (zeros 56 ++ be_bytes64 s.bit_count))
              spilled)

  -- `finalize` ends in the state that the bytewise machine reaches over the padding.
  pub last_state_lem : feed_all (view s) (padding s.buffer_len s.bit_count) ≡ (last_state s, [])
  unfolding padding
  last_state_lem = elim (Bool-cases (ltb s.buffer_len 56)) [
    | inl e ↦
        let h : s.buffer_len < 56 = ltb→lt _ _ e in
        let k : (119 - s.buffer_len % 64) % 64 ≡ 55 - s.buffer_len = omega arith in
        let z : length (zeros (55 - s.buffer_len)) ≡ 55 - s.buffer_len = length-replicate _ 0 in
        rw (k, one_block h)
          (feed_all_full s.state held _ (omega (arith, length-held, v.room)) (
            omega (
              arith,
              length-held,
              length-append (zeros (55 - s.buffer_len)) (be_bytes64 s.bit_count),
              length-be_bytes64 s.bit_count,
            )))
    | inr e ↦
        let h : 56 ≤ s.buffer_len = ground (arith, e) in
        let k : (119 - s.buffer_len % 64) % 64 ≡ (63 - s.buffer_len) + 56 = omega (arith, v.room) in
        let z : length (zeros (63 - s.buffer_len)) ≡ 63 - s.buffer_len = length-replicate _ 0 in
        rw (k, two_blocks h, replicate-add (63 - s.buffer_len) 56 _ refl)
          (ap (feed_all (view s)) (
              ap (◌∷◌ 0x80)
                (append_assoc (zeros (63 - s.buffer_len)) (zeros 56) (be_bytes64 s.bit_count)))
            ∙ feed_all-append (view s) (0x80 ∷ zeros (63 - s.buffer_len))
                (zeros 56 ++ be_bytes64 s.bit_count)
            ∙ rw
                (feed_all_full s.state held (0x80 ∷ zeros (63 - s.buffer_len))
                  (omega (arith, length-held, v.room)) (omega (arith, length-held, z, v.room)))
                (feed_all_full _ [] (zeros 56 ++ be_bytes64 s.bit_count) (omega arith)
                  (omega (arith, length-be_bytes64 s.bit_count))))
  ]

-- The machine always holds as many bytes as it has taken, modulo 64.
feed_all-length :
    (w : View) (xs : List ℕ)
    → length w.1 < 64
    → length (feed_all w xs).1 ≡ (length w.1 + length xs) % 64
unfolding feed_all feed
feed_all-length w [] h = omega arith
feed_all-length w (b ∷ xs) h =
    let n = length-append w.1 (b ∷ []) in
    let fed : length (feed w b).1 ≡ (length w.1 + 1) % 64 = ground (arith, n) in
    feed_all-length (feed w b) xs (omega arith) ∙ omega arith

pub new-IsValid : IsValid new
new-IsValid = record { size = refl; room = omega arith }

-- the output of the bytewise machine over what it holds and its padding
digest_of : View → ℕ → List ℕ
digest_of w bits = word_bytes (feed_all w (padding (length w.1) bits)).0

finalize_lem : (s : Sha256) → IsValid s → finalize s ≡ digest_of (view s) s.bit_count
unfolding finalize digest_of
finalize_lem s v =
    ap (λ (w : View). word_bytes w.0) (sym (last_state_lem s v))
    ∙ ap (λ n. word_bytes (feed_all (view s) (padding n s.bit_count)).0) (sym (length-held s v))

digest_of-feed_all :
    (w : View) (xs : List ℕ) (bits : ℕ)
    → length w.1 ≡ 0
    → digest_of (feed_all w xs) bits ≡ word_bytes (feed_all w (xs ++ padding (length xs) bits)).0
unfolding digest_of
digest_of-feed_all w xs bits h =
    let n = feed_all-length w xs (omega arith) in
    ap (λ p. word_bytes (feed_all (feed_all w xs) p).0)
      (padding_mod (length (feed_all w xs).1) (length xs) bits (omega (arith, n)))
    ∙ ap (λ (w : View). word_bytes w.0) (sym (feed_all-append w xs (padding (length xs) bits)))

-- The digest is the state that the bytewise machine reaches, from the initial state, over the
-- message and its padding (the end mark, the zeros, and the length in bits modulo 2 ^ 64), for a
-- message of any length.
pub hash_lem :
    (xs : List ℕ)
    → hash xs
      ≡ word_bytes (feed_all (h0, []) (xs ++ padding (length xs) (length xs * 8 % 2 ^ 64))).0
unfolding hash
hash_lem xs =
    let (view_is, valid, bits) = update-view new xs new-IsValid in
    let n : (update new xs).bit_count ≡ length xs * 8 % 2 ^ 64 = bits ∙ omega arith in
    finalize_lem (update new xs) valid
    ∙ (λ i. digest_of (view_is i) (n i))
    ∙ digest_of-feed_all (h0, []) xs _ refl

-- Splitting the input over two calls of `update` does not change the digest.
pub finalize-update-update :
    (s : Sha256) (xs ys : List ℕ)
    → IsValid s
    → finalize (update (update s xs) ys) ≡ finalize (update s (xs ++ ys))
finalize-update-update s xs ys v =
    let (h₁, v₁, b₁) = update-view s xs v in
    let (h₂, v₂, b₂) = update-view (update s xs) ys v₁ in
    let (h₃, v₃, b₃) = update-view s (xs ++ ys) v in
    let same_view : view (update (update s xs) ys) ≡ view (update s (xs ++ ys)) =
      h₂ ∙ ap (λ w. feed_all w ys) h₁ ∙ sym (feed_all-append (view s) xs ys) ∙ sym h₃ in
    let same_count : (update (update s xs) ys).bit_count ≡ (update s (xs ++ ys)).bit_count =
      omega (arith, b₁, b₂, b₃, length-append xs ys) in
    finalize_lem (update (update s xs) ys) v₂
    ∙ (λ i. digest_of (same_view i) (same_count i))
    ∙ sym (finalize_lem (update s (xs ++ ys)) v₃)
