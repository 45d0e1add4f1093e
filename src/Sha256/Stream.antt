-- ===== src/Sha256/Stream.antt =====
-- The buffered hasher of src/sha256.rs against a machine that takes one byte at a time: it holds the
-- chaining state and the bytes of the unfinished block, and compresses whenever it holds 64.
use mathlib.Core.List.{append-nil, append_assoc}
use Prim.Native.Nat.{min}
use tracescript.Prelude.{
  ℕ, zero, suc, ◌+◌, ◌-◌, ◌*◌, ◌%◌, ◌^◌, ◌<◌, ◌≤◌, ◌≡◌, ◌≢◌, refl, sym, ap, ◌∙◌, ◌⊎◌, inl, inr,
  List, [], ◌∷◌, ◌++◌, arith, length, take, drop, ltb, leb, ◌==◌, if◌then◌else◌, length-append,
  take-append-drop, length-take, length-drop, Bool-cases, take-append_left, take_all, drop_all,
  leb→le, ==_iff,
}
use tracescript.Sha256.Compress.{Words, process_block}
use tracescript.Sha256.{Sha256, copy_at, blocks, fill, keep, absorb, update}

-- the chaining state and the bytes held
abbrev pub View : Type 0
View = Words × List ℕ

unfoldable pub feed : View → ℕ → View
feed v b =
    if length (v.1 ++ b ∷ []) == 64
    then (process_block v.0 (v.1 ++ b ∷ []), [])
    else (v.0, v.1 ++ b ∷ [])

unfoldable pub feed_all : View → List ℕ → View
feed_all v [] = v
feed_all v (b ∷ bs) = feed_all (feed v b) bs

pub feed_all-append :
    (v : View) (xs ys : List ℕ) → feed_all v (xs ++ ys) ≡ feed_all (feed_all v xs) ys
unfolding feed_all
feed_all-append v [] ys = refl
feed_all-append v (b ∷ xs) ys = feed_all-append (feed v b) xs ys

pub feed_all_short :
    (h : Words) (p xs : List ℕ) → length p + length xs < 64 → feed_all (h, p) xs ≡ (h, p ++ xs)
unfolding feed_all feed
feed_all_short h p [] l = rw append-nil
feed_all_short h p (b ∷ xs) l =
    let n = length-append p (b ∷ []) in
    let held : feed (h, p) b ≡ (h, p ++ b ∷ []) = ground (arith, n) in
    rw held (feed_all_short h (p ++ b ∷ []) xs (omega (arith, n)) ∙ rw append_assoc)

pub feed_all_full :
    (h : Words) (p xs : List ℕ)
    → length p < 64
    → length p + length xs ≡ 64
    → feed_all (h, p) xs ≡ (process_block h (p ++ xs), [])
unfolding feed_all feed
feed_all_full h p [] k l = absurd (omega arith)
feed_all_full h p (b ∷ []) k l = let n = length-append p (b ∷ []) in ground (arith, n)
feed_all_full h p (b ∷ c ∷ xs) k l =
    let n = length-append p (b ∷ []) in
    let held : feed (h, p) b ≡ (h, p ++ b ∷ []) = ground (arith, n) in
    rw held (
      feed_all_full h (p ++ b ∷ []) (c ∷ xs) (omega (arith, n)) (omega (arith, n))
      ∙ rw append_assoc)

-- With as much fuel as data, the loop over whole blocks compresses them all.
blocks_lem :
    (f : ℕ) (h : Words) (xs : List ℕ)
    → length xs ≤ f
    → (feed_all (h, []) xs ≡ blocks f h xs) × (length (blocks f h xs).1 < 64)
unfolding blocks
blocks_lem zero h [] l = (unfold feed_all in refl, omega arith)
blocks_lem zero h (x ∷ xs) l = absurd (omega arith)
blocks_lem (suc f) h xs l = elim (Bool-cases (leb 64 (length xs))) [
  | inl e ↦
      let big = leb→le 64 (length xs) e in
      let t = length-take 64 xs in
      let r =
        blocks_lem f (process_block h (take 64 xs)) (drop 64 xs)
          (omega (arith, length-drop 64 xs)) in
      rw e (
        ap (feed_all (h, [])) (sym (take-append-drop 64 xs))
            ∙ feed_all-append (h, []) (take 64 xs) (drop 64 xs)
            ∙ rw (feed_all_full h [] (take 64 xs) (omega arith) (omega (arith, t))) r.0,
        r.1,
      )
  | inr e ↦ rw e (feed_all_short h [] xs (ground (arith, e)), ground (arith, e))
]

pub length-copy_at :
    (i : ℕ) (src buf : List ℕ)
    → i + length src ≤ length buf
    → length (copy_at i src buf) ≡ length buf
unfolding copy_at
length-copy_at i src buf h = omega (
  arith,
  length-append (take i buf) (src ++ drop (i + length src) buf),
  length-append src (drop (i + length src) buf),
  length-take i buf,
  length-drop (i + length src) buf,
)

pub take-copy_at :
    (k i : ℕ) (src buf : List ℕ)
    → i ≤ length buf
    → k ≡ i + length src
    → take k (copy_at i src buf) ≡ take i buf ++ src
unfolding copy_at
take-copy_at k i src buf h e =
    ap (take k) (sym (append_assoc (take i buf) src (drop (i + length src) buf)))
    ∙ take-append_left k (take i buf ++ src) _
        (omega (arith, length-append (take i buf) src, length-take i buf))

feed_all_split :
    (v : View) (n : ℕ) (xs : List ℕ) → feed_all v xs ≡ feed_all (feed_all v (take n xs)) (drop n xs)
feed_all_split v n xs =
    ap (feed_all v) (sym (take-append-drop n xs)) ∙ feed_all-append v (take n xs) (drop n xs)

-- The buffer is 64 bytes, and the block in it is unfinished.
pub record IsValid (s : Sha256) : Type 0 where
  pub size : length s.buffer ≡ 64
  pub room : s.buffer_len < 64

abbrev pub view : Sha256 → View
view s = (s.state, take s.buffer_len s.buffer)

-- Nothing is held, or nothing is left to take.
abbrev Settled : Sha256 × List ℕ → Type 0
Settled r = (r.0.buffer_len ≡ 0) ⊎ (r.1 ≡ [])

FillOk : Sha256 → List ℕ → Sha256 × List ℕ → Type 0
FillOk s xs r = (feed_all (view s) xs ≡ feed_all (view r.0) r.1) × IsValid r.0 × Settled r

-- the two ways to put `n` bytes behind those held
fill_complete :
    (s : Sha256) (n : ℕ) (xs : List ℕ)
    → IsValid s
    → n ≤ length xs
    → s.buffer_len + n ≡ 64
    → (buf : List ℕ) → buf ≡ copy_at s.buffer_len (take n xs) s.buffer
    → FillOk s xs
        (record s { state = process_block s.state buf; buffer = buf; buffer_len = 0 }, drop n xs)
unfolding FillOk
fill_complete s n xs v l full buf e =
    let t = length-take n xs in
    let held = length-take s.buffer_len s.buffer in
    let size : length buf ≡ 64 =
      ap length e
      ∙ length-copy_at s.buffer_len (take n xs) s.buffer (omega (arith, t, v.size, v.room))
      ∙ v.size in
    let whole : buf ≡ take s.buffer_len s.buffer ++ take n xs =
      sym (take_all 64 buf (omega arith))
      ∙ ap (take 64) e
      ∙ take-copy_at 64 s.buffer_len (take n xs) s.buffer (omega (arith, v.size, v.room))
          (omega (arith, t)) in
    (
      feed_all_split (view s) n xs
          ∙ rw (
            feed_all_full s.state (take s.buffer_len s.buffer) (take n xs)
                (omega (arith, held, v.size, v.room)) (omega (arith, held, t, v.size, v.room)),
            ← whole,
          ),
      record { size = size; room = omega arith },
      inl refl,
    )

fill_partial :
    (s : Sha256) (n : ℕ) (xs : List ℕ)
    → IsValid s
    → n ≡ length xs
    → s.buffer_len + n < 64
    → FillOk s xs (
      record s {
        buffer = copy_at s.buffer_len (take n xs) s.buffer;
        buffer_len = s.buffer_len + n;
      },
      drop n xs,
    )
unfolding FillOk
fill_partial s n xs v l less =
    let t = length-take n xs in
    let held = length-take s.buffer_len s.buffer in
    let content : take (s.buffer_len + n) (copy_at s.buffer_len (take n xs) s.buffer)
        ≡ take s.buffer_len s.buffer ++ take n xs =
      take-copy_at (s.buffer_len + n) s.buffer_len (take n xs) s.buffer
        (omega (arith, v.size, v.room)) (omega (arith, t)) in
    (
      feed_all_split (view s) n xs
          ∙ ap (λ w. feed_all w (drop n xs))
              (feed_all_short s.state (take s.buffer_len s.buffer) (take n xs)
                  (omega (arith, held, t, v.size, v.room))
                ∙ rw content),
      record {
        size =
            length-copy_at s.buffer_len (take n xs) s.buffer (omega (arith, t, v.size, v.room))
            ∙ v.size;
        room = less;
      },
      inr (drop_all n xs (omega arith)),
    )

fill-view : (s : Sha256) (xs : List ℕ) → IsValid s → FillOk s xs (fill s xs)
unfolding fill
fill-view s xs v =
    let n = min (64 - s.buffer_len) (length xs) in
    elim (Bool-cases (ltb 0 s.buffer_len)) [
      | inr e ↦ rw e (unfold FillOk in (refl, v, inl (ground (arith, e))))
      | inl e ↦ elim (Bool-cases (s.buffer_len + n == 64)) [
        | inl f ↦
            rw (e, f)
              (fill_complete s n xs v (omega arith) ((==_iff _ _).0 f)
                (copy_at s.buffer_len (take n xs) s.buffer) refl)
        | inr f ↦
            let ne : s.buffer_len + n ≢ 64 = ground (arith, f) in
            rw (e, f) (fill_partial s n xs v (omega (arith, v.room)) (omega (arith, v.room)))
      ]
    ]

keep-view :
    (s : Sha256) (xs : List ℕ)
    → IsValid s
    → length xs < 64
    → (s.buffer_len ≡ 0) ⊎ (xs ≡ [])
    → (feed_all (view s) xs ≡ view (keep s xs)) × IsValid (keep s xs)
unfolding keep
keep-view s [] v l h = (unfold feed_all in refl, v)
keep-view s (x ∷ xs) v l (inr e) = cc
keep-view s (x ∷ xs) v l (inl e) = (
  ap (λ k. feed_all (s.state, take k s.buffer) (x ∷ xs)) e
      ∙ feed_all_short s.state [] (x ∷ xs) (omega arith)
      ∙ ap (λ (b : List ℕ). (s.state, b))
          (sym (take-copy_at (length (x ∷ xs)) 0 (x ∷ xs) s.buffer (omega arith) (omega arith))),
  record { size = length-copy_at 0 (x ∷ xs) s.buffer (omega (arith, v.size)) ∙ v.size; room = l },
)

absorb-view :
    (s : Sha256) (xs : List ℕ)
    → IsValid s
    → Settled (s, xs)
    → (feed_all (view s) xs ≡ view (absorb s xs)) × IsValid (absorb s xs)
unfolding absorb
absorb-view s xs v (inl e) =
    let (fed, l) = blocks_lem (length xs) s.state xs (omega arith) in
    let (st, rest) = blocks (length xs) s.state xs in
    let s' : Sha256 = record s { state = st } in
    let (kept, ok) = keep-view s' rest (record { size = v.size; room = v.room }) l (inl e) in
    (
      ap (λ k. feed_all (s.state, take k s.buffer) xs) e
          ∙ fed
          ∙ sym (feed_all_short st [] rest (omega (arith, l)))
          ∙ ap (λ k. feed_all (st, take k s.buffer) rest) (sym e)
          ∙ kept,
      ok,
    )
absorb-view s xs v (inr e) = rw e (unfold feed_all blocks keep in (refl, v))

fill-bit_count : (s : Sha256) (xs : List ℕ) → (fill s xs).0.bit_count ≡ s.bit_count
unfolding fill
fill-bit_count s xs = ground arith

absorb-bit_count : (s : Sha256) (xs : List ℕ) → (absorb s xs).bit_count ≡ s.bit_count
unfolding absorb
absorb-bit_count s xs = keeps s (blocks (length xs) s.state xs).0 (blocks (length xs) s.state xs).1
  where
    keeps :
        (s : Sha256) (st : Words) (rest : List ℕ)
        → (keep (record s { state = st }) rest).bit_count ≡ s.bit_count
    keeps s st [] = unfold keep in refl
    keeps s st (x ∷ rest) = unfold keep in refl

-- `update` takes the bytes in order, whatever their grouping into blocks: the hasher then holds what
-- the bytewise machine holds, it stays valid, and the counter has grown by eight for each byte,
-- modulo 2 ^ 64.
pub update-view :
    (s : Sha256) (xs : List ℕ)
    → IsValid s
    → (view (update s xs) ≡ feed_all (view s) xs)
      × IsValid (update s xs)
      × ((update s xs).bit_count ≡ (s.bit_count + length xs * 8) % 2 ^ 64)
unfolding update FillOk
update-view s xs v =
    let s' : Sha256 = record s { bit_count = (s.bit_count + length xs * 8 % 2 ^ 64) % 2 ^ 64 } in
    let (fed, valid, settled) = fill-view s' xs (record { size = v.size; room = v.room }) in
    let (absorbed, valid') = absorb-view (fill s' xs).0 (fill s' xs).1 valid settled in
    let n = absorb-bit_count (fill s' xs).0 (fill s' xs).1 ∙ fill-bit_count s' xs in
    (sym (fed ∙ absorbed), valid', n ∙ omega arith)
