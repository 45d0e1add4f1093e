-- ===== src/Runtime/Labels.antt =====
-- The names of DNS messages in src/runtime.rs: the loop of `decode_dns_message`, and an encoder of names.
use mathlib.Core.List.{append_assoc}
use tracescript.Prelude.{
  ℕ, zero, suc, ◌+◌, ◌-◌, ◌/◌, ◌%◌, ◌<◌, ◌≡◌, refl, sym, ap, ◌∙◌, true, false, ◌||◌, ◌&&◌, List, [],
  ◌∷◌, ◌++◌, Option, none, some, Text, length, length-append, get_elem?-append, drop,
  take-append_left, ltb, leb, ◌==◌, arith, All, map,
}
use tracescript.Value.{Platform}
use tracescript.Result.{Result, ok, ◌>>=◌}
use tracescript.Packet.{Bytes, at, slice}
use tracescript.Packet.Total.{Returns, Returns-bind, if-Returns, at-Returns, slice-Returns}
use tracescript.Runtime.Messages.{read_labels}

option-Returns :
    {A B : Type 0} (o : Option A) (m : Result B) (k : A → Result B)
    → Returns m
    → ((a : A) → Returns (k a))
    → Returns (elim o [ none ↦ m | some a ↦ k a ])
option-Returns none m k h g = h
option-Returns (some a) m k h g = g a

pub read_labels-Returns :
    (pf : Platform) (fuel : ℕ) (p : Bytes) (offset : ℕ)
    → length p < offset + fuel
    → 0 < fuel
    → Returns (read_labels pf fuel p offset)
unfolding read_labels
read_labels-Returns pf zero p offset h k = absurd (omega arith)
read_labels-Returns pf (suc fuel) p offset h k =
    if-Returns (leb (length p) offset) _ _ (λ e. tt)
      λ e. Returns-bind (at p offset) _ (at-Returns p offset (ground arith)) λ len g.
        if-Returns (len == 0) _ _ (λ f. tt)
          λ f.
            if-Returns (len / 64 % 4 == 3 || ltb (length p) (offset + 1 + len)) _ _ (λ f2. tt)
              λ f2.
                Returns-bind (slice p (offset + 1) (offset + 1 + len)) _
                  (slice-Returns p (offset + 1) (offset + 1 + len) (omega arith) (ground arith))
                  λ bytes g2. option-Returns (pf.from_utf8 bytes) _ _ tt (λ label.
                    Returns-bind (read_labels pf fuel p (offset + 1 + len)) _
                      (read_labels-Returns pf fuel p (offset + 1 + len) (ground arith)
                        (ground arith))
                      (λ r g3. tt))

add_one : (n m : ℕ) → n + suc m ≡ n + 1 + m
add_one n m = omega arith

-- the name of a message, from the bytes of its labels
unfoldable pub encode_name : List Bytes → Bytes
encode_name [] = 0 ∷ []
encode_name (l ∷ ls) = length l ∷ (l ++ encode_name ls)

-- the bytes of a label that is not taken for a pointer, with its text
abbrev pub IsLabel : Platform → Bytes × Text → Type 0
IsLabel pf (b, t) = (0 < length b) × (length b < 192) × (pf.from_utf8 b ≡ some t)

length-middle : (xs ys : Bytes) (y : ℕ) → length (xs ++ y ∷ ys) ≡ length xs + suc (length ys)
length-middle xs ys y = length-append xs (y ∷ ys)

drop-middle : (xs ys : Bytes) (y n : ℕ) → n ≡ suc (length xs) → drop n (xs ++ y ∷ ys) ≡ ys
drop-middle xs ys y zero e = absurd (omega arith)
drop-middle [] ys y (suc n) e = let z : n ≡ 0 = omega arith in rw z refl
drop-middle (x ∷ xs) ys y (suc n) e = drop-middle xs ys y n (omega arith)

slice-middle :
    (xs ys zs : Bytes) (y : ℕ)
    → slice (xs ++ y ∷ (ys ++ zs)) (length xs + 1) (length xs + 1 + length ys) ≡ ok ys
slice-middle xs ys zs y =
    let inside : (leb (length xs + 1) (length xs + 1 + length ys)
          && leb (length xs + 1 + length ys) (length (xs ++ y ∷ (ys ++ zs))))
        ≡ true =
      rw (length-middle xs (ys ++ zs) y, length-append ys zs) ground arith in
    rw (inside, drop-middle xs (ys ++ zs) y (length xs + 1) (omega arith))
      (ap ok (take-append_left (length xs + 1 + length ys - (length xs + 1)) ys zs (omega arith)))

no_end : (n m : ℕ) → leb (n + suc m) n ≡ false
no_end n m = ground arith

read_end :
    (pf : Platform) (fuel : ℕ) (pre post : Bytes)
    → read_labels pf (suc fuel) (pre ++ 0 ∷ post) (length pre) ≡ ok (some ([], length pre + 1))
unfolding read_labels
read_end pf fuel pre post =
    rw (length-middle pre post 0, get_elem?-append pre post 0, no_end (length pre) (length post))
      refl

read_label :
    (pf : Platform) (fuel : ℕ) (pre b post : Bytes) (t : Text)
    → IsLabel pf (b, t)
    → read_labels pf (suc fuel) (pre ++ length b ∷ (b ++ post)) (length pre) ≡ (
        read_labels pf fuel (pre ++ length b ∷ (b ++ post)) (length pre + 1 + length b) >>= λ r.
        ok (elim r [ none ↦ none | some (ls, o) ↦ some (t ∷ ls, o) ]))
unfolding read_labels
read_label pf fuel pre b post t (h, k, g) =
    let all : length (pre ++ length b ∷ (b ++ post)) ≡ length pre + suc (length b + length post) =
      length-middle pre (b ++ post) (length b)
      ∙ ap (λ n. length pre + suc n) (length-append b post) in
    let inside : leb (length (pre ++ length b ∷ (b ++ post))) (length pre) ≡ false =
      rw all ground arith in
    let some_bytes : (length b == 0) ≡ false = ground arith in
    let fits : (length b / 64 % 4 == 3
          || ltb (length (pre ++ length b ∷ (b ++ post))) (length pre + 1 + length b))
        ≡ false =
      rw all ground arith in
    rw
      (
        inside,
        get_elem?-append pre (b ++ post) (length b),
        some_bytes,
        fits,
        slice-middle pre b post (length b),
        g,
      )
      refl

abbrev pub bytes_of : List (Bytes × Text) → List Bytes
bytes_of = map (λ l. l.0)

abbrev pub texts_of : List (Bytes × Text) → List Text
texts_of = map (λ l. l.1)

-- The loop over the labels of a name reads back the texts of the labels that were written, wherever in
-- a message the name stands and whatever follows it, and stops at the offset behind the name, with
-- more fuel than there are labels, each of 1 to 191 bytes that are valid text.
pub read_labels-encode_name :
    (pf : Platform) (fuel : ℕ) (names : List (Bytes × Text)) (pre post : Bytes)
    → All (IsLabel pf) names
    → length names < fuel
    → read_labels pf fuel (pre ++ (encode_name (bytes_of names) ++ post)) (length pre)
      ≡ ok (some (texts_of names, length pre + length (encode_name (bytes_of names))))
unfolding encode_name
read_labels-encode_name pf zero names pre post h k = absurd (omega arith)
read_labels-encode_name pf (suc fuel) [] pre post h k = read_end pf fuel pre post
read_labels-encode_name pf (suc fuel) ((b, t) ∷ names) pre post (h, hs) k =
    let rest : Bytes = encode_name (bytes_of names) in
    let split : pre ++ length b ∷ (b ++ (rest ++ post)) ≡ (pre ++ length b ∷ b) ++ (rest ++ post) =
      sym (append_assoc pre (length b ∷ b) (rest ++ post)) in
    let at_next : length (pre ++ length b ∷ b) ≡ length pre + 1 + length b =
      length-middle pre b (length b) ∙ add_one (length pre) (length b) in
    let later = read_labels-encode_name pf fuel names (pre ++ length b ∷ b) post hs (omega arith) in
    rw
      (
        append_assoc b rest post,
        read_label pf fuel pre b (rest ++ post) t h,
        split,
        ← at_next,
        later,
        at_next,
      )
      (let total : length pre + 1 + length b + length rest
            ≡ length pre + suc (length b + length rest) =
          omega arith in
        ap (λ n. ok (some (t ∷ texts_of names, n)))
          (total ∙ ap (λ n. length pre + suc n) (sym (length-append b rest))))
