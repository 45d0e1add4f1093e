-- ===== src/Runtime/Questions.antt =====
-- A whole DNS message in `decode_dns_message` of src/runtime.rs.
use mathlib.Core.Path.{subst}
use mathlib.Core.List.{append_assoc}
use tracescript.Prelude.{
  ℕ, suc, ◌+◌, ◌*◌, ◌/◌, ◌%◌, ◌^◌, ◌≤◌, ◌<◌, ◌≡◌, refl, ap, ◌∙◌, false, List, [], ◌∷◌, ◌++◌, some,
  Text, length, length-append, get_elem?, get_elem?-append, ltb, ◌==◌, arith, All,
}
use tracescript.Value.{Platform}
use tracescript.Result.{ok}
use tracescript.Packet.{Bytes, be16}
use tracescript.Runtime.Messages.{Flow, read_labels, decode_dns_message, dns_question, dns_event}
use tracescript.Runtime.Labels.{encode_name, bytes_of, texts_of, IsLabel, read_labels-encode_name}

be16-append : (xs ys : Bytes) (a b : ℕ) → be16 (xs ++ a ∷ b ∷ ys) (length xs) ≡ ok (a * 256 + b)
be16-append xs ys a b =
    let second : get_elem? (xs ++ a ∷ b ∷ ys) (length xs + 1) ≡ some b =
      rw (← append_assoc xs (a ∷ []) (b ∷ ys), ← length-append xs (a ∷ []))
        (get_elem?-append (xs ++ a ∷ []) ys b) in
    rw (get_elem?-append xs (b ∷ ys) a, second) refl

-- the six numbers of a header, of two bytes each, of which the second has the flags and the third
-- the number of questions; a name; the type of the question; and what follows
abbrev pub message : ℕ × ℕ → ℕ × ℕ → ℕ × ℕ → Bytes → List (Bytes × Text) → ℕ × ℕ → Bytes → Bytes
message (i, i') (f, f') (q, q') counts names (t, t') rest =
    i ∷ i' ∷ f ∷ f' ∷ q ∷ q' ∷ (counts ++ (encode_name (bytes_of names) ++ t ∷ t' ∷ rest))

length-encode_name :
    (names : List (Bytes × Text)) → length names < length (encode_name (bytes_of names))
unfolding encode_name
length-encode_name [] = omega arith
length-encode_name ((b, t) ∷ names) =
    let h = length-encode_name names in
    rw (length-append b (encode_name (bytes_of names))) omega arith

-- A DNS message that asks for at least one question, whose first name has one label or more, each of 1
-- to 191 bytes that are valid text, decodes to the event of that name's texts, of the type that
-- follows the name and of the flag for a response, where at least two bytes follow the type.
pub decode_dns_message-message :
    (pf : Platform) (w : Flow) (i f q : ℕ × ℕ) (counts : Bytes) (b : Bytes) (t : Text)
    (names : List (Bytes × Text)) (qtype : ℕ × ℕ) (rest : Bytes)
    → length counts ≡ 6
    → 0 < q.0 * 256 + q.1
    → All (IsLabel pf) ((b, t) ∷ names)
    → 2 ≤ length rest
    → decode_dns_message pf w (message i f q counts ((b, t) ∷ names) qtype rest)
      ≡ ok (
          some (
            dns_event w
              ((f.0 * 256 + f.1) / 2 ^ 15 % 2 == 1)
              (qtype.0 * 256 + qtype.1)
              (t ∷ texts_of names)))
unfolding decode_dns_message dns_question
decode_dns_message-message pf w (i, i') (f, f') (q, q') counts b t names (x, x') rest c z l r =
    let head : Bytes = i ∷ i' ∷ f ∷ f' ∷ q ∷ q' ∷ counts in
    let name : Bytes = encode_name (bytes_of ((b, t) ∷ names)) in
    let p : Bytes = head ++ (name ++ x ∷ x' ∷ rest) in
    let twelve : length head ≡ 12 = omega arith in
    let len : length p ≡ length head + (length name + suc (suc (length rest))) =
      length-append head (name ++ x ∷ x' ∷ rest)
      ∙ ap (λ n. length head + n) (length-append name (x ∷ x' ∷ rest)) in
    let long : ltb (length p) 12 ≡ false = rw (len, twelve) ground arith in
    let asks : (q * 256 + q' == 0) ≡ false = ground arith in
    let room : length ((b, t) ∷ names) < length p =
      let u = length-encode_name ((b, t) ∷ names) in rw len omega arith in
    let labels : read_labels pf (length p) p 12 ≡ ok (some (t ∷ texts_of names, 12 + length name)) =
      subst (λ n. read_labels pf (length p) p n ≡ ok (some (t ∷ texts_of names, n + length name)))
        twelve
        (read_labels-encode_name pf (length p) ((b, t) ∷ names) head (x ∷ x' ∷ rest) l room) in
    let fits : ltb (length p) (12 + length name + 4) ≡ false = rw (len, twelve) ground arith in
    let kind : be16 p (12 + length name) ≡ ok (x * 256 + x') =
      subst (λ n. be16 p n ≡ ok (x * 256 + x'))
        (length-append head name ∙ ap (λ n. n + length name) twelve)
        (subst (λ z. be16 z (length (head ++ name)) ≡ ok (x * 256 + x'))
          (append_assoc head name (x ∷ x' ∷ rest)) (be16-append (head ++ name) rest x x')) in
    rw (decode_dns_message, long, asks, labels, dns_question, fits, kind) refl
