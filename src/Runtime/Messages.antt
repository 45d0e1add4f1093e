-- ===== src/Runtime/Messages.antt =====
-- `decode_dns_message` and `decode_http_request` of src/runtime.rs.
use tracescript.Prelude.{
  ℕ, zero, suc, ◌+◌, ◌/◌, ◌%◌, ◌^◌, Bool, true, ◌&&◌, ◌||◌, List, [], ◌∷◌, ◌++◌, Option, none, some,
  Text, codes, text_eq, starts_with, length, take, ltb, leb, ◌==◌, if◌then◌else◌, ℤ, pos,
}
use tracescript.Value.{Value, Fields, field, no_fields, Platform}
use tracescript.Result.{Result, ok, panic, ◌>>=◌}
use tracescript.Builtins.{trim_start, trim_text}
use tracescript.Packet.{Bytes, at, slice, be16, qtype_to_string}
use tracescript.Runtime.Dates.{format_ts}

-- the name of an event, and its fields
abbrev pub Event : Type 0
Event = Text × Fields

-- what the decoders of messages take beside the payload
pub record Flow : Type 0 where
  pub src_ip : Text
  pub dst_ip : Text
  pub ts_sec : ℤ
  pub packet_id : ℤ
  pub src_port : Option ℕ
  pub dst_port : Option ℕ

abbrev port_field : Text → Option ℕ → Fields → Fields
port_field k none m = m
port_field k (some p) m = field k (Value.int (pos p)) m

abbrev text_field : Text → Text → Fields → Fields
text_field k s m = field k (Value.str s) m

-- `(len & 0xc0) == 0xc0` of a byte
abbrev is_pointer : ℕ → Bool
is_pointer len = len / 64 % 4 == 3

-- The loop over the labels of a name, from `offset`: the labels, and the offset behind them. Each
-- round moves the offset on; a loop without fuel is counted as a panic.
unfoldable pub read_labels : Platform → ℕ → Bytes → ℕ → Result (Option (List Text × ℕ))
read_labels pf zero p offset = panic
read_labels pf (suc fuel) p offset = if leb (length p) offset then ok none else do
  len ← at p offset
  let rest : Result (Option (List Text × ℕ)) = read_labels pf fuel p (offset + 1 + len)
  if len == 0
      then ok (some ([], offset + 1))
      else if is_pointer len || ltb (length p) (offset + 1 + len)
      then ok none
      else do
        bytes ← slice p (offset + 1) (offset + 1 + len)
        elim (pf.from_utf8 bytes) [
          | none ↦ ok none
          | some label ↦ do
            r ← rest
            ok (elim r [ none ↦ none | some (ls, o) ↦ some (label ∷ ls, o) ])
        ]

-- `labels.join(".")`
unfoldable pub join_labels : List Text → Text
join_labels [] = []
join_labels (l ∷ []) = l
join_labels (l ∷ m ∷ ls) = l ++ (b'.' ∷ join_labels (m ∷ ls))

unfoldable pub dns_event : Flow → Bool → ℕ → List Text → Event
unfolding join_labels format_ts qtype_to_string
dns_event w is_response qtype labels =
    let fields : Fields = text_field (codes "time") (format_ts w.ts_sec) (
      text_field (codes "src_ip") w.src_ip (
        text_field (codes "dst_ip") w.dst_ip (
          text_field (codes "query") (join_labels labels) (
            text_field (codes "qtype") (qtype_to_string qtype) (
              field (codes "packet_id") (Value.int w.packet_id) (
                field (codes "is_response") (Value.bool is_response) (
                  port_field (codes "src_port") w.src_port
                    (port_field (codes "dst_port") w.dst_port no_fields)))))))) in
    (if is_response then codes "dns_response" else codes "dns_query", fields)

-- the end of the function, behind the loop
unfoldable pub dns_question : Flow → Bytes → Bool → Option (List Text × ℕ) → Result (Option Event)
unfolding dns_event
dns_question w p is_response none = ok none
dns_question w p is_response (some ([], offset)) = ok none
dns_question w p is_response (some (l ∷ ls, offset)) =
    if ltb (length p) (offset + 4)
    then ok none
    else do qtype ← be16 p offset; ok (some (dns_event w is_response qtype (l ∷ ls)))

unfoldable pub decode_dns_message : Platform → Flow → Bytes → Result (Option Event)
unfolding read_labels dns_question
decode_dns_message pf w p = if ltb (length p) 12 then ok none else do
  flags ← be16 p 2
  qdcount ← be16 p 4
  if qdcount == 0
      then ok none
      else do name ← read_labels pf (length p) p 12; dns_question w p (flags / 2 ^ 15 % 2 == 1) name

-- `text.split("\r\n")`
unfoldable pub split_lines : Text → List Text
split_lines [] = [] ∷ []
split_lines (c ∷ []) = (c ∷ []) ∷ []
split_lines (c ∷ d ∷ s) =
    let behind = split_lines s in
    let here = split_lines (d ∷ s) in
    if c == 13 && d == 10
    then [] ∷ behind
    else elim here [ [] ↦ (c ∷ []) ∷ [] | l ∷ ls ↦ (c ∷ l) ∷ ls ]

-- a word up to the next white space, and the rest
unfoldable pub span_word : (ℕ → Bool) → Text → Text × Text
span_word ws [] = ([], [])
span_word ws (c ∷ s) = let (w, r) = span_word ws s in if ws c then ([], c ∷ s) else (c ∷ w, r)

-- `next` of `split_whitespace`
unfoldable pub next_word : (ℕ → Bool) → Text → Option (Text × Text)
unfolding trim_start span_word
next_word ws s = elim (trim_start ws s) [ [] ↦ none | c ∷ r ↦ some (span_word ws (c ∷ r)) ]

-- `line.split_once(':')`
unfoldable pub split_colon : Text → Option (Text × Text)
split_colon [] = none
split_colon (c ∷ s) =
    let later = split_colon s in
    if c == b':' then some ([], s) else elim later [ none ↦ none | some (k, v) ↦ some (c ∷ k, v) ]

-- the loop over the header lines: the values of `Host` and `User-Agent`
unfoldable pub read_headers : Platform → List Text → Text × Text → Text × Text
unfolding split_colon trim_text
read_headers pf [] acc = acc
read_headers pf ([] ∷ ls) acc = acc
read_headers pf ((c ∷ s) ∷ ls) acc =
    let next : Text × Text = elim (split_colon (c ∷ s)) [
      | none ↦ acc
      | some (k, v) ↦
          let key : Text = pf.to_lowercase (trim_text pf.is_whitespace k) in
          let value : Text = trim_text pf.is_whitespace v in
          if text_eq key (codes "host")
          then (value, acc.1)
          else if text_eq key (codes "user-agent")
          then (acc.0, value)
          else acc
    ] in
    read_headers pf ls next

abbrev is_plain_byte : ℕ → Bool
is_plain_byte b = b == 13 || b == 10 || b == 9 || leb 0x20 b && ltb b 0x7f

all_plain : Bytes → Bool
all_plain [] = true
all_plain (b ∷ bs) = is_plain_byte b && all_plain bs

all_uppercase : Text → Bool
all_uppercase [] = true
all_uppercase (c ∷ s) = leb b'A' c && leb c b'Z' && all_uppercase s

http_event : Flow → Text → Text → Text → Text × Text → Event
unfolding format_ts
http_event w method uri version headers =
    let fields : Fields = text_field (codes "time") (format_ts w.ts_sec) (
      text_field (codes "src_ip") w.src_ip (
        text_field (codes "dst_ip") w.dst_ip (
          text_field (codes "method") method (
            text_field (codes "uri") uri (
              text_field (codes "version") version (
                text_field (codes "host") (headers.0) (
                  text_field (codes "user_agent") (headers.1) (
                    port_field (codes "src_port") w.src_port (
                      port_field (codes "dst_port") w.dst_port
                        (field (codes "packet_id") (Value.int w.packet_id) no_fields)))))))))) in
    (codes "http_request", fields)

-- `?` on an option
abbrev with_some : {A B : Type 0} → Option A → (A → Option B) → Option B
with_some none k = none
with_some (some a) k = k a

-- from the request line and the lines behind it
http_request : Platform → Flow → Text → List Text → Option Event
unfolding next_word all_uppercase starts_with http_event read_headers
http_request pf w line lines = with_some (next_word pf.is_whitespace line) (λ (method, r).
    with_some (next_word pf.is_whitespace r) (λ (uri, r').
      with_some (next_word pf.is_whitespace r') (λ (version, _).
        if all_uppercase method && starts_with version (codes "HTTP/")
        then some (http_event w method uri version (read_headers pf lines ([], [])))
        else none)))

unfoldable pub decode_http_request : Platform → Flow → Bytes → Option Event
unfolding all_plain split_lines http_request
decode_http_request pf w p =
    let head : Bytes = take 2048 p in
    if ltb (length p) 14
    then none
    else if all_plain head
    then with_some (pf.from_utf8 head) (λ text. elim (split_lines text) [
      | [] ↦ none
      | line ∷ lines ↦ http_request pf w line lines
    ])
    else none
