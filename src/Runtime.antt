-- ===== src/Runtime.antt =====
-- src/runtime.rs: captures as events. Dates has the time stamps, Messages the DNS and HTTP decoders,
-- Frame the decoder of a frame. The readers of pcap, JSON lines and CSV files are parameters: a file
-- is what its reader yields, one item after another, and so is the parser of JSON.
pub mod Dates
pub mod Messages
pub mod Frame
pub mod Calendar
pub mod Years
pub mod Days
pub mod Labels
pub mod Questions
pub mod Total
pub mod Extract
use tracescript.Prelude.{
  ℕ, ◌+◌, Bool, true, false, ◌||◌, List, [], ◌∷◌, Option, none, some, Text, codes, ends_with,
  text_eq, get_elem?, ◌⊎◌, inl, inr, if◌then◌else◌, ℤ, not,
}
use tracescript.Value.{
  Value, Fields, field, no_fields, Platform, no_source, unknown_extension, bad_line,
}
use tracescript.Builtins.{trim_text}
use tracescript.Result.{Result, ok, fail}
use tracescript.Machine.{Run, pure, ◌>>=◌, ◌>>◌, lift}
use tracescript.Packet.{Bytes}
use tracescript.Filter.{Filter}
use tracescript.Runtime.Messages.{Event}
use tracescript.Runtime.Frame.{decode_frame, event_matches_grep}

-- a packet of a capture: `ts_sec` of its header, and its data
abbrev pub CapturedPacket : Type 0
CapturedPacket = ℤ × Bytes

-- A value of a JSON object, as far as `json_to_value` looks into it: a number with its readings as
-- `i64` and `f64`, and with an array or an object the text that it prints.
pub data Json : Type 0 where
  null : Json
  bool : Bool → Json
  number : Option ℤ → Option ℕ → Text → Json
  string : Text → Json
  other : Text → Json

-- What opening and parsing yields. A line of JSON is an object, another value or an error.
pub record Sources : Type 0 where
  pub read_pcap : Text → Result (List (Result CapturedPacket))
  pub read_lines : Text → Result (List (Result Text))
  pub parse_json : Text → Text ⊎ Option (List (Text × Json))
  pub read_csv : Text → Result (List Text × List (Result (List Text)))

unfoldable pub json_to_value : Json → Value
json_to_value null = Value.unit
json_to_value (bool b) = Value.bool b
json_to_value (number (some i) f s) = Value.int i
json_to_value (number none (some f) s) = Value.float f
json_to_value (number none none s) = Value.str s
json_to_value (string s) = Value.str s
json_to_value (other s) = Value.str s

-- `HashMap::insert`
unfoldable pub insert_field : Fields → Text → Value → Fields
insert_field no_fields k v = field k v no_fields
insert_field (field j w m) k v = if text_eq j k then field k v m else field j w (insert_field m k v)

unfoldable pub json_fields : List (Text × Json) → Fields → Fields
unfolding json_to_value insert_field
json_fields [] m = m
json_fields ((k, v) ∷ kvs) m = json_fields kvs (insert_field m k (json_to_value v))

-- the loop over the headers of a CSV file, from column `i`; a short record leaves columns out
unfoldable pub csv_fields : List Text → List Text → ℕ → Fields → Fields
unfolding insert_field
csv_fields [] values i m = m
csv_fields (name ∷ names) values i m = elim (get_elem? values i) [
  | none ↦ csv_fields names values (i + 1) m
  | some v ↦ csv_fields names values (i + 1) (insert_field m name (Value.str v))
]

module _ {S : Type 0} (dispatch : Event → Run S (Unit {0})) where
  abbrev pub is_wanted : Platform → Option Text → Event → Bool
  is_wanted pf none e = true
  is_wanted pf (some needle) e = event_matches_grep pf e needle

  -- the loop over the events of a frame; the number is `events`
  unfoldable pub dispatch_all : Platform → Option Text → List Event → ℕ → Run S ℕ
  unfolding event_matches_grep
  dispatch_all pf grep [] n = pure n
  dispatch_all pf grep (e ∷ es) n =
      if is_wanted pf grep e
      then (dispatch e >> dispatch_all pf grep es (n + 1))
      else dispatch_all pf grep es n

  unfoldable pub run_packets :
      Platform → Option Filter → Option Text → List (Result CapturedPacket) → ℕ → Run S ℕ
  unfolding decode_frame dispatch_all
  run_packets pf filter grep [] n = pure n
  run_packets pf filter grep (pkt ∷ pkts) n = do
    (ts, data_) ← lift pkt
    events ← lift (decode_frame pf data_ ts filter)
    m ← dispatch_all pf grep events n
    run_packets pf filter grep pkts m

  -- `run_jsonl`, from line `i` of the file; a line without text is passed over
  unfoldable pub run_lines : Platform → Sources → Text → List (Result Text) → ℕ → ℕ → Run S ℕ
  unfolding trim_text json_fields
  run_lines pf files path [] i n = pure n
  run_lines pf files path (l ∷ ls) i n = do
    raw ← lift l
    elim (trim_text pf.is_whitespace raw) [
      | [] ↦ run_lines pf files path ls (i + 1) n
      | c ∷ line ↦ elim (files.parse_json (c ∷ line)) [
        | inl e ↦ lift (fail (bad_line path (i + 1) e))
        | inr none ↦
            (dispatch (codes "log_entry", no_fields) >> run_lines pf files path ls (i + 1) (n + 1))
        | inr (some kvs) ↦
            (dispatch (codes "log_entry", json_fields kvs no_fields)
              >> run_lines pf files path ls (i + 1) (n + 1))
      ]
    ]

  -- `run_csv`, behind the headers
  unfoldable pub run_records : List Text → List (Result (List Text)) → ℕ → Run S ℕ
  unfolding csv_fields
  run_records headers [] n = pure n
  run_records headers (r ∷ rs) n = do
    values ← lift r
    dispatch (codes "log_entry", csv_fields headers values 0 no_fields)
    run_records headers rs (n + 1)

  -- `run_script_with_filter_and_grep`, from the path on
  unfoldable pub run_path :
      Platform → Sources → Option Filter → Option Text → Text → Run S (Unit {0})
  unfolding run_packets run_lines run_records ends_with
  run_path pf files filter grep path =
      let lower : Text = pf.to_lowercase path in
      if ends_with lower (codes ".pcap") || ends_with lower (codes ".pcapng")
      then (lift (files.read_pcap path) >>= λ pkts.
          run_packets pf filter grep pkts 0 >>= λ n. pure tt)
      else if ends_with lower (codes ".jsonl") || ends_with lower (codes ".ndjson")
      then (lift (files.read_lines path) >>= λ lines.
          run_lines pf files path lines 0 0 >>= λ n. pure tt)
      else if ends_with lower (codes ".csv")
      then (lift (files.read_csv path) >>= λ (headers, rs).
          run_records headers rs 0 >>= λ n. pure tt)
      else lift (fail (unknown_extension path))

  unfoldable pub run_script :
      Platform
      → Sources
      → Option Text
      → Option Text
      → Option Filter
      → Option Text
      → Run S (Unit {0})
  unfolding run_path
  run_script pf files source (some p) filter grep = run_path pf files filter grep p
  run_script pf files (some p) none filter grep = run_path pf files filter grep p
  run_script pf files none none filter grep = lift (fail no_source)
