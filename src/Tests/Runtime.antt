-- ===== src/Tests/Runtime.antt =====
-- The frame of the tests of src/runtime.rs, a name, a date, and the theorems at them.
use tracescript.Prelude.{
  ℕ, ◌+◌, ◌≡◌, refl, List, [], ◌∷◌, ◌++◌, none, some, Text, codes, ℤ, length, arith, map, replicate,
  false,
}
use tracescript.Result.{ok}
use tracescript.Packet.{Bytes}
use tracescript.Filter.{Filter, Expr, Predicate}
use tracescript.Runtime.Dates.{days_to_ymd, format_ts}
use tracescript.Runtime.Days.{dated, days_to_ymd-date_after}
use tracescript.Runtime.Calendar.{date_after}
use tracescript.Runtime.Messages.{Event, Flow, read_labels, dns_event, decode_dns_message}
use tracescript.Runtime.Labels.{encode_name, read_labels-encode_name}
use tracescript.Runtime.Questions.{message, decode_dns_message-message}
use tracescript.Runtime.Frame.{decode_frame}
use tracescript.Machine.{done}
use tracescript.Runtime.Extract.{RawPacket, extract_frames}
use tracescript.Runtime.Extract.Agree.{is_dispatched, selected, extract_frames-selected}
use tracescript.Runtime.Total.{decode_frame-total}
use tracescript.Tests.Fixtures.{test_platform}

abbrev names : List (Bytes × Text)
names = (codes "example", codes "example") ∷ (codes "com", codes "com") ∷ []

abbrev query : Bytes
query = message (0x12, 0x34) (1, 0) (0, 1) (replicate 6 0) names (0, 1) (0 ∷ 1 ∷ [])

abbrev udp_packet : Bytes
udp_packet =
    0x45 ∷ 0 ∷ 0 ∷ 57 ∷ 0 ∷ 0 ∷ 0x40 ∷ 0 ∷ 64 ∷ 17 ∷ 0 ∷ 0 ∷ 192 ∷ 168 ∷ 1 ∷ 10 ∷ 192 ∷ 168 ∷ 1 ∷ 1
      ∷ []
    ++ (0x30 ∷ 0x21 ∷ 0 ∷ 53 ∷ 0 ∷ 37 ∷ 0 ∷ 0 ∷ query)

abbrev frame : Bytes
frame = replicate 12 0 ++ (0x08 ∷ 0x00 ∷ udp_packet)

abbrev event_names : List Event → List Text
event_names = map (λ e. e.0)

frame_decodes :
    (elim (decode_frame test_platform frame (ℤ.pos 1700000000) none) [
      | ok es ↦ event_names es
      | _ ↦ []
    ])
    ≡ codes "packet" ∷ codes "dns_query" ∷ []
unfolding decode_frame encode_name
frame_decodes = refl

abbrev tcp_only : Filter
tcp_only = record { root = Expr.atom Predicate.tcp }

frame_filtered : decode_frame test_platform frame (ℤ.pos 0) (some tcp_only) ≡ ok []
unfolding decode_frame encode_name
frame_filtered = refl

epoch : days_to_ymd (ℤ.pos 0) ≡ (ℤ.pos 1970, 1, 1)
unfolding days_to_ymd
epoch = refl

leap_day : days_to_ymd (ℤ.pos 11016) ≡ (ℤ.pos 2000, 2, 29)
unfolding days_to_ymd
leap_day = refl

time_stamp : format_ts (ℤ.pos 1700000000) ≡ codes "2023-11-14T22:13:20Z"
unfolding format_ts
time_stamp = refl

days_to_ymd-date_after_example : days_to_ymd (ℤ.pos 60) ≡ dated (date_after 60)
days_to_ymd-date_after_example = days_to_ymd-date_after 60 (omega arith)

read_labels-encode_name_example :
    read_labels test_platform 3
      ([] ++ (encode_name (codes "example" ∷ codes "com" ∷ []) ++ 7 ∷ []))
      (length {A = ℕ} [])
    ≡ ok (
        some (
          codes "example" ∷ codes "com" ∷ [],
          0 + length (encode_name (codes "example" ∷ codes "com" ∷ [])),
        ))
read_labels-encode_name_example =
    read_labels-encode_name test_platform 3 names [] (7 ∷ [])
      ((omega arith, omega arith, refl), ((omega arith, omega arith, refl), tt)) (omega arith)

abbrev test_flow : Flow
test_flow = record {
  src_ip = codes "192.168.1.10";
  dst_ip = codes "192.168.1.1";
  ts_sec = ℤ.pos 1700000000;
  packet_id = ℤ.pos 1;
  src_port = some 12321;
  dst_port = some 53;
}

decode_dns_message-message_example :
    decode_dns_message test_platform test_flow query
    ≡ ok (some (dns_event test_flow false 1 (codes "example" ∷ codes "com" ∷ [])))
decode_dns_message-message_example =
    decode_dns_message-message test_platform test_flow (0x12, 0x34) (1, 0) (0, 1) (replicate 6 0)
      (codes "example") (codes "example") ((codes "com", codes "com") ∷ []) (0, 1) (0 ∷ 1 ∷ []) refl
      (omega arith) ((omega arith, omega arith, refl), ((omega arith, omega arith, refl), tt))
      (omega arith)

decode_frame-total_example :
    (es : List Event) × (decode_frame test_platform frame (ℤ.pos 0) none ≡ ok es)
decode_frame-total_example = decode_frame-total test_platform frame (ℤ.pos 0) none

-- two packets, of which one has a frame
abbrev capture : List RawPacket
capture =
    record { ts_sec = 5; ts_nsec = 0; data_ = []; orig_len = 0 }
    ∷ record { ts_sec = 6; ts_nsec = 0; data_ = frame; orig_len = 80 }
    ∷ []

extract_frames-selected_example :
    extract_frames test_platform none none (map (λ p. ok p) capture) 0 []
    ≡ done
        (0 + length (selected (is_dispatched test_platform none none) capture))
        ([] ++ selected (is_dispatched test_platform none none) capture)
extract_frames-selected_example = extract_frames-selected test_platform none none capture 0 []
