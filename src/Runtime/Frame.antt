-- ===== src/Runtime/Frame.antt =====
-- `decode_frame_with_filter_and_grep` and `event_matches_grep` of src/runtime.rs. The source writes the
-- former as one function; here its parts have names.
use tracescript.Prelude.{
  ℕ, ◌+◌, ◌*◌, ◌/◌, ◌%◌, ◌^◌, Bool, true, false, not, ◌||◌, List, [], ◌∷◌, ◌++◌, Option, none, some,
  Text, codes, length, get_elem?, ltb, ◌==◌, if◌then◌else◌, ℤ, of_bits, contains,
}
use tracescript.Value.{Value, Fields, field, no_fields, Platform, to_string}
use tracescript.Result.{Result, ok, ◌>>=◌}
use tracescript.Packet.{
  Bytes, PktInfo, at, slice, slice_from, decode_tcp, decode_udp, ip_to_string, proto_name,
  tcp_flags_string, TcpHeader, UdpHeader,
}
use tracescript.Filter.{Filter, matches}
use tracescript.Runtime.Dates.{format_ts}
use tracescript.Runtime.Messages.{Event, Flow, decode_dns_message, decode_http_request}

-- where the IP header starts, behind an Ethernet header with or without a VLAN tag
unfoldable pub ip_offset : Bytes → Option ℕ
ip_offset frame = elim (get_elem? frame 12) [
  | none ↦ none
  | some t ↦
      if t == 0x08
      then elim (get_elem? frame 13) [ none ↦ none | some u ↦ if u == 0 then some 14 else none ]
      else if t == 0x81
      then elim (get_elem? frame 17) [ none ↦ none | some u ↦ if u == 0 then some 18 else none ]
      else none
]

-- the source and destination ports, for the filter
unfoldable pub l4_ports : ℕ → Bytes → Result (Option (ℕ × ℕ))
unfolding decode_tcp decode_udp
l4_ports protocol payload =
    if protocol == 6
    then (decode_tcp payload >>= λ r.
        ok (elim r [ none ↦ none | some (rest, l4) ↦ some (l4.src_port, l4.dst_port) ]))
    else if protocol == 17
    then (decode_udp payload >>= λ r.
        ok (elim r [ none ↦ none | some (rest, l4) ↦ some (l4.src_port, l4.dst_port) ]))
    else ok none

-- no filter lets every frame pass
unfoldable pub passes : Option Filter → ℕ → Bytes → PktInfo → Result Bool
unfolding l4_ports matches
passes none protocol payload info = ok true
passes (some f) protocol payload info = do
  ports ← l4_ports protocol payload
  ok (
      matches f (elim ports [
        | none ↦ info
        | some (src, dst) ↦ record info { src_port = some src; dst_port = some dst }
      ]))

-- what the header of a frame says, and the payload behind it
pub record IpFrame : Type 0 where
  pub protocol : ℕ
  pub src_ip_bytes : Bytes
  pub dst_ip_bytes : Bytes
  pub src_ip : Text
  pub dst_ip : Text
  pub ihl : ℕ
  pub payload : Bytes

unfoldable pub read_ip : Bytes → ℕ → Result (Option IpFrame)
unfolding ip_to_string
read_ip frame ip_start = if ltb (length frame) (ip_start + 20) then ok none else do
  version_ihl ← at frame ip_start
  if not (version_ihl / 16 == 4)
      then ok none
      else if ltb (version_ihl % 16 * 4) 20 || ltb (length frame) (ip_start + version_ihl % 16 * 4)
      then ok none
      else do
        protocol ← at frame (ip_start + 9)
        src ← slice frame (ip_start + 12) (ip_start + 16)
        dst ← slice frame (ip_start + 16) (ip_start + 20)
        src_ip ← ip_to_string src
        dst_ip ← ip_to_string dst
        payload ← slice_from frame (ip_start + version_ihl % 16 * 4)
        ok (
            some (record {
              protocol = protocol;
              src_ip_bytes = src;
              dst_ip_bytes = dst;
              src_ip = src_ip;
              dst_ip = dst_ip;
              ihl = version_ihl % 16 * 4;
              payload = payload;
            }))

-- `len as i64`, and `len as u32`
abbrev as_i64 : ℕ → ℤ
as_i64 n = of_bits (n % 2 ^ 64)

unfoldable pub packet_info : IpFrame → PktInfo
packet_info f = record {
  l4_proto = some f.protocol;
  src_port = none;
  dst_port = none;
  src_ip = some f.src_ip_bytes;
  dst_ip = some f.dst_ip_bytes;
  length = (length f.payload % 2 ^ 32 + f.ihl) % 2 ^ 32;
}

abbrev text_field : Text → Text → Fields → Fields
text_field k s m = field k (Value.str s) m

abbrev int_field : Text → ℤ → Fields → Fields
int_field k n m = field k (Value.int n) m

unfoldable pub packet_event : IpFrame → ℤ → ℤ → Event
unfolding format_ts proto_name
packet_event f ts packet_id = (
  codes "packet",
  text_field (codes "time") (format_ts ts) (
      text_field (codes "src_ip") f.src_ip (
        text_field (codes "dst_ip") f.dst_ip (
          int_field (codes "length") (as_i64 (length f.payload)) (
            text_field (codes "protocol") (proto_name f.protocol)
              (int_field (codes "packet_id") packet_id no_fields))))),
)

unfoldable pub tcp_event : IpFrame → ℤ → TcpHeader → Event
unfolding format_ts tcp_flags_string
tcp_event f ts l4 = (
  codes "tcp_connection",
  text_field (codes "time") (format_ts ts) (
      text_field (codes "src_ip") f.src_ip (
        text_field (codes "dst_ip") f.dst_ip (
          int_field (codes "src_port") (ℤ.pos l4.src_port) (
            int_field (codes "dst_port") (ℤ.pos l4.dst_port) (
              int_field (codes "seq") (ℤ.pos l4.seq) (
                int_field (codes "ack") (ℤ.pos l4.ack)
                  (text_field (codes "flags") (tcp_flags_string l4.flags) no_fields))))))),
)

abbrev pub flow : IpFrame → ℤ → ℤ → ℕ → ℕ → Flow
flow f ts packet_id src dst = record {
  src_ip = f.src_ip;
  dst_ip = f.dst_ip;
  ts_sec = ts;
  packet_id = packet_id;
  src_port = some src;
  dst_port = some dst;
}

abbrev one : Option Event → List Event
one none = []
one (some e) = e ∷ []

module _ (pf : Platform) (ts : ℤ) (packet_id : ℤ) (f : IpFrame) where
  unfoldable pub dns_events : ℕ → ℕ → Bytes → Result (List Event)
  unfolding decode_dns_message
  dns_events src dst p =
      if dst == 53 || src == 53
      then (decode_dns_message pf (flow f ts packet_id src dst) p >>= λ e. ok (one e))
      else ok []

  unfoldable pub http_events : ℕ → ℕ → Bytes → List Event
  unfolding decode_http_request
  http_events src dst p =
      if dst == 80 || dst == 8080
      then one (decode_http_request pf (flow f ts packet_id src dst) p)
      else []

  unfoldable pub tcp_events : Option (Bytes × TcpHeader) → Result (List Event)
  unfolding tcp_event dns_events http_events
  tcp_events none = ok []
  tcp_events (some (p, l4)) = do
    dns ← dns_events l4.src_port l4.dst_port p
    ok (tcp_event f ts l4 ∷ (dns ++ http_events l4.src_port l4.dst_port p))

  unfoldable pub udp_events : Option (Bytes × UdpHeader) → Result (List Event)
  unfolding dns_events
  udp_events none = ok []
  udp_events (some (p, l4)) = dns_events l4.src_port l4.dst_port p

  -- the events behind the packet's own
  unfoldable pub l4_events : Result (List Event)
  unfolding tcp_events udp_events decode_tcp decode_udp
  l4_events =
      if f.protocol == 6
      then (decode_tcp f.payload >>= tcp_events)
      else if f.protocol == 17
      then (decode_udp f.payload >>= udp_events)
      else ok []

unfoldable pub frame_events : Platform → ℤ → Option Filter → Option IpFrame → Result (List Event)
unfolding passes packet_info packet_event l4_events
frame_events pf ts filter none = ok []
frame_events pf ts filter (some f) =
    let packet_id : ℤ = pf.default_hash ts f.src_ip f.dst_ip (as_i64 (length f.payload)) in
    passes filter f.protocol f.payload (packet_info f) >>= λ b.
    if b
    then (l4_events pf ts packet_id f >>= λ es. ok (packet_event f ts packet_id ∷ es))
    else ok []

-- `decode_frame_with_filter_and_grep`, which makes no use of its last argument
unfoldable pub decode_frame : Platform → Bytes → ℤ → Option Filter → Result (List Event)
unfolding ip_offset read_ip frame_events
decode_frame pf frame ts filter = elim (ip_offset frame) [
  | none ↦ ok []
  | some ip_start ↦ read_ip frame ip_start >>= frame_events pf ts filter
]

-- the loop over the values of an event
any_value : Platform → Text → Fields → Bool
unfolding to_string contains
any_value pf needle no_fields = false
any_value pf needle (field k v m) =
    contains (pf.to_lowercase (to_string pf v)) needle || any_value pf needle m

unfoldable pub event_matches_grep : Platform → Event → Text → Bool
unfolding any_value
event_matches_grep pf e needle = any_value pf (pf.to_lowercase needle) (e.1)
