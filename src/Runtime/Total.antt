-- ===== src/Runtime/Total.antt =====
-- `decode_frame_with_filter_and_grep` of src/runtime.rs on any frame.
use tracescript.Prelude.{
  ℕ, ◌+◌, ◌*◌, ◌/◌, ◌%◌, ◌^◌, ◌≡◌, Bool, true, false, not, ◌||◌, List, [], ◌∷◌, Option, none, some,
  Text, length, ltb, ◌==◌, ℤ, arith, ◌≤◌,
}
use tracescript.Value.{Platform}
use tracescript.Result.{ok, ◌>>=◌}
use tracescript.Packet.{
  Bytes, PktInfo, TcpHeader, UdpHeader, at, be16, slice, slice_from, decode_tcp, decode_udp,
  ip_to_string,
}
use tracescript.Packet.Total.{
  Returns, Returns-bind, Returns-inv, if-Returns, at-Returns, slice-Returns, be16-Returns,
  decode_tcp-Returns, decode_udp-Returns, ip_to_string-Returns,
}
use tracescript.Filter.{Filter}
use tracescript.Runtime.Messages.{Event, Flow, read_labels, dns_question, decode_dns_message}
use tracescript.Runtime.Labels.{read_labels-Returns}
use tracescript.Runtime.Frame.{
  IpFrame, ip_offset, read_ip, l4_ports, passes, packet_info, dns_events, tcp_events, udp_events,
  l4_events, frame_events, decode_frame, flow,
}

dns_question-Returns :
    (w : Flow) (p : Bytes) (b : Bool) (name : Option (List Text × ℕ))
    → Returns (dns_question w p b name)
unfolding dns_question
dns_question-Returns w p b none = tt
dns_question-Returns w p b (some ([], o)) = tt
dns_question-Returns w p b (some (l ∷ ls, o)) =
    if-Returns (ltb (length p) (o + 4)) _ _ (λ e. tt)
      λ e. Returns-bind (be16 p o) _ (be16-Returns p o (ground arith)) λ q g. tt

decode_dns_message-Returns :
    (pf : Platform) (w : Flow) (p : Bytes) → Returns (decode_dns_message pf w p)
unfolding decode_dns_message
decode_dns_message-Returns pf w p =
    if-Returns (ltb (length p) 12) _ _ (λ e. tt)
      λ e. Returns-bind (be16 p 2) _ (be16-Returns p 2 (ground arith)) λ flags g.
        Returns-bind (be16 p 4) _ (be16-Returns p 4 (ground arith)) λ qdcount g2.
          if-Returns (qdcount == 0) _ _ (λ f. tt)
            λ f.
              Returns-bind (read_labels pf (length p) p 12) _
                (read_labels-Returns pf (length p) p 12 (omega arith) (ground arith))
                λ name g3. dns_question-Returns w p (flags / 2 ^ 15 % 2 == 1) name

module _ (pf : Platform) (ts : ℤ) (packet_id : ℤ) (f : IpFrame) where
  dns_events-Returns : (src dst : ℕ) (p : Bytes) → Returns (dns_events pf ts packet_id f src dst p)
  unfolding dns_events
  dns_events-Returns src dst p =
      if-Returns (dst == 53 || src == 53) _ _
        (λ e.
          Returns-bind (decode_dns_message pf (flow f ts packet_id src dst) p) _
            (decode_dns_message-Returns pf (flow f ts packet_id src dst) p) λ o g. tt)
        (λ e. tt)

  tcp_events-Returns : (o : Option (Bytes × TcpHeader)) → Returns (tcp_events pf ts packet_id f o)
  unfolding tcp_events
  tcp_events-Returns none = tt
  tcp_events-Returns (some (p, l4)) =
      Returns-bind (dns_events pf ts packet_id f l4.src_port l4.dst_port p) _
        (dns_events-Returns l4.src_port l4.dst_port p) λ es g. tt

  udp_events-Returns : (o : Option (Bytes × UdpHeader)) → Returns (udp_events pf ts packet_id f o)
  unfolding udp_events
  udp_events-Returns none = tt
  udp_events-Returns (some (p, l4)) = dns_events-Returns l4.src_port l4.dst_port p

  l4_events-Returns : Returns (l4_events pf ts packet_id f)
  unfolding l4_events
  l4_events-Returns =
      if-Returns (f.protocol == 6) _ _
        (λ e.
          Returns-bind (decode_tcp f.payload) _ (decode_tcp-Returns f.payload)
            λ o g. tcp_events-Returns o)
        (λ e.
          if-Returns (f.protocol == 17) _ _
            (λ e2.
              Returns-bind (decode_udp f.payload) _ (decode_udp-Returns f.payload)
                λ o g. udp_events-Returns o)
            (λ e2. tt))

l4_ports-Returns : (protocol : ℕ) (p : Bytes) → Returns (l4_ports protocol p)
unfolding l4_ports
l4_ports-Returns protocol p =
    if-Returns (protocol == 6) _ _
      (λ e. Returns-bind (decode_tcp p) _ (decode_tcp-Returns p) λ o g. tt)
      (λ e.
        if-Returns (protocol == 17) _ _
          (λ e2. Returns-bind (decode_udp p) _ (decode_udp-Returns p) λ o g. tt) (λ e2. tt))

passes-Returns :
    (filter : Option Filter) (protocol : ℕ) (p : Bytes) (info : PktInfo)
    → Returns (passes filter protocol p info)
unfolding passes
passes-Returns none protocol p info = tt
passes-Returns (some f) protocol p info =
    Returns-bind (l4_ports protocol p) _ (l4_ports-Returns protocol p) λ o g. tt

not_ltb : (a b : ℕ) → ltb a b ≡ false → b ≤ a
not_ltb a b h = ground arith

not_or : (a b : Bool) → (a || b) ≡ false → b ≡ false
not_or true b h = absurd (let c : true ≡ false = h in cc)
not_or false b h = h

read_ip-Returns : (frame : Bytes) (i : ℕ) → Returns (read_ip frame i)
unfolding read_ip
read_ip-Returns frame i =
    if-Returns (ltb (length frame) (i + 20)) _ _ (λ e. tt)
      λ e.
        let room : i + 20 ≤ length frame = not_ltb (length frame) (i + 20) e in
        Returns-bind (at frame i) _ (at-Returns frame i (omega arith)) λ v g.
          if-Returns (not (v / 16 == 4)) _ _ (λ f. tt)
            λ f.
              if-Returns (ltb (v % 16 * 4) 20 || ltb (length frame) (i + v % 16 * 4)) _ _ (λ h. tt)
                λ h.
                  let more : i + v % 16 * 4 ≤ length frame =
                    not_ltb (length frame) (i + v % 16 * 4)
                      (not_or (ltb (v % 16 * 4) 20) (ltb (length frame) (i + v % 16 * 4)) h) in
                  Returns-bind (at frame (i + 9)) _ (at-Returns frame (i + 9) (omega arith))
                    λ protocol g1.
                      Returns-bind (slice frame (i + 12) (i + 16)) _
                        (slice-Returns frame (i + 12) (i + 16) (omega arith) (omega arith))
                        λ src g2.
                          Returns-bind (slice frame (i + 16) (i + 20)) _
                            (slice-Returns frame (i + 16) (i + 20) (omega arith) room)
                            λ dst g3.
                              Returns-bind (ip_to_string src) _ (ip_to_string-Returns src)
                                λ src_ip g4.
                                  Returns-bind (ip_to_string dst) _ (ip_to_string-Returns dst)
                                    λ dst_ip g5.
                                      Returns-bind (slice_from frame (i + v % 16 * 4)) _
                                        (slice-Returns frame (i + v % 16 * 4) (length frame) more
                                          (omega arith))
                                        λ payload g6. tt

frame_events-Returns :
    (pf : Platform) (ts : ℤ) (filter : Option Filter) (o : Option IpFrame)
    → Returns (frame_events pf ts filter o)
unfolding frame_events
frame_events-Returns pf ts filter none = tt
frame_events-Returns pf ts filter (some f) =
    Returns-bind (passes filter f.protocol f.payload (packet_info f)) _
      (passes-Returns filter f.protocol f.payload (packet_info f))
      λ b g.
        if-Returns b _ _
          (λ e. Returns-bind (l4_events pf ts _ f) _ (l4_events-Returns pf ts _ f) λ es g2. tt)
          (λ e. tt)

decode_frame-Returns :
    (pf : Platform) (frame : Bytes) (ts : ℤ) (filter : Option Filter)
    → Returns (decode_frame pf frame ts filter)
unfolding decode_frame
decode_frame-Returns pf frame ts filter = offset_returns (ip_offset frame)
  where
    offset_returns :
        (o : Option ℕ)
        → Returns (elim o [ none ↦ ok [] | some i ↦ read_ip frame i >>= frame_events pf ts filter ])
    offset_returns none = tt
    offset_returns (some i) =
        Returns-bind (read_ip frame i) _ (read_ip-Returns frame i)
          λ f g. frame_events-Returns pf ts filter f

-- Decoding returns a list of events for every sequence of bytes, whatever the time stamp, the filter and
-- the platform: no index and no slice is out of range, and the loop over the labels of a name ends.
pub decode_frame-total :
    (pf : Platform) (frame : Bytes) (ts : ℤ) (filter : Option Filter)
    → (es : List Event) × (decode_frame pf frame ts filter ≡ ok es)
decode_frame-total pf frame ts filter = Returns-inv _ (decode_frame-Returns pf frame ts filter)
