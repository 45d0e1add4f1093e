-- ===== src/Packet.antt =====
-- What src/runtime.rs decodes from the headers of a frame: `PktInfo`, `decode_tcp`, `decode_udp` and
-- the names of flags and protocols. A byte is a number below 256; an index or a slice out of range
-- panics.
pub mod Total
use tracescript.Prelude.{
  ℕ, ◌+◌, ◌-◌, ◌*◌, ◌/◌, ◌%◌, ◌^◌, Bool, true, false, not, ◌&&◌, ◌||◌, List, [], ◌∷◌, ◌++◌, Option,
  none, some, Text, codes, length, get_elem?, take, drop, ltb, leb, ◌==◌, if◌then◌else◌, show_nat,
}
use tracescript.Result.{Result, ok, panic, or_panic, ◌>>=◌}

abbrev pub Bytes : Type 0
Bytes = List ℕ

pub record PktInfo : Type 0 where
  pub l4_proto : Option ℕ
  pub src_port : Option ℕ
  pub dst_port : Option ℕ
  pub src_ip : Option Bytes
  pub dst_ip : Option Bytes
  pub length : ℕ

pub record TcpHeader : Type 0 where
  pub src_port : ℕ
  pub dst_port : ℕ
  pub seq : ℕ
  pub ack : ℕ
  pub flags : ℕ

pub record UdpHeader : Type 0 where
  pub src_port : ℕ
  pub dst_port : ℕ

-- `b[i]`, `&b[i..j]` and `&b[i..]`
abbrev pub at : Bytes → ℕ → Result ℕ
at b i = or_panic (get_elem? b i)

abbrev pub slice : Bytes → ℕ → ℕ → Result Bytes
slice b i j = if leb i j && leb j (length b) then ok (take (j - i) (drop i b)) else panic

abbrev pub slice_from : Bytes → ℕ → Result Bytes
slice_from b i = slice b i (length b)

-- `u16::from_be_bytes` and `u32::from_be_bytes` of the bytes at an index
abbrev pub be16 : Bytes → ℕ → Result ℕ
be16 b i = do x ← at b i; y ← at b (i + 1); ok (x * 256 + y)

abbrev pub be32 : Bytes → ℕ → Result ℕ
be32 b i = do x ← be16 b i; y ← be16 b (i + 2); ok (x * 65536 + y)

-- `((b >> 4) as usize) * 4`
abbrev pub data_offset : ℕ → ℕ
data_offset b = b / 16 * 4

unfoldable pub decode_tcp : Bytes → Result (Option (Bytes × TcpHeader))
decode_tcp p = if ltb (length p) 20 then ok none else do
  src ← be16 p 0
  dst ← be16 p 2
  seq ← be32 p 4
  ack ← be32 p 8
  off ← at p 12
  if ltb (data_offset off) 20 || ltb (length p) (data_offset off) then ok none else do
    flags ← at p 13
    rest ← slice_from p (data_offset off)
    ok (some (rest, record { src_port = src; dst_port = dst; seq = seq; ack = ack; flags = flags }))

unfoldable pub decode_udp : Bytes → Result (Option (Bytes × UdpHeader))
decode_udp p = if ltb (length p) 8 then ok none else do
  src ← be16 p 0
  dst ← be16 p 2
  rest ← slice_from p 8
  ok (some (rest, record { src_port = src; dst_port = dst }))

-- `flags & 2^k != 0`, and the letter that stands for it
abbrev flag : ℕ → ℕ → ℕ → Text
flag flags k c = if flags / 2 ^ k % 2 == 1 then c ∷ [] else []

abbrev or_dash : Text → Text
or_dash [] = codes "-"
or_dash (c ∷ s) = c ∷ s

unfoldable pub tcp_flags_string : ℕ → Text
tcp_flags_string f = or_dash (
    flag f 0 b'F'
    ++ (flag f 1 b'S'
        ++ (flag f 2 b'R'
            ++ (flag f 3 b'P'
                ++ (flag f 4 b'A' ++ (flag f 5 b'U' ++ (flag f 6 b'E' ++ flag f 7 b'C')))))))

unfoldable pub ip_to_string : Bytes → Result Text
unfolding show_nat
ip_to_string b = if ltb (length b) 4 then ok (codes "0.0.0.0") else do
  x ← at b 0
  y ← at b 1
  z ← at b 2
  w ← at b 3
  ok (show_nat x ++ (b'.' ∷ (show_nat y ++ (b'.' ∷ (show_nat z ++ (b'.' ∷ show_nat w))))))

unfoldable pub proto_name : ℕ → Text
proto_name p =
    if p == 1
    then codes "icmp"
    else if p == 2
    then codes "igmp"
    else if p == 6
    then codes "tcp"
    else if p == 17
    then codes "udp"
    else if p == 41
    then codes "ipv6"
    else if p == 47
    then codes "gre"
    else if p == 50
    then codes "esp"
    else if p == 51
    then codes "ah"
    else if p == 89
    then codes "ospf"
    else if p == 132
    then codes "sctp"
    else codes "other"

unfoldable pub qtype_to_string : ℕ → Text
qtype_to_string q =
    if q == 1
    then codes "A"
    else if q == 2
    then codes "NS"
    else if q == 5
    then codes "CNAME"
    else if q == 6
    then codes "SOA"
    else if q == 12
    then codes "PTR"
    else if q == 15
    then codes "MX"
    else if q == 16
    then codes "TXT"
    else if q == 28
    then codes "AAAA"
    else if q == 33
    then codes "SRV"
    else if q == 65
    then codes "HTTPS"
    else codes "OTHER"
