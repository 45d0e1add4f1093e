-- ===== src/Filter.antt =====
-- src/filter.rs: the display filter. Tokens has the tokenizer, Parser the parser. An IPv4 address is the list of its bytes.
pub mod Tokens
pub mod Parser
pub mod Numbers
pub mod Total
use tracescript.Prelude.{
  ℕ, Bool, true, false, not, ◌&&◌, ◌||◌, List, [], ◌∷◌, Option, none, some, ltb, leb, ◌==◌, text_eq,
}
use tracescript.Packet.{Bytes, PktInfo}

pub data IpAddr : Type 0 where
  v4 : Bytes → IpAddr

pub data CompareOp : Type 0 where
  eq ne lt gt lt_eq gt_eq : CompareOp

pub data Predicate : Type 0 where
  tcp : Predicate
  udp : Predicate
  icmp : Predicate
  port : ℕ → Predicate
  src : IpAddr → Predicate
  dst : IpAddr → Predicate
  host : IpAddr → Predicate
  ip : IpAddr → Predicate
  len : CompareOp → ℕ → Predicate

pub data Expr : Type 0 where
  atom : Predicate → Expr
  not_ : Expr → Expr
  and_ : Expr → Expr → Expr
  or_ : Expr → Expr → Expr

pub record Filter : Type 0 where
  pub root : Expr

-- `info.field == Some(n)`
abbrev is_number : Option ℕ → ℕ → Bool
is_number none n = false
is_number (some m) n = m == n

abbrev is_address : Option Bytes → IpAddr → Bool
is_address none i = false
is_address (some b) (IpAddr.v4 c) = text_eq b c

unfoldable pub compare_len : CompareOp → ℕ → ℕ → Bool
compare_len CompareOp.eq l n = l == n
compare_len CompareOp.ne l n = not (l == n)
compare_len CompareOp.lt l n = ltb l n
compare_len CompareOp.gt l n = ltb n l
compare_len CompareOp.lt_eq l n = leb l n
compare_len CompareOp.gt_eq l n = leb n l

unfoldable pub holds : Predicate → PktInfo → Bool
unfolding compare_len
holds Predicate.tcp i = is_number i.l4_proto 6
holds Predicate.udp i = is_number i.l4_proto 17
holds Predicate.icmp i = is_number i.l4_proto 1
holds (Predicate.port n) i = is_number i.src_port n || is_number i.dst_port n
holds (Predicate.src a) i = is_address i.src_ip a
holds (Predicate.dst a) i = is_address i.dst_ip a
holds (Predicate.host a) i = is_address i.src_ip a || is_address i.dst_ip a
holds (Predicate.ip a) i = is_address i.src_ip a || is_address i.dst_ip a
holds (Predicate.len op n) i = compare_len op i.length n

unfoldable pub eval : Expr → PktInfo → Bool
unfolding holds
eval (Expr.atom p) i = holds p i
eval (Expr.not_ e) i = not (eval e i)
eval (Expr.and_ a b) i = eval a i && eval b i
eval (Expr.or_ a b) i = eval a i || eval b i

-- `Filter::matches`
unfoldable pub matches : Filter → PktInfo → Bool
unfolding eval
matches f i = eval f.root i
