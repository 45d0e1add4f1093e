-- ===== src/Tests/Filter.antt =====
-- The tests of src/filter.rs.
use tracescript.Prelude.{◌≡◌, refl, [], ◌∷◌, codes}
use tracescript.Value.{unknown_filter_token, invalid_u16, octet_out_of_range}
use tracescript.Result.{ok, fail, Settles}
use tracescript.Filter.{Filter, Expr, Predicate, IpAddr, CompareOp}
use tracescript.Filter.Parser.{parse}
use tracescript.Filter.Total.{IsFailure}
use tracescript.Filter.Total.Levels.{parse-Settles}
use tracescript.Tests.Fixtures.{test_platform}

abbrev web : Filter
web = record { root = Expr.and_ (Expr.atom Predicate.tcp) (Expr.atom (Predicate.port 80)) }

tcp_port : parse test_platform (codes "TCP port 80") ≡ ok web
unfolding parse
tcp_port = refl

precedence :
    parse test_platform (codes "udp or not tcp and (len >= 100)")
    ≡ ok (record {
      root = Expr.or_ (Expr.atom Predicate.udp) (
          Expr.and_
            (Expr.not_ (Expr.atom Predicate.tcp))
            (Expr.atom (Predicate.len CompareOp.gt_eq 100)));
    })
unfolding parse
precedence = refl

host_address :
    parse test_platform (codes "host 10.0.0.5")
    ≡ ok (record { root = Expr.atom (Predicate.host (IpAddr.v4 (10 ∷ 0 ∷ 0 ∷ 5 ∷ []))) })
unfolding parse
host_address = refl

large_port : parse test_platform (codes "port 70000") ≡ fail (invalid_u16 (codes "70000"))
unfolding parse
large_port = refl

large_octet : parse test_platform (codes "src 1.2.3.256") ≡ fail (octet_out_of_range 256)
unfolding parse
large_octet = refl

unknown_word :
    parse test_platform (codes "frobnicate") ≡ fail (unknown_filter_token (codes "frobnicate"))
unfolding parse
unknown_word = refl

parse-Settles_example :
    Settles IsFailure (λ f. Unit {0}) (parse test_platform (codes "not (tcp port 80 or udp)"))
parse-Settles_example = parse-Settles test_platform (codes "not (tcp port 80 or udp)")
