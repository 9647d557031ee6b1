-- ===== src/Router/Examples.antt =====
-- Runs of src/router at fixed inputs. An address is a family and its bytes here, and a regular
-- expression is a text that has to be the domain itself.
use cppsong.Base.{ℕ, ◌≡◌, refl, Bool, true, false, [], ◌∷◌, Bytes, bytes_eq, arith}
use cppsong.Base.Lists.{replicate}
use cppsong.Base.Outcome.{ok, at}
use cppsong.Ip.{IpApi, IpLaws, domain_name, ip_address, Address}
use cppsong.Router.{
  IpNetwork, contains_v4, contains, DomainRule, any, suffix_matches, starts_with, has_substring,
  match_domain, Router, rule_match_host, match_rules, router_match,
}
use cppsong.Router.Any.{Decides}
use cppsong.Router.Domain.{MatchesDomain, match_domain-Decides}
use cppsong.Router.Network.{PrefixFits}
use cppsong.Router.Choice.{Chosen, router_match-Chosen}

data TestIp : Type 0 where
  v4 : ℕ → TestIp
  v6 : ℕ → TestIp

is_test_v4 : TestIp → Bool
is_test_v4 (v4 a) = true
is_test_v4 (v6 a) = false

to_test_uint : TestIp → ℕ
to_test_uint (v4 a) = a
to_test_uint (v6 a) = 0

abbrev to_test_bytes : TestIp → Bytes
to_test_bytes a = replicate 16 (to_test_uint a)

abbrev test_api : IpApi TestIp
test_api = record { is_v4 = is_test_v4; to_uint = to_test_uint; to_bytes = to_test_bytes }

test_laws : IpLaws test_api
test_laws = record { to_bytes_size = λ a. refl }

-- 10.0.0.0/8
abbrev ten : IpNetwork TestIp
ten = record { network = v4 0x0a000000; prefix = 8 }

ten-PrefixFits : PrefixFits test_api ten
ten-PrefixFits = record { v4_fits = λ _. omega arith; v6_fits = λ _. omega arith }

-- 192.168.0.1 is found in 10.0.0.0/8.
contains_other : contains test_api ten (v4 0xc0a80001) ≡ ok true
unfolding contains contains_v4 to_test_uint is_test_v4
contains_other = refl

-- "a.b", "a-b" and "b"
abbrev below : Bytes
below = b'a' ∷ b'.' ∷ b'b' ∷ []

abbrev beside : Bytes
beside = b'a' ∷ b'-' ∷ b'b' ∷ []

abbrev suffix : Bytes
suffix = b'b' ∷ []

abbrev test_rule : DomainRule Bytes
test_rule = record {
  domain = [];
  domain_suffix = suffix ∷ [];
  domain_keyword = (b'k' ∷ []) ∷ [];
  domain_regex = [];
}

suffix_runs :
    (match_domain bytes_eq test_rule below ≡ ok true)
    × (match_domain bytes_eq test_rule suffix ≡ ok true)
    × (match_domain bytes_eq test_rule beside ≡ ok false)
    × (match_domain bytes_eq test_rule (b'a' ∷ b'k' ∷ []) ≡ ok true)
unfolding match_domain any suffix_matches has_substring starts_with at bytes_eq
suffix_runs = (refl, refl, refl, refl)

match_domain-Decides_example :
    Decides (match_domain bytes_eq test_rule below) (MatchesDomain bytes_eq test_rule below)
match_domain-Decides_example = match_domain-Decides bytes_eq test_rule below

abbrev test_router : Router Bytes TestIp
test_router = record {
  rules =
      record { rules = record { domain_rule = test_rule; cidr = [] } ∷ []; outbound = b'x' ∷ [] }
      ∷ record {
        rules = record { domain_rule = test_rule; cidr = ten ∷ [] } ∷ [];
        outbound = b'y' ∷ [];
      }
      ∷ [];
  final = b'z' ∷ [];
}

abbrev to_address : Address TestIp
to_address = record { address = ip_address (v4 1); port = 443 }

router_runs :
    (router_match bytes_eq test_api test_router to_address ≡ ok (b'y' ∷ []))
    × (router_match bytes_eq test_api test_router
          (record { address = domain_name beside; port = 80 })
        ≡ ok (b'z' ∷ []))
unfolding router_match match_rules rule_match_host contains contains_v4 match_domain any
    suffix_matches has_substring starts_with at bytes_eq to_test_uint is_test_v4
router_runs = (refl, refl)

router_match-Chosen_example :
    (o : Bytes) × (router_match bytes_eq test_api test_router to_address ≡ ok o)
    × Chosen bytes_eq test_api to_address test_router.final test_router.rules o
router_match-Chosen_example =
    router_match-Chosen bytes_eq test_api test_laws test_router to_address
      ((tt, tt), (((ten-PrefixFits, tt), tt), tt))
