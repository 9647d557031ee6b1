-- ===== src/Dns/Center/Examples.antt =====
-- Runs of src/dns/dns.cpp. An address is its bytes, and a regular expression is a text that has to
-- be the domain itself. The one server answers a query of "a" with one address.
use cppsong.Base.{◌≡◌, refl, [], ◌∷◌, ◌++◌, Bytes, bytes_eq}
use cppsong.Base.Outcome.{ok, at, string_at}
use cppsong.Bytes.{read_u8, read_u16, write_u8, write_u16}
use cppsong.Bytes.Words.{be16}
use cppsong.Dns.Cache.{Entries, find_item, touch, found_ips, lookup, store}
use cppsong.Dns.Center.{
  DnsServer, DnsCenter, find_server, ask, match_server, relay, query, keep, resolve_found, resolve,
}
use cppsong.Dns.Center.Cached.{resolve-again}
use cppsong.Dns.Message.{
  parse_dns_query, parse_dns_response, parse_labels, build_dns_query, encode_qname, encode_labels,
  write_label, find, skip_questions, read_answers, skip_name, skip_name_loop,
}

abbrev domain : Bytes
domain = b'a' ∷ []

-- The query of "a" for an IPv4 address.
abbrev packet : Bytes
packet =
    be16 7
    ++ (be16 0x0100
        ++ (be16 1 ++ (be16 0 ++ (be16 0 ++ (be16 0 ++ (1 ∷ b'a' ∷ 0 ∷ (be16 1 ++ be16 1)))))))

-- One answer, with the name at the root, and the address 1.2.3.4.
abbrev reply_bytes : Bytes
reply_bytes =
    0 ∷ 7 ∷ 0x81 ∷ 0x80 ∷ 0 ∷ 0 ∷ 0 ∷ 1 ∷ 0 ∷ 0 ∷ 0 ∷ 0 ∷ 0 ∷ 0 ∷ 1 ∷ 0 ∷ 1 ∷ 0 ∷ 0 ∷ 0 ∷ 60 ∷ 0 ∷ 4
    ∷ 1 ∷ 2 ∷ 3 ∷ 4 ∷ []

abbrev server : DnsServer
server _ = ok reply_bytes

abbrev address : Bytes
address = 1 ∷ 2 ∷ 3 ∷ 4 ∷ []

abbrev itself : Bytes → Bytes
itself v = v

abbrev center : DnsCenter Bytes Bytes
center = record { rules = []; servers = (b's' ∷ [], server) ∷ []; final = b's' ∷ []; cache = [] }

abbrev unchanged : Entries Bytes → Entries Bytes
unchanged e = e

resolve_runs : (resolve bytes_eq itself itself 7 0 1 unchanged center domain).1 ≡ ok (address ∷ [])
unfolding resolve resolve_found lookup touch found_ips find_item store query keep relay match_server
    find_server ask bytes_eq parse_dns_query parse_labels at string_at build_dns_query encode_qname
    encode_labels write_label write_u8 write_u16 find parse_dns_response skip_questions read_answers
    skip_name skip_name_loop read_u16 read_u8
resolve_runs = refl

-- Behind it, the addresses are there without rules and servers.
abbrev bare : DnsCenter Bytes Bytes
bare = record {
  rules = [];
  servers = [];
  final = [];
  cache = (resolve bytes_eq itself itself 7 0 1 unchanged center domain).0;
}

resolve-again_example :
    resolve bytes_eq itself itself 8 2 3 unchanged bare domain
    ≡ (touch 2 domain bare.cache, ok (address ∷ []))
resolve-again_example =
    resolve-again bytes_eq itself itself 7 0 1 unchanged center bare domain address [] 8 2 3
      unchanged resolve_runs refl
