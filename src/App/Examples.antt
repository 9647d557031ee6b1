-- ===== src/App/Examples.antt =====
-- Sessions of src/common/app.cpp, with one route rule and two outbounds, which are numbers.
use cppsong.Base.{
  arith, List, false, inl, inr, ◌++◌, ℕ, ◌≡◌, refl, [], ◌∷◌, Bytes, none, some, bytes_eq,
  bytes_eq_iff, true, ◌==◌,
}
use cppsong.Base.Lists.{length, replicate}
use cppsong.Base.Outcome.{Outcome, ok, throw, end_of_stream, ◌>>=◌}
use cppsong.Base.Text.{codes}
use cppsong.App.{
  Outbounds, relayed, caught, null_called, outbound_of, set_outbound, add_outbounds, handle_session,
}
use cppsong.App.Known.{IsKnown}
use cppsong.App.Dispatch.{Dispatched, handle_session-hello}
use cppsong.App.Missing.{start_config-null_called}
use cppsong.Router.Any.{Some}
use cppsong.Router.Choice.{chosen_final}
use cppsong.App.Proxy.{handle_session-vless}
use cppsong.App.Start.{IsClosed, Started, start_config}
use cppsong.App.Work.{inbound_work, EachDispatched, inbound_work-EachDispatched}
use cppsong.Builder.{BuilderApi}
use cppsong.Builder.Dns.{ServerSpec, build_servers, build_dns_rules, build_dns_center}
use cppsong.Builder.Outbound.{
  Transport, tcp_transport, vless_outbound, Outbound, direct_outbound, build_transport,
  build_outbound,
}
use cppsong.Builder.Rules.{
  each, append_rule_sets, build_domain_rule, build_rule, build_route_rule, build_router,
  load_rule_sets,
}
use cppsong.Connection.Memory.{Memory, in_memory, memory_stream}
use cppsong.Config.Types.{OutboundConfig, AppConfig}
use cppsong.Dns.Center.{DnsServer}
use cppsong.Json.Tree.{Json, tree_api}
use cppsong.Inbound.{Session}
use cppsong.Inbound.Socks.{name}
use cppsong.Outbound.{IpBytes}
use cppsong.Outbound.Connect.{outbound_connect}
use cppsong.Outbound.Request.{parse_request}
use cppsong.Ip.{IpApi, IpLaws, Address, ip_address, domain_name}
use cppsong.Router.{Router, router_match}
use cppsong.Sniff.{sniff_domain}
use cppsong.Sniff.Examples.{hello, hello-IsWellFormed}
use cppsong.Sniff.Format.{encode}

abbrev test_api : IpApi Bytes
test_api = record { is_v4 = λ a. length a == 4; to_uint = λ a. 0; to_bytes = λ a. replicate 16 0 }

test_laws : IpLaws test_api
test_laws = record { to_bytes_size = λ a. refl }

abbrev test_builder : BuilderApi Bytes Bytes Json
test_builder = record {
  make_address = λ text. none;
  make_regex = some;
  contents = some;
  parse_json = λ content. none;
}

abbrev test_serve : ServerSpec Bytes → DnsServer
test_serve server query = throw end_of_stream

-- The domain "a.b" goes through the outbound "p", all else through "d".
abbrev router : Router Bytes Bytes
router = record {
  rules =
      (record {
        rules =
            (record {
              domain_rule = record {
                domain = codes "a.b" ∷ [];
                domain_suffix = [];
                domain_keyword = [];
                domain_regex = [];
              };
              cidr = [];
            })
            ∷ [];
        outbound = codes "p";
      })
      ∷ [];
  final = codes "d";
}

abbrev outbounds : Outbounds ℕ
outbounds = (codes "p", some 1) ∷ (codes "d", some 2) ∷ []

-- The remote end is the number of the outbound, and every relay ends with the stream.
abbrev connect : ℕ → Session Bytes → Outcome ℕ
connect o session = ok o

abbrev relay : ℕ → ℕ → Outcome (Unit {0})
relay conn remote = throw end_of_stream

abbrev session : Bytes → Session Bytes
session first_data = record {
  address = record { address = ip_address (10 ∷ 1 ∷ 1 ∷ 1 ∷ []); port = 443 };
  first_data = first_data;
}

p-IsKnown : IsKnown outbounds (codes "p")
unfolding outbound_of bytes_eq
p-IsKnown = record { outbound = 1; found = refl }

d-IsKnown : IsKnown outbounds (codes "d")
unfolding outbound_of bytes_eq
d-IsKnown = record { outbound = 2; found = refl }

handle_session-hello_example :
    Dispatched bytes_eq test_api connect relay router outbounds 0
      (record {
        address = record { address = domain_name hello.host; port = 443 };
        first_data = encode hello [];
      })
      (handle_session bytes_eq test_api connect relay router outbounds 0
        (session (encode hello [])))
handle_session-hello_example =
    handle_session-hello bytes_eq test_api connect relay router outbounds 0
      (session (encode hello [])) hello [] test_laws ((tt, tt), tt) d-IsKnown (p-IsKnown, tt)
      hello-IsWellFormed refl

abbrev no_rules : Router Bytes Bytes
no_rules = record { rules = []; final = codes "d" }

-- A configuration with one outbound, "d", and a route to it.
abbrev direct_config : OutboundConfig
direct_config = record {
  tag = codes "d";
  type = codes "direct";
  server = [];
  server_port = 0;
  user = record { username = []; password = [] };
  uuid = [];
  tls = record { enabled = false; insecure = false; server_name = [] };
  transport = record { type = []; path = []; host = [] };
}

abbrev config : AppConfig
config = record {
  inbounds = [];
  outbounds = direct_config ∷ [];
  router = record {
    rules =
        (record {
          rule = record {
            domain_rule = record {
              domain = codes "a.b" ∷ [];
              domain_suffix = [];
              domain_keyword = [];
              domain_regex = [];
            };
            cidr = [];
          };
          rule_set = [];
          outbound = codes "d";
        })
        ∷ [];
    rule_sets = [];
    final = codes "d";
  };
  dns = record { listen = []; listen_port = 0; servers = []; rules = []; final = [] };
}

config-IsClosed : IsClosed test_builder test_api tree_api test_serve config
config-IsClosed = record { rules_known = (inl refl, tt); final_known = inl refl }

abbrev started : Started Bytes Bytes
started = record {
  dns_endpoint = none;
  dns_center = record { rules = []; servers = []; final = []; cache = [] };
  router = record {
    rules =
        (record {
          rules =
              (record {
                domain_rule = record {
                  domain = codes "a.b" ∷ [];
                  domain_suffix = [];
                  domain_keyword = [];
                  domain_regex = [];
                };
                cidr = [];
              })
              ∷ [];
          outbound = codes "d";
        })
        ∷ [];
    final = codes "d";
  };
  outbounds = (codes "d", some direct_outbound) ∷ [];
  inbounds = [];
}

config_starts : start_config test_builder test_api tree_api test_serve config ≡ ok started
unfolding start_config load_rule_sets build_dns_center build_servers build_dns_rules build_router
    build_route_rule build_rule build_domain_rule append_rule_sets each add_outbounds set_outbound
    build_outbound build_transport bytes_eq
config_starts = refl

abbrev connect_outbound : Outbound Bytes → Session Bytes → Outcome ℕ
connect_outbound outbound session = ok 0

-- The same with a final outbound that is not configured, and without rules.
abbrev missing_config : AppConfig
missing_config = record config { router = record { rules = []; rule_sets = []; final = codes "p" } }

abbrev missing_started : Started Bytes Bytes
missing_started = record started { router = record { rules = []; final = codes "p" } }

missing_starts :
    start_config test_builder test_api tree_api test_serve missing_config ≡ ok missing_started
unfolding start_config load_rule_sets build_dns_center build_servers build_dns_rules build_router
    each add_outbounds set_outbound build_outbound build_transport bytes_eq
missing_starts = refl

not_p : Some (λ (item : OutboundConfig). item.tag ≡ codes "p") missing_config.outbounds → ⊥
unfolding bytes_eq
not_p (inl same) =
    let e : false ≡ true = (bytes_eq_iff (codes "d") (codes "p")).1 same in absurd (cc e)
not_p (inr found) = found

start_config-null_called_example :
    handle_session bytes_eq test_api connect_outbound relay missing_started.router
      missing_started.outbounds 0
      (session (1 ∷ []))
    ≡ (ok null_called, missing_started.outbounds ++ (codes "p", none) ∷ [])
unfolding sniff_domain
start_config-null_called_example =
    start_config-null_called test_builder test_api tree_api test_serve bytes_eq connect_outbound
      relay missing_config missing_started 0 (session (1 ∷ [])) [] (codes "p") test_laws
      missing_starts refl chosen_final not_p

-- Two clients, of which neither starts with TLS.
abbrev two_sessions : List (ℕ × Session Bytes)
two_sessions = (0, session (1 ∷ [])) ∷ (0, session (2 ∷ [])) ∷ []

inbound_work-EachDispatched_example :
    ((inbound_work bytes_eq test_api connect_outbound relay started.router started.outbounds
        two_sessions).1
      ≡ started.outbounds)
    × EachDispatched bytes_eq test_api connect_outbound relay started.router started.outbounds
        two_sessions
        (inbound_work bytes_eq test_api connect_outbound relay started.router started.outbounds
          two_sessions).0
unfolding sniff_domain
inbound_work-EachDispatched_example =
    inbound_work-EachDispatched test_builder test_api tree_api test_serve bytes_eq connect_outbound
      relay config started two_sessions test_laws config-IsClosed config_starts
      (([], refl), (([], refl), tt))

-- A VLESS outbound, whose server answers with two zeros and one byte more.
abbrev test_bytes : IpBytes Bytes
test_bytes = record { is_v4 = λ a. length a == 4; v4_bytes = λ a. a; v6_bytes = λ a. a }

abbrev vless_server : Memory
vless_server = record { pending = 0 ∷ 0 ∷ 7 ∷ []; told = [] }

abbrev test_dial : Transport → Address Bytes → Outcome Memory
test_dial transport address = ok vless_server

abbrev test_uuid : Bytes
test_uuid = replicate 16 5

abbrev vless_address : Address Bytes
vless_address = record { address = domain_name (codes "v"); port = 443 }

abbrev vless_outbounds : Outbounds (Outbound Bytes)
vless_outbounds = (codes "d", some (vless_outbound tcp_transport vless_address test_uuid)) ∷ []

abbrev relay_memory : ℕ → Memory → Outcome (Unit {0})
relay_memory client remote = ok tt

known_tag :
    router_match bytes_eq test_api no_rules
      (record { address = domain_name hello.host; port = 443 })
    ≡ ok (codes "d")
unfolding router_match
known_tag = refl

known_vless :
    outbound_of (codes "d") vless_outbounds
    ≡ (some (vless_outbound tcp_transport vless_address test_uuid), vless_outbounds)
unfolding outbound_of bytes_eq
known_vless = refl

handle_session-vless_example :
    (request : Bytes) × (remote : Memory) × (handle_session bytes_eq test_api
        (outbound_connect in_memory test_bytes test_dial)
        relay_memory
        no_rules
        vless_outbounds
        0
        (session (encode hello []))
      ≡ (caught (relay_memory 0 remote >>= λ done. ok relayed), vless_outbounds))
    × (remote.told ≡ request)
    × (parse_request request
        ≡ some (record {
          uuid = test_uuid;
          target = name hello.host;
          port = 443;
          payload = encode hello [];
        }))
    × (remote.pending ≡ 7 ∷ [])
unfolding memory_stream
handle_session-vless_example =
    handle_session-vless bytes_eq test_api test_bytes in_memory memory_stream test_dial relay_memory
      no_rules vless_outbounds 0 (session (encode hello [])) hello [] (codes "d") tcp_transport
      vless_address test_uuid vless_server (7 ∷ []) hello-IsWellFormed refl (omega arith)
      (omega arith) refl known_tag known_vless refl refl
