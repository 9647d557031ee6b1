-- ===== src/Config/Examples.antt =====
-- Runs of src/config/config.cpp.
use cppsong.Base.{◌≡◌, refl, [], ◌∷◌, true, false, bytes_eq, arith}
use cppsong.Base.Outcome.{ok, throw, not_that_kind}
use cppsong.Base.Text.{codes}
use cppsong.Json.{get_bool}
use cppsong.Json.Tree.{
  member, no_members, string_value, bool_value, tree_api, tree_writer, tree_laws,
}
use cppsong.Config.Types.{
  TlsClientConfig, TlsServerConfig, DomainRuleConfig, UserPassConfig, AppConfig,
}
use cppsong.Config.Parse.{parse_tls_server_config, pares_app_config}
use cppsong.Config.Print.{print_app_config}
use cppsong.Config.RoundTrip.{Fits, pares_app_config-print}

-- A path for the key is a string, which `getBool` refuses.
key_path_throws :
    parse_tls_server_config tree_api (
      member
        (codes "enabled")
        (bool_value true)
        (member (codes "key_path") (string_value (codes "/k")) no_members))
    ≡ throw not_that_kind
unfolding parse_tls_server_config get_bool bytes_eq
key_path_throws = refl

abbrev unset : TlsServerConfig
unset = record { enabled = false; certificate_path = []; key_path = [] }

abbrev no_tls : TlsClientConfig
no_tls = record { enabled = false; insecure = false; server_name = [] }

abbrev nobody : UserPassConfig
nobody = record { username = []; password = [] }

abbrev ads : DomainRuleConfig
ads = record {
  domain = [];
  domain_suffix = codes "ads.example" ∷ codes "b" ∷ [];
  domain_keyword = [];
  domain_regex = [];
}

-- One inbound and one outbound, one rule and one server for names.
abbrev test_config : AppConfig
test_config = record {
  inbounds =
      record {
        tag = codes "in";
        type = codes "mixed";
        listen = codes "127.0.0.1";
        listen_port = 1080;
        users = nobody ∷ [];
        uuids = [];
        tls = unset;
        tun_ipv4 = [];
        tun_ipv6 = [];
        tun_next_ipv4 = [];
        tun_next_ipv6 = [];
      }
      ∷ [];
  outbounds =
      record {
        tag = codes "out";
        type = codes "direct";
        server = [];
        server_port = 65535;
        user = nobody;
        uuid = [];
        tls = no_tls;
        transport = record { type = codes "tcp"; path = []; host = [] };
      }
      ∷ [];
  router = record {
    rules =
        record {
          rule = record { domain_rule = ads; cidr = codes "10.0.0.0/8" ∷ [] };
          rule_set = [];
          outbound = codes "out";
        }
        ∷ [];
    rule_sets = [];
    final = codes "out";
  };
  dns = record {
    listen = [];
    listen_port = 0;
    servers =
        record {
          tag = codes "d";
          type = codes "udp";
          server = codes "1.1.1.1";
          server_port = 53;
          host = [];
          path = [];
          tls = no_tls;
        }
        ∷ [];
    rules = [];
    final = codes "d";
  };
}

test_config-Fits : Fits unset test_config
test_config-Fits = record {
  inbounds = ((omega arith, refl), tt);
  outbound_ports = (omega arith, tt);
  server_ports = (omega arith, tt);
  dns_port = omega arith;
}

pares_app_config-print_example :
    pares_app_config tree_api unset (print_app_config tree_writer test_config) ≡ ok test_config
pares_app_config-print_example =
    pares_app_config-print tree_api tree_writer tree_laws unset test_config test_config-Fits
