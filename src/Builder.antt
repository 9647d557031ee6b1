-- ===== src/Builder.antt =====
-- src/common/builder.cpp: the parts of the program are built from the configuration. What the code
-- calls of Boost and of `std::regex` is a parameter.
pub mod Uuid
pub mod Rules
pub mod Dns
pub mod Outbound
pub mod Missing
pub mod Bounds
pub mod RuleSets
pub mod Routes
mod Examples
use cppsong.Base.{Bytes, Option, none, some}
use cppsong.Base.Outcome.{Outcome, ok, throw, invalid_regex, json_syntax}

-- `ip::make_address`, the constructor of `std::regex`, the files as
-- `read_file` takes them, and `json::parse`.
pub record BuilderApi (Regex Ip Value : Type 0) : Type 0 where
  pub make_address : Bytes → Option Ip
  pub make_regex : Bytes → Option Regex
  pub contents : Bytes → Option Bytes
  pub parse_json : Bytes → Option Value

abbrev pub valid_regex : {Regex : Type 0} → Option Regex → Outcome Regex
valid_regex none = throw invalid_regex
valid_regex (some regex) = ok regex

abbrev pub valid_json : {Value : Type 0} → Option Value → Outcome Value
valid_json none = throw json_syntax
valid_json (some value) = ok value
