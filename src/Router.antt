-- ===== src/Router.antt =====
-- src/router: networks, rules and the choice of an outbound.
-- `std::regex` is a type parameter with its match; a character or a byte read at an index is `at`.
pub mod Network
pub mod Cidr
pub mod Any
pub mod Suffix
pub mod Substring
pub mod Domain
pub mod Choice
mod Examples
use cppsong.Base.{
  ℕ, zero, suc, ◌+◌, ◌-◌, ◌*◌, ◌/◌, ◌%◌, ◌^◌, bit_and, Bool, true, false, not, ◌&&◌, ◌||◌, List, [],
  ◌∷◌, Bytes, ltb, leb, ◌==◌, bytes_eq, if◌then◌else◌,
}
use cppsong.Base.Lists.{length, take, drop}
use cppsong.Base.Outcome.{Outcome, ok, ◌>>=◌, at}
use cppsong.Ip.{IpApi, Host, domain_name, ip_address, Address}

-- `a != b`
abbrev pub differ : Bool → Bool → Bool
differ true b = not b
differ false b = b

pub record IpNetwork (Ip : Type 0) : Type 0 where
  pub network : Ip
  pub prefix : ℕ

-- `for (i …) if (net[i] != ipAddr[i]) return false;`, for `n` rounds from `i`; true is the loop's end.
pub same_bytes : ℕ → ℕ → Bytes → Bytes → Outcome Bool
same_bytes zero i net ip_addr = ok true
same_bytes (suc n) i net ip_addr = do
  a ← at net i
  b ← at ip_addr i
  let next = same_bytes n (i + 1) net ip_addr
  if not (a == b) then ok false else next

module _ {Ip : Type 0} (api : IpApi Ip) where
  -- The branch `network.is_v4()`. Both values are read from `network`.
  pub contains_v4 : IpNetwork Ip → Bool
  contains_v4 n =
      let net = api.to_uint n.network in
      let ip_addr = api.to_uint n.network in
      let mask = 0xffffffff * 2 ^ (32 - n.prefix) % 2 ^ 32 in
      if ltb 32 n.prefix
      then false
      else if n.prefix == 0
      then true
      else bit_and net mask == bit_and ip_addr mask

  -- The rest of the function. Both values are read from `network`.
  pub contains_v6 : IpNetwork Ip → Outcome Bool
  contains_v6 n =
      let net = api.to_bytes n.network in
      let ip_addr = api.to_bytes n.network in
      let full_bytes = n.prefix / 8 in
      let bits = n.prefix % 8 in
      let mask = 0xff * 2 ^ (8 - bits) % 2 ^ 32 in
      let last = (do
        a ← at net full_bytes
        b ← at ip_addr full_bytes
        if not (bit_and a mask == bit_and b mask) then ok false else ok true) in
      do
        same ← same_bytes full_bytes 0 net ip_addr
        if not same then ok false else if not (bits == 0) then last else ok true

  unfoldable pub contains : IpNetwork Ip → Ip → Outcome Bool
  unfolding contains_v4 contains_v6
  contains n addr =
      if differ (api.is_v4 n.network) (api.is_v4 addr)
      then ok false
      else if api.is_v4 n.network
      then ok (contains_v4 n)
      else contains_v6 n

pub record DomainRule (Regex : Type 0) : Type 0 where
  pub domain : List Bytes
  pub domain_suffix : List Bytes
  pub domain_keyword : List Bytes
  pub domain_regex : List Regex

-- `for (item : items) if (test(item)) return true;`
pub any : {A : Type 0} → (A → Outcome Bool) → List A → Outcome Bool
any test [] = ok false
any test (x ∷ xs) = do found ← test x; let next = any test xs; if found then ok true else next

-- `domain.compare(domain.size() - item.size(), item.size(), item) == 0`
abbrev pub ends_with : Bytes → Bytes → Bool
ends_with domain item =
    bytes_eq (take (length item) (drop (length domain - length item) domain)) item

-- The test of one suffix.
unfoldable pub suffix_matches : Bytes → Bytes → Outcome Bool
suffix_matches domain item =
    let at_dot = (do c ← at domain (length domain - length item - 1); ok (c == b'.')) in
    if leb (length item) (length domain) && ends_with domain item
    then (if length domain == length item then ok true else at_dot)
    else ok false

-- Whether `item` stands at the front of a text.
unfoldable pub starts_with : Bytes → Bytes → Bool
starts_with [] v = true
starts_with (x ∷ xs) [] = false
starts_with (x ∷ xs) (y ∷ ys) = x == y && starts_with xs ys

-- `domain.find(item) != npos`
pub has_substring : Bytes → Bytes → Bool
unfolding starts_with
has_substring item [] = starts_with item []
has_substring item (c ∷ cs) = starts_with item (c ∷ cs) || has_substring item cs

module _ {Regex : Type 0} (regex_match : Regex → Bytes → Bool) where
  unfoldable pub match_domain : DomainRule Regex → Bytes → Outcome Bool
  match_domain rule domain = do
    equal ← any (λ item. ok (bytes_eq domain item)) rule.domain
    let by_regex = any (λ item. ok (regex_match item domain)) rule.domain_regex
    let by_keyword = (do
      keyword ← any (λ item. ok (has_substring item domain)) rule.domain_keyword
      if keyword then ok true else by_regex)
    let by_suffix = (do
      suffix ← any (suffix_matches domain) rule.domain_suffix
      if suffix then ok true else by_keyword)
    if equal then ok true else by_suffix

pub record Rule (Regex Ip : Type 0) : Type 0 where
  pub domain_rule : DomainRule Regex
  pub cidr : List (IpNetwork Ip)

pub record RouteRule (Regex Ip : Type 0) : Type 0 where
  pub rules : List (Rule Regex Ip)
  pub outbound : Bytes

pub record Router (Regex Ip : Type 0) : Type 0 where
  pub rules : List (RouteRule Regex Ip)
  pub final : Bytes

module _ {Regex Ip : Type 0} (regex_match : Regex → Bytes → Bool) (api : IpApi Ip) where
  -- `Rule::match`
  pub rule_match_host : Rule Regex Ip → Host Ip → Outcome Bool
  rule_match_host rule (domain_name value) = match_domain regex_match rule.domain_rule value
  rule_match_host rule (ip_address value) = any (λ item. contains api item value) rule.cidr

  abbrev pub rule_match : Rule Regex Ip → Address Ip → Outcome Bool
  rule_match rule address = rule_match_host rule address.address

  -- The loops of `Router::match`.
  pub match_rules : List (RouteRule Regex Ip) → Bytes → Address Ip → Outcome Bytes
  match_rules [] final address = ok final
  match_rules (item ∷ items) final address = do
    found ← any (λ i. rule_match i address) item.rules
    let next = match_rules items final address
    if found then ok item.outbound else next

  unfoldable pub router_match : Router Regex Ip → Address Ip → Outcome Bytes
  unfolding match_rules
  router_match router address = match_rules router.rules router.final address
