-- ===== src/Dns/Center/Cached.antt =====
-- `DnsCenter::resolve` behind a `resolve` of the same domain.
use cppsong.Base.{
  ℕ, ◌≡◌, refl, ap, ◌∙◌, Bool, List, [], ◌∷◌, Bytes, Option, none, some, bytes_eq_self,
}
use cppsong.Base.Outcome.{Outcome, ok, throw, bad_index, bad_address, hang}
use cppsong.Dns.Cache.{DnsCacheItem, Entries, find_item, touch, found_ips, lookup}
use cppsong.Dns.Cache.Entries.{touched, find_item-store, find_item-touch}
use cppsong.Dns.Center.{DnsCenter, query, keep, resolve_found, resolve}

module _ {Ip : Type 0} where
  found_ips-touched :
      (now : ℕ) (item : Option (DnsCacheItem Ip)) → found_ips (touched now item) ≡ found_ips item
  unfolding found_ips touched
  found_ips-touched now none = refl
  found_ips-touched now (some item) = refl

  found_ips-touch :
      (now : ℕ) (domain : Bytes) (entries : Entries Ip)
      → found_ips (find_item domain (touch now domain entries))
        ≡ found_ips (find_item domain entries)
  found_ips-touch now domain entries =
      ap found_ips (find_item-touch now domain domain entries ∙ rw (bytes_eq_self domain) refl)
      ∙ found_ips-touched now (find_item domain entries)

  -- What the query gave is stored.
  found_ips-keep :
      (now : ℕ) (domain : Bytes) (entries : Entries Ip) (result : Outcome (List Ip)) (ips : List Ip)
      → (keep now domain entries result).1 ≡ ok ips
      → found_ips (find_item domain (keep now domain entries result).0) ≡ ips
  unfolding keep found_ips
  found_ips-keep now domain entries (ok ips') ips h =
      let same : ips' ≡ ips = cc h in
      rw (find_item-store now domain domain ips' entries, bytes_eq_self domain) same
  found_ips-keep now domain entries (throw e) ips h = absurd (cc h)
  found_ips-keep now domain entries (bad_index i) ips h = absurd (cc h)
  found_ips-keep now domain entries (bad_address i) ips h = absurd (cc h)
  found_ips-keep now domain entries hang ips h = absurd (cc h)

module _ {Regex Ip : Type 0} (regex_match : Regex → Bytes → Bool) (of_v4 of_v6 : Bytes → Ip) where
  found_ips-resolve :
      (random_id now later : ℕ) (meanwhile : Entries Ip → Entries Ip)
      → (center : DnsCenter Regex Ip) (domain : Bytes) (ips : List Ip)
      → (resolve regex_match of_v4 of_v6 random_id now later meanwhile center domain).1 ≡ ok ips
      → found_ips (
          find_item domain
            (resolve regex_match of_v4 of_v6 random_id now later meanwhile center domain).0)
        ≡ ips
  unfolding resolve resolve_found lookup
  found_ips-resolve random_id now later meanwhile center domain ips =
      by_hit (found_ips (find_item domain center.cache)) refl
    where
      entries : Entries Ip
      entries = touch now domain center.cache

      by_hit :
          (hit : List Ip)
          → found_ips (find_item domain center.cache) ≡ hit
          → (resolve_found regex_match of_v4 of_v6 random_id later meanwhile center domain entries
              hit).1
            ≡ ok ips
          → found_ips (
              find_item domain
                (resolve_found regex_match of_v4 of_v6 random_id later meanwhile center domain
                  entries hit).0)
            ≡ ips
      by_hit [] e h =
          found_ips-keep later domain (meanwhile entries)
            (query regex_match of_v4 of_v6 random_id center domain) ips h
      by_hit (ip ∷ more) e h = found_ips-touch now domain center.cache ∙ e ∙ cc h

  -- When `resolve` gave at least one address, a `resolve` of the same domain on the cache that it
  -- left gives the same addresses, whatever the rules and the servers are then and without a query:
  -- no server has to answer.
  pub resolve-again :
      (random_id now later : ℕ) (meanwhile : Entries Ip → Entries Ip)
      → (center next : DnsCenter Regex Ip) (domain : Bytes) (ip : Ip) (ips : List Ip)
      → (random_id' now' later' : ℕ) (meanwhile' : Entries Ip → Entries Ip)
      → (resolve regex_match of_v4 of_v6 random_id now later meanwhile center domain).1
        ≡ ok (ip ∷ ips)
      → next.cache ≡ (resolve regex_match of_v4 of_v6 random_id now later meanwhile center domain).0
      → resolve regex_match of_v4 of_v6 random_id' now' later' meanwhile' next domain
        ≡ (touch now' domain next.cache, ok (ip ∷ ips))
  unfolding resolve resolve_found lookup
  resolve-again random_id now later meanwhile center next domain ip ips random_id' now' later'
        meanwhile' h same =
      let found : found_ips (find_item domain next.cache) ≡ ip ∷ ips =
        ap (λ e. found_ips (find_item domain e)) same
        ∙ found_ips-resolve random_id now later meanwhile center domain (ip ∷ ips) h in
      ap
        (resolve_found regex_match of_v4 of_v6 random_id' later' meanwhile' next domain
          (touch now' domain next.cache))
        found
