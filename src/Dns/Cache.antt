-- ===== src/Dns/Cache.antt =====
-- src/dns/cache.cpp: the addresses of the domains asked for. The map is a list of entries; a call
-- takes the reading of the steady clock, in nanoseconds.
pub mod Entries
pub mod Refines
mod Examples
use cppsong.Base.{
  ℕ, ◌-◌, ◌*◌, Bool, List, [], ◌∷◌, Bytes, Option, none, some, ltb, bytes_eq, if◌then◌else◌,
}

pub record DnsCacheItem (Ip : Type 0) : Type 0 where
  pub last_access : ℕ
  pub ips : List Ip

-- `std::chrono::hours expTime_{1}`
abbrev pub exp_time : ℕ
exp_time = 3600000000000

abbrev pub Entries : Type 0 → Type 0
Entries Ip = List (Bytes × DnsCacheItem Ip)

module _ {Ip : Type 0} where
  -- `data_.find(domain)`
  unfoldable pub find_item : Bytes → Entries Ip → Option (DnsCacheItem Ip)
  find_item domain [] = none
  find_item domain ((key, item) ∷ rest) =
      let next = find_item domain rest in if bytes_eq key domain then some item else next

  -- `it->second.lastAccess = now`
  unfoldable pub touch : ℕ → Bytes → Entries Ip → Entries Ip
  touch now domain [] = []
  touch now domain ((key, item) ∷ rest) =
      let next = touch now domain rest in
      if bytes_eq key domain
      then (key, record item { last_access = now }) ∷ rest
      else (key, item) ∷ next

  unfoldable pub found_ips : Option (DnsCacheItem Ip) → List Ip
  found_ips none = []
  found_ips (some item) = item.ips

  unfoldable pub lookup : ℕ → Bytes → Entries Ip → Entries Ip × List Ip
  unfolding find_item touch found_ips
  lookup now domain entries = (touch now domain entries, found_ips (find_item domain entries))

  -- `data_[domain] = {now, ips}`
  unfoldable pub store : ℕ → Bytes → List Ip → Entries Ip → Entries Ip
  store now domain ips [] = (domain, record { last_access = now; ips = ips }) ∷ []
  store now domain ips ((key, item) ∷ rest) =
      let next = store now domain ips rest in
      if bytes_eq key domain
      then (key, record { last_access = now; ips = ips }) ∷ rest
      else (key, item) ∷ next

  -- A steady clock does not go back, so that the difference is not negative.
  pub is_expired : ℕ → DnsCacheItem Ip → Bool
  is_expired now item = ltb exp_time (now - item.last_access)

  -- One round of `mainWork_`, after the timer.
  unfoldable pub sweep : ℕ → Entries Ip → Entries Ip
  unfolding is_expired
  sweep now [] = []
  sweep now ((key, item) ∷ rest) =
      let next = sweep now rest in if is_expired now item then next else (key, item) ∷ next

-- The calls of the center and the rounds of the sweep, each with its time.
pub data CacheCall (Ip : Type 0) : Type 0 where
  lookup_call : ℕ → Bytes → CacheCall Ip
  store_call : ℕ → Bytes → List Ip → CacheCall Ip
  sweep_call : ℕ → CacheCall Ip

module _ {Ip : Type 0} where
  -- What the lookups give, in order.
  unfoldable pub run_cache : List (CacheCall Ip) → Entries Ip → List (List Ip)
  run_cache [] entries = []
  run_cache (lookup_call now domain ∷ calls) entries =
      (lookup now domain entries).1 ∷ run_cache calls (lookup now domain entries).0
  run_cache (store_call now domain ips ∷ calls) entries =
      run_cache calls (store now domain ips entries)
  run_cache (sweep_call now ∷ calls) entries = run_cache calls (sweep now entries)
