-- ===== src/Dns/Cache/Refines.antt =====
-- The cache against a map from domains to entries, as a function.
use cppsong.Base.{
  ℕ, ◌≡◌, refl, sym, ap, ap₂, ◌∙◌, false, List, [], ◌∷◌, Bytes, Option, none, some, bytes_eq,
  bytes_eq_iff, Bool-cases, inl, inr, if◌then◌else◌,
}
use cppsong.Dns.Cache.{
  DnsCacheItem, Entries, find_item, touch, found_ips, found_ips, lookup, store, is_expired, sweep,
  CacheCall, lookup_call, store_call, sweep_call, run_cache,
}
use cppsong.Dns.Cache.Entries.{
  Distinct, touched, kept, find_item-store, find_item-touch, find_item-sweep,
}

abbrev pub CacheMap : Type 0 → Type 0
CacheMap Ip = Bytes → Option (DnsCacheItem Ip)

module _ {Ip : Type 0} where
  -- The same calls on the map: a lookup renews the time of its entry, a store replaces one, and a
  -- round of the sweep forgets, of every domain, an entry not used for longer than the hour.
  unfoldable pub run_map : List (CacheCall Ip) → CacheMap Ip → List (List Ip)
  run_map [] m = []
  run_map (lookup_call now domain ∷ calls) m =
      elim (m domain) [ none ↦ [] | some item ↦ item.ips ]
      ∷ run_map calls (λ other. if bytes_eq domain other then touched now (m other) else m other)
  run_map (store_call now domain ips ∷ calls) m = run_map calls (λ other.
      if bytes_eq domain other then some (record { last_access = now; ips = ips }) else m other)
  run_map (sweep_call now ∷ calls) m = run_map calls (λ other. kept now (m other))

  fresh-store :
      (now : ℕ) (key domain : Bytes) (ips : List Ip) (rest : Entries Ip)
      → bytes_eq key domain ≡ false
      → find_item key rest ≡ none
      → find_item key (store now domain ips rest) ≡ none
  fresh-store now key domain ips rest apart fresh =
      find_item-store now domain key ips rest ∙ rw (swapped apart, fresh) refl
    where
      swapped : bytes_eq key domain ≡ false → bytes_eq domain key ≡ false
      swapped h = elim (Bool-cases (bytes_eq domain key)) [
        | inl same ↦
            absurd (cc (h, (bytes_eq_iff key domain).1 (sym ((bytes_eq_iff domain key).0 same))))
        | inr differ ↦ differ
      ]

  store-Distinct :
      (now : ℕ) (domain : Bytes) (ips : List Ip) (entries : Entries Ip)
      → Distinct entries
      → Distinct (store now domain ips entries)
  unfolding store find_item
  store-Distinct now domain ips [] _ = (refl, tt)
  store-Distinct now domain ips ((key, item) ∷ rest) (fresh, distinct) =
      elim (Bool-cases (bytes_eq key domain)) [
        | inl same ↦ rw same (fresh, distinct)
        | inr apart ↦ rw apart (
          fresh-store now key domain ips rest apart fresh,
          store-Distinct now domain ips rest distinct,
        )
      ]

  touch-Distinct :
      (now : ℕ) (domain : Bytes) (entries : Entries Ip)
      → Distinct entries
      → Distinct (touch now domain entries)
  unfolding touch touched
  touch-Distinct now domain [] _ = tt
  touch-Distinct now domain ((key, item) ∷ rest) (fresh, distinct) =
      elim (Bool-cases (bytes_eq key domain)) [
        | inl same ↦ rw same (fresh, distinct)
        | inr apart ↦ rw apart (
          find_item-touch now domain key rest ∙ elim (Bool-cases (bytes_eq domain key)) [
            | inl a ↦ rw (a, fresh)
            | inr a ↦ rw a fresh
          ],
          touch-Distinct now domain rest distinct,
        )
      ]

  sweep-Distinct :
      (now : ℕ) (entries : Entries Ip) → Distinct entries → Distinct (sweep now entries)
  unfolding sweep kept
  sweep-Distinct now [] _ = tt
  sweep-Distinct now ((key, item) ∷ rest) (fresh, distinct) =
      elim (Bool-cases (is_expired now item)) [
        | inl old ↦ rw old (sweep-Distinct now rest distinct)
        | inr new ↦ rw new (
          find_item-sweep now key rest distinct ∙ ap (kept now) fresh,
          sweep-Distinct now rest distinct,
        )
      ]

  run_cache-Refines :
      (calls : List (CacheCall Ip)) (entries : Entries Ip) (m : CacheMap Ip)
      → Distinct entries
      → ((other : Bytes) → find_item other entries ≡ m other)
      → run_cache calls entries ≡ run_map calls m
  unfolding run_cache run_map lookup found_ips
  run_cache-Refines [] entries m distinct same = refl
  run_cache-Refines (lookup_call now domain ∷ calls) entries m distinct same =
      ap₂ ◌∷◌ (ap (λ r. elim r [ none ↦ [] | some item ↦ item.ips ]) (same domain)) (
        run_cache-Refines calls (touch now domain entries) _
          (touch-Distinct now domain entries distinct)
          (λ other.
            find_item-touch now domain other entries
            ∙ ap (λ r. if bytes_eq domain other then touched now r else r) (same other)))
  run_cache-Refines (store_call now domain ips ∷ calls) entries m distinct same =
      run_cache-Refines calls (store now domain ips entries) _
        (store-Distinct now domain ips entries distinct)
        (λ other.
          find_item-store now domain other ips entries
          ∙ ap
              (λ r.
                if bytes_eq domain other then some (record { last_access = now; ips = ips }) else r)
              (same other))
  run_cache-Refines (sweep_call now ∷ calls) entries m distinct same =
      run_cache-Refines calls (sweep now entries) _ (sweep-Distinct now entries distinct)
        (λ other. find_item-sweep now other entries distinct ∙ ap (kept now) (same other))

  -- For any calls and rounds of the sweep on an empty cache, the lookups give what they give on
  -- the map from domains to entries, in which a lookup renews the time of its entry, a store
  -- replaces it, and a round of the sweep forgets an entry when more than 3,600,000,000,000
  -- nanoseconds have gone by since its time, and only then.
  pub run_cache-run_map :
      (calls : List (CacheCall Ip)) → run_cache calls [] ≡ run_map calls (λ _. none)
  unfolding find_item
  run_cache-run_map calls = run_cache-Refines calls [] (λ _. none) tt (λ other. refl)
