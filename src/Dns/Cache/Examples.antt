-- ===== src/Dns/Cache/Examples.antt =====
-- Runs of src/dns/cache.cpp. An address is a number here.
use cppsong.Base.{ℕ, ◌≡◌, refl, List, [], ◌∷◌, Bytes, none, bytes_eq}
use cppsong.Dns.Cache.{
  find_item, touch, found_ips, lookup, store, is_expired, sweep, CacheCall, lookup_call, store_call,
  sweep_call, run_cache,
}
use cppsong.Dns.Cache.Refines.{run_map, run_cache-run_map}

abbrev domain : Bytes
domain = b'a' ∷ []

-- A lookup half an hour after the store keeps the entry for another hour.
abbrev calls : List (CacheCall ℕ)
calls =
    lookup_call 0 domain
    ∷ store_call 0 domain (7 ∷ [])
    ∷ lookup_call 1800000000000 domain
    ∷ sweep_call 3600000000001
    ∷ lookup_call 3600000000002 domain
    ∷ sweep_call 7200000000003
    ∷ lookup_call 7200000000004 domain
    ∷ []

cache_runs : run_cache calls [] ≡ [] ∷ (7 ∷ []) ∷ (7 ∷ []) ∷ [] ∷ []
unfolding run_cache lookup touch found_ips find_item store is_expired sweep bytes_eq
cache_runs = refl

run_cache-run_map_example : run_cache calls [] ≡ run_map calls (λ _. none)
run_cache-run_map_example = run_cache-run_map calls
