-- ===== src/Dns/Cache/Entries.antt =====
-- Each operation of the cache, seen through `find_item`: the list of entries is a map.
use cppsong.Base.{
  ◌+◌, ◌-◌, ◌*◌, leb, arith, ltb→lt, ltb→ge, gt→leb, le→leb, true, ℕ, ◌≡◌, refl, sym, ap, ◌∙◌, true,
  false, List, [], ◌∷◌, Bytes, Option, none, some, bytes_eq, bytes_eq_iff, Bool-cases, inl, inr,
  if◌then◌else◌,
}
use cppsong.Dns.Cache.{exp_time, DnsCacheItem, Entries, find_item, touch, store, is_expired, sweep}

-- The key is the domain that is changed, the one that is looked for, or neither.
keys_apart :
    (key domain other : Bytes)
    → bytes_eq key domain ≡ false
    → bytes_eq key other ≡ true
    → bytes_eq domain other ≡ false
keys_apart key domain other unequal equal = elim (Bool-cases (bytes_eq domain other)) [
  | inl same ↦ absurd (
      cc (
        unequal,
        (bytes_eq_iff key domain).1
            ((bytes_eq_iff key other).0 equal ∙ sym ((bytes_eq_iff domain other).0 same)),
      ))
  | inr differ ↦ differ
]

module _ {Ip : Type 0} where
  -- No domain has two entries.
  abbrev pub Distinct : Entries Ip → Type 0
  Distinct [] = Unit
  Distinct ((key, item) ∷ rest) = (find_item key rest ≡ none) × Distinct rest

  unfoldable pub touched : ℕ → Option (DnsCacheItem Ip) → Option (DnsCacheItem Ip)
  touched now none = none
  touched now (some item) = some (record item { last_access = now })

  -- What an hour without use forgets; the times are in nanoseconds.
  unfoldable pub kept : ℕ → Option (DnsCacheItem Ip) → Option (DnsCacheItem Ip)
  kept now none = none
  kept now (some item) =
      if leb now (item.last_access + 60 * 60 * 1000000000) then some item else none

  kept-expired :
      (now : ℕ) (item : DnsCacheItem Ip) → is_expired now item ≡ true → kept now (some item) ≡ none
  unfolding kept is_expired
  kept-expired now item old =
      rw
        (gt→leb now (item.last_access + 3600000000000)
          (omega (arith, ltb→lt exp_time (now - item.last_access) old)))
        refl

  pub kept-fresh :
      (now : ℕ) (item : DnsCacheItem Ip)
      → is_expired now item ≡ false
      → kept now (some item) ≡ some item
  unfolding kept is_expired
  kept-fresh now item new =
      rw
        (le→leb now (item.last_access + 3600000000000)
          (omega (arith, ltb→ge exp_time (now - item.last_access) new)))
        refl

  pub find_item-store :
      (now : ℕ) (domain other : Bytes) (ips : List Ip) (entries : Entries Ip)
      → find_item other (store now domain ips entries) ≡ (
          if bytes_eq domain other
          then some (record { last_access = now; ips = ips })
          else find_item other entries)
  unfolding find_item store
  find_item-store now domain other ips [] = refl
  find_item-store now domain other ips ((key, item) ∷ rest) =
      elim (Bool-cases (bytes_eq key domain)) [
        | inl same ↦
            let e = (bytes_eq_iff key domain).0 same in
            rw (same, e) (elim (Bool-cases (bytes_eq domain other)) [ inl a ↦ rw a | inr a ↦ rw a ])
        | inr apart ↦ rw apart (elim (Bool-cases (bytes_eq key other)) [
          | inl a ↦ rw (a, keys_apart key domain other apart a)
          | inr a ↦ rw a (find_item-store now domain other ips rest)
        ])
      ]

  pub find_item-touch :
      (now : ℕ) (domain other : Bytes) (entries : Entries Ip)
      → find_item other (touch now domain entries) ≡ (
          if bytes_eq domain other
          then touched now (find_item other entries)
          else find_item other entries)
  unfolding find_item touch touched
  find_item-touch now domain other [] = elim (Bool-cases (bytes_eq domain other)) [
    | inl a ↦ rw a
    | inr a ↦ rw a
  ]
  find_item-touch now domain other ((key, item) ∷ rest) = elim (Bool-cases (bytes_eq key domain)) [
    | inl same ↦
        let e = (bytes_eq_iff key domain).0 same in
        rw (same, e) (elim (Bool-cases (bytes_eq domain other)) [ inl a ↦ rw a | inr a ↦ rw a ])
    | inr apart ↦ rw apart (elim (Bool-cases (bytes_eq key other)) [
      | inl a ↦ rw (a, keys_apart key domain other apart a)
      | inr a ↦ rw a (find_item-touch now domain other rest)
    ])
  ]

  pub find_item-sweep :
      (now : ℕ) (other : Bytes) (entries : Entries Ip)
      → Distinct entries
      → find_item other (sweep now entries) ≡ kept now (find_item other entries)
  unfolding find_item sweep kept
  find_item-sweep now other [] distinct = refl
  find_item-sweep now other ((key, item) ∷ rest) (fresh, distinct) =
      let later = find_item-sweep now other rest distinct in
      elim (Bool-cases (bytes_eq key other)) [
        | inl a ↦ elim (Bool-cases (is_expired now item)) [
          | inl old ↦
              let e = (bytes_eq_iff key other).0 a in
              rw (old, a, kept-expired now item old)
                (later ∙ ap (kept now) (ap (λ (k : Bytes). find_item k rest) (sym e) ∙ fresh))
          | inr new ↦ rw (new, a, kept-fresh now item new) refl
        ]
        | inr a ↦ elim (Bool-cases (is_expired now item)) [
          | inl old ↦ rw (old, a) later
          | inr new ↦ rw (new, a) later
        ]
      ]
