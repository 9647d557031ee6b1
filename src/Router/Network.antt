-- ===== src/Router/Network.antt =====
-- `IpNetwork::contains` on the networks that the program builds: what it answers depends on the
-- family of the address alone.
use cppsong.Base.{
  ◌≢◌, ◌*◌, ◌-◌, ◌^◌, ℕ, zero, suc, ◌+◌, ◌/◌, ◌%◌, ◌≤◌, ◌≡◌, refl, ap, true, false, not, Bytes,
  ge→ltb, ◌==◌, ==_self, bit_and, arith, Bool-cases, inl, inr,
}
use cppsong.Base.Lists.{length, get_elem?-lt}
use cppsong.Base.Outcome.{ok, at}
use cppsong.Ip.{IpApi, IpLaws}
use cppsong.Router.{IpNetwork, differ, same_bytes, contains_v4, contains_v6, contains}

same_bytes_self : (n i : ℕ) (v : Bytes) → i + n ≤ length v → same_bytes n i v v ≡ ok true
unfolding same_bytes at
same_bytes_self zero i v h = refl
same_bytes_self (suc n) i v h =
    let (b, e) = get_elem?-lt v i (omega arith) in
    rw (e, at, ==_self b) (same_bytes_self n (i + 1) v (omega arith))

module _ {Ip : Type 0} (api : IpApi Ip) where
  -- The prefix fits the family, as `parseCidr` sees to.
  pub record PrefixFits (n : IpNetwork Ip) : Type 0 where
    pub v4_fits : api.is_v4 n.network ≡ true → n.prefix ≤ 32
    pub v6_fits : api.is_v4 n.network ≡ false → n.prefix ≤ 128

  contains_v4-true : (n : IpNetwork Ip) → n.prefix ≤ 32 → contains_v4 api n ≡ true
  unfolding contains_v4
  contains_v4-true n h = rw (ge→ltb 32 n.prefix h) (ground arith)

  contains_v6-true : (n : IpNetwork Ip) → IpLaws api → n.prefix ≤ 128 → contains_v6 api n ≡ ok true
  unfolding contains_v6 at
  contains_v6-true n laws h =
      let v = api.to_bytes n.network in
      rw (same_bytes_self (n.prefix / 8) 0 v (omega (arith, laws.to_bytes_size n.network)))
        (elim (Bool-cases (n.prefix % 8 == 0)) [
          | inl whole ↦ rw whole
          | inr part ↦
              let nonzero : n.prefix % 8 ≢ 0 = λ e. cc (rw e at part) in
              let (b, e) =
                get_elem?-lt v (n.prefix / 8) (omega (arith, laws.to_bytes_size n.network)) in
              rw (part, e, at, ==_self (bit_and b (0xff * 2 ^ (8 - n.prefix % 8) % 2 ^ 32)))
        ])

  -- `contains` compares the network with itself: on a network whose prefix fits, it answers true
  -- for every address of the network's family, whatever its bits are, and false for the others.
  pub contains-same_family :
      (n : IpNetwork Ip) (addr : Ip)
      → IpLaws api
      → PrefixFits n
      → contains api n addr ≡ ok (not (differ (api.is_v4 n.network) (api.is_v4 addr)))
  unfolding contains
  contains-same_family n addr laws fits =
      elim (Bool-cases (differ (api.is_v4 n.network) (api.is_v4 addr))) [
        | inl other ↦ rw other
        | inr same ↦ rw same (elim (Bool-cases (api.is_v4 n.network)) [
          | inl v4 ↦ rw v4 (ap ok (contains_v4-true n (fits.v4_fits v4)))
          | inr v6 ↦ rw v6 (contains_v6-true n laws (fits.v6_fits v6))
        ])
      ]
