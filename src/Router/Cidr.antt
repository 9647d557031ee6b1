-- ===== src/Router/Cidr.antt =====
-- `parseCidr`: the text of a network, as the configuration has it.
use cppsong.Base.{
  ℕ, ◌+◌, ◌%◌, ◌^◌, ◌≡◌, Bool, true, false, not, ◌&&◌, ◌||◌, Bytes, Option, none, some, ltb, ltb→ge,
  if◌then◌else◌, arith,
}
use cppsong.Base.Ends.{Ends, bind-Ends, throw_if-Ends}
use cppsong.Base.Lists.{take, drop}
use cppsong.Base.Outcome.{
  Outcome, ok, throw, ◌>>=◌, ◌>>◌, throw_if, invalid_address, invalid_cidr_prefix,
}
use cppsong.Dns.Message.{find}
use cppsong.Ip.{IpApi}
use cppsong.Router.{IpNetwork}
use cppsong.Router.Network.{PrefixFits}
use cppsong.Stoul.{stoul}
use cppsong.Stoul.Total.{IsUnsignedLong, stoul-Ends}

-- `ip::make_address(text)` throws where `make_address(text, ec)` sets `ec`.
abbrev pub valid_address : {Ip : Type 0} → Option Ip → Outcome Ip
valid_address none = throw invalid_address
valid_address (some ip) = ok ip

module _ {Ip : Type 0} (api : IpApi Ip) (make_address : Bytes → Option Ip) where
  -- An address is of one of the two families; `prefix < 0` is never so.
  abbrev pub prefix_too_large : Ip → ℕ → Bool
  prefix_too_large ip prefix =
      (api.is_v4 ip && ltb 32 prefix) || (not (api.is_v4 ip) && ltb 128 prefix)

  pub parse_split : Bytes → Option ℕ → Outcome (IpNetwork Ip)
  parse_split cidr none = do
    ip ← valid_address (make_address cidr)
    ok (record { network = ip; prefix = if api.is_v4 ip then 32 else 128 })
  parse_split cidr (some pos) = do
    ip ← valid_address (make_address (take pos cidr))
    prefix ← stoul 10 (drop (pos + 1) cidr)
    throw_if (prefix_too_large ip prefix) invalid_cidr_prefix
    ok (record { network = ip; prefix = prefix % 2 ^ 8 })

  unfoldable pub parse_cidr : Bytes → Outcome (IpNetwork Ip)
  unfolding parse_split
  parse_cidr cidr = parse_split cidr (find b'/' cidr)

  valid_address-Ends :
      {A : Type 0} (P : A → Type 0) (ip : Option Ip) (f : Ip → Outcome A)
      → ((a : Ip) → Ends P (f a))
      → Ends P (valid_address ip >>= f)
  valid_address-Ends P none f h = tt
  valid_address-Ends P (some ip) f h = h ip

  checked-PrefixFits :
      (ip : Ip) (n : ℕ)
      → prefix_too_large ip n ≡ false
      → PrefixFits api (record { network = ip; prefix = n % 2 ^ 8 })
  checked-PrefixFits ip n h = record {
    v4_fits = λ v4. omega (arith, ltb→ge 32 n (without (ltb 32 n) (rw v4 at h)));
    v6_fits = λ v6. omega (arith, ltb→ge 128 n (rw v6 at h));
  }
    where
      without : (b : Bool) → (b || false) ≡ false → b ≡ false
      without true e = e
      without false e = e

  whole-PrefixFits :
      (ip : Ip)
      → PrefixFits api (record { network = ip; prefix = if api.is_v4 ip then 32 else 128 })
  whole-PrefixFits ip = record {
    v4_fits = λ v4. rw v4 (omega arith);
    v6_fits = λ v6. rw v6 (omega arith);
  }

  -- On every text `parseCidr` gives a network whose prefix fits its family, or throws.
  pub parse_cidr-PrefixFits : (cidr : Bytes) → Ends (PrefixFits api) (parse_cidr cidr)
  unfolding parse_cidr
  parse_cidr-PrefixFits cidr = by_slash (find b'/' cidr)
    where
      by_slash : (pos : Option ℕ) → Ends (PrefixFits api) (parse_split cidr pos)
      by_slash none = valid_address-Ends (PrefixFits api) (make_address cidr) _ whole-PrefixFits
      by_slash (some pos) =
          valid_address-Ends (PrefixFits api) (make_address (take pos cidr)) _ λ ip.
            bind-Ends (PrefixFits api) IsUnsignedLong (stoul 10 (drop (pos + 1) cidr)) _
              (stoul-Ends 10 (drop (pos + 1) cidr))
              λ n _.
                throw_if-Ends (PrefixFits api) (prefix_too_large ip n) _ _ (checked-PrefixFits ip n)
