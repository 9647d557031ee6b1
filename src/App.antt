-- ===== src/App.antt =====
-- src/common/app.cpp: how a session is handled. The coroutines of `App` share the outbounds, which
-- `operator[]` may change. What an outbound and the relay do is a parameter.
pub mod Known
pub mod Dispatch
pub mod Start
pub mod Missing
pub mod Work
pub mod Proxy
mod Examples
use cppsong.Base.{ℕ, Bool, List, [], ◌∷◌, Bytes, Option, none, some, bytes_eq, if◌then◌else◌}
use cppsong.Base.Outcome.{Error, Outcome, ok, throw, bad_index, bad_address, hang, ◌>>=◌}
use cppsong.Inbound.{Session}
use cppsong.Ip.{IpApi, Host, domain_name, Address}
use cppsong.Router.{Router, router_match}
use cppsong.Sniff.{sniff_domain}

-- The map from tags to outbounds, in which a null pointer is none.
abbrev pub Outbounds : Type 0 → Type 0
Outbounds O = List (Bytes × Option O)

-- What became of a session.
pub data Fate : Type 0 where
  relayed : Fate
  logged : Error → Fate
  -- `outbound->connect` through a null pointer
  null_called : Fate

module _ {O : Type 0} where
  -- `outbounds[tag]`: a tag that is not there is put in, with a null pointer.
  unfoldable pub outbound_of : Bytes → Outbounds O → Option O × Outbounds O
  outbound_of tag [] = (none, (tag, none) ∷ [])
  outbound_of tag (entry ∷ entries) =
      let rest = outbound_of tag entries in
      if bytes_eq entry.0 tag then (entry.1, entry ∷ entries) else (rest.0, entry ∷ rest.1)

  -- `outbounds[tag] = outbound`
  unfoldable pub set_outbound : Bytes → O → Outbounds O → Outbounds O
  set_outbound tag outbound [] = (tag, some outbound) ∷ []
  set_outbound tag outbound (entry ∷ entries) =
      let rest = set_outbound tag outbound entries in
      if bytes_eq entry.0 tag then (tag, some outbound) ∷ entries else entry ∷ rest

  -- The loop of `run` over the outbounds of the configuration.
  unfoldable pub add_outbounds :
      {Config : Type 0}
      → (Config → Bytes)
      → (Config → Outcome O)
      → List Config
      → Outbounds O
      → Outcome (Outbounds O)
  unfolding set_outbound
  add_outbounds tag build [] outbounds = ok outbounds
  add_outbounds tag build (item ∷ items) outbounds = do
    outbound ← build item
    add_outbounds tag build items (set_outbound (tag item) outbound outbounds)

-- `catch (const std::exception &e)`
abbrev pub caught : Outcome Fate → Outcome Fate
caught (ok fate) = ok fate
caught (throw e) = ok (logged e)
caught (bad_index i) = bad_index i
caught (bad_address i) = bad_address i
caught hang = hang

-- The address of a session after sniffing: an empty text is no domain.
abbrev pub sniffed_address : {Ip : Type 0} → Bytes → Address Ip → Address Ip
sniffed_address [] address = address
sniffed_address (b ∷ bs) address = record { address = domain_name (b ∷ bs); port = address.port }

module _ {Regex Ip O C R : Type 0} (regex_match : Regex → Bytes → Bool) (api : IpApi Ip)
    (connect : O → Session Ip → Outcome R) (relay : C → R → Outcome (Unit {0})) where
  -- The rest of `handleSession_`, with the outbound that was found.
  unfoldable pub relay_through : Option O → C → Session Ip → Outcome Fate
  relay_through none conn session = ok null_called
  relay_through (some outbound) conn session = do
    remote ← connect outbound session
    done ← relay conn remote
    ok relayed

  -- The outbound is looked up, which may change the map, and used.
  unfoldable pub dispatch :
      Outbounds O → C → Session Ip → Outcome Bytes → Outcome Fate × Outbounds O
  unfolding outbound_of relay_through
  dispatch outbounds conn session (ok tag) =
      let found = outbound_of tag outbounds in
      (caught (relay_through found.0 conn session), found.1)
  dispatch outbounds conn session (throw e) = (ok (logged e), outbounds)
  dispatch outbounds conn session (bad_index i) = (bad_index i, outbounds)
  dispatch outbounds conn session (bad_address i) = (bad_address i, outbounds)
  dispatch outbounds conn session hang = (hang, outbounds)

  unfoldable pub route_sniffed :
      Router Regex Ip → Outbounds O → C → Session Ip → Outcome Bytes → Outcome Fate × Outbounds O
  unfolding dispatch
  route_sniffed router outbounds conn session (ok sniffed) =
      let address = sniffed_address sniffed session.address in
      dispatch outbounds conn (record { address = address; first_data = session.first_data })
        (router_match regex_match api router address)
  route_sniffed router outbounds conn session (throw e) = (ok (logged e), outbounds)
  route_sniffed router outbounds conn session (bad_index i) = (bad_index i, outbounds)
  route_sniffed router outbounds conn session (bad_address i) = (bad_address i, outbounds)
  route_sniffed router outbounds conn session hang = (hang, outbounds)

  unfoldable pub handle_session :
      Router Regex Ip → Outbounds O → C → Session Ip → Outcome Fate × Outbounds O
  unfolding route_sniffed sniff_domain
  handle_session router outbounds conn session =
      route_sniffed router outbounds conn session (sniff_domain session.first_data)
