-- ===== src/App/Work.antt =====
-- `App::inboundWork_`: the sessions of an inbound, each with the connection of its client, in the
-- order in which their `handleSession_` come to the map of outbounds; and `main`.
use cppsong.Base.{
  ◌≡◌, refl, Bool, ◌&&◌, List, [], ◌∷◌, Bytes, Option, none, some, bytes_eq, if◌then◌else◌,
}
use cppsong.Base.Lists.{All}
use cppsong.Base.Outcome.{Outcome, ok}
use cppsong.Base.Text.{codes}
use cppsong.App.{Outbounds, Fate, sniffed_address, handle_session}
use cppsong.App.Dispatch.{Dispatched}
use cppsong.App.Start.{Started, start_config, IsClosed, start_config-Dispatched}
use cppsong.Builder.{BuilderApi}
use cppsong.Builder.Dns.{ServerSpec}
use cppsong.Builder.Outbound.{Outbound}
use cppsong.Config.Types.{AppConfig}
use cppsong.Dns.Center.{DnsServer}
use cppsong.Inbound.{Session}
use cppsong.Ip.{IpApi, IpLaws}
use cppsong.Json.{JsonApi}
use cppsong.Router.{Router}
use cppsong.Sniff.{sniff_domain}

-- `main`: the path of the configuration, when the arguments ask for a run. The usage is printed
-- otherwise, and behind a run.
abbrev pub run_path : List Bytes → Option Bytes
run_path (program ∷ command ∷ flag ∷ path ∷ []) =
    if bytes_eq command (codes "run") && bytes_eq flag (codes "-c") then some path else none
run_path arguments = none

module _ {Regex Ip O C R : Type 0} (regex_match : Regex → Bytes → Bool) (api : IpApi Ip)
    (connect : O → Session Ip → Outcome R) (relay : C → R → Outcome (Unit {0})) where
  unfoldable pub inbound_work :
      Router Regex Ip → Outbounds O → List (C × Session Ip) → List (Outcome Fate) × Outbounds O
  unfolding handle_session
  inbound_work router outbounds [] = ([], outbounds)
  inbound_work router outbounds ((conn, session) ∷ sessions) =
      let first = handle_session regex_match api connect relay router outbounds conn session in
      let rest = inbound_work router first.1 sessions in (first.0 ∷ rest.0, rest.1)

  -- Each session has its fate, and goes through the outbound that the rules choose for the address
  -- that it has after sniffing.
  abbrev pub EachDispatched :
      Router Regex Ip → Outbounds O → List (C × Session Ip) → List (Outcome Fate) → Type 0
  EachDispatched router outbounds [] [] = Unit {0}
  EachDispatched router outbounds [] (fate ∷ fates) = ⊥
  EachDispatched router outbounds ((conn, session) ∷ sessions) [] = ⊥
  EachDispatched router outbounds ((conn, session) ∷ sessions) (fate ∷ fates) =
      ((sniffed : Bytes) × (sniff_domain session.first_data ≡ ok sniffed)
        × Dispatched regex_match api connect relay router outbounds conn
            (record {
              address = sniffed_address sniffed session.address;
              first_data = session.first_data;
            })
            (fate, outbounds))
      × EachDispatched router outbounds sessions fates

-- What is sniffed of each session is known.
abbrev pub Sniffed : {C Ip : Type 0} → List (C × Session Ip) → Type 0
Sniffed sessions =
    All (λ s. (sniffed : Bytes) × (sniff_domain s.1.first_data ≡ ok sniffed)) sessions

module _ {Regex Ip Value Object : Type 0} (builder : BuilderApi Regex Ip Value) (api : IpApi Ip)
    (json : JsonApi Value Object) (serve : ServerSpec Ip → DnsServer) where
  -- In an app that was started from a configuration whose routes, and whose final outbound, name
  -- outbounds that it has, any sessions, of which it is known what was sniffed, go each through the
  -- outbound that the rules choose for its address, which is the sniffed domain unless that is
  -- empty; no null pointer is called, and the outbounds stay as they are.
  pub inbound_work-EachDispatched :
      {C R : Type 0} (regex_match : Regex → Bytes → Bool)
      (connect : Outbound Ip → Session Ip → Outcome R) (relay : C → R → Outcome (Unit {0}))
      → (config : AppConfig) (app : Started Regex Ip) (sessions : List (C × Session Ip))
      → IpLaws api
      → IsClosed builder api json serve config
      → start_config builder api json serve config ≡ ok app
      → Sniffed sessions
      → ((inbound_work regex_match api connect relay app.router app.outbounds sessions).1
          ≡ app.outbounds)
        × EachDispatched regex_match api connect relay app.router app.outbounds sessions
            (inbound_work regex_match api connect relay app.router app.outbounds sessions).0
  unfolding inbound_work
  inbound_work-EachDispatched regex_match connect relay config app [] laws closed started all =
      (refl, tt)
  inbound_work-EachDispatched regex_match connect relay config app ((conn, session) ∷ sessions) laws
        closed started ((sniffed, found), all) =
      let (tag, known, chosen, handled) =
        start_config-Dispatched builder api json serve regex_match connect relay config app conn
          session sniffed laws closed started found in
      let (same, each) =
        inbound_work-EachDispatched regex_match connect relay config app sessions laws closed
          started all in
      rw handled (same, ((sniffed, found, (tag, known, chosen, refl)), each))
