-- ===== src/Dns/Center/Serving.antt =====
-- src/udp/udpclient.cpp, src/dns/servers/udp.cpp, and the part of src/dns/dns.cpp that serves
-- clients: datagrams come in on the center's socket, a coroutine for each of them asks a server, and
-- sends the reply. Which coroutine is ready first is the network's choice.
pub mod Order
mod Examples
use cppsong.Base.{
  ℕ, ◌+◌, ◌≡◌, Bool, true, false, List, [], ◌∷◌, ◌++◌, Bytes, Option, none, some, if◌then◌else◌,
}
use cppsong.Base.Lists.{take}
use cppsong.Base.Outcome.{
  Error, Outcome, ok, throw, bad_index, bad_address, hang, bad_descriptor, no_udp_address,
}
use cppsong.Connection.{Io, ◌>>=◌, ◌>>◌, pure}
use cppsong.Queue.{Get}
use cppsong.Queue.Source.{Event, Source, work}
use cppsong.Dns.Center.{DnsCenter, relay}

pub record UdpSession (E : Type 0) : Type 0 where
  pub endpoint : E
  pub content : Bytes

-- How a socket is opened: bound to an address of its own, or connected to one.
pub data Opening (E : Type 0) : Type 0 where
  bound : E → Opening E
  connected : E → Opening E

-- The sockets of Boost.Asio, over the state of the network.
pub record Sockets (E S N : Type 0) : Type 0 where
  pub open_socket : Opening E → Io N S
  pub async_send_to : S → UdpSession E → Io N (Unit {0})
  -- The sender and the datagram.
  pub async_receive_from : S → Io N (UdpSession E)
  pub close : S → Io N (Unit {0})

-- A step of `receive_work_`: what is behind the buffer's 4096 bytes is lost.
abbrev pub into_buffer : {E : Type 0} → UdpSession E → UdpSession E
into_buffer datagram = record datagram { content = take 4096 datagram.content }

-- `UdpClient` behind its start: the datagrams that come, and the calls of `session` and `close`.
abbrev pub udp_receive :
    {E : Type 0}
    → List (Event (UdpSession E))
    → Source (UdpSession E)
    → List (Get (UdpSession E))
    → Source (UdpSession E) × List (Get (UdpSession E))
udp_receive events source gets = work into_buffer events source gets

module _ {E S N : Type 0} (sockets : Sockets E S N) where
  -- `UdpClient::start`, with `local_` first; there is an exception without an address.
  abbrev pub start_client : Option E → Option E → Io N S
  start_client none none n = throw no_udp_address
  start_client none (some remote) n = sockets.open_socket (connected remote) n
  start_client (some local) remote n = sockets.open_socket (bound local) n

  -- `UdpDnsServer::relay`: the first datagram that comes is the reply.
  unfoldable pub udp_relay : E → Bytes → Io N Bytes
  udp_relay endpoint packet = start_client none (some endpoint) >>= λ socket.
      sockets.async_send_to socket (record { endpoint = endpoint; content = packet })
      >> (sockets.async_receive_from socket >>= λ datagram.
          sockets.close socket >> pure (into_buffer datagram).content)

-- The center behind the start of its client. `pending` are the `handleClient_` that wait for their
-- server, with their sessions; `sent` is the latest first.
pub record Serving (E : Type 0) : Type 0 where
  pub pending : List (UdpSession E)
  pub sent : List (UdpSession E)
  pub closed : Bool

abbrev pub serving_start : {E : Type 0} → Serving E
serving_start = record { pending = []; sent = []; closed = false }

-- `mainWork_` up to its loop: without an endpoint it is over.
abbrev pub main_work : {E : Type 0} → Option E → Option (Serving E)
main_work none = none
main_work (some endpoint) = some serving_start

module _ {E : Type 0} where
  abbrev pub sent_to : Option Error → UdpSession E → Serving E → Outcome (Serving E)
  sent_to none session serving = ok (record serving { sent = session ∷ serving.sent })
  sent_to (some e) session serving = throw e

  -- The state behind a handler of exceptions.
  abbrev pub log_failure : Serving E → Outcome (Serving E) → Serving E
  log_failure serving (ok after) = after
  log_failure serving (throw e) = serving
  log_failure serving (bad_index i) = serving
  log_failure serving (bad_address i) = serving
  log_failure serving hang = serving

  -- `client_->send`. What `async_send_to` comes to on an open socket is the network's choice: a
  -- reply that is too long for a datagram, or a network that fails, is an exception, as a closed
  -- socket is.
  abbrev pub send : Option Error → UdpSession E → Serving E → Outcome (Serving E)
  send failure session serving =
      if serving.closed then throw bad_descriptor else sent_to failure session serving

  -- `stop`
  abbrev pub stop : Serving E → Serving E
  stop serving = record serving { closed = true }

  -- `handleClient_` behind the relay, whose exception it logs, as that of `send`.
  unfoldable pub after_relay : Option Error → UdpSession E → Outcome Bytes → Serving E → Serving E
  after_relay failure session (ok reply) serving =
      log_failure serving (send failure (record session { content = reply }) serving)
  after_relay failure session (throw e) serving = serving
  after_relay failure session (bad_index i) serving = serving
  after_relay failure session (bad_address i) serving = serving
  after_relay failure session hang serving = serving

-- Whether the network fails, as a number.
abbrev pub failing : Option Error → ℕ
failing none = 0
failing (some e) = 1

module _ {Regex Ip E : Type 0} (regex_match : Regex → Bytes → Bool) (of_v4 of_v6 : Bytes → Ip)
    (center : DnsCenter Regex Ip) where
  unfoldable pub handle_client : Option Error → UdpSession E → Serving E → Serving E
  unfolding after_relay
  handle_client failure session serving =
      after_relay failure session (relay regex_match of_v4 of_v6 center session.content) serving

  -- What the loop of `mainWork_` comes to from a state. A datagram comes in, and a coroutine is
  -- spawned for it; a coroutine goes on, with what its server has said and with what the network makes
  -- of its reply; or `stop` is called. The list is what the clients have sent, the latest first, and
  -- the number counts the coroutines for which the network failed.
  pub data Serves (start : Serving E) : List (UdpSession E) → ℕ → Serving E → Type 0 where
    here : Serves start [] 0 start
    then_arrives :
        {asked : List (UdpSession E)} {failures : ℕ} {s t : Serving E}
        → Serves start asked failures s
        → (datagram : UdpSession E) → s.closed ≡ false
        → t ≡ record s { pending = into_buffer datagram ∷ s.pending }
        → Serves start (datagram ∷ asked) failures t
    then_handles :
        {asked : List (UdpSession E)} {failures : ℕ} {s t : Serving E}
        → Serves start asked failures s
        → (before after : List (UdpSession E)) (session : UdpSession E) (failure : Option Error)
        → s.pending ≡ before ++ session ∷ after
        → t ≡ handle_client failure session (record s { pending = before ++ after })
        → Serves start asked (failures + failing failure) t
    then_stops :
        {asked : List (UdpSession E)} {failures : ℕ} {s t : Serving E}
        → Serves start asked failures s
        → t ≡ stop s
        → Serves start asked failures t
