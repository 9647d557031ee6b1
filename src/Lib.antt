-- ===== src/Lib.antt =====
-- A model of cppsong, a proxy in C++ that takes connections of clients (SOCKS5 or HTTP),
-- chooses an outbound by routing rules, and relays the bytes; it resolves names through its own
-- DNS client. Paths are from the repository's root.
--
-- How the parts interact: an inbound (src/inbounds) reads the client's request from a
-- connection and puts a session into its queue (src/utils/asyncqueue.hpp). The app
-- (src/common/app.cpp) takes the session, may replace its address by the host name sniffed from
-- the first bytes (src/sniff), asks the router (src/router) for an outbound, connects, and
-- relays. Names are resolved by the DNS center (src/dns), which keeps a cache, chooses a server
-- by domain rules, and reads and writes DNS messages.
--
-- - Base: shared names. Base/Outcome is what a C++ call ends in: a value, a
--   `std::runtime_error`, an undefined step, or `hang`, where a loop of the model has no fuel
--   left. Base/Words has the shifts and masks of unsigned words as arithmetic, Base/Cursor and
--   Base/Ends the rules for reading at an offset.
-- - Bytes: src/utils/bytes.cpp, function by function (`read_u8` to `write_u64`).
-- - Sniff: src/sniff/sniff.cpp. `sniffDomain` is `sniff_domain`, with a function for each part
--   of it.
-- - Dns/Message: src/dns/message.cpp. `encodeQname`, `skipName`, `build_dns_query`,
--   `parse_dns_query` and `parse_dns_response` in snake case, each loop a function of its own.
-- - Ip: src/common/address.hpp, and the interface of `ip::address` that the other files use.
-- - Router: src/router. The records of the headers, `IpNetwork::contains` (`contains`),
--   `DomainRule::matchDomain` (`match_domain`), `Rule::match` (`rule_match`) and
--   `Router::match` (`router_match`). Regular expressions are a type parameter with their
--   match.
-- - Queue: src/utils/asyncqueue.hpp. `put` and `get` on a state with the queue, the waiters'
--   queue and every waiter made; `run` is any sequence of calls. One thread runs the tasks, and
--   each call runs to its end or its wait.
-- - Dns/Cache: src/dns/cache.cpp. The map is a list of entries, `lookup` and `store` take the
--   time of the call, `sweep` is one round of `mainWork_`.
-- - Dns/Center: src/dns/dns.cpp. `relay`, `match_` (`match_server`) and `resolve`, which waits
--   once: the cache is the argument `meanwhile` of what it was. A server is a function from the
--   query to its reply.
-- - Json: src/utils/json.cpp. A value of Boost.JSON is a type parameter; `if_bool` and the like
--   give the value of a kind, and `as_bool` throws without one. Json/Tree is an instance for
--   the runs.
-- - Config: src/config. Types has the records, Parse a function for each parse function of
--   config.cpp, Print the JSON form that Records and RoundTrip read back.
-- - Stoul: `std::stoul` of the C++ library, with spaces, sign, "0x" and overflow.
-- - Router/Cidr: `parseCidr` of src/router/ipnet.cpp.
-- - Builder: src/common/builder.cpp. Uuid has `buildUuid`, Rules the rules, the rule sets and
--   `buildRouter` (`configured_router` is the constructor and `buildRouter`), Dns
--   `buildDnsCenter`, Outbound the inbounds and outbounds; Bounds, RuleSets, Routes and Missing
--   are about the rules.
-- - Connection: the interface of src/connections/connection.hpp (`Connection`), and what a
--   client may rely on (`IsStream`, `IsSafe`). Steps has a rule for each call, Memory a
--   connection in memory for the examples.
-- - Inbound: src/inbounds/mixed.cpp. `handle_socks5` is `handleSocks5_`; its value is the
--   session that goes into the queue, or none after the connection was closed.
-- - Inbound/Http: `handleHttp_` and `handle_`. The loops run on fuel: every read takes a byte
--   or throws, so that more fuel than there are bytes to come is enough. Words has the first
--   line as three words.
-- - App: `handleSession_` of src/common/app.cpp, over the map of outbounds, and the loop of
--   `run` that fills it. Known has the tags of the map, Missing a route to a tag that it does
--   not have, Dispatch puts sniffing, routing and the map together.
-- - Outbound: src/outbounds. `request_data` and `handshake` are the two halves of
--   `VlessOutbound::connect`; Request reads the request as a server does, which is no code of
--   the repository, Connect has `connect` of both outbounds over a transport, Delivery what
--   comes through a VLESS outbound and the relay behind it.
-- - Connection/Ws: `WsConnection` of src/connections/ws.cpp over the messages of a WebSocket,
--   each method with `ws_` before its name. Stream shows that it is a connection as its clients
--   expect it. `wss_connection` is `WssConnection`; Frames has what one end writes and the
--   other reads.
-- - Tcp: src/tcp/tcpclient.cpp. The attempts of `connect_address` and its wait are a step
--   relation on what they share (`Race`); Winner has the invariant, Outcomes how a race ends.
-- - Relay: src/connections/relay.cpp. A schedule is a list of turns of the two `forward` and of
--   `relay`; Copy has the invariant, Ending the schedules that send everything on.
-- - App/Start: `App::run` up to the event loop (`start`), and the sessions of an app that was
--   started.
-- - Dns/Center/Serving: src/udp, the UDP server of src/dns/servers, and `mainWork_`,
--   `handleClient_` and `stop` of src/dns/dns.cpp as a step relation (`Serves`), in which a
--   send may fail; Order follows the replies. Dns/Center/Answer says what a packet is answered
--   with.
-- - Transport: src/transports. `transport_connect` is `connect` of the transport that the
--   builder has made; Secure follows `tls.enabled` from the configuration to the connection.
--   Transport/Https has `HttpsDnsServer::relay` of src/dns/servers, and the relay of either
--   server.
-- - Listener: src/listeners. `WsWork` is `WsListener` as a step relation, `ws_accepted` its
--   `handle_`; Upgrade counts the requests that it takes.
-- - Connection/Plain: src/connections/tcp.cpp and tls.cpp. Log: src/utils/log.cpp. File:
--   src/utils/file.cpp.
-- - App/Work: `inboundWork_` over any sessions, in the order in which they come to the map of
--   outbounds, and the arguments of `main`.
-- - Inbound/Clients: `mainWork_` of `MixedInbound`, the sessions of any clients, as App/Work
--   takes them.
-- - Queue/Source: a queue that a coroutine fills from a socket: `TcpListener` (`tcp_listen`)
--   and `UdpClient` (`udp_receive`).
-- - App/Proxy: a session of a TLS client, up to what the server of a VLESS outbound reads.
--
-- Bounds and fuel: a vector's size is below 2 ^ 63. Where a position is an arbitrary `size_t`
-- argument its sums wrap in the model (`size_add`); where a guard of the code bounds it, the
-- sum is written without wrap. Each loop of unknown length moves forward through its input, so
-- that the size of the input, or one more, is enough fuel, and the theorems that a function
-- ends show it.
--
-- Not modelled: the scheduler and the sockets of Boost.Asio, TLS and WebSocket streams of
-- Boost.Beast and OpenSSL, JSON parsing of Boost.JSON, URL parsing of Boost.URL, where the log
-- is written, and the file system. What the code needs of them is a parameter.
pub mod Base
pub mod Bytes
pub mod Sniff
pub mod Dns
pub mod Ip
pub mod Router
pub mod Queue
pub mod Json
pub mod Config
pub mod Stoul
pub mod Builder
pub mod Connection
pub mod Inbound
pub mod App
pub mod Outbound
pub mod Tcp
pub mod Relay
pub mod Transport
pub mod Listener
pub mod Log
pub mod File
