-- ===== src/Inbound/Http.antt =====
-- src/inbounds/mixed.cpp: `handleHttp_`, and `handle_`, which chooses between it and `handleSocks5_`.
-- The loops that read to a mark run on fuel.
pub mod Search
pub mod Words
pub mod Forward
pub mod Tunnel
pub mod Total
mod Examples
use cppsong.Base.{
  ℕ, Bool, true, false, ◌&&◌, zero, suc, List, [], ◌∷◌, ◌++◌, Bytes, Option, none, some, ◌==◌,
  bytes_eq, if◌then◌else◌,
}
use cppsong.Base.Lists.{length, drop}
use cppsong.Base.Outcome.{Outcome, ok, throw, hang, at, invalid_url}
use cppsong.Base.Text.{codes}
use cppsong.Builder.Outbound.{UserPass, build_address}
use cppsong.Connection.{Io, Connection, ◌>>=◌, ◌>>◌, pure, lift}
use cppsong.Inbound.{Session, handle_socks5}
use cppsong.Router.{starts_with}
use cppsong.Stoul.{is_space, skip_space}

-- What the code asks of a `boost::urls::url`.
pub record Url : Type 0 where
  pub host : Bytes
  pub port_number : ℕ
  pub path : Bytes

abbrev pub crlf : Bytes
crlf = 13 ∷ 10 ∷ []

-- `s.find(mark)`, with what is before the mark and what is behind it.
unfoldable pub cut : Bytes → Bytes → Option (Bytes × Bytes)
cut mark [] = none
cut mark (b ∷ bs) =
    let rest = cut mark bs in
    if starts_with mark (b ∷ bs)
    then some ([], drop (length mark) (b ∷ bs))
    else elim rest [ none ↦ none | some found ↦ some (b ∷ found.0, found.1) ]

-- The next word of an `std::istringstream`, and the rest of the stream.
unfoldable pub word_of : Bytes → Bytes × Bytes
word_of [] = ([], [])
word_of (c ∷ cs) =
    let rest = word_of cs in if is_space c then ([], c ∷ cs) else (c ∷ rest.0, rest.1)

abbrev pub next_word : Bytes → Bytes × Bytes
next_word text = word_of (skip_space text)

pub record RequestLine : Type 0 where
  pub method : Bytes
  pub target : Bytes
  pub version : Bytes

abbrev pub request_line : Bytes → RequestLine
request_line line =
    let method = next_word line in
    let target = next_word method.1 in
    record { method = method.0; target = target.0; version = (next_word target.1).0 }

-- `if (!address.port) address.port = standard;`
abbrev pub port_or : ℕ → ℕ → ℕ
port_or standard port = if port == 0 then standard else port

-- `std::format("{} {} {}\r\n", method, url.path(), version)`
abbrev pub rewritten : RequestLine → Url → Bytes
rewritten line url = line.method ++ 32 ∷ (url.path ++ 32 ∷ (line.version ++ crlf))

module _ {C : Type 0} (conn : Connection C) where
  -- Until `mark` is in the buffer, four kilobytes more are asked for.
  unfoldable pub read_to : Bytes → ℕ → Bytes → Io C (Bytes × Bytes)
  read_to mark zero buffer = lift hang
  read_to mark (suc fuel) buffer = elim (cut mark buffer) [
    | some found ↦ pure found
    | none ↦ conn.read 4096 >>= λ received. read_to mark fuel (buffer ++ received)
  ]

  -- What comes behind the first line, when the buffer has nothing of it.
  unfoldable pub more_data : Bytes → Io C Bytes
  more_data [] = conn.read 4096
  more_data (b ∷ bs) = pure (b ∷ bs)

module _ {C Ip : Type 0} (conn : Connection C) (parse_uri_reference : Bytes → Option Url)
    (make_address : Bytes → Option Ip) where
  unfoldable pub parse_url : Bytes → Outcome Url
  parse_url target = elim (parse_uri_reference target) [
    | none ↦ throw invalid_url
    | some url ↦ ok url
  ]

  -- CONNECT: the header is dropped, with all that came with its end.
  unfoldable pub tunnel : ℕ → Url → Bytes → Io C (Option (Session Ip))
  unfolding read_to
  tunnel fuel url buffer = do
    header ← read_to conn (crlf ++ crlf) fuel buffer
    conn.write (codes "HTTP/1.1 200 Connection Established" ++ (crlf ++ crlf))
    received ← conn.read 4096
    pure (
        some (record {
          address = build_address make_address url.host (port_or 443 url.port_number);
          first_data = received;
        }))

  -- Every other method: the first line is rewritten.
  unfoldable pub forward : RequestLine → Url → Bytes → Io C (Option (Session Ip))
  unfolding more_data
  forward line url buffer = do
    received ← more_data conn buffer
    pure (
        some (record {
          address = build_address make_address url.host (port_or 80 url.port_number);
          first_data = rewritten line url ++ received;
        }))

  unfoldable pub answer_http : ℕ → RequestLine → Bytes → Io C (Option (Session Ip))
  unfolding tunnel forward parse_url
  answer_http fuel line buffer = do
    url ← lift (parse_url line.target)
    if bytes_eq line.method (codes "CONNECT")
        then tunnel fuel url buffer
        else forward line url buffer

  unfoldable pub handle_http : ℕ → ℕ → Io C (Option (Session Ip))
  unfolding read_to answer_http
  handle_http fuel first_byte = do
    received ← conn.read 4096
    found ← read_to conn crlf fuel (first_byte ∷ received)
    answer_http fuel (request_line found.0) found.1

  -- The first byte tells SOCKS5 from HTTP.
  unfoldable pub handle :
      (of_v4 of_v6 : Bytes → Ip) → ℕ → List UserPass → Io C (Option (Session Ip))
  unfolding handle_http handle_socks5
  handle of_v4 of_v6 fuel users = do
    received ← conn.read_exactly 1
    first ← lift (at received 0)
    if first == 5 then handle_socks5 conn of_v4 of_v6 users else handle_http fuel first
