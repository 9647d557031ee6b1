-- ===== src/Inbound/Http/Forward.antt =====
-- A request that is no CONNECT: its first line is rewritten, and all that follows is kept.
use cppsong.Base.{
  none, ℕ, ◌<◌, ◌≤◌, ◌≡◌, refl, sym, subst, ap, ◌∙◌, false, List, [], ◌∷◌, ◌++◌, Bytes, Option,
  some, ◌==◌, bytes_eq, arith,
}
use cppsong.Base.Cursor.{Returns}
use cppsong.Base.Lists.{length, length-append}
use cppsong.Base.Outcome.{at}
use cppsong.Base.Text.{codes}
use cppsong.Builder.Outbound.{UserPass, build_address}
use cppsong.Connection.{Connection, IsStream}
use cppsong.Connection.Steps.{read_exactly-Returns, read-Returns, then-Returns, Returns-map}
use cppsong.Inbound.{Session}
use cppsong.Inbound.Http.{
  Url, RequestLine, crlf, request_line, rewritten, port_or, read_to, more_data, parse_url, forward,
  answer_http, handle_http, handle,
}
use cppsong.Inbound.Http.Words.{IsWord, line_of, request_line-line_of, line_of-IsLine}
use cppsong.Ip.{Address, domain_name, ip_address}
use cppsong.Inbound.Http.Search.{IsLine, Found, read_to-Found}

module _ {C : Type 0} (conn : Connection C) (stream : IsStream conn) where
  -- Some of what follows is there, and the rest is still to come.
  abbrev Some : C → Bytes → Bytes × C → Type 0
  Some c rest r =
      (r.0 ++ stream.input r.1 ≡ rest) × (0 < length r.0) × (stream.sent r.1 ≡ stream.sent c)

  more_data-Some :
      (c : C) (buffer rest : Bytes)
      → buffer ++ stream.input c ≡ rest
      → 0 < length rest
      → Returns (Some c rest) (more_data conn buffer c)
  unfolding more_data
  more_data-Some c [] rest same more =
      let (got, behind, c', run, split, nonempty, input, sent) =
        stream.read_some c 4096 (omega arith) (omega (arith, more, ap length same)) in
      rw (run, Returns) (ap (λ (t : Bytes). got ++ t) input ∙ sym split ∙ same, nonempty, sent)
  more_data-Some c (b ∷ bs) rest same more = (same, omega arith, refl)

module _ {C Ip : Type 0} (conn : Connection C) (stream : IsStream conn)
    (parse_uri_reference : Bytes → Option Url) (make_address : Bytes → Option Ip) where
  -- The session as the code makes it, with the front of what followed the line.
  abbrev Rewritten : C → RequestLine → Url → Bytes → Option (Session Ip) × C → Type 0
  Rewritten c line url rest r =
      (got : Bytes) × (r.0
        ≡ some (record {
          address = build_address make_address url.host (port_or 80 url.port_number);
          first_data = rewritten line url ++ got;
        }))
      × (got ++ stream.input r.1 ≡ rest)
      × (0 < length got)
      × (stream.sent r.1 ≡ stream.sent c)

  forward-Rewritten :
      (c : C) (line : RequestLine) (url : Url) (buffer rest : Bytes)
      → buffer ++ stream.input c ≡ rest
      → 0 < length rest
      → Returns
          (Rewritten c line url rest)
          (forward conn parse_uri_reference make_address line url buffer c)
  unfolding forward
  forward-Rewritten c line url buffer rest same more =
      then-Returns (Rewritten c line url rest) (Some conn stream c rest) (more_data conn buffer c) _
        (more_data-Some conn stream c buffer rest same more)
        λ got c' (kept, nonempty, sent). (got, refl, kept, nonempty, sent)

  answer_http-Rewritten :
      (c : C) (fuel : ℕ) (line : RequestLine) (url : Url) (buffer rest : Bytes)
      → bytes_eq line.method (codes "CONNECT") ≡ false
      → parse_uri_reference line.target ≡ some url
      → buffer ++ stream.input c ≡ rest
      → 0 < length rest
      → Returns
          (Rewritten c line url rest)
          (answer_http conn parse_uri_reference make_address fuel line buffer c)
  unfolding answer_http parse_url
  answer_http-Rewritten c fuel line url buffer rest no_connect parsed same more =
      rw (parsed, no_connect, Returns) (forward-Rewritten c line url buffer rest same more)

  handle-Rewritten :
      (of_v4 of_v6 : Bytes → Ip) (users : List UserPass) (c : C) (fuel first : ℕ)
      (line rest : Bytes) (url : Url)
      → (first == 5) ≡ false
      → IsLine (first ∷ line)
      → stream.input c ≡ (first ∷ line) ++ (crlf ++ rest)
      → bytes_eq (request_line (first ∷ line)).method (codes "CONNECT") ≡ false
      → parse_uri_reference (request_line (first ∷ line)).target ≡ some url
      → 0 < length rest
      → length (stream.input c) ≤ fuel
      → Returns
          (Rewritten c (request_line (first ∷ line)) url rest)
          (handle conn parse_uri_reference make_address of_v4 of_v6 fuel users c)
  unfolding handle handle_http at
  handle-Rewritten of_v4 of_v6 users c fuel first line rest url no_socks is_line have no_connect
        parsed more enough =
      let P = Rewritten c (request_line (first ∷ line)) url rest in
      read_exactly-Returns conn stream P c 1 (first ∷ []) (line ++ (crlf ++ rest)) _ have refl
        λ c1 input1 sent1. rw no_socks (
          read-Returns conn stream P c1 4096 _ (omega arith)
            (omega (arith, ap length input1, length-append line (crlf ++ rest)))
            λ c2 got behind split nonempty input2 sent2.
              let same : (first ∷ got) ++ stream.input c2 ≡ (first ∷ line) ++ (crlf ++ rest) =
                ap (◌∷◌ first) (ap (λ (t : Bytes). got ++ t) input2 ∙ sym split ∙ input1) in
              then-Returns P (Found conn stream c2 (first ∷ line) rest)
                (read_to conn crlf fuel (first ∷ got) c2) _
                (read_to-Found conn stream fuel c2 (first ∷ line) rest (first ∷ got) is_line same (
                  omega (
                    arith,
                    enough,
                    ap length have,
                    ap length input1,
                    ap length split,
                    length-append got behind,
                    ap length input2,
                    nonempty,
                  )))
                λ found c3 (is_found, kept, sent3).
                  subst
                    (λ (l : Bytes). Returns P (
                      answer_http conn parse_uri_reference make_address fuel (request_line l)
                        found.1 c3))
                    (sym is_found)
                    (Returns-map (Rewritten c3 (request_line (first ∷ line)) url rest) P
                      (answer_http conn parse_uri_reference make_address fuel
                        (request_line (first ∷ line)) found.1 c3)
                      (λ r (g, session, all, some_more, told).
                        (g, session, all, some_more, told ∙ sent3 ∙ sent2 ∙ sent1))
                      (answer_http-Rewritten c3 fuel (request_line (first ∷ line)) url found.1 rest
                        no_connect parsed kept more)))

  -- The host is an address when it reads as one, and else a name; the port is that of the URL, or 80
  -- when it names none.
  pub record IsAddressOf (url : Url) (address : Address Ip) : Type 0 where
    pub named_host : make_address url.host ≡ none → address.address ≡ domain_name url.host
    pub ip_host : (ip : Ip) → make_address url.host ≡ some ip → address.address ≡ ip_address ip
    pub no_port : url.port_number ≡ 0 → address.port ≡ 80
    pub some_port : 0 < url.port_number → address.port ≡ url.port_number

  build_address-IsAddressOf :
      (url : Url)
      → IsAddressOf url (build_address make_address url.host (port_or 80 url.port_number))
  unfolding build_address
  build_address-IsAddressOf url = record {
    named_host = λ name. rw name refl;
    ip_host = λ ip found. rw found refl;
    no_port = λ unnamed. rw unnamed refl;
    some_port = λ named. ground (arith, named);
  }

  -- A session for the URL, whose first data are the method, the path of the URL, the version and the
  -- end of the line, with spaces between them, and then the front of what followed, of which at
  -- least one byte is there and nothing is lost; and the client was sent nothing.
  abbrev pub Forwarded : C → Bytes → Bytes → Url → Bytes → Option (Session Ip) × C → Type 0
  Forwarded c method version url rest r =
      (session : Session Ip) × (got : Bytes) × (r.0 ≡ some session)
      × IsAddressOf url session.address
      × (session.first_data
          ≡ (method ++ b' ' ∷ (url.path ++ b' ' ∷ (version ++ 13 ∷ 10 ∷ []))) ++ got)
      × (got ++ stream.input r.1 ≡ rest)
      × (0 < length got)
      × (stream.sent r.1 ≡ stream.sent c)

  -- On a connection that works, and whatever users there are, a client who sends a method that is
  -- not CONNECT, a target that is parsed as a URL, and a version, each of visible characters,
  -- with a space between them and CR LF behind, and then at least one byte, gets a session whose
  -- host is the address that the host of the URL reads as, or else its name, and whose port is
  -- that of the URL, or 80 when it names none; the first data are the method, the path of the URL
  -- and the version, with a space between them and CR LF behind, and then the front of what
  -- followed the line, at least one byte, and the rest of it is still to come; nothing is sent to
  -- the client. The fuel is at least the number of bytes to come.
  pub handle-Forwarded :
      (of_v4 of_v6 : Bytes → Ip) (users : List UserPass) (c : C) (fuel : ℕ)
      (method target version rest : Bytes) (url : Url)
      → IsWord method
      → IsWord target
      → IsWord version
      → bytes_eq method (codes "CONNECT") ≡ false
      → parse_uri_reference target ≡ some url
      → stream.input c ≡ line_of method target version ++ (crlf ++ rest)
      → 0 < length rest
      → length (stream.input c) ≤ fuel
      → Returns
          (Forwarded c method version url rest)
          (handle conn parse_uri_reference make_address of_v4 of_v6 fuel users c)
  handle-Forwarded of_v4 of_v6 users c fuel [] target version rest url is_method is_target
        is_version no_connect parsed have more enough =
      absurd (omega (arith, is_method.0))
  handle-Forwarded of_v4 of_v6 users c fuel (m ∷ ms) target version rest url is_method is_target
        is_version no_connect parsed have more enough =
      let words = request_line-line_of (m ∷ ms) target version is_method is_target is_version in
      let line = ms ++ 32 ∷ (target ++ 32 ∷ version) in
      Returns-map (Rewritten c (request_line (m ∷ line)) url rest)
        (Forwarded c (m ∷ ms) version url rest)
        (handle conn parse_uri_reference make_address of_v4 of_v6 fuel users c)
        (λ r (got, made, all, some_more, told). (
          record {
            address = build_address make_address url.host (port_or 80 url.port_number);
            first_data = rewritten (request_line (m ∷ line)) url ++ got;
          },
          got,
          made,
          build_address-IsAddressOf url,
          ap (λ (l : RequestLine). rewritten l url ++ got) words,
          all,
          some_more,
          told,
        ))
        (handle-Rewritten of_v4 of_v6 users c fuel m line rest url (ground (arith, is_method.1.0))
          (line_of-IsLine (m ∷ ms) target version is_method is_target is_version) have
          (ap (λ (l : RequestLine). bytes_eq l.method (codes "CONNECT")) words ∙ no_connect)
          (ap (λ (l : RequestLine). parse_uri_reference l.target) words ∙ parsed) more enough)
