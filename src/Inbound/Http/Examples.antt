-- ===== src/Inbound/Http/Examples.antt =====
-- Clients of the HTTP inbound, on a connection in memory that gives one byte at a time.
use cppsong.Base.{
  ℕ, ◌<◌, Bool, true, false, ltb, ltb→lt, ◌&&◌, Bool-cases, inl, inr, ap, sym, ◌∙◌, ◌≡◌, refl, [],
  ◌∷◌, ◌++◌, Bytes, Option, none, some, arith, bytes_eq,
}
use cppsong.Base.Cursor.{Returns}
use cppsong.Base.Ends.{Ends}
use cppsong.Base.Lists.{All}
use cppsong.Base.Outcome.{hang, throw, end_of_stream}
use cppsong.Base.Text.{codes}
use cppsong.Connection.Memory.{Memory, in_memory, memory_stream, in_memory-IsSafe}
use cppsong.Inbound.Http.{Url, crlf, handle}
use cppsong.Inbound.Http.Forward.{Forwarded, handle-Forwarded}
use cppsong.Inbound.Http.Total.{handle-Ends}
use cppsong.Inbound.Http.Tunnel.{with_write, handle-no_header}

-- Every target is this URL, and no text is the address of a host.
abbrev url : Url
url = record { host = codes "a.b"; port_number = 0; path = codes "/c" }

abbrev to_url : Bytes → Option Url
to_url target = some url

abbrev no_address : Bytes → Option Bytes
no_address text = none

abbrev of_bytes : Bytes → Bytes
of_bytes raw = raw

abbrev client : Bytes → Memory
client text = record { pending = text; told = [] }

abbrev get_text : Bytes
get_text = codes "GET http://a.b/c HTTP/1.1" ++ (crlf ++ codes "Host")

abbrev visible : Bytes → Bool
visible [] = true
visible (c ∷ cs) = ltb 32 c && visible cs

visible-All : (text : Bytes) → visible text ≡ true → All (λ (c : ℕ). 32 < c) text
visible-All [] seen = tt
visible-All (c ∷ cs) seen = elim (Bool-cases (ltb 32 c)) [
  | inl above ↦
      let rest : visible cs ≡ true = ap (λ t. t && visible cs) (sym above) ∙ seen in
      (ltb→lt 32 c above, visible-All cs rest)
  | inr below ↦
      let never : false ≡ true = ap (λ t. t && visible cs) (sym below) ∙ seen in absurd (cc never)
]

handle-Forwarded_example :
    Returns
      (Forwarded in_memory memory_stream to_url no_address
        (client get_text)
        (codes "GET")
        (codes "HTTP/1.1")
        url
        (codes "Host"))
      (handle in_memory to_url no_address of_bytes of_bytes 40 [] (client get_text))
unfolding memory_stream bytes_eq
handle-Forwarded_example =
    handle-Forwarded in_memory memory_stream to_url no_address of_bytes of_bytes []
      (client get_text) 40 (codes "GET") (codes "http://a.b/c") (codes "HTTP/1.1") (codes "Host")
      url (omega arith, visible-All (codes "GET") refl)
      (omega arith, visible-All (codes "http://a.b/c") refl)
      (omega arith, visible-All (codes "HTTP/1.1") refl) refl refl refl (omega arith) (omega arith)

abbrev connect_text : Bytes
connect_text = codes "CONNECT a.b:443 HTTP/1.1" ++ (crlf ++ crlf)

-- `write` would be an endless loop.
handle-no_header_example :
    handle
      (with_write (λ v c. hang) in_memory)
      to_url
      no_address
      of_bytes
      of_bytes
      40
      []
      (client connect_text)
    ≡ throw end_of_stream
unfolding memory_stream
handle-no_header_example =
    handle-no_header in_memory memory_stream to_url no_address (λ v c. hang) of_bytes of_bytes []
      (client connect_text) 40 (codes "a.b:443") (codes "HTTP/1.1") url
      (omega arith, visible-All (codes "a.b:443") refl)
      (omega arith, visible-All (codes "HTTP/1.1") refl) refl refl (omega arith)

handle-Ends_example :
    Ends
      (λ r. Unit {0})
      (handle in_memory to_url no_address of_bytes of_bytes 40 [] (client get_text))
unfolding memory_stream
handle-Ends_example =
    handle-Ends in_memory memory_stream to_url no_address in_memory-IsSafe of_bytes of_bytes 40
      (client get_text) (omega arith)
