-- ===== src/Inbound/Http/Total.antt =====
-- An inbound without users: whatever a client sends, its handling comes to an end.
use cppsong.Base.{
  ℕ, ◌<◌, ◌≤◌, ◌≡◌, refl, ap, ◌⊎◌, inl, inr, zero, suc, [], ◌∷◌, ◌++◌, Bytes, Option, none, some,
  ◌==◌, bytes_eq, arith,
}
use cppsong.Base.Ends.{Ends}
use cppsong.Base.Lists.{length, length-append}
use cppsong.Base.Outcome.{Outcome, ok, throw, at, invalid_url}
use cppsong.Base.Text.{codes}
use cppsong.Connection.{Io, Connection, ◌>>=◌, pure, IsStream, IsSafe, then_run}
use cppsong.Connection.Steps.{then-Ends, lift-Ends}
use cppsong.Inbound.Http.{
  Url, RequestLine, crlf, cut, request_line, read_to, more_data, parse_url, tunnel, forward,
  answer_http, handle_http, handle,
}
use cppsong.Inbound.Http.Tunnel.{empty_or_more}
use cppsong.Inbound.Total.{Any, if-Any, handle_socks5-Ends}

front_of : (xs : Bytes) → (xs ≡ []) ⊎ ((b : ℕ) × (bs : Bytes) × (xs ≡ b ∷ bs))
front_of [] = inl refl
front_of (x ∷ xs) = inr (x, xs, refl)

module _ {C : Type 0} (conn : Connection C) (stream : IsStream conn) where
  -- After a read there is less to come, but for one that fails.
  read-Ends :
      {A : Type 0} (P : A × C → Type 0) (c : C) (n : ℕ) (f : Bytes → Io C A)
      → 0 < n
      → ((got : Bytes) (c' : C)
          → length (stream.input c') < length (stream.input c)
          → Ends P (f got c'))
      → Ends P (then_run (conn.read n c) f)
  read-Ends P c n f size next = elim (empty_or_more (stream.input c)) [
    | inl empty ↦ rw (stream.read_end c n size empty, Ends) tt
    | inr more ↦
        let (got, behind, c', run, split, nonempty, input, sent) = stream.read_some c n size more in
        rw (run, Ends)
          (next got c'
            (omega (arith, nonempty, ap length split, length-append got behind, ap length input)))
  ]

  -- No more than `size` is to come.
  abbrev Left : {A : Type 0} → ℕ → A × C → Type 0
  Left size r = length (stream.input r.1) ≤ size

  read_to-Ends :
      (mark : Bytes) (fuel : ℕ) (c : C) (buffer : Bytes) (size : ℕ)
      → length (stream.input c) ≤ size
      → length (stream.input c) < fuel
      → Ends (Left size) (read_to conn mark fuel buffer c)
  unfolding read_to
  read_to-Ends mark zero c buffer size fits enough = absurd (omega (arith, enough))
  read_to-Ends mark (suc fuel) c buffer size fits enough =
      elim (cut mark buffer)
        as (λ found. Ends (Left size) (
          (elim found as (λ f. Io C (Bytes × Bytes)) [
            | some pair ↦ pure pair
            | none ↦ conn.read 4096 >>= λ received. read_to conn mark fuel (buffer ++ received)
          ])
            c)) [
              | some found ↦ fits
              | none ↦ read-Ends (Left size) c 4096 _ (omega arith) λ got c' less.
                  read_to-Ends mark fuel c' (buffer ++ got) size (omega (arith, fits, less))
                    (omega (arith, enough, less))
            ]

  more_data-Ends : (c : C) (buffer : Bytes) → Ends Any (more_data conn buffer c)
  unfolding more_data
  more_data-Ends c [] = elim (empty_or_more (stream.input c)) [
    | inl empty ↦ rw (stream.read_end c 4096 (omega arith) empty, Ends) tt
    | inr more ↦
        let (got, behind, c', run, _, _, _, _) = stream.read_some c 4096 (omega arith) more in
        rw (run, Ends) tt
  ]
  more_data-Ends c (b ∷ bs) = tt

module _ {C Ip : Type 0} (conn : Connection C) (stream : IsStream conn)
    (parse_uri_reference : Bytes → Option Url) (make_address : Bytes → Option Ip) where
  parse_url-Ends :
      (target : Bytes) → Ends Any (parse_url conn parse_uri_reference make_address target)
  unfolding parse_url
  parse_url-Ends target = found_or_not (parse_uri_reference target)
    where
      found_or_not :
          (found : Option Url)
          → Ends Any
              (elim found as (λ f. Outcome Url) [ none ↦ throw invalid_url | some url ↦ ok url ])
      found_or_not none = tt
      found_or_not (some url) = tt

  tunnel-Ends :
      (fuel : ℕ) (url : Url) (c : C) (buffer : Bytes)
      → length (stream.input c) < fuel
      → Ends Any (tunnel conn parse_uri_reference make_address fuel url buffer c)
  unfolding tunnel
  tunnel-Ends fuel url c buffer enough =
      then-Ends Any (Left conn stream (length (stream.input c)))
        (read_to conn (crlf ++ crlf) fuel buffer c) _
        (read_to-Ends conn stream (crlf ++ crlf) fuel c buffer (length (stream.input c))
          (omega arith) enough)
        λ header c1 left.
          let (c2, run, _, _) =
            stream.write_sent c1 (codes "HTTP/1.1 200 Connection Established" ++ (crlf ++ crlf)) in
          rw (run, Ends) (read-Ends conn stream Any c2 4096 _ (omega arith) λ got c3 less. tt)

  answer_http-Ends :
      (fuel : ℕ) (line : RequestLine) (c : C) (buffer : Bytes)
      → length (stream.input c) < fuel
      → Ends Any (answer_http conn parse_uri_reference make_address fuel line buffer c)
  unfolding answer_http forward
  answer_http-Ends fuel line c buffer enough =
      lift-Ends Any Any (parse_url conn parse_uri_reference make_address line.target) _ c
        (parse_url-Ends line.target)
        λ url parsed.
          if-Any (bytes_eq line.method (codes "CONNECT")) _ _ c
            (tunnel-Ends fuel url c buffer enough)
            (then-Ends Any Any (more_data conn buffer c) _ (more_data-Ends conn stream c buffer)
              λ got c' all. tt)

  handle_http-Ends :
      (fuel first : ℕ) (c : C)
      → length (stream.input c) < fuel
      → Ends Any (handle_http conn parse_uri_reference make_address fuel first c)
  unfolding handle_http
  handle_http-Ends fuel first c enough =
      read-Ends conn stream Any c 4096 _ (omega arith) λ got c1 less.
        then-Ends Any (Left conn stream (length (stream.input c)))
          (read_to conn crlf fuel (first ∷ got) c1) _
          (read_to-Ends conn stream crlf fuel c1 (first ∷ got) (length (stream.input c))
            (omega (arith, less)) (omega (arith, less, enough)))
          λ found c2 left.
            answer_http-Ends fuel (request_line found.0) c2 found.1 (omega (arith, left, enough))

  -- Without users, and on a connection that works and whose calls end in a value or an exception,
  -- the handling of a client ends in a session, in a closed connection or in an exception, whatever
  -- the client sends: the loops end, and no vector is read past its end.
  pub handle-Ends :
      (safe : IsSafe conn) (of_v4 of_v6 : Bytes → Ip) (fuel : ℕ) (c : C)
      → length (stream.input c) < fuel
      → Ends Any (handle conn parse_uri_reference make_address of_v4 of_v6 fuel [] c)
  unfolding handle at
  handle-Ends safe of_v4 of_v6 fuel c enough = elim (front_of (stream.input c)) [
    | inl empty ↦ rw (stream.read_exactly_short c 1 (omega (arith, ap length empty)), Ends) tt
    | inr (b, bs, split) ↦
        let (c1, run, input, _) = stream.read_exactly_enough c (b ∷ []) bs split in
        rw (run, Ends)
          (if-Any (b == 5) _ _ c1 (handle_socks5-Ends conn safe of_v4 of_v6 c1)
            (handle_http-Ends fuel b c1 (omega (arith, enough, ap length split, ap length input))))
  ]
