-- ===== src/Inbound/Http/Tunnel.antt =====
-- CONNECT: the end of the header is looked for in what is behind the first line only.
use cppsong.Base.{
  ℕ, ◌+◌, ◌<◌, ◌≤◌, ◌≡◌, refl, sym, subst, ap, ◌∙◌, false, ◌⊎◌, inl, inr, zero, suc, List, [], ◌∷◌,
  ◌++◌, Bytes, Option, none, some, ◌==◌, bytes_eq, arith, Bool-cases,
}
use cppsong.Base.Cursor.{Returns}
use cppsong.Base.Lists.{length, length-append}
use cppsong.Base.Outcome.{
  Outcome, ok, throw, bad_index, bad_address, hang, Error, at, end_of_stream,
}
use cppsong.Base.Text.{codes}
use cppsong.Builder.Outbound.{UserPass}
use cppsong.Connection.{Io, Connection, IsStream, then_run}
use cppsong.Inbound.Http.{
  Url, RequestLine, crlf, cut, request_line, read_to, parse_url, tunnel, answer_http, handle_http,
  handle,
}
use cppsong.Inbound.Http.Words.{IsWord, line_of, request_line-line_of, line_of-IsLine}
use cppsong.Inbound.Http.Search.{Found, read_to-Found}
use cppsong.Router.{starts_with}

starts_with-short : (mark v : Bytes) → length v < length mark → starts_with mark v ≡ false
unfolding starts_with
starts_with-short [] v short = absurd (omega (arith, short))
starts_with-short (x ∷ xs) [] short = refl
starts_with-short (x ∷ xs) (y ∷ ys) short = elim (Bool-cases (x == y)) [
  | inl same ↦ rw same (starts_with-short xs ys (omega (arith, short)))
  | inr other ↦ rw other refl
]

cut-short : (mark v : Bytes) → length v < length mark → cut mark v ≡ none
unfolding cut
cut-short mark [] short = refl
cut-short mark (b ∷ bs) short =
    rw (starts_with-short mark (b ∷ bs) short, cut-short mark bs (omega (arith, short))) refl

pub empty_or_more : (xs : Bytes) → (xs ≡ []) ⊎ (0 < length xs)
empty_or_more [] = inl refl
empty_or_more (x ∷ xs) = inr (omega arith)

then-throws :
    {A B C : Type 0} (Q : B × C → Type 0) (m : Outcome (B × C)) (f : B → Io C A) (e : Error)
    → Returns Q m
    → ((b : B) (c : C) → Q (b, c) → f b c ≡ throw e)
    → then_run m f ≡ throw e
then-throws Q (ok (b, c)) f e h next = next b c h
then-throws Q (throw e') f e h next = absurd h
then-throws Q (bad_index i) f e h next = absurd h
then-throws Q (bad_address i) f e h next = absurd h
then-throws Q hang f e h next = absurd h

module _ {C : Type 0} (conn : Connection C) (stream : IsStream conn) where
  -- Too little is there for the mark, and nothing more comes.
  read_to-short :
      (mark : Bytes) (fuel : ℕ) (c : C) (buffer : Bytes)
      → length buffer + length (stream.input c) < length mark
      → length (stream.input c) < fuel
      → read_to conn mark fuel buffer c ≡ throw end_of_stream
  unfolding read_to
  read_to-short mark zero c buffer short enough = absurd (omega (arith, enough))
  read_to-short mark (suc fuel) c buffer short enough = elim (empty_or_more (stream.input c)) [
    | inl empty ↦
        rw
          (
            cut-short mark buffer (omega (arith, short)),
            read_to,
            stream.read_end c 4096 (omega arith) empty,
          )
          refl
    | inr more ↦
        let (got, behind, c', run, split, nonempty, input, sent) =
          stream.read_some c 4096 (omega arith) more in
        let sizes : length (stream.input c) ≡ length got + length (stream.input c') =
          omega (arith, ap length split, length-append got behind, ap length input) in
        rw (cut-short mark buffer (omega (arith, short)), read_to, run)
          (read_to-short mark fuel c' (buffer ++ got)
            (omega (arith, short, sizes, length-append buffer got))
            (omega (arith, enough, sizes, nonempty)))
  ]

connect-IsWord : IsWord (codes "CONNECT")
connect-IsWord = (
  omega arith,
  (
    omega arith,
    (omega arith, (omega arith, (omega arith, (omega arith, (omega arith, (omega arith, tt)))))),
  ),
)

-- The connection with another `write`.
abbrev pub with_write : {C : Type 0} → (Bytes → Io C (Unit {0})) → Connection C → Connection C
with_write write conn = record conn { write = write }

then_run-cong :
    {A B C : Type 0} (m : Outcome (A × C)) (f g : A → Io C B)
    → ((a : A) (c : C) → f a c ≡ g a c)
    → then_run m f ≡ then_run m g
then_run-cong (ok (a, c)) f g same = same a c
then_run-cong (throw e) f g same = refl
then_run-cong (bad_index i) f g same = refl
then_run-cong (bad_address i) f g same = refl
then_run-cong hang f g same = refl

-- The loop does not write.
read_to-with_write :
    {C : Type 0} (conn : Connection C) (write : Bytes → Io C (Unit {0})) (mark : Bytes) (fuel : ℕ)
    (buffer : Bytes) (c : C)
    → read_to (with_write write conn) mark fuel buffer c ≡ read_to conn mark fuel buffer c
unfolding read_to
read_to-with_write conn write mark zero buffer c = refl
read_to-with_write conn write mark (suc fuel) buffer c = step (cut mark buffer) refl (
    then_run-cong (conn.read 4096 c) _ _
      (λ received c'. read_to-with_write conn write mark fuel (buffer ++ received) c'))
  where
    step :
        (found : Option (Bytes × Bytes))
        → cut mark buffer ≡ found
        → then_run
            (conn.read 4096 c)
            (λ received. read_to (with_write write conn) mark fuel (buffer ++ received))
          ≡ then_run (conn.read 4096 c) (λ received. read_to conn mark fuel (buffer ++ received))
        → read_to (with_write write conn) mark (suc fuel) buffer c
          ≡ read_to conn mark (suc fuel) buffer c
    step none none_found later = rw (read_to, none_found) later
    step (some found) is_found later = rw (read_to, is_found) refl

module _ {C Ip : Type 0} (conn : Connection C) (stream : IsStream conn)
    (parse_uri_reference : Bytes → Option Url) (make_address : Bytes → Option Ip) where
  -- On a connection whose reads work, and whatever its `write` does, an endless loop included, a
  -- client who sends a CONNECT request with a target that is parsed as a URL and a version, both
  -- of visible characters, with an empty line right behind the first, and nothing more, makes the
  -- handler throw what reading behind the end of the stream throws: `write` is not called, and
  -- the client gets no answer. The fuel is at least the number of bytes to come.
  pub handle-no_header :
      (write : Bytes → Io C (Unit {0})) (of_v4 of_v6 : Bytes → Ip) (users : List UserPass) (c : C)
      (fuel : ℕ) (target version : Bytes) (url : Url)
      → IsWord target
      → IsWord version
      → stream.input c ≡ line_of (codes "CONNECT") target version ++ (crlf ++ crlf)
      → parse_uri_reference target ≡ some url
      → length (stream.input c) ≤ fuel
      → handle (with_write write conn) parse_uri_reference make_address of_v4 of_v6 fuel users c
        ≡ throw end_of_stream
  unfolding handle handle_http answer_http parse_url tunnel at bytes_eq
  handle-no_header write of_v4 of_v6 users c fuel target version url is_target is_version have
        parsed enough =
      let line = codes "ONNECT" ++ 32 ∷ (target ++ 32 ∷ version) in
      let words =
        request_line-line_of (codes "CONNECT") target version connect-IsWord is_target is_version in
      let (c1, run1, input1, _) = stream.read_exactly_enough c (67 ∷ []) _ have in
      let size1 : length (stream.input c1) ≡ length line + 4 =
        omega (arith, ap length input1, length-append line (crlf ++ crlf)) in
      let (got, behind, c2, run2, split, nonempty, input2, _) =
        stream.read_some c1 4096 (omega arith) (omega (arith, size1)) in
      let same : (67 ∷ got) ++ stream.input c2 ≡ (67 ∷ line) ++ (crlf ++ crlf) =
        ap (◌∷◌ 67) (ap (λ (t : Bytes). got ++ t) input2 ∙ sym split ∙ input1) in
      let sizes : length (stream.input c1) ≡ length got + length (stream.input c2) =
        omega (arith, ap length split, length-append got behind, ap length input2) in
      rw (run1, run2)
        (then-throws (Found conn stream c2 (67 ∷ line) crlf)
          (read_to (with_write write conn) crlf fuel (67 ∷ got) c2) _ end_of_stream
          (subst (Returns (Found conn stream c2 (67 ∷ line) crlf))
            (sym (read_to-with_write conn write crlf fuel (67 ∷ got) c2))
            (read_to-Found conn stream fuel c2 (67 ∷ line) crlf (67 ∷ got)
              (line_of-IsLine (codes "CONNECT") target version connect-IsWord is_target is_version)
              same
              (omega (
                arith,
                enough,
                ap length have,
                length-append line (crlf ++ crlf),
                size1,
                sizes,
                nonempty,
              ))))
          λ found c3 (is_found, kept, sent).
            let all : length found.1 + length (stream.input c3) ≡ 2 =
              omega (arith, length-append found.1 (stream.input c3), ap length kept) in
            let shut : read_to (with_write write conn) (crlf ++ crlf) fuel found.1 c3
                ≡ throw end_of_stream =
              read_to-with_write conn write (crlf ++ crlf) fuel found.1 c3
              ∙ read_to-short conn stream (crlf ++ crlf) fuel c3 found.1 (omega (arith, all))
                  (omega (arith, all, enough, ap length have, length-append line (crlf ++ crlf))) in
            subst
              (λ (l : RequestLine).
                answer_http (with_write write conn) parse_uri_reference make_address fuel l found.1
                  c3
                ≡ throw end_of_stream)
              (sym (ap request_line is_found ∙ words))
              (rw (parsed, answer_http, parse_url, shut) refl))
