-- ===== src/Sniff/ClientHello.antt =====
-- `sniffDomain` against the TLS format: a ClientHello (RFC 8446, 4.1.2) with a server name
-- extension, in one record, is answered with its host name.
use cppsong.Base.{
  ℕ, ◌+◌, ◌*◌, ◌/◌, ◌%◌, ◌^◌, ◌≤◌, ◌<◌, ◌≡◌, refl, ap, ◌∙◌, subst, List, [], ◌∷◌, ◌++◌,
  append_assoc, arith, Bytes, gt→leb, ge→ltb, bit_or,
}
use cppsong.Base.Lists.{length, length-append}
use cppsong.Base.Outcome.{ok}
use cppsong.Base.Cursor.{Rest, Rest-start, Rest-skip, Rest-length, at-Rest}
use cppsong.Base.Words.{bit_or_join}
use cppsong.Bytes.Words.{be16}
use cppsong.Sniff.{
  sniff_extension_block, sniff_compression, sniff_ciphers, sniff_session_id, sniff_hello,
  sniff_domain,
}
use cppsong.Sniff.Access.{word_at-Rest}
use cppsong.Sniff.Names.{
  Extension, encode_extension, encode_extensions, server_name, sniff_extensions-host,
}
use cppsong.Sniff.Format.{
  ClientHello, extensions, tail_from_extensions, tail_from_compression, tail_from_ciphers,
  tail_from_session_id, body_length, be24, encode, IsWellFormed,
}

length-before : (es : List Extension) → length es ≤ length (encode_extensions es)
length-before [] = omega arith
length-before (e ∷ es) =
    omega (arith, length-append (encode_extension e) (encode_extensions es), length-before es)

module _ (input rest : Bytes) (h : ClientHello) (good : IsWellFormed h) where
  length-extensions :
      length (extensions h)
      ≡ length (encode_extensions h.before)
        + length (encode_extension (server_name h.host h.more_names))
        + length h.after
  length-extensions = omega (
    arith,
    length-append (encode_extensions h.before)
        (encode_extension (server_name h.host h.more_names) ++ h.after),
    length-append (encode_extension (server_name h.host h.more_names)) h.after,
  )

  at_extensions :
      (p : ℕ)
      → Rest input p (tail_from_extensions h rest)
      → sniff_extension_block input p ≡ ok h.host
  unfolding sniff_extension_block
  at_extensions p r =
      let size = length (extensions h) in
      let before = encode_extensions h.before in
      let name = encode_extension (server_name h.host h.more_names) in
      let split : Rest input (p + 2) (extensions h ++ rest) =
        Rest-skip (be16 size) {q = p + 2} r (omega arith) in
      let apart : Rest input (p + 2) (before ++ (name ++ (h.after ++ rest))) =
        subst (Rest input (p + 2))
          (append_assoc before (name ++ h.after) rest
            ∙ ap (◌++◌ before) (append_assoc name h.after rest))
          split in
      let whole = Rest-length split in
      let sum = length-append (extensions h) rest in
      rw (
        ge→ltb (length input) (p + 2) (omega arith),
        word_at-Rest size (extensions h ++ rest) (omega (arith, good.message_fits)) r,
        ge→ltb (length input) (p + 2 + size) (omega arith),
        sniff_extensions-host input h.host h.more_names (h.after ++ rest) good.some_host
            (omega (arith, length-extensions, good.message_fits, length-append h.host h.more_names))
            (length input) h.before (p + 2) (p + 2 + size) good.others apart
            (omega (arith, length-extensions)) (omega arith)
            (omega (arith, length-before h.before, length-extensions))
            (omega (arith, length-extensions, good.message_fits)),
      )

  at_compression :
      (p : ℕ) → Rest input p (tail_from_compression h rest) → sniff_compression input p ≡ ok h.host
  unfolding sniff_compression
  at_compression p r =
      let after =
        Rest-skip h.compression {q = p + 1 + length h.compression}
          (Rest-skip (length h.compression ∷ []) r refl) (omega arith) in
      rw
        (
          gt→leb (length input) p (omega (arith, Rest-length r)),
          at-Rest r,
          ge→ltb (length input) (p + 1 + length h.compression) (omega (arith, Rest-length after)),
        )
        (at_extensions (p + 1 + length h.compression) after)

  at_ciphers : (p : ℕ) → Rest input p (tail_from_ciphers h rest) → sniff_ciphers input p ≡ ok h.host
  unfolding sniff_ciphers
  at_ciphers p r =
      let size = length h.ciphers in
      let after = Rest-skip (be16 size ++ h.ciphers) {q = p + 2 + size} r (omega arith) in
      rw
        (
          ge→ltb (length input) (p + 2) (omega (arith, Rest-length after)),
          word_at-Rest size (h.ciphers ++ tail_from_compression h rest)
              (omega (arith, good.message_fits)) r,
          ge→ltb (length input) (p + 2 + size) (omega (arith, Rest-length after)),
        )
        (at_compression (p + 2 + size) after)

  at_session_id :
      (p : ℕ) → Rest input p (tail_from_session_id h rest) → sniff_session_id input p ≡ ok h.host
  unfolding sniff_session_id
  at_session_id p r =
      let after =
        Rest-skip h.session_id {q = p + 1 + length h.session_id}
          (Rest-skip (length h.session_id ∷ []) r refl) (omega arith) in
      rw
        (
          gt→leb (length input) p (omega (arith, Rest-length r)),
          at-Rest r,
          ge→ltb (length input) (p + 1 + length h.session_id) (omega (arith, Rest-length after)),
        )
        (at_ciphers (p + 1 + length h.session_id) after)

  length-tail : length (tail_from_session_id h rest) + 34 ≡ body_length h + length rest
  length-tail = omega (
    arith,
    length-append h.session_id (tail_from_ciphers h rest),
    length-append h.ciphers (tail_from_compression h rest),
    length-append h.compression (tail_from_extensions h rest),
    length-append (extensions h) rest,
  )

three_bytes :
    (n : ℕ)
    → n < 2 ^ 24
    → bit_or (bit_or (n / 2 ^ 16 % 2 ^ 8 * 2 ^ 16) (n / 2 ^ 8 % 2 ^ 8 * 2 ^ 8)) (n % 2 ^ 8) ≡ n
three_bytes n small =
    let high : bit_or (n / 2 ^ 16 % 2 ^ 8 * 2 ^ 16) (n / 2 ^ 8 % 2 ^ 8 * 2 ^ 8)
        ≡ n / 2 ^ 16 % 2 ^ 8 * 2 ^ 16 + n / 2 ^ 8 % 2 ^ 8 * 2 ^ 8 =
      bit_or_join 16 (n / 2 ^ 16 % 2 ^ 8) (n / 2 ^ 8 % 2 ^ 8 * 2 ^ 8) (omega arith) in
    let factored : n / 2 ^ 16 % 2 ^ 8 * 2 ^ 16 + n / 2 ^ 8 % 2 ^ 8 * 2 ^ 8
        ≡ (n / 2 ^ 16 % 2 ^ 8 * 2 ^ 8 + n / 2 ^ 8 % 2 ^ 8) * 2 ^ 8 =
      omega arith in
    ap (λ (t : ℕ). bit_or t (n % 2 ^ 8)) (high ∙ factored)
    ∙ bit_or_join 8 (n / 2 ^ 16 % 2 ^ 8 * 2 ^ 8 + n / 2 ^ 8 % 2 ^ 8) (n % 2 ^ 8) (omega arith)
    ∙ omega arith

module _ (input rest : Bytes) (h : ClientHello) (good : IsWellFormed h) where
  at_hello :
      (p : ℕ)
      → Rest input p (
          0x01 ∷ (be24 (body_length h) ++ ((h.version ++ h.random) ++ tail_from_session_id h rest)))
      → sniff_hello input p ≡ ok h.host
  unfolding sniff_hello
  at_hello p r =
      let n = body_length h in
      let fixed = h.version ++ h.random in
      let sizes = length-append h.version h.random in
      let high = Rest-skip (0x01 ∷ []) {q = p + 1} r refl in
      let middle = Rest-skip (n / 2 ^ 16 % 2 ^ 8 ∷ []) {q = p + 2} high (omega arith) in
      let low = Rest-skip (n / 2 ^ 8 % 2 ^ 8 ∷ []) {q = p + 3} middle (omega arith) in
      let body = Rest-skip (n % 2 ^ 8 ∷ []) {q = p + 4} low (omega arith) in
      let after : Rest input (p + 4 + 2 + 32) (tail_from_session_id h rest) =
        Rest-skip fixed body (omega (arith, good.version_size, good.random_size)) in
      let whole = Rest-length after in
      rw
        (
          ge→ltb (length input) (p + 4) (omega arith),
          at-Rest r,
          at-Rest high,
          at-Rest middle,
          at-Rest low,
          three_bytes n (omega (arith, good.message_fits)),
          ge→ltb (length input) (p + 4 + n) (omega (arith, length-tail input rest h good)),
          ge→ltb (length input) (p + 4 + 2 + 32) (omega arith),
        )
        (at_session_id input rest h good (p + 4 + 2 + 32) after)

-- The first record of a TLS connection that holds a whole well-formed ClientHello, whatever its
-- random bytes, session id, ciphers, compression methods, other extensions and later name
-- entries are and whatever follows it, is answered with the host name of its server name
-- extension.
pub sniff_domain-encode :
    (h : ClientHello) (rest : Bytes) → IsWellFormed h → sniff_domain (encode h rest) ≡ ok h.host
unfolding sniff_domain
sniff_domain-encode h rest good =
    let input = encode h rest in
    let size = 4 + body_length h in
    let fixed = h.version ++ h.random in
    let message = 0x01 ∷ (be24 (body_length h) ++ (fixed ++ tail_from_session_id h rest)) in
    let prefix : Bytes = 0x16 ∷ 0x03 ∷ h.record_minor ∷ [] in
    let r : Rest input 3 (be16 size ++ message) = Rest-skip prefix (Rest-start input) refl in
    let sizes = length-append h.version h.random in
    let fixed_size = length-append fixed (tail_from_session_id h rest) in
    rw
      (
        ge→ltb (length input) 5 (omega arith),
        at-Rest (Rest-start input),
        at-Rest (Rest-skip (0x16 ∷ []) {q = 1} (Rest-start input) refl),
        word_at-Rest size message good.message_fits r,
        ge→ltb (length input) (size + 5)
            (omega (arith, length-tail input rest h good, good.version_size, good.random_size)),
      )
      (at_hello input rest h good 5 (Rest-skip (be16 size) r refl))
