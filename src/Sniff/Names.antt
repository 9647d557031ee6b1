-- ===== src/Sniff/Names.antt =====
-- The loops of `sniffDomain` on well-formed extensions: they skip what is not the server name
-- extension, and stop at its host name.
use cppsong.Base.{
  ℕ, zero, suc, ◌+◌, ◌-◌, ◌%◌, ◌^◌, ◌≤◌, ◌<◌, ◌≡◌, ◌≢◌, refl, subst, false, List, [], ◌∷◌, ◌++◌,
  append_assoc, arith, Bytes, ◌==◌, le→leb, ge→ltb,
}
use cppsong.Base.Lists.{length, length-append, All}
use cppsong.Base.Outcome.{ok}
use cppsong.Base.Cursor.{Rest, Rest-skip, Rest-length, at-Rest, string_at-Rest}
use cppsong.Bytes.Words.{be16}
use cppsong.Sniff.{sniff_names, sniff_server_name, sniff_extensions}
use cppsong.Sniff.Access.{word_at-Rest}

-- A TLS extension (RFC 8446, 4.2).
pub record Extension : Type 0 where
  pub kind : ℕ
  pub content : Bytes

abbrev pub encode_extension : Extension → Bytes
encode_extension e = be16 e.kind ++ (be16 (length e.content) ++ e.content)

abbrev pub encode_extensions : List Extension → Bytes
encode_extensions [] = []
encode_extensions (e ∷ es) = encode_extension e ++ encode_extensions es

-- An extension that fits its fields and is not the server name extension.
pub record IsOther (e : Extension) : Type 0 where
  pub kind_small : e.kind < 2 ^ 16
  pub kind_ne : e.kind ≢ 0
  pub content_small : length e.content < 2 ^ 16

-- The list of a server name extension (RFC 6066, 3): a host name and further entries.
abbrev pub name_list : Bytes → Bytes → Bytes
name_list host more = 0 ∷ (be16 (length host) ++ (host ++ more))

abbrev pub server_name : Bytes → Bytes → Extension
server_name host more = record {
  kind = 0;
  content = be16 (length (name_list host more)) ++ name_list host more;
}

kind_test : (k : ℕ) → k < 2 ^ 16 → k ≢ 0 → (k % 2 ^ 16 == 0) ≡ false
kind_test k small ne = ground arith

module _ (input host more rest : Bytes) (some_host : 0 < length host)
    (fits : length host < 2 ^ 16) where
  sniff_names-host :
      (fuel q last : ℕ)
      → Rest input q (name_list host more ++ rest)
      → q + length (name_list host more) ≤ last
      → last ≤ length input
      → sniff_names (suc fuel) input q last ≡ ok host
  unfolding sniff_names
  sniff_names-host fuel q last r short h =
      let sizes = length-append host more in
      let body : Rest input (q + 1) (be16 (length host) ++ (host ++ (more ++ rest))) =
        subst (λ w. Rest input (q + 1) (be16 (length host) ++ w)) (append_assoc host more rest)
          (Rest-skip (0 ∷ []) r refl) in
      let text = Rest-skip (be16 (length host)) {q = q + 3} body (omega arith) in
      rw (
        le→leb (q + 3) last (omega arith),
        at-Rest r,
        word_at-Rest (length host) _ fits body,
        ge→ltb last (q + 3 + length host) (omega arith),
        string_at-Rest host (more ++ rest) text refl (omega arith),
        sniff_names,
      )

  sniff_server_name-host :
      (p : ℕ)
      → Rest input p ((server_name host more).content ++ rest)
      → p + length (server_name host more).content ≤ length input
      → length (name_list host more) < 2 ^ 16
      → sniff_server_name input p (length (server_name host more).content) ≡ ok host
  unfolding sniff_server_name
  sniff_server_name-host p r h small =
      let names = name_list host more in
      let enough : length input ≡ suc (length input - 1) = omega (arith, Rest-length r) in
      let list : Rest input (p + 2) (names ++ rest) =
        Rest-skip (be16 (length names)) {q = p + 2} r (omega arith) in
      rw (
        ge→ltb (length (server_name host more).content) 2 (omega arith),
        word_at-Rest (length names) (names ++ rest) small r,
        ge→ltb (p + length (server_name host more).content) (p + 2 + length names) (omega arith),
        enough,
        sniff_names-host (length input - 1) (p + 2) (p + length (server_name host more).content)
            list (omega arith) h,
      )

  -- The extensions up to the server name are skipped, one in a round.
  pub sniff_extensions-host :
      (fuel : ℕ) (before : List Extension) (p last : ℕ)
      → All IsOther before
      → Rest input p
          (encode_extensions before ++ (encode_extension (server_name host more) ++ rest))
      → p + length (encode_extensions before) + length (encode_extension (server_name host more))
        ≤ last
      → last ≤ length input
      → length before < fuel
      → length (server_name host more).content < 2 ^ 16
      → sniff_extensions fuel input p last ≡ ok host
  unfolding sniff_extensions
  sniff_extensions-host zero before p last others r short h enough small = absurd (omega arith)
  sniff_extensions-host (suc fuel) [] p last others r short h enough small =
      let content = (server_name host more).content in
      let text : Rest input (p + 4) (content ++ rest) =
        Rest-skip (be16 0 ++ be16 (length content)) {q = p + 4} r (omega arith) in
      rw (
        le→leb (p + 4) last (omega arith),
        word_at-Rest 0 (be16 (length content) ++ (content ++ rest)) (omega arith) r,
        word_at-Rest {p = p + 2} (length content) (content ++ rest) small
            (Rest-skip (be16 0) {q = p + 2} r (omega arith)),
        ge→ltb last (p + 4 + length content) (omega arith),
        sniff_server_name-host (p + 4) text (omega arith) (omega arith),
        sniff_extensions,
      )
  sniff_extensions-host (suc fuel) (e ∷ es) p last (other, others) r short h enough small =
      let next = encode_extensions es ++ (encode_extension (server_name host more) ++ rest) in
      let head : Rest input p (encode_extension e ++ next) =
        subst (Rest input p)
          (append_assoc (encode_extension e) (encode_extensions es)
            (encode_extension (server_name host more) ++ rest))
          r in
      let kind : Rest input p (be16 e.kind ++ (be16 (length e.content) ++ (e.content ++ next))) =
        head in
      let total = length-append (encode_extension e) (encode_extensions es) in
      rw
        (
          le→leb (p + 4) last (omega arith),
          word_at-Rest e.kind (be16 (length e.content) ++ (e.content ++ next)) other.kind_small
              kind,
          word_at-Rest {p = p + 2} (length e.content) (e.content ++ next) other.content_small
              (Rest-skip (be16 e.kind) {q = p + 2} kind (omega arith)),
          ge→ltb last (p + 4 + length e.content) (omega arith),
          kind_test e.kind other.kind_small other.kind_ne,
          sniff_extensions,
        )
        (sniff_extensions-host fuel es (p + 4 + length e.content) last others
          (Rest-skip (encode_extension e) {q = p + 4 + length e.content} head (omega arith))
          (omega arith) h (omega arith) small)
