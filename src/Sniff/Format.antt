-- ===== src/Sniff/Format.antt =====
-- The TLS format of a ClientHello (RFC 8446, 4.1.2) with a server name extension, in one record.
use cppsong.Base.{ℕ, ◌+◌, ◌/◌, ◌%◌, ◌^◌, ◌<◌, ◌≡◌, List, [], ◌∷◌, ◌++◌, Bytes}
use cppsong.Base.Lists.{length, All}
use cppsong.Bytes.Words.{be16}
use cppsong.Sniff.Names.{Extension, IsOther, encode_extension, encode_extensions, server_name}

pub record ClientHello : Type 0 where
  pub record_minor : ℕ
  pub version : Bytes
  pub random : Bytes
  pub session_id : Bytes
  pub ciphers : Bytes
  pub compression : Bytes
  pub before : List Extension
  pub host : Bytes
  pub more_names : Bytes
  pub after : Bytes

abbrev pub extensions : ClientHello → Bytes
extensions h =
    encode_extensions h.before ++ (encode_extension (server_name h.host h.more_names) ++ h.after)

-- From the session id on, with what follows the message.
abbrev pub tail_from_extensions : ClientHello → Bytes → Bytes
tail_from_extensions h rest = be16 (length (extensions h)) ++ (extensions h ++ rest)

abbrev pub tail_from_compression : ClientHello → Bytes → Bytes
tail_from_compression h rest = length h.compression ∷ (h.compression ++ tail_from_extensions h rest)

abbrev pub tail_from_ciphers : ClientHello → Bytes → Bytes
tail_from_ciphers h rest = be16 (length h.ciphers) ++ (h.ciphers ++ tail_from_compression h rest)

abbrev pub tail_from_session_id : ClientHello → Bytes → Bytes
tail_from_session_id h rest = length h.session_id ∷ (h.session_id ++ tail_from_ciphers h rest)

abbrev pub body_length : ClientHello → ℕ
body_length h =
    40 + length h.session_id + length h.ciphers + length h.compression + length (extensions h)

abbrev pub be24 : ℕ → Bytes
be24 n = n / 2 ^ 16 % 2 ^ 8 ∷ n / 2 ^ 8 % 2 ^ 8 ∷ n % 2 ^ 8 ∷ []

-- The record with the message in it, and what the client sends after it.
abbrev pub encode : ClientHello → Bytes → Bytes
encode h rest =
    0x16
    ∷ 0x03
    ∷ h.record_minor
    ∷ (be16 (4 + body_length h)
        ++ (0x01
            ∷ (be24 (body_length h) ++ ((h.version ++ h.random) ++ tail_from_session_id h rest))))

-- Every part fits its length field; the host name is not empty.
pub record IsWellFormed (h : ClientHello) : Type 0 where
  pub version_size : length h.version ≡ 2
  pub random_size : length h.random ≡ 32
  pub session_id_fits : length h.session_id < 2 ^ 8
  pub compression_fits : length h.compression < 2 ^ 8
  pub message_fits : 4 + body_length h < 2 ^ 16
  pub others : All IsOther h.before
  pub some_host : 0 < length h.host
