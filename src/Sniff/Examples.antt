-- ===== src/Sniff/Examples.antt =====
-- Runs of `sniffDomain` at fixed inputs.
use cppsong.Base.{◌≡◌, refl, [], ◌∷◌, arith}
use cppsong.Base.Lists.{length, replicate}
use cppsong.Base.Outcome.{ok, bad_address, at, string_at}
use cppsong.Sniff.{
  word_at, sniff_names, sniff_server_name, sniff_extensions, sniff_extension_block,
  sniff_compression, sniff_ciphers, sniff_session_id, sniff_hello, sniff_domain,
}
use cppsong.Sniff.Access.{IsDefined}
use cppsong.Sniff.ClientHello.{sniff_domain-encode}
use cppsong.Sniff.Format.{ClientHello, encode, IsWellFormed}
use cppsong.Sniff.Safety.{sniff_domain-IsDefined}

abbrev pub hello : ClientHello
hello = record {
  record_minor = 1;
  version = 3 ∷ 3 ∷ [];
  random = replicate 32 0;
  session_id = 5 ∷ 5 ∷ [];
  ciphers = 0x13 ∷ 0x01 ∷ [];
  compression = 0 ∷ [];
  before = record { kind = 10; content = 0 ∷ 0x1d ∷ [] } ∷ [];
  host = b'a' ∷ b'.' ∷ b'b' ∷ [];
  more_names = [];
  after = [];
}

sniff_hello_host : sniff_domain (encode hello []) ≡ ok (b'a' ∷ b'.' ∷ b'b' ∷ [])
unfolding sniff_domain sniff_hello sniff_session_id sniff_ciphers sniff_compression
    sniff_extension_block sniff_extensions sniff_server_name sniff_names word_at at string_at
sniff_hello_host = refl

-- An empty name at the very end of the input: the address past the end is formed.
sniff_empty_name :
    sniff_domain (encode (record hello { host = [] }) [])
    ≡ bad_address (length (encode (record hello { host = [] }) []))
unfolding sniff_domain sniff_hello sniff_session_id sniff_ciphers sniff_compression
    sniff_extension_block sniff_extensions sniff_server_name sniff_names word_at at string_at
sniff_empty_name = refl

pub hello-IsWellFormed : IsWellFormed hello
hello-IsWellFormed = record {
  version_size = refl;
  random_size = refl;
  session_id_fits = omega arith;
  compression_fits = omega arith;
  message_fits = omega arith;
  others =
      (record { kind_small = omega arith; kind_ne = omega arith; content_small = omega arith }, tt);
  some_host = omega arith;
}

sniff_domain-encode_example : sniff_domain (encode hello (1 ∷ [])) ≡ ok (b'a' ∷ b'.' ∷ b'b' ∷ [])
sniff_domain-encode_example = sniff_domain-encode hello (1 ∷ []) hello-IsWellFormed

sniff_domain-IsDefined_example : IsDefined (22 ∷ 3 ∷ []) (sniff_domain (22 ∷ 3 ∷ []))
sniff_domain-IsDefined_example = sniff_domain-IsDefined (22 ∷ 3 ∷ [])
