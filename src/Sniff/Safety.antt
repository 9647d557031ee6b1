-- ===== src/Sniff/Safety.antt =====
-- `sniffDomain` on every input: which reads it makes, and that it ends.
use cppsong.Base.{ℕ, zero, suc, ◌+◌, ◌≤◌, ◌<◌, ◌==◌, Bytes, arith, not, ◌%◌, ◌^◌}
use cppsong.Base.Lists.{length}
use cppsong.Sniff.{
  sniff_names, sniff_server_name, sniff_extensions, sniff_extension_block, sniff_compression,
  sniff_ciphers, sniff_session_id, sniff_hello, sniff_domain,
}
use cppsong.Sniff.Access.{
  IsDefined, guard_lt, guard_le, guard, either, loop_le, read_at, read_word, string_at-IsDefined,
}

module _ (input : Bytes) where
  sniff_names-IsDefined :
      (fuel q last : ℕ)
      → last ≤ length input
      → q ≤ last
      → last < q + fuel
      → IsDefined input (sniff_names fuel input q last)
  unfolding sniff_names
  sniff_names-IsDefined zero q last h start enough = absurd (omega arith)
  sniff_names-IsDefined (suc fuel) q last h start enough = loop_le input (q + 3) last _ λ more.
      read_at input q _ (omega arith) λ name_type.
        read_word input (q + 1) _ (omega arith) λ name_len.
          guard_lt input last (q + 3 + name_len) _ λ fits.
            either input (name_type == 0) _ _
              (string_at-IsDefined input (q + 3) name_len (omega arith))
              (sniff_names-IsDefined fuel (q + 3 + name_len) last h fits (omega arith))

  sniff_server_name-IsDefined :
      (p len : ℕ) → 1 ≤ p → p + len ≤ length input → IsDefined input (sniff_server_name input p len)
  unfolding sniff_server_name
  sniff_server_name-IsDefined p len start h = guard_lt input len 2 _ λ room.
      read_word input p _ (omega arith) λ list_len.
        guard_lt input (p + len) (p + 2 + list_len) _ λ fits.
          sniff_names-IsDefined (length input) (p + 2) (p + len) h (omega arith) (omega arith)

  sniff_extensions-IsDefined :
      (fuel p last : ℕ)
      → last ≤ length input
      → p ≤ last
      → last < p + fuel
      → IsDefined input (sniff_extensions fuel input p last)
  unfolding sniff_extensions
  sniff_extensions-IsDefined zero p last h start enough = absurd (omega arith)
  sniff_extensions-IsDefined (suc fuel) p last h start enough = loop_le input (p + 4) last _ λ more.
      read_word input p _ (omega arith) λ type. read_word input (p + 2) _ (omega arith) λ len.
        guard_lt input last (p + 4 + len) _ λ fits.
          either input (type % 2 ^ 16 == 0) _ _
            (sniff_server_name-IsDefined (p + 4) len (omega arith) (omega arith))
            (sniff_extensions-IsDefined fuel (p + 4 + len) last h fits (omega arith))

  sniff_extension_block-IsDefined :
      (p : ℕ) → 1 ≤ p → IsDefined input (sniff_extension_block input p)
  unfolding sniff_extension_block
  sniff_extension_block-IsDefined p start = guard_lt input (length input) (p + 2) _ λ room.
      read_word input p _ (omega arith) λ len. guard_lt input (length input) (p + 2 + len) _ λ fits.
        sniff_extensions-IsDefined (length input) (p + 2) (p + 2 + len) fits (omega arith)
          (omega arith)

  sniff_compression-IsDefined : (p : ℕ) → IsDefined input (sniff_compression input p)
  unfolding sniff_compression
  sniff_compression-IsDefined p = guard_le input (length input) p _ λ room.
      read_at input p _ room λ len.
        guard_lt input (length input) (p + 1 + len) _
          λ fits. sniff_extension_block-IsDefined (p + 1 + len) (omega arith)

  sniff_ciphers-IsDefined : (p : ℕ) → IsDefined input (sniff_ciphers input p)
  unfolding sniff_ciphers
  sniff_ciphers-IsDefined p = guard_lt input (length input) (p + 2) _ λ room.
      read_word input p _ (omega arith) λ len.
        guard_lt input (length input) (p + 2 + len) _
          λ fits. sniff_compression-IsDefined (p + 2 + len)

  sniff_session_id-IsDefined : (p : ℕ) → IsDefined input (sniff_session_id input p)
  unfolding sniff_session_id
  sniff_session_id-IsDefined p = guard_le input (length input) p _ λ room.
      read_at input p _ room λ len.
        guard_lt input (length input) (p + 1 + len) _ λ fits. sniff_ciphers-IsDefined (p + 1 + len)

  sniff_hello-IsDefined : (p : ℕ) → IsDefined input (sniff_hello input p)
  unfolding sniff_hello
  sniff_hello-IsDefined p = guard_lt input (length input) (p + 4) _ λ room.
      read_at input p _ (omega arith) λ kind. guard input (not (kind == 0x01)) _ (
        read_at input (p + 1) _ (omega arith) λ high.
          read_at input (p + 2) _ (omega arith) λ middle.
            read_at input (p + 3) _ (omega arith) λ low. guard_lt input (length input) _ _ λ hello.
              guard_lt input (length input) (p + 4 + 2 + 32) _
                λ random. sniff_session_id-IsDefined (p + 4 + 2 + 32))

  -- Whatever bytes arrive, `sniffDomain` ends, throws nothing and reads no byte outside its input.
  -- Its result is a piece of the input, unless it forms the address of the element just past the
  -- end, which is the one step left undefined.
  pub sniff_domain-IsDefined : IsDefined input (sniff_domain input)
  unfolding sniff_domain
  sniff_domain-IsDefined = guard_lt input (length input) 5 _ λ room.
      read_at input 0 _ (omega arith) λ kind. guard input (not (kind == 0x16)) _ (
        read_at input 1 _ (omega arith) λ version. guard input (not (version == 0x03)) _ (
          read_word input 3 _ (omega arith) λ record_len.
            guard_lt input (length input) (record_len + 5) _ λ fits. sniff_hello-IsDefined 5))
