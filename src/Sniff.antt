-- ===== src/Sniff.antt =====
-- src/sniff/sniff.cpp: the host name in the first bytes of a TLS connection, or an empty string.
-- A function for each part of `sniffDomain`, which hands its offset `p` on; `ok []` is `return {}`.
-- Every sum of offsets is at most the size plus 2 ^ 24 + 42, so no `size_t` wraps.
-- Each loop moves its offset forward in each round, so the size is enough fuel.
pub mod Access
pub mod Safety
pub mod Format
pub mod ClientHello
pub mod Names
pub mod Examples
use cppsong.Base.{
  ℕ, zero, suc, ◌+◌, ◌*◌, ◌%◌, ◌^◌, bit_or, true, false, not, [], Bytes, ltb, leb, ◌==◌,
  if◌then◌else◌,
}
use cppsong.Base.Lists.{length}
use cppsong.Base.Outcome.{Outcome, ok, hang, ◌>>=◌, at, string_at}

-- `(static_cast<size_t>(input[p]) << 8) | input[p + 1]`
unfoldable pub word_at : Bytes → ℕ → Outcome ℕ
word_at input p = do high ← at input p; low ← at input (p + 1); ok (bit_or (high * 2 ^ 8) low)

-- The loop over the names of the server name extension, which ends at `last`.
pub sniff_names : ℕ → Bytes → ℕ → ℕ → Outcome Bytes
sniff_names zero input q last = hang
sniff_names (suc fuel) input q last = elim (leb (q + 3) last) [
  | false ↦ ok []
  | true ↦ do
    name_type ← at input q
    name_len ← word_at input (q + 1)
    let next = sniff_names fuel input (q + 3 + name_len) last
    if ltb last (q + 3 + name_len)
        then ok []
        else if name_type == 0
        then string_at input (q + 3) name_len
        else next
]

-- The branch `type == 0x0000`, for the extension input at `p` of length `len`.
pub sniff_server_name : Bytes → ℕ → ℕ → Outcome Bytes
sniff_server_name input p len = if ltb len 2 then ok [] else do
  list_len ← word_at input p
  if ltb (p + len) (p + 2 + list_len)
      then ok []
      else sniff_names (length input) input (p + 2) (p + len)

-- The loop over the extensions, which end at `last`.
pub sniff_extensions : ℕ → Bytes → ℕ → ℕ → Outcome Bytes
sniff_extensions zero input p last = hang
sniff_extensions (suc fuel) input p last = elim (leb (p + 4) last) [
  | false ↦ ok []
  | true ↦ do
    type ← word_at input p
    len ← word_at input (p + 2)
    let next = sniff_extensions fuel input (p + 4 + len) last
    if ltb last (p + 4 + len)
        then ok []
        else if type % 2 ^ 16 == 0
        then sniff_server_name input (p + 4) len
        else next
]

pub sniff_extension_block : Bytes → ℕ → Outcome Bytes
sniff_extension_block input p = if ltb (length input) (p + 2) then ok [] else do
  extensions_len ← word_at input p
  if ltb (length input) (p + 2 + extensions_len)
      then ok []
      else sniff_extensions (length input) input (p + 2) (p + 2 + extensions_len)

pub sniff_compression : Bytes → ℕ → Outcome Bytes
sniff_compression input p = if leb (length input) p then ok [] else do
  compression_len ← at input p
  if ltb (length input) (p + 1 + compression_len)
      then ok []
      else sniff_extension_block input (p + 1 + compression_len)

pub sniff_ciphers : Bytes → ℕ → Outcome Bytes
sniff_ciphers input p = if ltb (length input) (p + 2) then ok [] else do
  cipher_len ← word_at input p
  if ltb (length input) (p + 2 + cipher_len)
      then ok []
      else sniff_compression input (p + 2 + cipher_len)

pub sniff_session_id : Bytes → ℕ → Outcome Bytes
sniff_session_id input p = if leb (length input) p then ok [] else do
  session_id_len ← at input p
  if ltb (length input) (p + 1 + session_id_len)
      then ok []
      else sniff_ciphers input (p + 1 + session_id_len)

-- The handshake header, the version and the random bytes.
pub sniff_hello : Bytes → ℕ → Outcome Bytes
sniff_hello input p = if ltb (length input) (p + 4) then ok [] else do
  kind ← at input p
  if not (kind == 0x01) then ok [] else do
    high ← at input (p + 1)
    middle ← at input (p + 2)
    low ← at input (p + 3)
    let hello_len = bit_or (bit_or (high * 2 ^ 16) (middle * 2 ^ 8)) low
    if ltb (length input) (p + 4 + hello_len)
        then ok []
        else if ltb (length input) (p + 4 + 2 + 32)
        then ok []
        else sniff_session_id input (p + 4 + 2 + 32)

unfoldable pub sniff_domain : Bytes → Outcome Bytes
sniff_domain input = if ltb (length input) 5 then ok [] else do
  kind ← at input 0
  if not (kind == 0x16) then ok [] else do
    version ← at input 1
    if not (version == 0x03) then ok [] else do
      record_len ← word_at input 3
      if ltb (length input) (record_len + 5) then ok [] else sniff_hello input 5
