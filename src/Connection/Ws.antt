-- ===== src/Connection/Ws.antt =====
-- src/connections/ws.cpp and wss.cpp: a connection over the messages of a WebSocket. The stream of
-- Boost.Beast is a parameter; the loop of `read_exactly` runs on fuel.
pub mod Stream
pub mod Frames
mod Examples
use cppsong.Base.{
  ℕ, zero, suc, ◌+◌, ◌<◌, ◌≤◌, ◌≡◌, refl, sym, ap, ◌∙◌, Bool, true, false, Bool-cases, inl, inr,
  not, [], ◌∷◌, ◌++◌, append_assoc, append-nil, Bytes, ltb, ltb→ge, ltb→lt, ge→ltb, lt→ltb,
  if◌then◌else◌, arith,
}
use cppsong.Base.Lists.{length, take, drop, length-append}
use cppsong.Base.Outcome.{
  Outcome, ok, throw, bad_index, bad_address, hang, not_binary, end_of_stream,
}
use cppsong.Connection.{Io, Connection, IsStream, ◌>>=◌, ◌>>◌, pure, lift, fail_if}

-- `async_read` with `got_binary`, `async_write`, `async_close` and `binary`; `left` is how many
-- messages are still to come.
pub record Messages (S : Type 0) : Type 0 where
  pub read_message : Io S (Bool × Bytes)
  pub write_message : Bytes → Io S (Unit {0})
  pub close_messages : Io S (Unit {0})
  pub set_binary : Bool → S → S
  pub left : S → ℕ

-- Messages that are binary and not empty arrive in order, and then the stream ends.
pub record IsBinary {S : Type 0} (messages : Messages S) : Type 0 where
  pub pending : S → Bytes
  pub told : S → Bytes
  pub read_some_message :
      (s : S)
      → 0 < length (pending s)
      → (m rest : Bytes) × (s' : S) × (messages.read_message s ≡ ok ((true, m), s'))
        × (pending s ≡ m ++ rest)
        × (0 < length m)
        × (pending s' ≡ rest)
        × (told s' ≡ told s)
        × (messages.left s' < messages.left s)
  pub read_no_message : (s : S) → pending s ≡ [] → messages.read_message s ≡ throw end_of_stream
  pub write_told :
      (s : S) (v : Bytes)
      → (s' : S) × (messages.write_message v s ≡ ok (tt, s'))
        × (pending s' ≡ pending s)
        × (told s' ≡ told s ++ v)

-- `WsConnection`
pub record WsConnection (S : Type 0) : Type 0 where
  pub buffer : Bytes
  pub stream : S

module _ {S A : Type 0} where
  abbrev pub with_buffer : Bytes → Outcome (A × S) → Outcome (A × WsConnection S)
  with_buffer buffer (ok (a, s)) = ok (a, record { buffer = buffer; stream = s })
  with_buffer buffer (throw e) = throw e
  with_buffer buffer (bad_index i) = bad_index i
  with_buffer buffer (bad_address i) = bad_address i
  with_buffer buffer hang = hang

  -- A step of the stream leaves the buffer as it is.
  abbrev pub on_stream : Io S A → Io (WsConnection S) A
  on_stream m w = with_buffer w.buffer (m w.stream)

module _ {S : Type 0} (messages : Messages S) where
  -- A message is read from the stream, and has to be binary.
  abbrev pub next_message : Io S Bytes
  next_message = messages.read_message >>= λ m. fail_if (not m.0) not_binary >> pure m.1

  -- The buffer as a whole, or else one message, whatever `n` is.
  abbrev pub read_from : Bytes → S → Outcome (Bytes × WsConnection S)
  read_from [] s = with_buffer [] (next_message s)
  read_from (b ∷ bs) s = ok (b ∷ bs, record { buffer = []; stream = s })

  unfoldable pub ws_read : ℕ → Io (WsConnection S) Bytes
  ws_read n w = read_from w.buffer w.stream

  unfoldable pub read_loop : ℕ → ℕ → Io (WsConnection S) Bytes
  read_loop zero n w = hang
  read_loop (suc fuel) n w = elim (ltb (length w.buffer) n) [
    | true ↦
        (on_stream next_message >>= λ m v.
        read_loop fuel n (record { buffer = v.buffer ++ m; stream = v.stream }))
          w
    | false ↦ ok (take n w.buffer, record { buffer = drop n w.buffer; stream = w.stream })
  ]

  unfoldable pub ws_read_exactly : ℕ → Io (WsConnection S) Bytes
  unfolding read_loop
  ws_read_exactly n w = read_loop (suc (messages.left w.stream)) n w

  abbrev pub ws_write : Bytes → Io (WsConnection S) (Unit {0})
  ws_write v = on_stream (messages.write_message v)

  abbrev pub ws_connection : Connection (WsConnection S)
  ws_connection = record {
    read = ws_read;
    read_exactly = ws_read_exactly;
    write = ws_write;
    close = on_stream messages.close_messages;
  }

  -- `WssConnection::write` says first that its messages are binary.
  abbrev pub wss_write : Bytes → Io (WsConnection S) (Unit {0})
  wss_write v = on_stream (λ s. messages.write_message v (messages.set_binary true s))

  -- `WssConnection`, whose other methods have the same code.
  abbrev pub wss_connection : Connection (WsConnection S)
  wss_connection = record {
    read = ws_read;
    read_exactly = ws_read_exactly;
    write = wss_write;
    close = on_stream messages.close_messages;
  }
