-- ===== src/Connection/Ws/Examples.antt =====
-- A WebSocket in memory: the messages to come, each with a first byte, and what was written.
use cppsong.Base.{ℕ, ◌<◌, ◌≡◌, refl, Bool, true, false, List, [], ◌∷◌, ◌++◌, Bytes, arith}
use cppsong.Base.Lists.{length}
use cppsong.Base.Outcome.{Outcome, ok, throw, end_of_stream, not_binary}
use cppsong.Connection.Ws.{
  Messages, IsBinary, WsConnection, ws_read, ws_read_exactly, ws_write, wss_write,
}
use cppsong.Connection.Ws.Frames.{
  IsFramed, write_all, read_all, wss_write-ws_read, ws_write-not_binary,
}
use cppsong.Connection.Ws.Stream.{ws_read_exactly-enough}

record Socket : Type 0 where
  messages : List (ℕ × Bytes)
  written : Bytes

abbrev bytes_of : List (ℕ × Bytes) → Bytes
bytes_of [] = []
bytes_of (m ∷ ms) = (m.0 ∷ m.1) ++ bytes_of ms

abbrev first_of : List (ℕ × Bytes) → Bytes → Outcome ((Bool × Bytes) × Socket)
first_of [] written = throw end_of_stream
first_of (m ∷ ms) written = ok ((true, m.0 ∷ m.1), record { messages = ms; written = written })

abbrev socket : Messages Socket
socket = record {
  read_message = λ s. first_of s.messages s.written;
  write_message = λ v s. ok (tt, record { messages = s.messages; written = s.written ++ v });
  close_messages = λ s. ok (tt, s);
  set_binary = λ b s. s;
  left = λ s. length s.messages;
}

first_of-some :
    (ms : List (ℕ × Bytes)) (written : Bytes)
    → 0 < length (bytes_of ms)
    → (m rest : Bytes) × (s : Socket) × (first_of ms written ≡ ok ((true, m), s))
      × (bytes_of ms ≡ m ++ rest)
      × (0 < length m)
      × (bytes_of s.messages ≡ rest)
      × (s.written ≡ written)
      × (length s.messages < length ms)
first_of-some [] written more = absurd (omega (arith, more))
first_of-some (m ∷ ms) written more = (
  m.0 ∷ m.1,
  bytes_of ms,
  record { messages = ms; written = written },
  refl,
  refl,
  omega arith,
  refl,
  refl,
  omega arith,
)

first_of-none :
    (ms : List (ℕ × Bytes)) (written : Bytes)
    → bytes_of ms ≡ []
    → first_of ms written ≡ throw end_of_stream
first_of-none [] written empty = refl
first_of-none (m ∷ ms) written empty = cc

unfoldable binary_socket : IsBinary socket
binary_socket = record {
  pending = λ s. bytes_of s.messages;
  told = λ s. s.written;
  read_some_message = λ s more. first_of-some s.messages s.written more;
  read_no_message = λ s empty. first_of-none s.messages s.written empty;
  write_told =
      λ s v. (record { messages = s.messages; written = s.written ++ v }, refl, refl, refl);
}

-- One byte is in the buffer, and two messages are to come.
abbrev connection : WsConnection Socket
connection = record {
  buffer = 1 ∷ [];
  stream = record { messages = (2, []) ∷ (3, 4 ∷ []) ∷ []; written = [] };
}

ws_read_exactly-enough_example :
    (w' : WsConnection Socket) × (ws_read_exactly socket 3 connection ≡ ok (1 ∷ 2 ∷ 3 ∷ [], w'))
    × (w'.buffer ++ binary_socket.pending w'.stream ≡ 4 ∷ [])
    × (binary_socket.told w'.stream ≡ binary_socket.told connection.stream)
unfolding binary_socket
ws_read_exactly-enough_example =
    ws_read_exactly-enough socket binary_socket connection (1 ∷ 2 ∷ 3 ∷ []) (4 ∷ []) refl

-- A WebSocket whose messages have a kind.
record Pipe : Type 0 where
  to_come : List (Bool × Bytes)
  gone : List (Bool × Bytes)
  kind : Bool

abbrev first_framed : Pipe → List (Bool × Bytes) → Outcome ((Bool × Bytes) × Pipe)
first_framed p [] = throw end_of_stream
first_framed p (m ∷ ms) = ok (m, record p { to_come = ms })

abbrev pipe : Messages Pipe
pipe = record {
  read_message = λ p. first_framed p p.to_come;
  write_message = λ v p. ok (tt, record p { gone = p.gone ++ (p.kind, v) ∷ [] });
  close_messages = λ p. ok (tt, p);
  set_binary = λ b p. record p { kind = b };
  left = λ p. length p.to_come;
}

abbrev framed_pipe : IsFramed pipe
framed_pipe = record {
  arriving = λ p. p.to_come;
  written = λ p. p.gone;
  binary = λ p. p.kind;
  other_end = λ p. record { to_come = p.gone; gone = []; kind = false };
  other_end_arriving = λ p. refl;
  read_first = λ p m ms same. (record p { to_come = ms }, rw same refl, refl);
  write_last = λ p v. (record p { gone = p.gone ++ (p.kind, v) ∷ [] }, refl, refl, refl);
  binary_set = λ p b. refl;
  written_set = λ p b. refl;
}

abbrev new_pipe : Pipe
new_pipe = record { to_come = []; gone = []; kind = false }

abbrev new_connection : WsConnection Pipe
new_connection = record { buffer = []; stream = new_pipe }

abbrev two : List Bytes
two = (1 ∷ 2 ∷ []) ∷ (3 ∷ []) ∷ []

wss_write-ws_read_example :
    (w : WsConnection Pipe) × (write_all (wss_write pipe) two new_connection ≡ ok (tt, w))
    × (p : WsConnection Pipe) × (read_all
          (ws_read pipe 9)
          two
          (record { buffer = []; stream = framed_pipe.other_end w.stream })
        ≡ ok (two, p))
wss_write-ws_read_example = wss_write-ws_read pipe framed_pipe 9 two new_pipe refl

ws_write-not_binary_example :
    (w : WsConnection Pipe) × (write_all (ws_write pipe) two new_connection ≡ ok (tt, w))
    × (ws_read pipe 9 (record { buffer = []; stream = framed_pipe.other_end w.stream })
        ≡ throw not_binary)
    × (ws_read_exactly pipe 10 (record { buffer = []; stream = framed_pipe.other_end w.stream })
        ≡ throw not_binary)
ws_write-not_binary_example =
    ws_write-not_binary pipe framed_pipe 9 (1 ∷ 2 ∷ []) ((3 ∷ []) ∷ []) new_pipe refl refl
