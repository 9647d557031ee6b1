-- ===== src/Connection/Plain.antt =====
-- src/connections/tcp.cpp and tls.cpp: a connection over a stream of bytes, which is a parameter.
use cppsong.Base.{ℕ, zero, suc, ◌-◌, [], ◌∷◌, ◌++◌, Bytes, refl}
use cppsong.Base.Lists.{length, take, take-append}
use cppsong.Connection.{Io, Connection, IsStream, ◌>>=◌, ◌>>◌, pure}

-- `async_read_some` gives what it has written to the front of a buffer of so many bytes,
-- `async_read` fills the buffer, and `shutdown` is the one of TLS.
pub record ByteStream (S : Type 0) : Type 0 where
  pub async_read_some : ℕ → Io S Bytes
  pub async_read : ℕ → Io S Bytes
  pub async_write : Bytes → Io S (Unit {0})
  pub shutdown : Io S (Unit {0})
  pub close_socket : Io S (Unit {0})

-- `bytes(n)`
abbrev pub zeros : ℕ → Bytes
zeros zero = []
zeros (suc n) = 0 ∷ zeros n

-- The buffer of `n` bytes with some written to its front.
abbrev pub filled : ℕ → Bytes → Bytes
filled n got = got ++ zeros (n - length got)

module _ {S : Type 0} (stream : ByteStream S) where
  -- `read`, with `resize` to what has come.
  unfoldable pub plain_read : ℕ → Io S Bytes
  plain_read n = stream.async_read_some n >>= λ got. pure (take (length got) (filled n got))

  -- `TcpConnection`
  abbrev pub tcp_connection : Connection S
  tcp_connection = record {
    read = plain_read;
    read_exactly = stream.async_read;
    write = stream.async_write;
    close = stream.close_socket;
  }

  -- `TlsConnection`, which closes the socket only behind a shutdown that succeeds.
  abbrev pub tls_connection : Connection S
  tls_connection = record {
    read = plain_read;
    read_exactly = stream.async_read;
    write = stream.async_write;
    close = stream.shutdown >> stream.close_socket;
  }

module _ {S : Type 0} (stream : ByteStream S) where
  -- The stream itself.
  abbrev raw : Connection S
  raw = record {
    read = stream.async_read_some;
    read_exactly = stream.async_read;
    write = stream.async_write;
    close = stream.close_socket;
  }

  -- Over a stream that works, a `TcpConnection` is a connection as its clients expect it.
  tcp_connection-IsStream : IsStream raw → IsStream (tcp_connection stream)
  unfolding plain_read
  tcp_connection-IsStream works = record {
    input = works.input;
    sent = works.sent;
    read_exactly_enough = works.read_exactly_enough;
    read_exactly_short = works.read_exactly_short;
    read_some = λ s n size more.
        let (got, rest, s', run, split, nonempty, left, same) = works.read_some s n size more in
        (
          got,
          rest,
          s',
          rw (run, take-append got (zeros (n - length got))) refl,
          split,
          nonempty,
          left,
          same,
        );
    read_end = λ s n size empty. rw (works.read_end s n size empty) refl;
    write_sent = works.write_sent;
  }
