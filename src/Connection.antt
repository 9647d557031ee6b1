-- ===== src/Connection.antt =====
-- src/connections/connection.hpp: the interface of a connection, and what its clients rely on.
pub mod Steps
pub mod Memory
pub mod Plain
pub mod Ws
use cppsong.Base.{ℕ, ◌≤◌, ◌<◌, ◌≡◌, ◌++◌, Bytes, List, [], ◌∷◌, Bool}
use cppsong.Base.Ends.{Ends}
use cppsong.Base.Lists.{length}
use cppsong.Base.Outcome.{
  Error, Outcome, ok, throw, bad_index, bad_address, hang, throw_if, end_of_stream,
}

-- A method takes the connection and gives it back changed.
abbrev pub Io : Type 0 → Type 0 → Type 0
Io C A = C → Outcome (A × C)

pub record Connection (C : Type 0) : Type 0 where
  pub read : ℕ → Io C Bytes
  pub read_exactly : ℕ → Io C Bytes
  pub write : Bytes → Io C (Unit {0})
  pub close : Io C (Unit {0})

-- What a connection that works does: it has the bytes that are still to come and those that were
-- sent, `read_exactly` gives so many of the first and throws when there are fewer, and `read` gives
-- some of them, at least one.
pub record IsStream {C : Type 0} (conn : Connection C) : Type 0 where
  pub input : C → Bytes
  pub sent : C → Bytes
  pub read_exactly_enough :
      (c : C) (xs rest : Bytes)
      → input c ≡ xs ++ rest
      → (c' : C) × (conn.read_exactly (length xs) c ≡ ok (xs, c'))
        × (input c' ≡ rest)
        × (sent c' ≡ sent c)
  pub read_exactly_short :
      (c : C) (n : ℕ) → length (input c) < n → conn.read_exactly n c ≡ throw end_of_stream
  pub read_some :
      (c : C) (n : ℕ)
      → 0 < n
      → 0 < length (input c)
      → (got rest : Bytes) × (c' : C) × (conn.read n c ≡ ok (got, c'))
        × (input c ≡ got ++ rest)
        × (0 < length got)
        × (input c' ≡ rest)
        × (sent c' ≡ sent c)
  pub read_end : (c : C) (n : ℕ) → 0 < n → input c ≡ [] → conn.read n c ≡ throw end_of_stream
  pub write_sent :
      (c : C) (v : Bytes)
      → (c' : C) × (conn.write v c ≡ ok (tt, c')) × (input c' ≡ input c) × (sent c' ≡ sent c ++ v)

-- What holds of a connection whatever happens to it: a call ends in a value or an exception.
pub record IsSafe {C : Type 0} (conn : Connection C) : Type 0 where
  pub read_exactly_ends : (n : ℕ) (c : C) → Ends (λ r. length r.0 ≡ n) (conn.read_exactly n c)
  pub read_ends : (n : ℕ) (c : C) → Ends (λ r. Unit {0}) (conn.read n c)
  pub write_ends : (v : Bytes) (c : C) → Ends (λ r. Unit {0}) (conn.write v c)
  pub close_ends : (c : C) → Ends (λ r. Unit {0}) (conn.close c)

module _ {C A B : Type 0} where
  abbrev pub then_run : Outcome (A × C) → (A → Io C B) → Outcome (B × C)
  then_run (ok (a, c)) f = f a c
  then_run (throw e) f = throw e
  then_run (bad_index i) f = bad_index i
  then_run (bad_address i) f = bad_address i
  then_run hang f = hang

  infixl 5 ◌>>=◌
  abbrev pub ◌>>=◌ : Io C A → (A → Io C B) → Io C B
  ◌>>=◌ m f c = then_run (m c) f

module _ {C B : Type 0} where
  infixl 5 ◌>>◌
  abbrev pub ◌>>◌ : Io C (Unit {0}) → Io C B → Io C B
  m >> k = m >>= λ _. k

module _ {C A : Type 0} where
  abbrev pub pure : A → Io C A
  pure a c = ok (a, c)

  abbrev pub from_outcome : Outcome A → C → Outcome (A × C)
  from_outcome (ok a) c = ok (a, c)
  from_outcome (throw e) c = throw e
  from_outcome (bad_index i) c = bad_index i
  from_outcome (bad_address i) c = bad_address i
  from_outcome hang c = hang

  -- A step that does not touch the connection.
  abbrev pub lift : Outcome A → Io C A
  lift m c = from_outcome m c

-- `if (bad) throw error;`
abbrev pub fail_if : {C : Type 0} → Bool → Error → Io C (Unit {0})
fail_if bad error = lift (throw_if bad error)
