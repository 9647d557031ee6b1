-- ===== src/Connection/Memory.antt =====
-- A connection in memory, on which the code runs: the bytes that are to come, and those that were
-- written. It keeps what a client relies on.
use cppsong.Base.{
  ℕ, ◌≡◌, ◌<◌, refl, [], ◌∷◌, ◌++◌, Bytes, if◌then◌else◌, arith, ltb, ltb→ge, ge→ltb, lt→ltb,
  Bool-cases, inl, inr,
}
use cppsong.Base.Ends.{Ends}
use cppsong.Base.Lists.{length, take, drop, take-append, drop-append, length-append, length-take}
use cppsong.Base.Outcome.{Outcome, ok, throw, end_of_stream}
use cppsong.Connection.{Io, Connection, IsStream, IsSafe}

pub record Memory : Type 0 where
  pub pending : Bytes
  pub told : Bytes

abbrev pub read_exactly : ℕ → Io Memory Bytes
read_exactly n m =
    if ltb (length m.pending) n
    then throw end_of_stream
    else ok (take n m.pending, record { pending = drop n m.pending; told = m.told })

-- At least one byte is there: the first one comes.
abbrev pub first_of : Bytes → Bytes → Outcome (Bytes × Memory)
first_of [] told = throw end_of_stream
first_of (b ∷ rest) told = ok (b ∷ [], record { pending = rest; told = told })

abbrev pub read : ℕ → Io Memory Bytes
read n m = first_of m.pending m.told

abbrev pub write : Bytes → Io Memory (Unit {0})
write v m = ok (tt, record { pending = m.pending; told = m.told ++ v })

abbrev pub close : Io Memory (Unit {0})
close m = ok (tt, m)

abbrev pub in_memory : Connection Memory
in_memory = record { read = read; read_exactly = read_exactly; write = write; close = close }

pub in_memory-read_exactly :
    (m : Memory) (xs rest : Bytes)
    → m.pending ≡ xs ++ rest
    → read_exactly (length xs) m ≡ ok (xs, record { pending = rest; told = m.told })
in_memory-read_exactly m xs rest have =
    rw
      (
        have,
        ge→ltb (length (xs ++ rest)) (length xs) (omega (arith, length-append xs rest)),
        take-append xs rest,
        drop-append xs rest,
      )
      refl

pub first_of-some :
    (pending told : Bytes)
    → 0 < length pending
    → (got rest : Bytes) × (m : Memory) × (first_of pending told ≡ ok (got, m))
      × (pending ≡ got ++ rest)
      × (0 < length got)
      × (m.pending ≡ rest)
      × (m.told ≡ told)
first_of-some [] told more = absurd (omega (arith, more))
first_of-some (b ∷ rest) told more =
    (b ∷ [], rest, record { pending = rest; told = told }, refl, refl, omega arith, refl, refl)

first_of-Ends : (pending told : Bytes) → Ends (λ r. Unit {0}) (first_of pending told)
first_of-Ends [] told = tt
first_of-Ends (b ∷ rest) told = tt

read_exactly-Ends : (n : ℕ) (m : Memory) → Ends (λ r. length r.0 ≡ n) (read_exactly n m)
read_exactly-Ends n m = elim (Bool-cases (ltb (length m.pending) n)) [
  | inl short ↦ rw (short, Ends) tt
  | inr long ↦
      rw (long, Ends) (omega (arith, length-take n m.pending, ltb→ge (length m.pending) n long))
]

unfoldable pub memory_stream : IsStream in_memory
memory_stream = record {
  input = λ m. m.pending;
  sent = λ m. m.told;
  read_exactly_enough = λ m xs rest have.
      (record { pending = rest; told = m.told }, in_memory-read_exactly m xs rest have, refl, refl);
  read_exactly_short = λ m n short. rw (lt→ltb (length m.pending) n short) refl;
  read_some = λ m n size more. first_of-some m.pending m.told more;
  read_end = λ m n size none_left. rw none_left refl;
  write_sent = λ m v. (record { pending = m.pending; told = m.told ++ v }, refl, refl, refl);
}

pub in_memory-IsSafe : IsSafe in_memory
in_memory-IsSafe = record {
  read_exactly_ends = λ n m. read_exactly-Ends n m;
  read_ends = λ n m. first_of-Ends m.pending m.told;
  write_ends = λ v m. tt;
  close_ends = λ m. tt;
}
