-- ===== src/Connection/Steps.antt =====
-- One rule for each call of a connection, for runs that return and for runs that end.
use cppsong.Base.{ℕ, ◌<◌, ◌≡◌, ◌++◌, Bytes, Bool, true, false, refl}
use cppsong.Base.Cursor.{Returns}
use cppsong.Base.Ends.{Ends}
use cppsong.Base.Lists.{length}
use cppsong.Base.Outcome.{Error, Outcome, ok, throw, bad_index, bad_address, hang}
use cppsong.Connection.{Io, Connection, IsStream, then_run, ◌>>=◌, lift, fail_if}

module _ {C A : Type 0} (conn : Connection C) (stream : IsStream conn) (P : A × C → Type 0) where
  pub read_exactly-Returns :
      (c : C) (n : ℕ) (xs rest : Bytes) (f : Bytes → Io C A)
      → stream.input c ≡ xs ++ rest
      → length xs ≡ n
      → ((c' : C) → stream.input c' ≡ rest → stream.sent c' ≡ stream.sent c → Returns P (f xs c'))
      → Returns P (then_run (conn.read_exactly n c) f)
  read_exactly-Returns c n xs rest f have size next =
      let (c', run, input, sent) = stream.read_exactly_enough c xs rest have in
      rw (← size, run, Returns) (next c' input sent)

  pub write-Returns :
      (c : C) (v : Bytes) (f : Unit {0} → Io C A)
      → ((c' : C)
          → stream.input c' ≡ stream.input c
          → stream.sent c' ≡ stream.sent c ++ v
          → Returns P (f tt c'))
      → Returns P (then_run (conn.write v c) f)
  write-Returns c v f next =
      let (c', run, input, sent) = stream.write_sent c v in rw (run, Returns) (next c' input sent)

  pub read-Returns :
      (c : C) (n : ℕ) (f : Bytes → Io C A)
      → 0 < n
      → 0 < length (stream.input c)
      → ((c' : C) (got rest : Bytes)
          → stream.input c ≡ got ++ rest
          → 0 < length got
          → stream.input c' ≡ rest
          → stream.sent c' ≡ stream.sent c
          → Returns P (f got c'))
      → Returns P (then_run (conn.read n c) f)
  read-Returns c n f size some next =
      let (got, rest, c', run, split, nonempty, input, sent) = stream.read_some c n size some in
      rw (run, Returns) (next c' got rest split nonempty input sent)

module _ {C A : Type 0} (P : A × C → Type 0) where
  pub then-Ends :
      {B : Type 0} (Q : B × C → Type 0) (m : Outcome (B × C)) (f : B → Io C A)
      → Ends Q m
      → ((b : B) (c : C) → Q (b, c) → Ends P (f b c))
      → Ends P (then_run m f)
  then-Ends Q (ok (b, c)) f h next = next b c h
  then-Ends Q (throw e) f h next = tt
  then-Ends Q (bad_index i) f h next = h
  then-Ends Q (bad_address i) f h next = h
  then-Ends Q hang f h next = h

  pub fail_if-Ends :
      (b : Bool) (e : Error) (f : Unit {0} → Io C A) (c : C)
      → (b ≡ false → Ends P (f tt c))
      → Ends P (then_run (fail_if b e c) f)
  fail_if-Ends true e f c next = tt
  fail_if-Ends false e f c next = next refl

pub then-Returns :
    {A B C : Type 0} (P : A × C → Type 0) (Q : B × C → Type 0) (m : Outcome (B × C))
    (f : B → Io C A)
    → Returns Q m
    → ((b : B) (c : C) → Q (b, c) → Returns P (f b c))
    → Returns P (then_run m f)
then-Returns P Q (ok (b, c)) f h next = next b c h
then-Returns P Q (throw e) f h next = absurd h
then-Returns P Q (bad_index i) f h next = absurd h
then-Returns P Q (bad_address i) f h next = absurd h
then-Returns P Q hang f h next = absurd h

pub lift-Returns :
    {A B C : Type 0} (P : A × C → Type 0) (m : Outcome B) (b : B) (f : B → Io C A) (c : C)
    → m ≡ ok b
    → Returns P (f b c)
    → Returns P (then_run (lift m c) f)
lift-Returns P m b f c e h = rw (e, Returns) h

pub lift-Ends :
    {A B C : Type 0} (P : A × C → Type 0) (Q : B → Type 0) (m : Outcome B) (f : B → Io C A) (c : C)
    → Ends Q m
    → ((b : B) → Q b → Ends P (f b c))
    → Ends P (then_run (lift m c) f)
lift-Ends P Q (ok b) f c h next = next b h
lift-Ends P Q (throw e) f c h next = tt
lift-Ends P Q (bad_index i) f c h next = h
lift-Ends P Q (bad_address i) f c h next = h
lift-Ends P Q hang f c h next = h

pub Returns-map :
    {A : Type 0} (P Q : A → Type 0) (m : Outcome A)
    → ((a : A) → P a → Q a)
    → Returns P m
    → Returns Q m
Returns-map P Q (ok a) f h = f a h
Returns-map P Q (throw e) f h = h
Returns-map P Q (bad_index i) f h = h
Returns-map P Q (bad_address i) f h = h
Returns-map P Q hang f h = h

-- What a sequence of steps that ends in a value says of its first.
pub run-ok :
    {C A B : Type 0} (m : Io C A) (f : A → Io C B) (c : C) {b : B} {c' : C}
    → (m >>= f) c ≡ ok (b, c')
    → (a : A) × (c1 : C) × (m c ≡ ok (a, c1)) × (f a c1 ≡ ok (b, c'))
run-ok m f c {b = b} {c' = c'} e = by_first (m c) refl e
  where
    by_first :
        (r : Outcome _)
        → m c ≡ r
        → then_run r f ≡ ok (b, c')
        → (a : _) × (c1 : _) × (m c ≡ ok (a, c1)) × (f a c1 ≡ ok (b, c'))
    by_first (ok (a, c1)) first e = (a, c1, first, e)
    by_first (throw x) first e = absurd (cc)
    by_first (bad_index i) first e = absurd (cc)
    by_first (bad_address i) first e = absurd (cc)
    by_first hang first e = absurd (cc)
