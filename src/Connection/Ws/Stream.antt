-- ===== src/Connection/Ws/Stream.antt =====
-- `WsConnection` keeps what a client of a connection relies on.
use cppsong.Base.{
  ℕ, zero, suc, ◌<◌, ◌≤◌, ◌≡◌, refl, sym, ap, ap₂, ◌∙◌, true, Bool-cases, inl, inr, ◌⊎◌, [], ◌∷◌,
  ◌++◌, append_assoc, Bytes, ltb, ltb→ge, ltb→lt, lt→ltb, arith,
}
use cppsong.Base.Lists.{length, take, drop, length-append}
use cppsong.Base.Outcome.{Outcome, ok, throw, end_of_stream}
use cppsong.Connection.{IsStream}
use cppsong.Connection.Ws.{
  Messages, IsBinary, WsConnection, read_from, ws_read, read_loop, ws_read_exactly, ws_connection,
}

take-front :
    (xs rest buffer more : Bytes)
    → length xs ≤ length buffer
    → buffer ++ more ≡ xs ++ rest
    → (take (length xs) buffer ≡ xs) × (drop (length xs) buffer ++ more ≡ rest)
take-front [] rest buffer more fits same = (refl, same)
take-front (x ∷ xs) rest [] more fits same = absurd (omega (arith, fits))
take-front (x ∷ xs) rest (b ∷ bs) more fits same =
    let first : b ≡ x = cc in
    let others : bs ++ more ≡ xs ++ rest = cc in
    let (taken, left) = take-front xs rest bs more (omega (arith, fits)) others in
    (ap₂ ◌∷◌ first taken, left)

empty_or_more : (xs : Bytes) → (xs ≡ []) ⊎ (0 < length xs)
empty_or_more [] = inl refl
empty_or_more (x ∷ xs) = inr (omega arith)

module _ {S : Type 0} (messages : Messages S) (binary : IsBinary messages) where
  read_loop-enough :
      (fuel : ℕ) (w : WsConnection S) (xs rest : Bytes)
      → messages.left w.stream < fuel
      → w.buffer ++ binary.pending w.stream ≡ xs ++ rest
      → (w' : WsConnection S) × (read_loop messages fuel (length xs) w ≡ ok (xs, w'))
        × (w'.buffer ++ binary.pending w'.stream ≡ rest)
        × (binary.told w'.stream ≡ binary.told w.stream)
  unfolding read_loop
  read_loop-enough zero w xs rest enough same = absurd (omega (arith, enough))
  read_loop-enough (suc fuel) w xs rest enough same =
      elim (Bool-cases (ltb (length w.buffer) (length xs))) [
        | inl short ↦
            let (m, later, s, run, split, nonempty, pending, told, less) =
              binary.read_some_message w.stream (
                omega (
                  arith,
                  ltb→lt (length w.buffer) (length xs) short,
                  ap length same,
                  length-append w.buffer (binary.pending w.stream),
                  length-append xs rest,
                )) in
            let (w', runs, left, sent) =
              read_loop-enough fuel (record { buffer = w.buffer ++ m; stream = s }) xs rest
                (omega (arith, enough, less))
                (append_assoc w.buffer m (binary.pending s)
                  ∙ ap (◌++◌ w.buffer) (ap (◌++◌ m) pending ∙ sym split)
                  ∙ same) in
            (w', rw (short, read_loop, run, runs) refl, left, sent ∙ told)
        | inr long ↦
            let (taken, left) =
              take-front xs rest w.buffer (binary.pending w.stream)
                (ltb→ge (length w.buffer) (length xs) long) same in
            (
              record { buffer = drop (length xs) w.buffer; stream = w.stream },
              rw (long, read_loop, taken) refl,
              left,
              refl,
            )
      ]

  read_loop-short :
      (fuel : ℕ) (w : WsConnection S) (n : ℕ)
      → messages.left w.stream < fuel
      → length (w.buffer ++ binary.pending w.stream) < n
      → read_loop messages fuel n w ≡ throw end_of_stream
  unfolding read_loop
  read_loop-short zero w n enough short = absurd (omega (arith, enough))
  read_loop-short (suc fuel) w n enough short =
      let sizes = length-append w.buffer (binary.pending w.stream) in
      let not_yet : ltb (length w.buffer) n ≡ true =
        lt→ltb (length w.buffer) n (omega (arith, short, sizes)) in
      elim (empty_or_more (binary.pending w.stream)) [
        | inl empty ↦ rw (not_yet, read_loop, binary.read_no_message w.stream empty) refl
        | inr more ↦
            let (m, later, s, run, split, nonempty, pending, told, less) =
              binary.read_some_message w.stream more in
            rw (not_yet, read_loop, run)
              (read_loop-short fuel (record { buffer = w.buffer ++ m; stream = s }) n
                (omega (arith, enough, less))
                (omega (
                  arith,
                  short,
                  sizes,
                  ap length split,
                  length-append m later,
                  length-append (w.buffer ++ m) (binary.pending s),
                  length-append w.buffer m,
                  ap length pending,
                )))
      ]

  -- Some of the input is read.
  abbrev ReadSome : Bytes → S → Outcome (Bytes × WsConnection S) → Type 0
  ReadSome buffer s outcome =
      (got rest : Bytes) × (w' : WsConnection S) × (outcome ≡ ok (got, w'))
      × (buffer ++ binary.pending s ≡ got ++ rest)
      × (0 < length got)
      × (w'.buffer ++ binary.pending w'.stream ≡ rest)
      × (binary.told w'.stream ≡ binary.told s)

  read_from-ReadSome :
      (buffer : Bytes) (s : S)
      → 0 < length (buffer ++ binary.pending s)
      → ReadSome buffer s (read_from messages buffer s)
  read_from-ReadSome [] s more =
      let (m, later, s', run, split, nonempty, pending, told, less) =
        binary.read_some_message s more in
      (m, later, record { buffer = []; stream = s' }, rw run refl, split, nonempty, pending, told)
  read_from-ReadSome (b ∷ bs) s more = (
    b ∷ bs,
    binary.pending s,
    record { buffer = []; stream = s },
    refl,
    refl,
    omega arith,
    refl,
    refl,
  )

  read_from-end :
      (buffer : Bytes) (s : S)
      → buffer ++ binary.pending s ≡ []
      → read_from messages buffer s ≡ throw end_of_stream
  read_from-end [] s empty = rw (binary.read_no_message s empty) refl
  read_from-end (b ∷ bs) s empty = absurd (omega (arith, ap length empty))

  -- On a stream of binary messages that are not empty, `read_exactly` gives as many bytes as it is
  -- asked for, when so many are in the buffer and in the messages together, however these are cut;
  -- what is behind them is kept, nothing is sent, and the number of messages is fuel enough.
  pub ws_read_exactly-enough :
      (w : WsConnection S) (xs rest : Bytes)
      → w.buffer ++ binary.pending w.stream ≡ xs ++ rest
      → (w' : WsConnection S) × (ws_read_exactly messages (length xs) w ≡ ok (xs, w'))
        × (w'.buffer ++ binary.pending w'.stream ≡ rest)
        × (binary.told w'.stream ≡ binary.told w.stream)
  unfolding ws_read_exactly
  ws_read_exactly-enough w xs rest have =
      read_loop-enough (suc (messages.left w.stream)) w xs rest (omega arith) have

  -- So a `WsConnection` is a connection as its clients expect it: what is to come is the buffer and
  -- the messages.
  ws_connection-IsStream : IsStream (ws_connection messages)
  unfolding ws_read ws_read_exactly
  ws_connection-IsStream = record {
    input = λ w. w.buffer ++ binary.pending w.stream;
    sent = λ w. binary.told w.stream;
    read_exactly_enough = ws_read_exactly-enough;
    read_exactly_short =
        λ w n short. read_loop-short (suc (messages.left w.stream)) w n (omega arith) short;
    read_some = λ w n size more. read_from-ReadSome w.buffer w.stream more;
    read_end = λ w n size empty. read_from-end w.buffer w.stream empty;
    write_sent = λ w v.
        let (s, run, pending, told) = binary.write_told w.stream v in
        (record { buffer = w.buffer; stream = s }, rw run refl, ap (◌++◌ w.buffer) pending, told);
  }
