-- ===== src/Connection/Ws/Frames.antt =====
-- Whether what one end of a WebSocket writes can be read by the other end.
use cppsong.Base.{
  ℕ, suc, ◌≡◌, refl, sym, ap, ◌∙◌, Bool, true, false, List, [], ◌∷◌, ◌++◌, append_assoc, append-nil,
  map, Bytes, lt→ltb, arith,
}
use cppsong.Base.Outcome.{ok, throw, not_binary}
use cppsong.Connection.{Io, ◌>>=◌, ◌>>◌, pure}
use cppsong.Connection.Ws.{
  Messages, WsConnection, ws_read, read_loop, ws_read_exactly, ws_write, wss_write,
}

-- A WebSocket that works: a message has the kind that the stream was set to when it was written,
-- and is read with this kind, in order.
pub record IsFramed {S : Type 0} (messages : Messages S) : Type 0 where
  pub arriving : S → List (Bool × Bytes)
  pub written : S → List (Bool × Bytes)
  pub binary : S → Bool
  -- The stream of the other end, when what was written has come to it.
  pub other_end : S → S
  pub other_end_arriving : (s : S) → arriving (other_end s) ≡ written s
  pub read_first :
      (s : S) (m : Bool × Bytes) (ms : List (Bool × Bytes))
      → arriving s ≡ m ∷ ms
      → (s' : S) × (messages.read_message s ≡ ok (m, s')) × (arriving s' ≡ ms)
  pub write_last :
      (s : S) (v : Bytes)
      → (s' : S) × (messages.write_message v s ≡ ok (tt, s'))
        × (written s' ≡ written s ++ (binary s, v) ∷ [])
        × (binary s' ≡ binary s)
  pub binary_set : (s : S) (b : Bool) → binary (messages.set_binary b s) ≡ b
  pub written_set : (s : S) (b : Bool) → written (messages.set_binary b s) ≡ written s

module _ {C : Type 0} where
  abbrev pub write_all : (Bytes → Io C (Unit {0})) → List Bytes → Io C (Unit {0})
  write_all write [] = pure tt
  write_all write (v ∷ vs) = write v >> write_all write vs

  abbrev pub read_all : Io C Bytes → List Bytes → Io C (List Bytes)
  read_all read [] = pure []
  read_all read (v ∷ vs) = read >>= λ got. read_all read vs >>= λ more. pure (got ∷ more)

abbrev pub of_kind : Bool → List Bytes → List (Bool × Bytes)
of_kind binary vs = map (λ v. (binary, v)) vs

module _ {S : Type 0} (messages : Messages S) (framed : IsFramed messages) where
  more_written :
      {kind b : Bool} {before start now : List (Bool × Bytes)} {after : List (Bool × Bytes)}
      (v : Bytes) (vs : List Bytes)
      → after ≡ now ++ of_kind b vs
      → now ≡ start ++ (kind, v) ∷ []
      → kind ≡ b
      → start ≡ before
      → after ≡ before ++ of_kind b (v ∷ vs)
  more_written {b = b} {before = before} v vs all last kind same =
      rw (all, last, kind, same) (append_assoc before ((b, v) ∷ []) (of_kind b vs))

  wss_writes-binary :
      (vs : List Bytes) (w : WsConnection S)
      → (w' : WsConnection S) × (write_all (wss_write messages) vs w ≡ ok (tt, w'))
        × (framed.written w'.stream ≡ framed.written w.stream ++ of_kind true vs)
  wss_writes-binary [] w = (w, refl, sym (append-nil (framed.written w.stream)))
  wss_writes-binary (v ∷ vs) w =
      let (s, run, kept, kind) = framed.write_last (messages.set_binary true w.stream) v in
      let (w', runs, all) = wss_writes-binary vs (record w { stream = s }) in
      (
        w',
        rw (run, runs) refl,
        more_written v vs all kept (framed.binary_set w.stream true)
            (framed.written_set w.stream true),
      )

  ws_writes-text :
      (vs : List Bytes) (w : WsConnection S)
      → framed.binary w.stream ≡ false
      → (w' : WsConnection S) × (write_all (ws_write messages) vs w ≡ ok (tt, w'))
        × (framed.written w'.stream ≡ framed.written w.stream ++ of_kind false vs)
  ws_writes-text [] w text = (w, refl, sym (append-nil (framed.written w.stream)))
  ws_writes-text (v ∷ vs) w text =
      let (s, run, kept, kind) = framed.write_last w.stream v in
      let (w', runs, all) = ws_writes-text vs (record w { stream = s }) (kind ∙ text) in
      (w', rw (run, runs) refl, more_written v vs all kept text refl)

  reads-binary :
      (n : ℕ) (vs : List Bytes) (s : S)
      → framed.arriving s ≡ of_kind true vs
      → (p' : WsConnection S) × (read_all
            (ws_read messages n)
            vs
            (record { buffer = []; stream = s })
          ≡ ok (vs, p'))
  unfolding ws_read
  reads-binary n [] s same = (record { buffer = []; stream = s }, refl)
  reads-binary n (v ∷ vs) s same =
      let (s', run, later) = framed.read_first s (true, v) (of_kind true vs) same in
      let (p', runs) = reads-binary n vs s' later in (p', rw (run, runs) refl)

  read-text :
      (n : ℕ) (v : Bytes) (vs : List Bytes) (s : S)
      → framed.arriving s ≡ of_kind false (v ∷ vs)
      → (ws_read messages n (record { buffer = []; stream = s }) ≡ throw not_binary)
        × (ws_read_exactly messages (suc n) (record { buffer = []; stream = s }) ≡ throw not_binary)
  unfolding ws_read ws_read_exactly read_loop
  read-text n v vs s same =
      let (s', reads, later) = framed.read_first s (false, v) (of_kind false vs) same in
      (rw reads refl, rw (lt→ltb 0 (suc n) (omega arith), read_loop, reads) refl)

  -- On a WebSocket that works, what a `WssConnection` on a new stream writes is read at the other
  -- end, message by message.
  pub wss_write-ws_read :
      (n : ℕ) (vs : List Bytes) (s : S)
      → framed.written s ≡ []
      → (w : WsConnection S) × (write_all
            (wss_write messages)
            vs
            (record { buffer = []; stream = s })
          ≡ ok (tt, w))
        × (p : WsConnection S) × (read_all
              (ws_read messages n)
              vs
              (record { buffer = []; stream = framed.other_end w.stream })
            ≡ ok (vs, p))
  wss_write-ws_read n vs s new =
      let (w, run, all) = wss_writes-binary vs (record { buffer = []; stream = s }) in
      let (p, reads) =
        reads-binary n vs (framed.other_end w.stream)
          (framed.other_end_arriving w.stream ∙ all ∙ ap (λ sent. sent ++ of_kind true vs) new) in
      (w, run, p, reads)

  -- On a WebSocket that works, what a `WsConnection` on a new stream, which is set to text, writes
  -- is refused at the other end, by `read` and by `read_exactly` of at least one byte.
  pub ws_write-not_binary :
      (n : ℕ) (v : Bytes) (vs : List Bytes) (s : S)
      → framed.written s ≡ []
      → framed.binary s ≡ false
      → (w : WsConnection S) × (write_all
            (ws_write messages)
            (v ∷ vs)
            (record { buffer = []; stream = s })
          ≡ ok (tt, w))
        × (ws_read messages n (record { buffer = []; stream = framed.other_end w.stream })
            ≡ throw not_binary)
        × (ws_read_exactly messages
              (suc n)
              (record { buffer = []; stream = framed.other_end w.stream })
            ≡ throw not_binary)
  ws_write-not_binary n v vs s new text =
      let (w, run, all) = ws_writes-text (v ∷ vs) (record { buffer = []; stream = s }) text in
      let (refused, refused_too) = read-text n v vs (framed.other_end w.stream) (
        framed.other_end_arriving w.stream
        ∙ all
        ∙ ap (λ sent. sent ++ of_kind false (v ∷ vs)) new) in
      (w, run, refused, refused_too)
