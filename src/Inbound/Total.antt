-- ===== src/Inbound/Total.antt =====
-- An inbound without users: the handler ends in a session, in a closed connection or in an
-- exception, whatever the client sends and whatever goes wrong on the connection.
use cppsong.Base.{
  not, ℕ, ◌+◌, ◌≡◌, ◌<◌, refl, Bool, true, false, [], ◌∷◌, Bytes, ◌==◌, if◌then◌else◌, arith,
  Option,
}
use cppsong.Base.Ends.{Ends, bind-Ends, throw_lt-Ends}
use cppsong.Base.Lists.{length, get_elem?-lt}
use cppsong.Base.Outcome.{at, socks5_version, read_out_of_range, cmd_error}
use cppsong.Bytes.{size_add, read_u8, read_u16}
use cppsong.Connection.{Io, Connection, IsSafe, then_run, lift, pure}
use cppsong.Connection.Steps.{then-Ends, fail_if-Ends, lift-Ends}
use cppsong.Inbound.Socks.{ready}
use cppsong.Inbound.{
  Session, has_byte, without_users, read_domain, read_ip, read_host, read_request, method_chosen,
  handle_socks5,
}

-- Any result will do.
abbrev pub Any : {A : Type 0} → A → Type 0
Any a = Unit {0}

module _ {C A : Type 0} where
  pub at-Any :
      (v : Bytes) (i : ℕ) (f : ℕ → Io C A) (c : C)
      → i < length v
      → ((b : ℕ) → Ends Any (f b c))
      → Ends Any (then_run (lift (at v i) c) f)
  unfolding at
  at-Any v i f c h next = let (b, found) = get_elem?-lt v i h in rw (found, Ends) (next b)

  pub if-Any :
      (b : Bool) (m n : Io C A) (c : C)
      → Ends Any (m c)
      → Ends Any (n c)
      → Ends Any ((if b then m else n) c)
  if-Any true m n c h k = h
  if-Any false m n c h k = k

read_u8-Ends : (v : Bytes) (i : ℕ) → size_add i 1 ≡ i + 1 → Ends Any (read_u8 v i)
unfolding read_u8 at
read_u8-Ends v i fits =
    throw_lt-Ends Any (length v) (size_add i 1) read_out_of_range (at v i)
      λ long. let (b, found) = get_elem?-lt v i (omega (arith, long, fits)) in rw (found, Ends) tt

read_u16-Ends : (v : Bytes) → Ends Any (read_u16 v 0)
unfolding read_u16
read_u16-Ends v =
    bind-Ends Any Any (read_u8 v 0) _ (read_u8-Ends v 0 refl)
      λ high read_high. bind-Ends Any Any (read_u8 v 1) _ (read_u8-Ends v 1 refl) λ low read_low. tt

module _ {C Ip : Type 0} (conn : Connection C) (safe : IsSafe conn) (of_v4 of_v6 : Bytes → Ip) where
  without_users-Ends : (methods : Bytes) (c : C) → Ends Any (without_users conn methods c)
  unfolding without_users
  without_users-Ends methods c =
      if-Any (has_byte 0 methods) _ _ c
        (then-Ends {A = Bool} Any Any (conn.write (5 ∷ 0 ∷ []) c) (λ done. pure true)
          (safe.write_ends _ c) λ done c' told. tt)
        (then-Ends {A = Bool} Any Any (conn.write (5 ∷ 0xff ∷ []) c) _ (safe.write_ends _ c)
          λ done c' told.
            then-Ends {A = Bool} Any Any (conn.close c') (λ closed. pure false) (safe.close_ends c')
              λ closed c'' shut. tt)

  read_ip-Ends :
      (size : ℕ) (make : Bytes → Ip) (c : C) → Ends Any (read_ip conn of_v4 of_v6 size make c)
  unfolding read_ip
  read_ip-Ends size make c =
      then-Ends Any _ (conn.read_exactly size c) _ (safe.read_exactly_ends size c) λ raw c' long. tt

  read_domain-Ends : (c : C) → Ends Any (read_domain conn of_v4 of_v6 c)
  unfolding read_domain
  read_domain-Ends c =
      then-Ends Any _ (conn.read_exactly 1 c) _ (safe.read_exactly_ends 1 c) λ header c' long.
        at-Any header 0 _ c' (omega (arith, long)) λ len.
          then-Ends Any _ (conn.read_exactly len c') _ (safe.read_exactly_ends len c')
            λ name c'' size. tt

  read_host-Ends : (atyp : ℕ) (c : C) → Ends Any (read_host conn of_v4 of_v6 atyp c)
  unfolding read_host
  read_host-Ends atyp c = if-Any (atyp == 1) _ _ c (read_ip-Ends 4 of_v4 c) (
      if-Any (atyp == 3) _ _ c (read_domain-Ends c)
        (if-Any (atyp == 4) _ _ c (read_ip-Ends 16 of_v6 c) tt))

  read_request-Ends : (c : C) → Ends Any (read_request conn of_v4 of_v6 c)
  unfolding read_request
  read_request-Ends c =
      then-Ends Any _ (conn.read_exactly 4 c) _ (safe.read_exactly_ends 4 c) λ header c1 long.
        at-Any header 0 _ c1 (omega (arith, long)) λ version.
          fail_if-Ends {A = Option (Session Ip)} Any (not (version == 5)) socks5_version _ c1
            λ version_5. at-Any header 1 _ c1 (omega (arith, long)) λ cmd.
              fail_if-Ends {A = Option (Session Ip)} Any (not (cmd == 1)) cmd_error _ c1 λ connect.
                at-Any header 3 _ c1 (omega (arith, long)) λ atyp.
                  then-Ends Any Any (read_host conn of_v4 of_v6 atyp c1) _ (read_host-Ends atyp c1)
                    λ host c2 found.
                      then-Ends Any _ (conn.read_exactly 2 c2) _ (safe.read_exactly_ends 2 c2)
                        λ port_data c3 wide.
                          lift-Ends Any Any (read_u16 port_data 0) _ c3 (read_u16-Ends port_data)
                            λ port read.
                              then-Ends Any Any (conn.write ready c3) _ (safe.write_ends ready c3)
                                λ told c4 done.
                                  then-Ends Any Any (conn.read 4096 c4) _ (safe.read_ends 4096 c4)
                                    λ first_data c5 all. tt

  -- Without users, and on a connection whose calls end in a value or an exception, the handler ends
  -- in one too, whatever the client sends: it reads no vector past its end.
  pub handle_socks5-Ends : (c : C) → Ends Any (handle_socks5 conn of_v4 of_v6 [] c)
  unfolding handle_socks5 method_chosen
  handle_socks5-Ends c =
      then-Ends Any _ (conn.read_exactly 1 c) _ (safe.read_exactly_ends 1 c) λ header c1 long.
        at-Any header 0 _ c1 (omega (arith, long)) λ nmethods.
          then-Ends Any _ (conn.read_exactly nmethods c1) _ (safe.read_exactly_ends nmethods c1)
            λ methods c2 size.
              then-Ends Any Any (without_users conn methods c2) _ (without_users-Ends methods c2)
                λ goes_on c3 chosen. if-Any goes_on _ _ c3 (read_request-Ends c3) tt
