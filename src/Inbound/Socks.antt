-- ===== src/Inbound/Socks.antt =====
-- A SOCKS5 client (RFC 1928) that asks for no authentication, at an inbound without users.
use cppsong.Base.{
  ℕ, ◌^◌, ◌<◌, ◌≡◌, refl, sym, ap, ◌∙◌, Bool, true, [], ◌∷◌, ◌++◌, append_assoc, Bytes, Option,
  some, ==_self, ◌==◌, arith, Bool-cases, inl, inr,
}
use cppsong.Base.Cursor.{Returns, Rest-start}
use cppsong.Base.Lists.{length}
use cppsong.Base.Outcome.{at}
use cppsong.Bytes.{read_u16}
use cppsong.Bytes.Words.{be16}
use cppsong.Connection.{Connection, IsStream, then_run, pure}
use cppsong.Connection.Steps.{
  read_exactly-Returns, write-Returns, read-Returns, then-Returns, lift-Returns, Returns-map,
}
use cppsong.Dns.Message.Skip.{read_u16-Rest}
use cppsong.Inbound.{
  Session, has_byte, read_domain, read_ip, read_host, read_request, handle_socks5,
}
use cppsong.Ip.{Host, domain_name, ip_address}

-- The three kinds of addresses, and how they are written.
pub data Target : Type 0 where
  v4 : Bytes → Target
  name : Bytes → Target
  v6 : Bytes → Target

abbrev pub TargetFits : Target → Type 0
TargetFits (v4 raw) = length raw ≡ 4
TargetFits (name text) = length text < 2 ^ 8
TargetFits (v6 raw) = length raw ≡ 16

abbrev pub atyp_of : Target → ℕ
atyp_of (v4 raw) = 1
atyp_of (name text) = 3
atyp_of (v6 raw) = 4

abbrev pub target_bytes : Target → Bytes
target_bytes (v4 raw) = raw
target_bytes (name text) = length text ∷ text
target_bytes (v6 raw) = raw

-- The methods that the client offers, and its request.
abbrev pub greeting : Bytes → Bytes
greeting methods = length methods ∷ methods

abbrev pub request : ℕ → Target → ℕ → Bytes
request reserved target port =
    5 ∷ 1 ∷ reserved ∷ atyp_of target ∷ (target_bytes target ++ be16 port)

-- What the client is told: the method, and that the connection stands.
abbrev pub accepted : Bytes
accepted = 5 ∷ 0 ∷ []

abbrev pub ready : Bytes
ready = 5 ∷ 0 ∷ 0 ∷ 1 ∷ 0 ∷ 0 ∷ 0 ∷ 0 ∷ 0 ∷ 0 ∷ []

has_byte-append : (b : ℕ) (xs ys : Bytes) → has_byte b (xs ++ b ∷ ys) ≡ true
unfolding has_byte
has_byte-append b [] ys = rw (==_self b)
has_byte-append b (x ∷ xs) ys = elim (Bool-cases (x == b)) [
  | inl same ↦ rw same
  | inr other ↦ rw other (has_byte-append b xs ys)
]

module _ {C Ip : Type 0} (conn : Connection C) (stream : IsStream conn)
    (of_v4 of_v6 : Bytes → Ip) where
  abbrev pub host_of : Target → Host Ip
  host_of (v4 raw) = ip_address (of_v4 raw)
  host_of (name text) = domain_name text
  host_of (v6 raw) = ip_address (of_v6 raw)

  -- The host is read, and what follows it is still to come.
  abbrev HostRead : C → Target → Bytes → Host Ip × C → Type 0
  HostRead c target rest r =
      (r.0 ≡ host_of target) × (stream.input r.1 ≡ rest) × (stream.sent r.1 ≡ stream.sent c)

  read_host-Returns :
      (c : C) (target : Target) (rest : Bytes)
      → TargetFits target
      → stream.input c ≡ target_bytes target ++ rest
      → Returns (HostRead c target rest) (read_host conn of_v4 of_v6 (atyp_of target) c)
  unfolding read_host read_ip read_domain at
  read_host-Returns c (v4 raw) rest size have =
      read_exactly-Returns conn stream (HostRead c (v4 raw) rest) c 4 raw rest _ have size
        λ c' input sent. (refl, input, sent)
  read_host-Returns c (v6 raw) rest size have =
      read_exactly-Returns conn stream (HostRead c (v6 raw) rest) c 16 raw rest _ have size
        λ c' input sent. (refl, input, sent)
  read_host-Returns c (name text) rest size have =
      read_exactly-Returns conn stream (HostRead c (name text) rest) c 1 (length text ∷ [])
        (text ++ rest) _ have refl
        λ c' input sent.
          read_exactly-Returns conn stream (HostRead c (name text) rest) c' (length text) text rest
            _ input refl λ c'' input' sent'. (refl, input', sent' ∙ sent)

  -- The session has the address, and its first data are the front of what the client sent next.
  abbrev pub Served : C → Target → ℕ → Bytes → Bytes → Option (Session Ip) × C → Type 0
  Served c target port payload reply r =
      (got rest : Bytes) × (r.0
        ≡ some (record {
          address = record { address = host_of target; port = port };
          first_data = got;
        }))
      × (payload ≡ got ++ rest)
      × (0 < length got)
      × (stream.input r.1 ≡ rest)
      × (stream.sent r.1 ≡ stream.sent c ++ reply)

  read_request-Returns :
      (c : C) (reserved : ℕ) (target : Target) (port : ℕ) (payload : Bytes)
      → TargetFits target
      → port < 2 ^ 16
      → 0 < length payload
      → stream.input c ≡ request reserved target port ++ payload
      → Returns (Served c target port payload ready) (read_request conn of_v4 of_v6 c)
  unfolding read_request at
  read_request-Returns c reserved target port payload fits small more have =
      let P = Served c target port payload ready in
      let split : stream.input c
          ≡ (5 ∷ 1 ∷ reserved ∷ atyp_of target ∷ [])
            ++ (target_bytes target ++ (be16 port ++ payload)) =
        have
        ∙ ap (λ (t : Bytes). 5 ∷ 1 ∷ reserved ∷ atyp_of target ∷ t)
            (append_assoc (target_bytes target) (be16 port) payload) in
      read_exactly-Returns conn stream P c 4 (5 ∷ 1 ∷ reserved ∷ atyp_of target ∷ []) _ _ split refl
        λ c1 input1 sent1.
          then-Returns P (HostRead c1 target (be16 port ++ payload))
            (read_host conn of_v4 of_v6 (atyp_of target) c1) _
            (read_host-Returns c1 target (be16 port ++ payload) fits input1)
            λ host c2 read.
              read_exactly-Returns conn stream P c2 2 (be16 port) payload _ read.1 refl
                λ c3 input3 sent3.
                  lift-Returns P (read_u16 (be16 port) 0) port _ c3
                    (read_u16-Rest (be16 port) port 0 [] small (omega arith)
                      (Rest-start (be16 port)))
                    (write-Returns conn stream P c3 ready _ λ c4 input4 sent4.
                      read-Returns conn stream P c4 4096 _ (omega arith)
                        (omega (arith, more, ap length (input4 ∙ input3)))
                        λ c5 got rest split nonempty input5 sent5. (
                          got,
                          rest,
                          ap
                              (λ (h : Host Ip). some (record {
                                address = record { address = h; port = port };
                                first_data = got;
                              }))
                              read.0,
                          sym (input4 ∙ input3) ∙ split,
                          nonempty,
                          input5,
                          sent5 ∙ sent4 ∙ ap (λ (v : Bytes). v ++ ready) (sent3 ∙ read.2 ∙ sent1),
                        ))

  -- The method 0 is chosen, and nothing is read.
  abbrev Greeted : C → Bool × C → Type 0
  Greeted c r =
      (r.0 ≡ true)
      × (stream.input r.1 ≡ stream.input c)
      × (stream.sent r.1 ≡ stream.sent c ++ accepted)

  accepted-Returns :
      (c : C) → Returns (Greeted c) (then_run (conn.write accepted c) λ done. pure true)
  accepted-Returns c =
      write-Returns conn stream (Greeted c) c accepted (λ done. pure true)
        λ c' input sent. (refl, input, sent)

  -- A client that offers the method 0 among others and then sends a well-formed request for a
  -- domain, an IPv4 or an IPv6 address is told yes twice; the session has that address and port, and
  -- its first data are the front of what the client sent behind the request, of which nothing is lost.
  pub handle_socks5-Served :
      (c : C) (before after : Bytes) (reserved : ℕ) (target : Target) (port : ℕ) (payload : Bytes)
      → TargetFits target
      → port < 2 ^ 16
      → 0 < length payload
      → stream.input c ≡ greeting (before ++ 0 ∷ after) ++ (request reserved target port ++ payload)
      → Returns
          (Served c target port payload (accepted ++ ready))
          (handle_socks5 conn of_v4 of_v6 [] c)
  unfolding handle_socks5 at
  handle_socks5-Served c before after reserved target port payload fits small more have =
      let methods = before ++ 0 ∷ after in
      let P = Served c target port payload (accepted ++ ready) in
      read_exactly-Returns conn stream P c 1 (length methods ∷ []) _ _ have refl λ c1 input1 sent1.
        read_exactly-Returns conn stream P c1 (length methods) methods _ _ input1 refl
          λ c2 input2 sent2. rw (has_byte-append 0 before after) (
            then-Returns P (Greeted c2) _ _ (accepted-Returns c2) λ goes_on c3 greeted.
              rw (greeted.0, Returns)
                (Returns-map (Served c3 target port payload ready) P
                  (read_request conn of_v4 of_v6 c3)
                  (λ r (got, rest, session, split, nonempty, input, sent). (
                    got,
                    rest,
                    session,
                    split,
                    nonempty,
                    input,
                    sent
                        ∙ ap (λ (v : Bytes). v ++ ready)
                            (greeted.2 ∙ ap (λ (v : Bytes). v ++ accepted) (sent2 ∙ sent1))
                        ∙ append_assoc (stream.sent c) accepted ready,
                  ))
                  (read_request-Returns c3 reserved target port payload fits small more
                    (greeted.1 ∙ input2))))
