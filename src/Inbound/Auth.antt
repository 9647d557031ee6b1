-- ===== src/Inbound/Auth.antt =====
-- A SOCKS5 client at an inbound with users (RFC 1929): the length of its password is the second
-- element of a vector of one.
use cppsong.Base.{ℕ, ◌≡◌, ◌∙◌, refl, List, [], ◌∷◌, ◌++◌, Bytes}
use cppsong.Base.Lists.{length}
use cppsong.Base.Outcome.{at, bad_index}
use cppsong.Builder.Outbound.{UserPass}
use cppsong.Connection.{Connection, IsStream}
use cppsong.Inbound.{handle_socks5}
use cppsong.Inbound.Socks.{greeting}

-- The front of what the client sends to log in: the version, the name, and the password's length.
abbrev pub login : Bytes → ℕ → Bytes
login username plen = 1 ∷ length username ∷ (username ++ plen ∷ [])

-- Whatever users there are, a client whose login is well formed up to the length of its password
-- brings the handler to an index past the end.
pub handle_socks5-login :
    {C Ip : Type 0} (conn : Connection C) (stream : IsStream conn) (of_v4 of_v6 : Bytes → Ip)
    (c : C) (user : UserPass) (users : List UserPass) (methods username : Bytes) (plen : ℕ)
    (rest : Bytes)
    → stream.input c ≡ greeting methods ++ (1 ∷ length username ∷ (username ++ (plen ∷ rest)))
    → handle_socks5 conn of_v4 of_v6 (user ∷ users) c ≡ bad_index 1
unfolding handle_socks5 at
handle_socks5-login conn stream of_v4 of_v6 c user users methods username plen rest have =
    let (c1, run1, input1, _) = stream.read_exactly_enough c (length methods ∷ []) _ have in
    let (c2, run2, input2, _) = stream.read_exactly_enough c1 methods _ input1 in
    let (c3, run3, input3, _) = stream.write_sent c2 (5 ∷ 2 ∷ []) in
    let (c4, run4, input4, _) =
      stream.read_exactly_enough c3 (1 ∷ length username ∷ []) _ (input3 ∙ input2) in
    let (c5, run5, input5, _) = stream.read_exactly_enough c4 username _ input4 in
    let (c6, run6, _, _) = stream.read_exactly_enough c5 (plen ∷ []) rest input5 in
    rw (run1, run2, run3, run4, run5, run6) refl
