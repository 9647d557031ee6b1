-- ===== src/Dns/Center/Serving/Order.antt =====
-- Whatever order the servers answer in, each client gets its reply.
use cppsong.Base.{
  ℕ, ◌+◌, ◌≤◌, Option, none, arith, ◌≡◌, refl, sym, subst, ap, ◌∙◌, Bool, true, false, List, [],
  ◌∷◌, ◌++◌, append_assoc, map, Bytes, some,
}
use cppsong.Base.Outcome.{Error, Outcome, ok, throw, bad_index, bad_address, hang}
use cppsong.Base.Lists.{length}
use cppsong.Dns.Center.{DnsCenter, relay}
use cppsong.Dns.Center.Serving.{
  UdpSession, Serving, serving_start, main_work, into_buffer, failing, after_relay, handle_client,
  Serves, here, then_arrives, then_handles, then_stops,
}
use mathlib.Core.List.{Perm, perm_middle}
use mathlib.Core.List.Perm

-- The session with the reply in it, when there is a reply.
abbrev pub answer_of : {E : Type 0} → UdpSession E → Outcome Bytes → List (UdpSession E)
answer_of session (ok reply) = record session { content = reply } ∷ []
answer_of session (throw e) = []
answer_of session (bad_index i) = []
answer_of session (bad_address i) = []
answer_of session hang = []

module _ {Regex Ip E : Type 0} (regex_match : Regex → Bytes → Bool) (of_v4 of_v6 : Bytes → Ip)
    (center : DnsCenter Regex Ip) where
  -- The replies to the sessions, each with the endpoint of its session.
  unfoldable pub replies_to : List (UdpSession E) → List (UdpSession E)
  replies_to [] = []
  replies_to (session ∷ sessions) =
      answer_of session (relay regex_match of_v4 of_v6 center session.content)
      ++ replies_to sessions

  replies_to-append :
      (xs ys : List (UdpSession E)) → replies_to (xs ++ ys) ≡ replies_to xs ++ replies_to ys
  unfolding replies_to
  replies_to-append [] ys = refl
  replies_to-append (x ∷ xs) ys =
      let answer = answer_of x (relay regex_match of_v4 of_v6 center x.content) in
      ap (λ zs. answer ++ zs) (replies_to-append xs ys)
      ∙ sym (append_assoc answer (replies_to xs) (replies_to ys))

  -- Wherever a reply is, it can come first.
  Perm-pending :
      (r : UdpSession E) (sent before after lost : List (UdpSession E))
      → Perm (r ∷ (sent ++ ((before ++ after) ++ lost))) (sent ++ ((before ++ r ∷ after) ++ lost))
  Perm-pending r sent before after lost = Perm.symm (
      subst (λ xs. Perm xs (r ∷ (sent ++ ((before ++ after) ++ lost))))
        (append_assoc sent before (r ∷ (after ++ lost))
          ∙ ap (λ xs. sent ++ xs) (sym (append_assoc before (r ∷ after) lost)))
        (subst (λ xs. Perm ((sent ++ before) ++ r ∷ (after ++ lost)) (r ∷ xs))
          (append_assoc sent before (after ++ lost)
            ∙ ap (λ xs. sent ++ xs) (sym (append_assoc before after lost)))
          (perm_middle (sent ++ before) (after ++ lost))))

  Perm-lost :
      (r : UdpSession E) (sent pending lost : List (UdpSession E))
      → Perm (sent ++ (pending ++ r ∷ lost)) (r ∷ (sent ++ (pending ++ lost)))
  Perm-lost r sent pending lost =
      subst (λ xs. Perm xs (r ∷ (sent ++ (pending ++ lost)))) (append_assoc sent pending (r ∷ lost))
        (subst (λ xs. Perm ((sent ++ pending) ++ r ∷ lost) (r ∷ xs))
          (append_assoc sent pending lost) (perm_middle (sent ++ pending) lost))

  -- A reply that was to come is lost.
  lost-Perm :
      {all : List (UdpSession E)} (r : UdpSession E) (sent before after lost : List (UdpSession E))
      → Perm (sent ++ ((before ++ r ∷ after) ++ lost)) all
      → Perm (sent ++ ((before ++ after) ++ r ∷ lost)) all
  lost-Perm r sent before after lost perm =
      Perm.trans (Perm-lost r sent (before ++ after) lost)
        (Perm.trans (Perm-pending r sent before after lost) perm)

  -- The replies are sent, or to be sent, or lost: up to `stop`, no more of them than the network
  -- failed for.
  pub record Holds (asked : List (UdpSession E)) (failures : ℕ) (serving : Serving E) : Type 0 where
    pub lost : List (UdpSession E)
    pub few_lost : serving.closed ≡ false → length lost ≤ failures
    pub each_once :
        Perm
          (serving.sent ++ (replies_to serving.pending ++ lost))
          (replies_to (map into_buffer asked))

  arrived-Perm :
      (session : UdpSession E) (answer : Outcome Bytes)
      (sent pending lost all : List (UdpSession E))
      → Perm (sent ++ (pending ++ lost)) all
      → Perm
          (sent ++ ((answer_of session answer ++ pending) ++ lost))
          (answer_of session answer ++ all)
  arrived-Perm session (ok reply) sent pending lost all perm =
      Perm.trans (perm_middle sent (pending ++ lost))
        (Perm.cons (record session { content = reply }) perm)
  arrived-Perm session (throw e) sent pending lost all perm = perm
  arrived-Perm session (bad_index i) sent pending lost all perm = perm
  arrived-Perm session (bad_address i) sent pending lost all perm = perm
  arrived-Perm session hang sent pending lost all perm = perm

  arrived-Holds :
      (asked : List (UdpSession E)) (failures : ℕ) (serving : Serving E) (datagram : UdpSession E)
      → Holds asked failures serving
      → Holds
          (datagram ∷ asked)
          failures
          (record serving { pending = into_buffer datagram ∷ serving.pending })
  unfolding replies_to
  arrived-Holds asked failures serving datagram holds =
      let session = into_buffer datagram in
      record {
        lost = holds.lost;
        few_lost = holds.few_lost;
        each_once =
            arrived-Perm session (relay regex_match of_v4 of_v6 center session.content) serving.sent
              (replies_to serving.pending) holds.lost (replies_to (map into_buffer asked))
              holds.each_once;
      }

  after_relay-Holds :
      (failures : ℕ) (asked pending sent lost : List (UdpSession E)) (closed : Bool)
      (failure : Option Error) (session : UdpSession E) (answer : Outcome Bytes)
      (before after : List (UdpSession E))
      → replies_to pending ≡ before ++ after
      → (closed ≡ false → length lost ≤ failures)
      → Perm
          (sent ++ ((before ++ (answer_of session answer ++ after)) ++ lost))
          (replies_to (map into_buffer asked))
      → Holds asked (failures + failing failure) (
          after_relay failure session answer
            (record { pending = pending; sent = sent; closed = closed }))
  unfolding after_relay
  after_relay-Holds failures asked pending sent lost true failure session (ok reply) before after e
        few perm =
      record {
        lost = record session { content = reply } ∷ lost;
        few_lost = λ live. absurd (cc);
        each_once =
            rw e (lost-Perm (record session { content = reply }) sent before after lost perm);
      }
  after_relay-Holds failures asked pending sent lost false none session (ok reply) before after e
        few perm =
      let answer = record session { content = reply } in
      record {
        lost = lost;
        few_lost = λ live. omega (arith, few live);
        each_once = rw e (Perm.trans (Perm-pending answer sent before after lost) perm);
      }
  after_relay-Holds failures asked pending sent lost false (some x) session (ok reply) before after
        e few perm =
      record {
        lost = record session { content = reply } ∷ lost;
        few_lost = λ live. omega (arith, few live);
        each_once =
            rw e (lost-Perm (record session { content = reply }) sent before after lost perm);
      }
  after_relay-Holds failures asked pending sent lost closed failure session (throw x) before after e
        few perm =
      record { lost = lost; few_lost = λ live. omega (arith, few live); each_once = rw e perm }
  after_relay-Holds failures asked pending sent lost closed failure session (bad_index i) before
        after e few perm =
      record { lost = lost; few_lost = λ live. omega (arith, few live); each_once = rw e perm }
  after_relay-Holds failures asked pending sent lost closed failure session (bad_address i) before
        after e few perm =
      record { lost = lost; few_lost = λ live. omega (arith, few live); each_once = rw e perm }
  after_relay-Holds failures asked pending sent lost closed failure session hang before after e few
        perm =
      record { lost = lost; few_lost = λ live. omega (arith, few live); each_once = rw e perm }

  handle_client-Holds :
      (asked : List (UdpSession E)) (failures : ℕ) (serving : Serving E)
      (before after : List (UdpSession E)) (session : UdpSession E) (failure : Option Error)
      → serving.pending ≡ before ++ session ∷ after
      → Holds asked failures serving
      → Holds asked (failures + failing failure) (
          handle_client regex_match of_v4 of_v6 center failure session
            (record serving { pending = before ++ after }))
  unfolding handle_client replies_to
  handle_client-Holds asked failures serving before after session failure split holds =
      after_relay-Holds failures asked (before ++ after) serving.sent holds.lost serving.closed
        failure session (relay regex_match of_v4 of_v6 center session.content) (replies_to before)
        (replies_to after) (replies_to-append before after) holds.few_lost
        (subst
          (λ xs. Perm (serving.sent ++ (xs ++ holds.lost)) (replies_to (map into_buffer asked)))
          (ap replies_to split ∙ replies_to-append before (session ∷ after)) holds.each_once)

  Serves-Holds :
      (endpoint : E) (start serving : Serving E) (asked : List (UdpSession E)) (failures : ℕ)
      → main_work (some endpoint) ≡ some start
      → Serves regex_match of_v4 of_v6 center start asked failures serving
      → Holds asked failures serving
  unfolding replies_to
  Serves-Holds endpoint start serving asked failures at_start here =
      subst (Holds [] 0) {x = serving_start} {y = start} (cc)
        (record { lost = []; few_lost = λ live. omega arith; each_once = Perm.refl [] })
  Serves-Holds endpoint start serving asked failures at_start
        (then_arrives {asked = asked'} {s = s} run datagram live same) =
      subst (Holds asked failures) (sym same) (
        arrived-Holds asked' failures s datagram
          (Serves-Holds endpoint start s asked' failures at_start run))
  Serves-Holds endpoint start serving asked failures at_start
        (then_handles {failures = failures'} {s = s} run before after session failure split same) =
      subst (Holds asked failures) (sym same) (
        handle_client-Holds asked failures' s before after session failure split
          (Serves-Holds endpoint start s asked failures' at_start run))
  Serves-Holds endpoint start serving asked failures at_start (then_stops {s = s} run same) =
      let holds = Serves-Holds endpoint start s asked failures at_start run in
      subst (Holds asked failures) (sym same)
        (record { lost = holds.lost; few_lost = λ live. absurd (cc); each_once = holds.each_once })

  -- While the center is not stopped, whatever order the servers answer in, and whatever sends the
  -- network lets fail, the datagrams that were sent, the replies to the sessions that wait, and
  -- some that are lost are together, up to their order, the replies to what the clients have
  -- sent, of each the first 4096 bytes, and each goes to the client that asked; no more are lost
  -- than there were coroutines for which the network failed, so that none is lost where it never
  -- did.
  pub Serves-Perm :
      (endpoint : E) (start serving : Serving E) (asked : List (UdpSession E)) (failures : ℕ)
      → main_work (some endpoint) ≡ some start
      → Serves regex_match of_v4 of_v6 center start asked failures serving
      → serving.closed ≡ false
      → (lost : List (UdpSession E)) × (length lost ≤ failures)
        × Perm
            (serving.sent ++ (replies_to serving.pending ++ lost))
            (replies_to (map into_buffer asked))
  Serves-Perm endpoint start serving asked failures at_start run live =
      let holds = Serves-Holds endpoint start serving asked failures at_start run in
      (holds.lost, holds.few_lost live, holds.each_once)
