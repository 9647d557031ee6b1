-- ===== src/Dns/Message/Totality.antt =====
-- The readers of src/dns/message.cpp on every packet: they end, with a result or an exception, and
-- index nothing outside the packet.
use cppsong.Base.{
  ℕ, zero, suc, ◌+◌, ◌≤◌, ◌<◌, ◌^◌, ◌≡◌, ◌==◌, refl, List, [], Bytes, Bool, ltb, arith, bit_and,
  ◌&&◌, ge→ltb, true, false,
}
use cppsong.Base.Lists.{length}
use cppsong.Base.Ends.{
  Ends, map-Ends, bind-Ends, throw_lt-Ends, throw_le-Ends, if-Ends, at-Ends, string_at-Ends,
}
use cppsong.Bytes.{read_u16}
use cppsong.Bytes.Bounds.{IsBytes, read_u16-Reads}
use cppsong.Dns.Message.{
  skip_name_loop, skip_name, skip_questions, collect, read_answers, parse_dns_response,
  parse_labels, parse_dns_query,
}

abbrev pub Any : {A : Type 0} → A → Type 0
Any _ = Unit {0}

-- A position behind `offset`, and not behind the end.
abbrev pub Behind : ℕ → Bytes → ℕ → Type 0
Behind offset packet next = (offset < next) × (next ≤ length packet)

module _ (packet : Bytes) where
  nonzero : (n : ℕ) → (n == 0) ≡ false → 0 < n
  nonzero n h = ground arith

  parse_labels-Ends :
      (fuel pos : ℕ) (domain : Bytes)
      → pos ≤ length packet
      → length packet < pos + fuel
      → Ends Any (parse_labels fuel packet pos domain)
  unfolding parse_labels
  parse_labels-Ends zero pos domain start h = absurd (omega arith)
  parse_labels-Ends (suc fuel) pos domain start h =
      throw_le-Ends Any (length packet) pos _ _ λ inside. at-Ends Any packet pos _ inside λ len.
        if-Ends Any (len == 0) _ _ (λ _. tt)
          λ more. throw_lt-Ends Any (length packet) (pos + 1 + len) _ _ λ fits.
            string_at-Ends Any packet (pos + 1) len _ (omega (arith, nonzero len more)) fits
              λ label. parse_labels-Ends fuel (pos + 1 + len) _ fits (omega arith)

  -- Every packet is read by `parse_dns_query` to its end: the loop stops, with a name or an
  -- exception, and neither a length byte nor a pointer makes it read outside the packet.
  pub parse_dns_query-Ends : Ends Any (parse_dns_query packet)
  unfolding parse_dns_query
  parse_dns_query-Ends =
      throw_lt-Ends Any (length packet) 12 _ _
        λ enough. parse_labels-Ends (suc (length packet)) 12 [] enough (omega arith)

  skip_name_loop-Ends :
      (fuel offset : ℕ)
      → 0 < fuel
      → length packet < offset + fuel
      → Ends (Behind offset packet) (skip_name_loop fuel packet offset)
  unfolding skip_name_loop
  skip_name_loop-Ends zero offset some_fuel h = elim some_fuel [ ]
  skip_name_loop-Ends (suc fuel) offset some_fuel h =
      let P = Behind offset packet in
      throw_le-Ends P (length packet) offset _ _ λ inside. at-Ends P packet offset _ inside λ len.
        if-Ends P (bit_and len 0xc0 == 0xc0) _ _
          (λ _. throw_lt-Ends P (length packet) (offset + 2) _ _ λ fits. (omega arith, fits))
          λ _.
            if-Ends P (len == 0) _ _ (λ _. (omega arith, omega arith))
              λ _.
                if-Ends P (ltb 63 len) _ _ (λ _. tt)
                  λ _.
                    map-Ends (Behind (offset + (len + 1)) packet) P _
                      (λ next behind. (omega (arith, behind.0), behind.1))
                      (skip_name_loop-Ends fuel (offset + (len + 1)) (omega arith) (omega arith))

  -- `skipName` ends at every offset of every packet. It throws, or moves forward and stays within
  -- the packet.
  pub skip_name-Ends : (offset : ℕ) → Ends (Behind offset packet) (skip_name packet offset)
  unfolding skip_name
  skip_name-Ends offset =
      skip_name_loop-Ends (suc (length packet)) offset (omega arith) (omega arith)

  skip_questions-Ends :
      (n offset : ℕ)
      → offset ≤ length packet
      → Ends (λ next. next ≤ length packet) (skip_questions n packet offset)
  unfolding skip_questions
  skip_questions-Ends zero offset h = h
  skip_questions-Ends (suc n) offset h =
      bind-Ends _ (Behind offset packet) _ _ (skip_name-Ends offset) λ after_name behind.
        throw_lt-Ends _ (length packet) (after_name + 4) _ _
          λ fits. skip_questions-Ends n (after_name + 4) fits

  module _ (bytes : IsBytes packet) (size : length packet < 2 ^ 63) where
    read_u16-Ends : (p : ℕ) → p + 2 ≤ length packet → Ends Any (read_u16 packet p)
    read_u16-Ends p h =
        let (x, e, _, _) = (read_u16-Reads packet p bytes (omega arith)).0 h in rw (e, Ends) tt

    module _ {Address : Type 0} (of_v4 of_v6 : Bytes → Address) where
      collect-Ends :
          (fits : Bool) (make : Bytes → Address) (offset width : ℕ) (result : List Address)
          → (fits ≡ true → offset + width ≤ length packet)
          → Ends Any (collect of_v4 of_v6 fits make packet offset width result)
      collect-Ends false make offset width result h = tt
      collect-Ends true make offset width result h =
          rw (ge→ltb (length packet) (offset + width) (h refl)) tt

      size_of : (t k n m p : ℕ) → (p == t && k == 1 && n == m) ≡ true → n ≡ m
      size_of t k n m p h = ground arith

      read_answers-Ends :
          (n offset : ℕ) (result : List Address)
          → Ends Any (read_answers of_v4 of_v6 n packet offset result)
      unfolding read_answers
      read_answers-Ends zero offset result = tt
      read_answers-Ends (suc n) offset result =
          bind-Ends Any (Behind offset packet) _ _ (skip_name-Ends offset) λ start behind.
            throw_lt-Ends Any (length packet) (start + 10) _ _ λ fits.
              bind-Ends Any Any _ _ (read_u16-Ends start (omega arith)) λ type _.
                bind-Ends Any Any _ _ (read_u16-Ends (start + 2) (omega arith)) λ klass _.
                  bind-Ends Any Any _ _ (read_u16-Ends (start + 2 + 2 + 4) (omega arith))
                    λ rdlength _. throw_lt-Ends Any (length packet) _ _ _ λ inside.
                      bind-Ends Any Any _ _
                        (collect-Ends (type == 1 && klass == 1 && rdlength == 4) of_v4
                          (start + 2 + 2 + 4 + 2) 4 result
                          (λ e. omega (arith, size_of 1 klass rdlength 4 type e)))
                        λ with_v4 _.
                          bind-Ends Any Any _ _
                            (collect-Ends (type == 28 && klass == 1 && rdlength == 16) of_v6
                              (start + 2 + 2 + 4 + 2) 16 with_v4
                              (λ e. omega (arith, size_of 28 klass rdlength 16 type e)))
                            λ with_v6 _. read_answers-Ends n _ with_v6

      -- Every packet of bytes is read by `parse_dns_response` to its end: compressed, truncated or
      -- hostile, it gives a list of addresses or an exception, no loop of names holds it up, and
      -- nothing outside the packet is read.
      pub parse_dns_response-Ends : Ends Any (parse_dns_response of_v4 of_v6 packet)
      unfolding parse_dns_response
      parse_dns_response-Ends = throw_lt-Ends Any (length packet) 12 _ _ λ enough.
          bind-Ends Any Any _ _ (read_u16-Ends 4 (omega arith)) λ qdcount _.
            bind-Ends Any Any _ _ (read_u16-Ends 6 (omega arith)) λ ancount _.
              bind-Ends Any (λ next. next ≤ length packet) _ _
                (skip_questions-Ends qdcount 12 enough)
                λ offset _. read_answers-Ends ancount offset []
