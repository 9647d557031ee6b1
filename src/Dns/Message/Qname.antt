-- ===== src/Dns/Message/Qname.antt =====
-- `encodeQname`: which domain names it accepts, and what it writes for them.
use cppsong.Base.{
  ℕ, zero, suc, ◌+◌, ◌%◌, ◌^◌, ◌≤◌, ◌<◌, ◌≡◌, ◌≢◌, refl, sym, ap, ◌∙◌, subst, List, [], ◌∷◌, ◌++◌,
  append_assoc, append-nil, arith, Bytes, Bool, ge→ltb, Option-cases, inl, inr, true, false,
}
use cppsong.Base.Lists.{length, length-append, All}
use cppsong.Base.Cursor.{Rest, Rest-skip, Rest-length}
use cppsong.Base.Outcome.{ok, throw_if-ok, label_is_invalid}
use cppsong.Bytes.Bounds.{IsBytes}
use cppsong.Dns.Message.{find, encode_labels}
use cppsong.Dns.Message.Name.{IsLabel, join, wire_labels, find-SplitsAt}
use cppsong.Dns.Message.Rounds.{bad_length, good_length, length_good, last_round, dot_round}

-- At most one dot behind a name.
abbrev pub final_dot : Bool → Bytes
final_dot true = b'.' ∷ []
final_dot false = []

end_of_loop :
    (fuel : ℕ) (domain : Bytes) (start : ℕ) (buffer : Bytes)
    → Rest domain start []
    → encode_labels (suc fuel) domain start buffer ≡ ok buffer
unfolding encode_labels
end_of_loop fuel domain start buffer r =
    rw (ge→ltb start (length domain) (omega (arith, Rest-length r)), encode_labels)

-- What the loop has written when it ends: `text` is labels and at most one dot.
pub record IsEncoded (text buffer out : Bytes) : Type 0 where
  pub labels : List Bytes
  pub dotted : Bool
  pub good : All IsLabel labels
  pub text_is : text ≡ join labels ++ final_dot dotted
  pub out_is : out ≡ buffer ++ wire_labels labels
  pub none_is_empty : labels ≡ [] → text ≡ []

small_length : (l : Bytes) → length l ≤ 63 → length l % 2 ^ 8 ≡ length l
small_length l h = omega arith

IsEncoded-last :
    (l buffer out : Bytes)
    → IsLabel l
    → ok (buffer ++ (length l % 2 ^ 8 ∷ l)) ≡ ok out
    → IsEncoded l buffer out
IsEncoded-last l buffer out good e = record {
  labels = l ∷ [];
  dotted = false;
  good = (good, tt);
  text_is = sym (append-nil l);
  out_is = rw (append-nil l, ← small_length l good.not_long) (cc e);
  none_is_empty = λ h. cc h;
}

IsEncoded-dot :
    (l rest buffer out : Bytes) (ls : List Bytes) (dotted : Bool)
    → IsLabel l
    → All IsLabel ls
    → rest ≡ join ls ++ final_dot dotted
    → out ≡ (buffer ++ (length l % 2 ^ 8 ∷ l)) ++ wire_labels ls
    → (ls ≡ [] → rest ≡ [])
    → IsEncoded (l ++ b'.' ∷ rest) buffer out
IsEncoded-dot l rest buffer out [] dotted good others text wired empty = record {
  labels = l ∷ [];
  dotted = true;
  good = (good, tt);
  text_is = ap (λ t. l ++ b'.' ∷ t) (empty refl);
  out_is =
      wired
      ∙ rw (
        append-nil (buffer ++ (length l % 2 ^ 8 ∷ l)),
        append-nil l,
        small_length l good.not_long,
      );
  none_is_empty = λ h. cc h;
}
IsEncoded-dot l rest buffer out (m ∷ ms) dotted good others text wired empty = record {
  labels = l ∷ m ∷ ms;
  dotted = dotted;
  good = (good, others);
  text_is = rw text (sym (append_assoc l (b'.' ∷ join (m ∷ ms)) (final_dot dotted)));
  out_is = wired ∙ rw (append_assoc, small_length l good.not_long);
  none_is_empty = λ h. cc h;
}

IsBytes-split : (xs ys : Bytes) → IsBytes (xs ++ ys) → IsBytes xs × IsBytes ys
IsBytes-split [] ys h = (tt, h)
IsBytes-split (x ∷ xs) ys h = ((h.0, (IsBytes-split xs ys h.1).0), (IsBytes-split xs ys h.1).1)

module _ (domain : Bytes) where
  -- Whatever the loop accepts is labels with dots between them.
  pub encode_labels-IsEncoded :
      (fuel start : ℕ) (buffer text out : Bytes)
      → IsBytes text
      → Rest domain start text
      → encode_labels fuel domain start buffer ≡ ok out
      → IsEncoded text buffer out
  encode_labels-IsEncoded zero start buffer text out bytes r e = unfold encode_labels in cc e
  encode_labels-IsEncoded (suc fuel) start buffer [] out bytes r e = record {
    labels = [];
    dotted = false;
    good = tt;
    text_is = refl;
    out_is = rw append-nil (cc (end_of_loop fuel domain start buffer r));
    none_is_empty = λ _. refl;
  }
  encode_labels-IsEncoded (suc fuel) start buffer (c ∷ cs) out bytes r e =
      elim (Option-cases (find b'.' (c ∷ cs))) [
        | inl last ↦
            let l = c ∷ cs in
            let (fits, written) =
              throw_if-ok (bad_length (length l)) label_is_invalid _
                (sym (last_round fuel domain start buffer l bytes (omega arith) last r) ∙ e) in
            let (some_bytes, few) = good_length (length l) fits in
            IsEncoded-last l buffer out
              (record { not_empty = some_bytes; not_long = few; no_dot = last; bytes = bytes })
              written
        | inr (k, found) ↦
            let s = find-SplitsAt b'.' k (c ∷ cs) found in
            let l = s.before in
            let here : Rest domain start (l ++ b'.' ∷ s.after) =
              subst (Rest domain start) s.splits r in
            let (l_bytes, after_bytes) =
              IsBytes-split l (b'.' ∷ s.after) (subst IsBytes s.splits bytes) in
            let (fits, next) =
              throw_if-ok (bad_length (length l)) label_is_invalid _
                (sym (dot_round fuel domain start buffer l l_bytes s.after s.absent here) ∙ e) in
            let (some_bytes, few) = good_length (length l) fits in
            let further =
              encode_labels-IsEncoded fuel (start + length l + 1) (buffer ++ (length l % 2 ^ 8 ∷ l))
                s.after out after_bytes.1
                (Rest-skip (l ++ b'.' ∷ [])
                  (subst (Rest domain start) (sym (append_assoc l (b'.' ∷ []) s.after)) here)
                  (omega (arith, length-append l (b'.' ∷ []))))
                next in
            subst (λ t. IsEncoded t buffer out) (sym s.splits)
              (IsEncoded-dot l s.after buffer out further.labels further.dotted
                (record {
                  not_empty = some_bytes;
                  not_long = few;
                  no_dot = s.absent;
                  bytes = l_bytes;
                })
                further.good further.text_is further.out_is further.none_is_empty)
      ]

  -- And it accepts all such text, with at most one dot behind it.
  pub encode_labels-join :
      (ls : List Bytes) (fuel start : ℕ) (buffer : Bytes) (dotted : Bool)
      → All IsLabel ls
      → ls ≢ []
      → Rest domain start (join ls ++ final_dot dotted)
      → length ls < fuel
      → encode_labels fuel domain start buffer ≡ ok (buffer ++ wire_labels ls)
  encode_labels-join [] fuel start buffer dotted good some_label r h = absurd (some_label refl)
  encode_labels-join ls zero start buffer dotted good some_label r h = elim h [ ]
  encode_labels-join (l ∷ []) (suc fuel) start buffer false (good, _) some_label r h =
      last_round fuel domain start buffer l good.bytes good.not_empty good.no_dot
        (subst (Rest domain start) (append-nil l) r)
      ∙ rw (
        length_good (length l) good.not_empty good.not_long,
        small_length l good.not_long,
        append-nil l,
      )
  encode_labels-join (l ∷ []) (suc (suc fuel)) start buffer true (good, _) some_label r h =
      dot_round (suc fuel) domain start buffer l good.bytes [] good.no_dot r
      ∙ rw
          (
            length_good (length l) good.not_empty good.not_long,
            small_length l good.not_long,
            append-nil l,
          )
          (end_of_loop fuel domain (start + length l + 1) (buffer ++ (length l ∷ l)) (
            Rest-skip (l ++ b'.' ∷ []) (subst (Rest domain start) (sym (append-nil _)) r)
              (omega (arith, length-append l (b'.' ∷ [])))))
  encode_labels-join (l ∷ []) (suc zero) start buffer true (good, _) some_label r h =
      absurd (omega arith)
  encode_labels-join (l ∷ m ∷ ms) (suc fuel) start buffer dotted (good, others) some_label r h =
      let next = join (m ∷ ms) ++ final_dot dotted in
      let here : Rest domain start (l ++ b'.' ∷ next) =
        subst (Rest domain start) (append_assoc l (b'.' ∷ join (m ∷ ms)) (final_dot dotted)) r in
      dot_round fuel domain start buffer l good.bytes next good.no_dot here
      ∙ rw (length_good (length l) good.not_empty good.not_long, small_length l good.not_long)
          (encode_labels-join (m ∷ ms) fuel (start + length l + 1) (buffer ++ (length l ∷ l)) dotted
              others (λ e. cc)
              (Rest-skip (l ++ b'.' ∷ [])
                (subst (Rest domain start) (sym (append_assoc l (b'.' ∷ []) next)) here)
                (omega (arith, length-append l (b'.' ∷ []))))
              (omega arith)
            ∙ ap ok (append_assoc buffer (length l ∷ l) (wire_labels (m ∷ ms))))
