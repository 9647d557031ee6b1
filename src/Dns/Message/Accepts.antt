-- ===== src/Dns/Message/Accepts.antt =====
-- The names that `encodeQname` accepts, exactly.
use mathlib.Core.Logic.{◌↔◌}
use cppsong.Base.{
  ℕ, suc, ◌≤◌, ◌<◌, ◌≡◌, ◌≢◌, refl, sym, ap, ◌∙◌, subst, List, [], ◌∷◌, ◌++◌, append_assoc,
  append-nil, arith, none, Bytes, Bool, ◌==◌, ge→ltb, ltb→ge, Bool-cases, inl, inr, true, false,
}
use cppsong.Base.Lists.{length, length-append, All}
use cppsong.Base.Cursor.{Rest-start}
use cppsong.Base.Outcome.{ok, throw_if-ok, >>=-ok}
use cppsong.Bytes.{write_u8}
use cppsong.Bytes.Bounds.{IsBytes}
use cppsong.Dns.Message.{is_empty, find, strip_dot, encode_qname}
use cppsong.Dns.Message.Name.{IsLabel, join, wire}
use cppsong.Dns.Message.Qname.{final_dot, encode_labels-IsEncoded, encode_labels-join}

strip_dot-cons : (b : ℕ) (ys : Bytes) → ys ≢ [] → strip_dot (b ∷ ys) ≡ b ∷ strip_dot ys
unfolding strip_dot
strip_dot-cons b [] some_text = absurd (some_text refl)
strip_dot-cons b (y ∷ ys) some_text = refl

strip_dot-append : (xs ys : Bytes) → ys ≢ [] → strip_dot (xs ++ ys) ≡ xs ++ strip_dot ys
strip_dot-append [] ys some_text = refl
strip_dot-append (x ∷ xs) ys some_text =
    strip_dot-cons x (xs ++ ys) (append_ne xs ys some_text)
    ∙ ap (◌∷◌ x) (strip_dot-append xs ys some_text)
  where
    append_ne : (xs ys : Bytes) → ys ≢ [] → xs ++ ys ≢ []
    append_ne [] ys h e = h e
    append_ne (x ∷ xs) ys h e = cc e

strip_dot-find : (l : Bytes) → find b'.' l ≡ none → strip_dot l ≡ l
unfolding strip_dot find
strip_dot-find [] e = refl
strip_dot-find (b ∷ []) e = ground arith
strip_dot-find (b ∷ c ∷ bs) e = ap (◌∷◌ b) (strip_dot-find (c ∷ bs) (ground arith))

strip_dot-split : (v : Bytes) → (b : Bool) × (v ≡ strip_dot v ++ final_dot b)
unfolding strip_dot
strip_dot-split [] = (false, refl)
strip_dot-split (b ∷ []) = elim (Bool-cases (b == b'.')) [
  | inl dot ↦ (true, rw dot (ground arith))
  | inr other ↦ (false, rw other)
]
strip_dot-split (b ∷ c ∷ bs) = let (dotted, e) = strip_dot-split (c ∷ bs) in (dotted, ap (◌∷◌ b) e)

join-ne : (l : Bytes) (ls : List Bytes) → 0 < length l → join (l ∷ ls) ≢ []
join-ne [] ls h e = elim h [ ]
join-ne (c ∷ l) [] h e = cc e
join-ne (c ∷ l) (m ∷ ms) h e = cc e

pub strip_dot-join : (ls : List Bytes) → All IsLabel ls → strip_dot (join ls) ≡ join ls
strip_dot-join [] good = strip_dot-find [] (unfold find in refl)
strip_dot-join (l ∷ []) (good, _) = strip_dot-find l good.no_dot
strip_dot-join (l ∷ m ∷ ms) (good, (next, others)) =
    strip_dot-append l (b'.' ∷ join (m ∷ ms)) (λ e. cc)
    ∙ ap (◌++◌ l) (
        strip_dot-cons b'.' (join (m ∷ ms)) (join-ne m ms next.not_empty)
        ∙ ap (◌∷◌ b'.') (strip_dot-join (m ∷ ms) (next, others)))

-- `out` is the wire form of a list of labels, and `domain` their text of at most 255 characters
-- with at most two dots behind it.
pub record Encodes (domain out : Bytes) : Type 0 where
  pub labels : List Bytes
  pub dot : Bool
  pub second_dot : Bool
  pub good : All IsLabel labels
  pub some_label : labels ≢ []
  pub text_is : domain ≡ (join labels ++ final_dot dot) ++ final_dot second_dot
  pub short : length domain ≤ 255
  pub out_is : out ≡ wire labels

encode_qname→Encodes :
    (domain out : Bytes) → IsBytes domain → encode_qname domain ≡ ok out → Encodes domain out
unfolding encode_qname write_u8
encode_qname→Encodes domain out bytes e =
    let (_, e1) = throw_if-ok _ _ _ e in
    let (not_long, e2) = throw_if-ok _ _ _ e1 in
    let (not_dot, e3) = throw_if-ok _ _ _ e2 in
    let (buffer, run, end) = >>=-ok _ _ e3 in
    let (second, split) = strip_dot-split domain in
    let stripped_bytes =
      IsBytes-prefix (strip_dot domain) (final_dot second) (subst IsBytes split bytes) in
    let done =
      encode_labels-IsEncoded (strip_dot domain) (suc (length (strip_dot domain))) 0 []
        (strip_dot domain) buffer stripped_bytes (Rest-start (strip_dot domain)) run in
    record {
      labels = done.labels;
      dot = done.dotted;
      second_dot = second;
      good = done.good;
      some_label = λ none. absurd (not_empty (strip_dot domain) not_dot (done.none_is_empty none));
      text_is = split ∙ ap (λ t. t ++ final_dot second) done.text_is;
      short = ltb→ge 255 (length domain) not_long;
      out_is = sym (ok_injective end) ∙ ap (λ t. t ++ 0 ∷ []) done.out_is;
    }
  where
    not_empty : (v : Bytes) → is_empty v ≡ false → v ≢ []
    not_empty [] h e = cc
    not_empty (b ∷ v) h e = cc

    IsBytes-prefix : (xs ys : Bytes) → IsBytes (xs ++ ys) → IsBytes xs
    IsBytes-prefix [] ys h = tt
    IsBytes-prefix (x ∷ xs) ys h = (h.0, IsBytes-prefix xs ys h.1)

    ok_injective : {a b : Bytes} → ok a ≡ ok b → a ≡ b
    ok_injective e = cc

stripped :
    (ls : List Bytes) (dot second : Bool)
    → All IsLabel ls
    → (dotted : Bool) × (strip_dot ((join ls ++ final_dot dot) ++ final_dot second)
        ≡ join ls ++ final_dot dotted)
stripped ls dot true good = (
  dot,
  strip_dot-append (join ls ++ final_dot dot) (b'.' ∷ []) (λ e. cc)
      ∙ unfold strip_dot in append-nil (join ls ++ final_dot dot),
)
stripped ls true false good = (
  false,
  ap strip_dot (append-nil (join ls ++ b'.' ∷ []))
      ∙ strip_dot-append (join ls) (b'.' ∷ []) (λ e. cc)
      ∙ unfold strip_dot in refl,
)
stripped ls false false good = (
  false,
  ap strip_dot (append-nil (join ls ++ []) ∙ append-nil (join ls))
      ∙ strip_dot-join ls good
      ∙ sym (append-nil (join ls)),
)

not_empty-join :
    (ls : List Bytes) (rest : Bytes) → All IsLabel ls → ls ≢ [] → is_empty (join ls ++ rest) ≡ false
not_empty-join [] rest good some_label = absurd (some_label refl)
not_empty-join ([] ∷ ls) rest (good, _) some_label = absurd (omega (arith, good.not_empty))
not_empty-join ((c ∷ l) ∷ []) rest good some_label = refl
not_empty-join ((c ∷ l) ∷ m ∷ ms) rest good some_label = refl

length-join : (ls : List Bytes) → All IsLabel ls → length ls ≤ length (join ls)
length-join [] good = omega arith
length-join (l ∷ []) (good, _) = omega (arith, good.not_empty)
length-join (l ∷ m ∷ ms) (good, others) =
    omega (arith, length-append l (b'.' ∷ join (m ∷ ms)), length-join (m ∷ ms) others)

Encodes→encode_qname : (domain out : Bytes) → Encodes domain out → encode_qname domain ≡ ok out
unfolding encode_qname write_u8
Encodes→encode_qname domain out h =
    let text = (join h.labels ++ final_dot h.dot) ++ final_dot h.second_dot in
    let (dotted, left) = stripped h.labels h.dot h.second_dot h.good in
    let strip : strip_dot domain ≡ join h.labels ++ final_dot dotted =
      ap strip_dot h.text_is ∙ left in
    let some_text : is_empty domain ≡ false =
      ap is_empty
        (h.text_is ∙ append_assoc (join h.labels) (final_dot h.dot) (final_dot h.second_dot))
      ∙ not_empty-join h.labels (final_dot h.dot ++ final_dot h.second_dot) h.good h.some_label in
    let stripped_text = join h.labels ++ final_dot dotted in
    rw (
      some_text,
      ge→ltb 255 (length domain) h.short,
      strip,
      not_empty-join h.labels (final_dot dotted) h.good h.some_label,
      encode_labels-join stripped_text h.labels (suc (length stripped_text)) 0 [] dotted h.good
          h.some_label (Rest-start stripped_text)
          (omega
            (arith, length-join h.labels h.good, length-append (join h.labels) (final_dot dotted))),
      h.out_is,
    )

-- `encodeQname` accepts a name exactly when its characters are those of labels of 1 to 63 characters
-- with dots between them, at most 255 with the final dots, of which there may be none, one or two;
-- and then it writes each label behind its length, and a zero.
pub encode_qname_iff :
    (domain out : Bytes) → IsBytes domain → (encode_qname domain ≡ ok out) ↔ Encodes domain out
encode_qname_iff domain out bytes =
    (encode_qname→Encodes domain out bytes, Encodes→encode_qname domain out)
