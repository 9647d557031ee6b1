-- ===== src/Dns/Message/Name.antt =====
-- Domain names as lists of labels: the dotted text, and the wire format of RFC 1035, 3.1.
use cppsong.Base.{
  subst, ℕ, suc, ◌+◌, ◌≤◌, ◌<◌, ◌≡◌, refl, sym, ap, ◌∙◌, List, [], ◌∷◌, ◌++◌, append_assoc, arith,
  none, some, Bytes, ◌==◌, ==_iff, ==_self, if◌then◌else◌, Bool-cases, inl, inr, false,
}
use mathlib.Core.Option
use mathlib.Core.Option.{some-ne-none}
use cppsong.Base.Lists.{length, length-append, drop-append, All}
use cppsong.Base.Cursor.{Rest}
use cppsong.Bytes.Bounds.{IsBytes}
use cppsong.Dns.Message.{is_empty, find, find_from}

-- A label as the source accepts it: 1 to 63 characters, none of them a dot.
pub record IsLabel (l : Bytes) : Type 0 where
  pub not_empty : 0 < length l
  pub not_long : length l ≤ 63
  pub no_dot : find b'.' l ≡ none
  pub bytes : IsBytes l

-- The labels with dots between them.
abbrev pub join : List Bytes → Bytes
join [] = []
join (l ∷ []) = l
join (l ∷ m ∷ ls) = l ++ (b'.' ∷ join (m ∷ ls))

-- Each label behind its length; a zero byte ends the name.
abbrev pub wire_labels : List Bytes → Bytes
wire_labels [] = []
wire_labels (l ∷ ls) = length l ∷ (l ++ wire_labels ls)

abbrev pub wire : List Bytes → Bytes
wire ls = wire_labels ls ++ 0 ∷ []

pub length-wire_labels : (ls : List Bytes) → length ls ≤ length (wire_labels ls)
length-wire_labels [] = omega arith
length-wire_labels (l ∷ ls) = omega (arith, length-append l (wire_labels ls), length-wire_labels ls)

-- What `parse_dns_query` has read after these labels, from the text `acc` on.
abbrev pub append_labels : Bytes → List Bytes → Bytes
append_labels acc [] = acc
append_labels acc (l ∷ ls) =
    append_labels ((if is_empty acc then acc else acc ++ b'.' ∷ []) ++ l) ls

append_labels-join :
    (acc l : Bytes) (ls : List Bytes)
    → All IsLabel ls
    → is_empty (acc ++ l) ≡ false
    → append_labels (acc ++ l) ls ≡ acc ++ join (l ∷ ls)
append_labels-join acc l [] others some_text = refl
append_labels-join acc l (m ∷ ls) (good, others) some_text = rw some_text (
    append_labels-join ((acc ++ l) ++ b'.' ∷ []) m ls others
      (not_empty ((acc ++ l) ++ b'.' ∷ []) m good.not_empty)
    ∙ append_assoc (acc ++ l) (b'.' ∷ []) (join (m ∷ ls))
    ∙ append_assoc acc l (b'.' ∷ join (m ∷ ls)))
  where
    not_empty : (xs ys : Bytes) → 0 < length ys → is_empty (xs ++ ys) ≡ false
    not_empty [] [] h = elim h [ ]
    not_empty [] (y ∷ ys) h = refl
    not_empty (x ∷ xs) ys h = refl

pub append_labels-nil : (ls : List Bytes) → All IsLabel ls → append_labels [] ls ≡ join ls
append_labels-nil [] good = refl
append_labels-nil ([] ∷ ls) (good, others) = absurd (omega (arith, good.not_empty))
append_labels-nil ((c ∷ cs) ∷ ls) (good, others) = append_labels-join [] (c ∷ cs) ls others refl

-- `find` splits its text at the first dot.
pub find-append :
    (c : ℕ) (l rest : Bytes) → find c l ≡ none → find c (l ++ c ∷ rest) ≡ some (length l)
unfolding find
find-append c [] rest e = rw (==_self c)
find-append c (b ∷ l) rest e = ground (arith, find-append c l rest)

-- The text `v` is `before`, without `c`, then `c`, then `after`.
pub record SplitsAt (c k : ℕ) (v : Bytes) : Type 0 where
  pub before : Bytes
  pub after : Bytes
  pub splits : v ≡ before ++ c ∷ after
  pub position : length before ≡ k
  pub absent : find c before ≡ none

SplitsAt-cons :
    (c k b : ℕ) (v : Bytes) → (b == c) ≡ false → SplitsAt c k v → SplitsAt c (suc k) (b ∷ v)
unfolding find
SplitsAt-cons c k b v other s = record {
  before = b ∷ s.before;
  after = s.after;
  splits = ap (◌∷◌ b) s.splits;
  position = ap suc s.position;
  absent = rw (other, s.absent);
}

pub find-SplitsAt : (c k : ℕ) (v : Bytes) → find c v ≡ some k → SplitsAt c k v
unfolding find
find-SplitsAt c k [] e = absurd (some-ne-none k (sym e))
find-SplitsAt c k (b ∷ v) e = elim (Bool-cases (b == c)) [
  | inl same ↦ record {
    before = [];
    after = v;
    splits = ap (λ (t : ℕ). t ∷ v) ((==_iff b c).0 same);
    position = ground arith;
    absent = refl;
  }
  | inr other ↦
      let (j, found, next) = (Option.map-eq-some_iff suc (find c v)).0 (rw other at e) in
      subst (λ n. SplitsAt c n (b ∷ v)) next
        (SplitsAt-cons c j b v other (find-SplitsAt c j v found))
]

pub find_from-Rest :
    (c start : ℕ) (v rest : Bytes)
    → Rest v start rest
    → find_from c v start ≡ Option.map (λ k. start + k) (find c rest)
find_from-Rest c start v rest r = rw (r.splits, ← r.position, drop-append r.before rest)
