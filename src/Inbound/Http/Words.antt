-- ===== src/Inbound/Http/Words.antt =====
-- The first line of a request as three words with a space between them.
use cppsong.Base.{
  ℕ, ◌<◌, ◌≡◌, refl, sym, ap, ◌∙◌, false, [], ◌∷◌, ◌++◌, append-nil, Bytes, ◌==◌, arith,
}
use cppsong.Base.Lists.{All, All-append, length}
use cppsong.Inbound.{has_byte}
use cppsong.Inbound.Http.{request_line, word_of}
use cppsong.Inbound.Http.Search.{IsLine}
use cppsong.Stoul.{is_space, skip_space}

-- Characters above the space, at least one.
abbrev pub IsWord : Bytes → Type 0
IsWord word = (0 < length word) × All (λ (c : ℕ). 32 < c) word

abbrev pub line_of : Bytes → Bytes → Bytes → Bytes
line_of method target version = method ++ 32 ∷ (target ++ 32 ∷ version)

visible-is_space : (c : ℕ) → 32 < c → is_space c ≡ false
unfolding is_space
visible-is_space c visible = ground arith

skip_space-word : (word rest : Bytes) → IsWord word → skip_space (word ++ rest) ≡ word ++ rest
unfolding skip_space
skip_space-word [] rest is_word = absurd (omega (arith, is_word.0))
skip_space-word (c ∷ cs) rest is_word = rw (visible-is_space c is_word.1.0) refl

word_of-append :
    (word rest : Bytes)
    → All (λ (c : ℕ). 32 < c) word
    → word_of (word ++ rest) ≡ (word ++ (word_of rest).0, (word_of rest).1)
unfolding word_of
word_of-append [] rest visible = refl
word_of-append (c ∷ cs) rest visible =
    rw (visible-is_space c visible.0, word_of-append cs rest visible.1) refl

-- A word of the stream, and what is behind it, which begins with a space.
next-word :
    (word rest : Bytes) → IsWord word → word_of (skip_space (word ++ 32 ∷ rest)) ≡ (word, 32 ∷ rest)
unfolding word_of is_space
next-word word rest is_word =
    ap word_of (skip_space-word word (32 ∷ rest) is_word)
    ∙ word_of-append word (32 ∷ rest) is_word.1
    ∙ ap (λ (w : Bytes). (w, 32 ∷ rest)) (append-nil word)

last-word : (word : Bytes) → IsWord word → word_of (skip_space word) ≡ (word, [])
unfolding word_of
last-word word is_word =
    ap (λ (w : Bytes). word_of (skip_space w)) (sym (append-nil word))
    ∙ ap word_of (skip_space-word word [] is_word)
    ∙ word_of-append word [] is_word.1
    ∙ ap (λ (w : Bytes). (w, [])) (append-nil word)

skip_space-space : (text : Bytes) → skip_space (32 ∷ text) ≡ skip_space text
unfolding skip_space is_space
skip_space-space text = refl

-- The three words are read.
pub request_line-line_of :
    (method target version : Bytes)
    → IsWord method
    → IsWord target
    → IsWord version
    → request_line (line_of method target version)
      ≡ record { method = method; target = target; version = version }
request_line-line_of method target version is_method is_target is_version =
    rw
      (
        next-word method (target ++ 32 ∷ version) is_method,
        skip_space-space (target ++ 32 ∷ version),
        next-word target version is_target,
        skip_space-space version,
        last-word version is_version,
      )
      refl

has_byte-visible : (text : Bytes) → All (λ (c : ℕ). 31 < c) text → IsLine text
unfolding has_byte
has_byte-visible [] visible = refl
has_byte-visible (c ∷ cs) visible =
    let other : (c == 13) ≡ false = ground (arith, visible.0) in
    rw (other, has_byte-visible cs visible.1) refl

widened : (text : Bytes) → All (λ (c : ℕ). 32 < c) text → All (λ (c : ℕ). 31 < c) text
widened [] visible = tt
widened (c ∷ cs) visible = (omega (arith, visible.0), widened cs visible.1)

pub line_of-IsLine :
    (method target version : Bytes)
    → IsWord method
    → IsWord target
    → IsWord version
    → IsLine (line_of method target version)
line_of-IsLine method target version is_method is_target is_version =
    has_byte-visible (line_of method target version) (
      All-append (λ (c : ℕ). 31 < c) method _ (widened method is_method.1)
        (
          omega arith,
          All-append (λ (c : ℕ). 31 < c) target _ (widened target is_target.1)
              (omega arith, widened version is_version.1),
        ))
