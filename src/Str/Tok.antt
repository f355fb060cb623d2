-- ===== src/Str/Tok.antt =====
-- libwzd-core/wzd_string.c: str_tok cuts a text at its delimiters.
use wzdftpd.Base.{
  ℕ, ◌+◌, ◌<◌, ◌≤◌, false, [], ◌∷◌, ◌++◌, Option, none, some, Bytes, ◌≡◌, refl, ◌∙◌, ap, inl, inr,
  arith, if◌then◌else◌, ◌==◌, length, All, Bool-cases, has_char,
}
use wzdftpd.Str.{Str, str_fromchar, str_tok, tok, skip_delimiters, token_of, rest_of, str_allocate}
use wzdftpd.Str.Text.{IsValid, Fits, Holds, with_text-IsValid}

-- The delimiters at the front of a text.
abbrev pub leading : Bytes → Bytes → Bytes
leading delim [] = []
leading delim (c ∷ s) = if has_char c delim then c ∷ leading delim s else []

-- The delimiter, if there is one, that ends the token at the front of a text.
abbrev pub separator : Bytes → Bytes → Bytes
separator delim [] = []
separator delim (c ∷ s) = if has_char c delim then c ∷ [] else separator delim s

leading-skip : (delim s : Bytes) → leading delim s ++ skip_delimiters delim s ≡ s
unfolding skip_delimiters
leading-skip delim [] = refl
leading-skip delim (c ∷ s) = ground (arith, leading-skip delim s)

token-rest : (delim s : Bytes) → token_of delim s ++ (separator delim s ++ rest_of delim s) ≡ s
unfolding token_of rest_of
token-rest delim [] = refl
token-rest delim (c ∷ s) = ground (arith, token-rest delim s)

token-All : (delim s : Bytes) → All (λ c. has_char c delim ≡ false) (token_of delim s)
unfolding token_of
token-All delim [] = tt
token-All delim (c ∷ s) = elim (Bool-cases (has_char c delim)) [
  | inl h ↦ rw h tt
  | inr h ↦ rw h (h, token-All delim s)
]

length-rest : (delim s : Bytes) → length (rest_of delim s) ≤ length s
unfolding rest_of
length-rest delim [] = omega arith
length-rest delim (c ∷ s) = ground (arith, length-rest delim s)

length-skip : (delim s : Bytes) → length (skip_delimiters delim s) ≤ length s
unfolding skip_delimiters
length-skip delim [] = omega arith
length-skip delim (c ∷ s) = ground (arith, length-skip delim s)

skip-starts :
    (delim s : Bytes) (c : ℕ) (r : Bytes)
    → skip_delimiters delim s ≡ c ∷ r
    → has_char c delim ≡ false
unfolding skip_delimiters
skip-starts delim [] c r e = cc e
skip-starts delim (x ∷ s) c r e = ground (arith, skip-starts delim s c r)

-- What str_tok cuts off.
abbrev pub cut : Bytes → Bytes → Bytes
cut delim s = token_of delim (skip_delimiters delim s)

abbrev pub kept : Bytes → Bytes → Bytes
kept delim s = rest_of delim (skip_delimiters delim s)

tok-fields :
    (str : Str) (delim : Bytes) (c : ℕ) (s : Bytes)
    → length (c ∷ s) < str.allocated
    → let r = tok str delim (c ∷ s) in
      Holds (some r.0) (rest_of delim (c ∷ s)) × Holds r.1 (token_of delim (c ∷ s))
unfolding str_fromchar
tok-fields str delim c s h = (
  ((refl, omega (arith, length-rest delim (c ∷ s), h)), refl),
  (
    with_text-IsValid str_allocate (length (token_of delim (c ∷ s)) + 1) (token_of delim (c ∷ s))
        (omega arith),
    refl,
  ),
)

parts :
    (delim b : Bytes)
    → leading delim b
        ++ (cut delim b ++ (separator delim (skip_delimiters delim b) ++ kept delim b))
      ≡ b
parts delim b =
    ap (λ x. leading delim b ++ x) (token-rest delim (skip_delimiters delim b))
    ∙ leading-skip delim b

cut_nonempty :
    (delim s : Bytes) (c : ℕ) (r : Bytes)
    → s ≡ c ∷ r
    → has_char c delim ≡ false
    → 1 ≤ length (token_of delim s)
unfolding token_of
cut_nonempty delim [] c r e h = cc e
cut_nonempty delim (x ∷ s) c r e h = ground arith

tok_here :
    (str : Str) (delim b s : Bytes) (c : ℕ) (r : Bytes)
    → s ≡ c ∷ r
    → length s < str.allocated
    → let k = tok str delim s in Holds (some k.0) (rest_of delim s) × Holds k.1 (token_of delim s)
tok_here str delim b [] c r e h = cc e
tok_here str delim b (x ∷ s) c r e h = tok-fields str delim x s h

tok_step :
    (str : Str) (b delim : Bytes)
    → str.buffer ≡ some b
    → (str.length_of == 0) ≡ false
    → str_tok str (some delim) ≡ tok str delim (skip_delimiters delim b)
unfolding str_tok
tok_step str b delim e h = rw (e, h) refl

sized :
    (str : Str) (b : Bytes)
    → str.buffer ≡ some b
    → IsValid str
    → (str.length_of ≡ length b) × (length b < str.allocated)
sized str b e v = go str.buffer str.length_of str.allocated b e v
  where
    go :
        (o : Option Bytes) (n room : ℕ) (b : Bytes)
        → o ≡ some b
        → Fits o n room
        → (n ≡ length b) × (length b < room)
    go none n room b e v = cc e
    go (some c) n room b e v = let h : b ≡ c = cc e in rw h (v.0, omega (arith, v.0, v.1))

skipped : (delim b : Bytes) (c : ℕ) (r : Bytes) → skip_delimiters delim b ≡ c ∷ r → 1 ≤ length b
unfolding skip_delimiters
skipped delim [] c r s = cc s
skipped delim (x ∷ b) c r s = omega arith

-- On a valid string with a byte that is no delimiter, str_tok returns a token that is not empty and
-- has no delimiter, and leaves a rest; both strings are valid. Its text was delimiters, the token, at
-- most one delimiter, and the rest: nothing but delimiters is lost.
pub str_tok-text :
    (str : Str) (b delim : Bytes) (c : ℕ) (r : Bytes)
    → str.buffer ≡ some b
    → IsValid str
    → skip_delimiters delim b ≡ c ∷ r
    → let k = str_tok str (some delim) in
      Holds (some k.0) (kept delim b)
      × Holds k.1 (cut delim b)
      × (1 ≤ length (cut delim b))
      × All (λ x. has_char x delim ≡ false) (cut delim b)
      × (leading delim b
            ++ (cut delim b ++ (separator delim (skip_delimiters delim b) ++ kept delim b))
          ≡ b)
str_tok-text str b delim c r e v s =
    let (n, room) = sized str b e v in
    let h = skipped delim b c r s in
    rw (tok_step str b delim e (ground arith)) (
      let (x, y) =
        tok_here str delim b (skip_delimiters delim b) c r s (omega (arith, length-skip delim b)) in
      (
        x,
        y,
        cut_nonempty delim (skip_delimiters delim b) c r s (skip-starts delim b c r s),
        token-All delim (skip_delimiters delim b),
        parts delim b,
      ))
