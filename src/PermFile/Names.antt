-- ===== src/PermFile/Names.antt =====
-- The names in a permission file, quoted where they have a space, and its lines.
use wzdftpd.Base.{
  ℕ, Bool, true, false, not, ◌&&◌, ◌||◌, [], ◌∷◌, ◌++◌, some, Bytes, if◌then◌else◌, ◌==◌, ◌≡◌, refl,
  ap, append_assoc, has_char, skip_spaces, strtok, skip_any, up_to, past, blanks, index_of_any, inl,
  inr, Bool-cases, arith,
}
use mathlib.Core.Path.{subst}
use wzdftpd.PermFile.Text.{
  tab, newline, read_token, gets, line_first, quoted, from_stop, token_from,
}
use wzdftpd.PermFile.Words.{every, is_word, read_token-word}

-- A name that is written in single quotes has neither these nor a line's end.
abbrev pub quoted_char : ℕ → Bool
quoted_char c = not (c == b'\'' || c == newline)

abbrev pub is_name : Bytes → Bool
is_name s = if has_char b' ' s then every quoted_char s else is_word s

abbrev pub one_quote : Bytes
one_quote = b'\'' ∷ []

has_char-quote : (s rest : Bytes) → has_char b'\'' (s ++ b'\'' ∷ rest) ≡ true
unfolding has_char
has_char-quote [] rest = refl
has_char-quote (c ∷ s) rest = ground (arith, has_char-quote s rest)

has_char-quoted_char : (c : ℕ) → quoted_char c ≡ true → has_char c one_quote ≡ false
unfolding has_char
has_char-quoted_char c h = ground arith

quote_stop : has_char b'\'' one_quote ≡ true
unfolding has_char
quote_stop = refl

up_to-quote :
    (s rest : Bytes) → every quoted_char s ≡ true → up_to one_quote (s ++ b'\'' ∷ rest) ≡ s
unfolding up_to every
up_to-quote [] rest e = rw quote_stop refl
up_to-quote (c ∷ s) rest e = ground (arith, has_char-quoted_char c, up_to-quote s rest)

past-quote :
    (s rest : Bytes) → every quoted_char s ≡ true → past one_quote (s ++ b'\'' ∷ rest) ≡ rest
unfolding past every
past-quote [] rest e = rw quote_stop refl
past-quote (c ∷ s) rest e = ground (arith, has_char-quoted_char c, past-quote s rest)

quoted_head : (c : ℕ) (s : Bytes) → every quoted_char (c ∷ s) ≡ true → quoted_char c ≡ true
unfolding every
quoted_head c s e = ground arith

strtok-quote :
    (c : ℕ) (s rest : Bytes)
    → every quoted_char (c ∷ s) ≡ true
    → strtok one_quote (b'\'' ∷ (c ∷ s) ++ b'\'' ∷ rest) ≡ (some (c ∷ s), rest)
unfolding strtok skip_any
strtok-quote c s rest e =
    rw
      (
        quote_stop,
        has_char-quoted_char c (quoted_head c s e),
        up_to-quote (c ∷ s) rest e,
        past-quote (c ∷ s) rest e,
      )
      refl

token_from-quote : (s : Bytes) → token_from (b'\'' ∷ s) ≡ from_stop (b'\'' ∷ s) 0
unfolding index_of_any has_char
token_from-quote s = refl

read_token-quote :
    (c : ℕ) (s rest : Bytes)
    → every quoted_char (c ∷ s) ≡ true
    → read_token (some (b'\'' ∷ (c ∷ s) ++ b'\'' ∷ rest)) ≡ (some (c ∷ s), some rest)
unfolding read_token skip_spaces
read_token-quote c s rest e =
    rw
      (
        token_from-quote ((c ∷ s) ++ b'\'' ∷ rest),
        has_char-quote (c ∷ s) rest,
        strtok-quote c s rest e,
      )
      refl

-- Where read_token stops after a name that a tab follows.
abbrev pub after_name : Bytes → Bytes → Bytes
after_name s rest = if has_char b' ' s then tab ∷ rest else rest

read_token-spaced :
    (s rest : Bytes)
    → has_char b' ' s ≡ true
    → every quoted_char s ≡ true
    → read_token (some (b'\'' ∷ s ++ b'\'' ∷ rest)) ≡ (some s, some rest)
unfolding has_char
read_token-spaced [] rest h e = cc
read_token-spaced (c ∷ s) rest h e = read_token-quote c s rest e

pub name-quoted :
    (s : Bytes) → has_char b' ' s ≡ true → is_name s ≡ true → every quoted_char s ≡ true
name-quoted s h e = subst (λ b. (if b then every quoted_char s else is_word s) ≡ true) h e

pub unquoted-word : (s : Bytes) → has_char b' ' s ≡ false → is_name s ≡ true → is_word s ≡ true
unquoted-word s h e = subst (λ b. (if b then every quoted_char s else is_word s) ≡ true) h e

read_token-name_by :
    (s rest : Bytes) (b : Bool)
    → has_char b' ' s ≡ b
    → is_name s ≡ true
    → read_token (some (quoted s ++ tab ∷ rest)) ≡ (some s, some (after_name s rest))
read_token-name_by s rest true h e =
    rw (h, append_assoc s (b'\'' ∷ []) (tab ∷ rest))
      (read_token-spaced s (tab ∷ rest) h (name-quoted s h e))
read_token-name_by s rest false h e = rw h (read_token-word s rest (unquoted-word s h e))

pub read_token-name :
    (s rest : Bytes)
    → is_name s ≡ true
    → read_token (some (quoted s ++ tab ∷ rest)) ≡ (some s, some (after_name s rest))
read_token-name s rest e = read_token-name_by s rest (has_char b' ' s) refl e

pub read_token-tab : (s : Bytes) → read_token (some (tab ∷ s)) ≡ read_token (some s)
unfolding read_token skip_spaces
read_token-tab s = refl

pub strtok-tab : (s : Bytes) → strtok blanks (tab ∷ s) ≡ strtok blanks s
unfolding strtok skip_any has_char
strtok-tab s = refl

pub read_token-after_name :
    (s rest : Bytes) → read_token (some (after_name s rest)) ≡ read_token (some rest)
read_token-after_name s rest = elim (Bool-cases (has_char b' ' s)) [
  | inl h ↦ rw h (read_token-tab rest)
  | inr h ↦ rw h refl
]

pub strtok-after_name : (s rest : Bytes) → strtok blanks (after_name s rest) ≡ strtok blanks rest
strtok-after_name s rest = elim (Bool-cases (has_char b' ' s)) [
  | inl h ↦ rw h (strtok-tab rest)
  | inr h ↦ rw h refl
]

-- A line has its end and no other.
unfoldable pub is_line : Bytes → Bool
is_line [] = false
is_line (c ∷ []) = c == newline
is_line (c ∷ d ∷ s) = not (c == newline) && is_line (d ∷ s)

abbrev pub no_newline : ℕ → Bool
no_newline c = not (c == newline)

pub is_line-append :
    (a b : Bytes) → every no_newline a ≡ true → is_line b ≡ true → is_line (a ++ b) ≡ true
unfolding every is_line
is_line-append [] b ha hb = hb
is_line-append (c ∷ []) (d ∷ b) ha hb = ground arith
is_line-append (c ∷ []) [] ha hb = cc
is_line-append (c ∷ d ∷ a) b ha hb = ground (arith, is_line-append (d ∷ a) b)

pub gets-line : (a s : Bytes) → is_line a ≡ true → gets (a ++ s) ≡ (a, s)
unfolding gets is_line
gets-line [] s h = cc
gets-line (c ∷ []) s h = ground arith
gets-line (c ∷ d ∷ a) s h =
    let k : (c == newline) ≡ false = ground arith in
    let t : is_line (d ∷ a) ≡ true = ground arith in
    rw k (ap (line_first c) (gets-line (d ∷ a) s t))
