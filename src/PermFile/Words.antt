-- ===== src/PermFile/Words.antt =====
-- The tokens of a permission file: strtok_r and read_token on words, on quoted names and on lines.
use wzdftpd.Base.{
  ℕ, Bool, true, false, not, ◌&&◌, ◌||◌, [], ◌∷◌, ◌++◌, some, Bytes, ◌==◌, ◌≡◌, refl, length,
  get_or, has_char, skip_spaces, is_space, strtok, skip_any, up_to, past, blanks, index_of_any,
  arith,
}
use wzdftpd.PermFile.Text.{is_quote, stops, tab, read_token, from_stop}

unfoldable pub every : (ℕ → Bool) → Bytes → Bool
every p [] = true
every p (c ∷ s) = p c && every p s

pub every-weaken :
    (p q : ℕ → Bool) (s : Bytes)
    → ((c : ℕ) → p c ≡ true → q c ≡ true)
    → every p s ≡ true
    → every q s ≡ true
unfolding every
every-weaken p q [] h e = refl
every-weaken p q (c ∷ s) h e = ground (arith, h c, every-weaken p q s h)

pub every-append :
    (p : ℕ → Bool) (a b : Bytes) → every p a ≡ true → every p b ≡ true → every p (a ++ b) ≡ true
unfolding every
every-append p [] b ha hb = hb
every-append p (c ∷ a) b ha hb = ground (arith, every-append p a b)

-- A byte of a word is no space, no quote and not zero.
abbrev pub word_char : ℕ → Bool
word_char c = not (is_space c || is_quote c || c == 0)

abbrev pub is_word : Bytes → Bool
is_word [] = false
is_word (c ∷ s) = every word_char (c ∷ s)

pub blanks-word_char : (c : ℕ) → word_char c ≡ true → has_char c blanks ≡ false
unfolding has_char
blanks-word_char c h = ground arith

pub stops-word_char : (c : ℕ) → word_char c ≡ true → has_char c stops ≡ false
unfolding has_char
stops-word_char c h = ground arith

pub up_to-word :
    (w rest : Bytes) (d : ℕ)
    → every word_char w ≡ true
    → has_char d blanks ≡ true
    → up_to blanks (w ++ d ∷ rest) ≡ w
unfolding every up_to
up_to-word [] rest d e h = rw h refl
up_to-word (c ∷ w) rest d e h = ground (arith, blanks-word_char c, up_to-word w rest d)

pub past-word :
    (w rest : Bytes) (d : ℕ)
    → every word_char w ≡ true
    → has_char d blanks ≡ true
    → past blanks (w ++ d ∷ rest) ≡ rest
unfolding every past
past-word [] rest d e h = rw h refl
past-word (c ∷ w) rest d e h = ground (arith, blanks-word_char c, past-word w rest d)

pub word_head : (c : ℕ) (w : Bytes) → every word_char (c ∷ w) ≡ true → word_char c ≡ true
unfolding every
word_head c w e = ground arith

word_tail : (c : ℕ) (w : Bytes) → every word_char (c ∷ w) ≡ true → every word_char w ≡ true
unfolding every
word_tail c w e = ground arith

pub strtok-word :
    (w rest : Bytes) (d : ℕ)
    → is_word w ≡ true
    → has_char d blanks ≡ true
    → strtok blanks (w ++ d ∷ rest) ≡ (some w, rest)
unfolding strtok every skip_any
strtok-word [] rest d e h = cc
strtok-word (c ∷ w) rest d e h =
    let k = blanks-word_char c (word_head c w e) in
    rw (k, up_to-word (c ∷ w) rest d e h, past-word (c ∷ w) rest d e h) refl

get_or-append_here : (w rest : Bytes) (c d : ℕ) → get_or (w ++ c ∷ rest) (length w) d ≡ c
get_or-append_here [] rest c d = refl
get_or-append_here (x ∷ w) rest c d = get_or-append_here w rest c d

index_of_any-word :
    (w rest : Bytes) (d : ℕ)
    → every word_char w ≡ true
    → has_char d stops ≡ true
    → index_of_any stops (w ++ d ∷ rest) ≡ some (length w)
unfolding every index_of_any
index_of_any-word [] rest d e h = rw h refl
index_of_any-word (c ∷ w) rest d e h =
    let k = stops-word_char c (word_head c w e) in
    rw (k, index_of_any-word w rest d (word_tail c w e) h) refl

skip_spaces-word : (c : ℕ) (w : Bytes) → word_char c ≡ true → skip_spaces (c ∷ w) ≡ c ∷ w
unfolding skip_spaces
skip_spaces-word c w h = ground arith

pub has_char-tab : has_char tab blanks ≡ true
unfolding has_char
has_char-tab = refl

has_char-tab_stop : has_char tab stops ≡ true
unfolding has_char
has_char-tab_stop = refl

from_stop-word :
    (w rest : Bytes)
    → is_word w ≡ true
    → from_stop (w ++ tab ∷ rest) (length w) ≡ (some w, some rest)
from_stop-word w rest h =
    rw (get_or-append_here w rest tab 0, strtok-word w rest tab h has_char-tab) refl

pub read_token-word :
    (w rest : Bytes) → is_word w ≡ true → read_token (some (w ++ tab ∷ rest)) ≡ (some w, some rest)
unfolding read_token
read_token-word [] rest h = cc
read_token-word (c ∷ w) rest h =
    rw
      (
        skip_spaces-word c (w ++ tab ∷ rest) (word_head c w h),
        index_of_any-word (c ∷ w) rest tab h has_char-tab_stop,
      )
      (from_stop-word (c ∷ w) rest h)
