-- ===== src/Str.antt =====
-- libwzd-core/wzd_string.c: strings with their length (`length_of`) and allocated size. `buffer` holds the
-- bytes before the terminator, and is `none` while the pointer is NULL; a NULL string is `none`.
-- Memory is there, and the sizes of strings do not reach 2 ^ 64.
pub mod Text
pub mod Tok
use wzdftpd.Base.{
  ℕ, suc, ◌+◌, ◌-◌, ◌*◌, ◌/◌, ◌%◌, ◌^◌, Bool, true, false, List, [], ◌∷◌, ◌++◌, Option, none, some,
  Bytes, if◌then◌else◌, ◌==◌, ltb, leb, length, take, drop, is_space, skip_spaces, trim_end,
  has_char,
}
use wzdftpd.Match.{ascii_lower}

pub record Str : Type 0 where
  pub buffer : Option Bytes
  pub length_of : ℕ
  pub allocated : ℕ

unfoldable pub str_allocate : Str
str_allocate = record { buffer = none; length_of = 0; allocated = 0 }

abbrev pub or_empty : Option Bytes → Bytes
or_empty none = []
or_empty (some b) = b

-- `(size_t)(length * 1.3)`
abbrev pub larger : ℕ → ℕ
larger n = if ltb n 200 then n + 20 else n * 13 / 10

unfoldable pub str_set_min_size : Str → ℕ → Str
str_set_min_size str n =
    if ltb str.allocated n
    then record {
      buffer = some (or_empty str.buffer);
      length_of = str.length_of;
      allocated = larger n;
    }
    else str

abbrev pub with_text : Str → Bytes → ℕ → Str
with_text str b n = record { buffer = some b; length_of = n; allocated = str.allocated }

unfoldable pub str_fromchar : Option Bytes → Str
str_fromchar none = str_allocate
str_fromchar (some text) =
    with_text (str_set_min_size str_allocate (length text + 1)) text (length text)

unfoldable pub str_tochar : Option Str → Option Bytes
str_tochar none = none
str_tochar (some str) = str.buffer

-- `none` for (size_t)-1
unfoldable pub str_length : Option Str → Option ℕ
str_length none = none
str_length (some str) = elim str.buffer [ none ↦ none | some b ↦ some str.length_of ]

unfoldable pub str_checklength : Option Str → ℕ → ℕ → Bool
str_checklength none min max = false
str_checklength (some str) min max = elim str.buffer [
  | none ↦ false
  | some b ↦ if ltb (length b) min then false else leb (length b) max
]

unfoldable pub str_store : Option Str → Bytes → Option Str
str_store none s = none
str_store (some str) s = some (with_text (str_set_min_size str (length s + 1)) s (length s))

-- `dst`, with room for what `src` has allocated, and the text of `src` if it has one
abbrev pub copied : Str → Str → Str
copied dst src = elim src.buffer [
  | none ↦ str_set_min_size dst src.allocated
  | some b ↦ with_text (str_set_min_size dst src.allocated) (take src.length_of b) src.length_of
]

unfoldable pub str_dup : Option Str → Option Str
str_dup none = none
str_dup (some src) = some (copied str_allocate src)

unfoldable pub str_copy : Option Str → Option Str → Option Str
str_copy (some dst) (some src) = some (copied dst src)
str_copy _ _ = none

-- `strlcat(dst, src, size)`
unfoldable pub strlcat : Bytes → Bytes → ℕ → Bytes
strlcat dst src size =
    if leb size (length dst) then dst else dst ++ take (size - length dst - 1) src

abbrev pub append_text : Str → Bytes → Str
append_text str tail = elim str.buffer [
  | none ↦ str
  | some b ↦
      with_text str (strlcat b tail (str.length_of + length tail + 1)) (str.length_of + length tail)
]

unfoldable pub str_append : Option Str → Option Bytes → Option Str
str_append none tail = none
str_append (some str) none = some str
str_append (some str) (some tail) =
    some (append_text (str_set_min_size str (str.length_of + length tail + 1)) tail)

abbrev pub append_byte : Str → ℕ → Str
append_byte str c = elim str.buffer [
  | none ↦ str
  | some b ↦ with_text str (take str.length_of b ++ c ∷ []) (str.length_of + 1)
]

unfoldable pub str_append_c : Option Str → ℕ → Option Str
str_append_c none c = none
str_append_c (some str) c = some (append_byte (str_set_min_size str (str.length_of + 2)) c)

unfoldable pub str_prepend : Option Str → Option Bytes → Option Str
str_prepend none head = none
str_prepend (some str) none = some str
str_prepend (some str) (some head) =
    let n = length head + str.length_of in
    some (record {
      buffer = some (head ++ take str.length_of (or_empty str.buffer));
      length_of = elim str.buffer [ none ↦ length head | some b ↦ n ];
      allocated = if leb str.allocated n then n + 1 else str.allocated;
    })

-- The loop that drops trailing spaces looks at no index below 1.
abbrev pub trim_but_first : Bytes → Bytes
trim_but_first [] = []
trim_but_first (c ∷ s) = c ∷ trim_end s

-- Nothing moves where the first byte is no space.
unfoldable pub str_trim_left : Option Str → Option Str
str_trim_left none = none
str_trim_left (some str) = elim str.buffer [
  | none ↦ none
  | some b ↦ some (with_text str (skip_spaces b) (length (skip_spaces b)))
]

unfoldable pub str_trim_right : Option Str → Option Str
str_trim_right none = none
str_trim_right (some str) = elim str.buffer [
  | none ↦ none
  | some b ↦ some (with_text str (trim_but_first b) (length (trim_but_first b)))
]

unfoldable pub str_trim : Option Str → Option Str
str_trim str = str_trim_left (str_trim_right str)

-- `a + b` in a size_t
abbrev pub size_sum : ℕ → ℕ → ℕ
size_sum a b = (a + b) % 2 ^ 64

abbrev pub erased : Str → Bytes → ℕ → ℕ → Str
erased str b pos len =
    with_text str (take pos b ++ take (str.length_of - (pos + len)) (drop (pos + len) b))
      (str.length_of - len)

-- The string after the call, and the result; `none` where the sum of the test wraps and passes it, and
-- memmove and the terminator go beyond the buffer.
unfoldable pub str_erase : Option Str → ℕ → ℕ → Option (Option Str × Option Str)
str_erase none pos len = some (none, none)
str_erase (some str) pos len = elim str.buffer [
  | none ↦ some (some str, none)
  | some b ↦
      if ltb str.length_of (size_sum pos len)
      then some (some str, none)
      else (if ltb (pos + len) (2 ^ 64)
          then some (some (erased str b pos len), some (erased str b pos len))
          else none)
]

unfoldable pub str_tolower : Option Str → Option Str
str_tolower none = none
str_tolower (some str) = elim str.buffer [
  | none ↦ some str
  | some b ↦
      some
        (with_text str (ascii_lower (take str.length_of b) ++ drop str.length_of b) str.length_of)
]

-- strtok_r on a string of its own: the bytes of the token, and the rest after its delimiter.
unfoldable pub skip_delimiters : Bytes → Bytes → Bytes
skip_delimiters delim [] = []
skip_delimiters delim (c ∷ s) = if has_char c delim then skip_delimiters delim s else c ∷ s

unfoldable pub token_of : Bytes → Bytes → Bytes
token_of delim [] = []
token_of delim (c ∷ s) = if has_char c delim then [] else c ∷ token_of delim s

unfoldable pub rest_of : Bytes → Bytes → Bytes
rest_of delim [] = []
rest_of delim (c ∷ s) = if has_char c delim then s else rest_of delim s

-- The string after the call, and the token; `STR(NULL)` is an empty string.
abbrev pub tok : Str → Bytes → Bytes → Str × Option Str
tok str delim [] = (str, some (str_fromchar none))
tok str delim (c ∷ s) = (
  with_text str (rest_of delim (c ∷ s)) (length (rest_of delim (c ∷ s))),
  some (str_fromchar (some (token_of delim (c ∷ s)))),
)

abbrev pub tok_text : Str → Option Bytes → Bytes → Str × Option Str
tok_text str none delim = (str, none)
tok_text str (some b) delim =
    if str.length_of == 0 then (str, none) else tok str delim (skip_delimiters delim b)

unfoldable pub str_tok : Str → Option Bytes → Str × Option Str
str_tok str none = (str, none)
str_tok str (some delim) = tok_text str str.buffer delim
