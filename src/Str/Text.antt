-- ===== src/Str/Text.antt =====
-- libwzd-core/wzd_string.c: what holds of a string between two calls, and the operations as
-- operations on its text.
use wzdftpd.Base.{
  ℕ, zero, suc, ◌+◌, ◌-◌, ◌≤◌, ◌<◌, ◌^◌, true, false, [], ◌∷◌, ◌++◌, Option, none, some, Bytes, ◌≡◌,
  refl, sym, ◌∙◌, ap, arith, if◌then◌else◌, ltb, lt→ltb, leb, length, length-append, take, drop,
  take_all, drop_all, skip_spaces, trim_end, keep_head, Bool-cases, inl, inr, append-nil,
}
use wzdftpd.Match.{ascii_lower}
use wzdftpd.Str.{
  Str, str_allocate, or_empty, larger, str_set_min_size, with_text, str_store, str_dup, strlcat,
  append_text, append_byte, str_append, str_append_c, str_prepend, trim_but_first, str_trim_left,
  str_trim_right, str_trim, size_sum, str_erase, str_tolower,
}

-- A string without a buffer has no length and no room; the length of another one is that of its
-- text, and leaves room for the terminator.
abbrev pub Fits : Option Bytes → ℕ → ℕ → Type 0
Fits none n room = (n ≡ 0) × (room ≡ 0)
Fits (some b) n room = (n ≡ length b) × (n < room)

abbrev pub IsValid : Str → Type 0
IsValid str = Fits str.buffer str.length_of str.allocated

abbrev pub text : Str → Bytes
text str = or_empty str.buffer

larger-le : (n : ℕ) → n ≤ larger n
larger-le n = ground arith

set_min_size-room : (str : Str) (n : ℕ) → n ≤ (str_set_min_size str n).allocated
unfolding str_set_min_size
set_min_size-room str n = ground (arith, larger-le n)

pub with_text-IsValid :
    (str : Str) (n : ℕ) (b : Bytes)
    → length b < n
    → IsValid (with_text (str_set_min_size str n) b (length b))
with_text-IsValid str n b h = (refl, omega (arith, set_min_size-room str n))

-- A valid string whose text is the given one.
abbrev pub Holds : Option Str → Bytes → Type 0
Holds none t = ⊥
Holds (some str) t = IsValid str × (text str ≡ t)

abbrev mk : Option Bytes → ℕ → ℕ → Str
mk o n room = record { buffer = o; length_of = n; allocated = room }

-- Room for the terminator alone makes a buffer.
set_min_size-fields :
    (o : Option Bytes) (n room m : ℕ)
    → Fits o n room
    → 0 < m
    → str_set_min_size (mk o n room) m
      ≡ with_text (str_set_min_size (mk o n room) m) (or_empty o) (length (or_empty o))
unfolding str_set_min_size
set_min_size-fields none n room m v h = elim (Bool-cases (ltb room m)) [
  | inl s ↦ rw (s, v.0) refl
  | inr s ↦ absurd (ground arith)
]
set_min_size-fields (some b) n room m v h = elim (Bool-cases (ltb room m)) [
  | inl s ↦ rw (s, v.0) refl
  | inr s ↦ rw (s, v.0) refl
]

set_min_size-text :
    (str : Str) (m : ℕ)
    → IsValid str
    → 0 < m
    → str_set_min_size str m ≡ with_text (str_set_min_size str m) (text str) (length (text str))
set_min_size-text str m v h = set_min_size-fields str.buffer str.length_of str.allocated m v h

length-text : (str : Str) → IsValid str → str.length_of ≡ length (text str)
length-text str v = go str.buffer str.length_of str.allocated v
  where
    go : (o : Option Bytes) (n room : ℕ) → Fits o n room → n ≡ length (or_empty o)
    go none n room v = v.0
    go (some b) n room v = v.0

strlcat-room : (b tail : Bytes) → strlcat b tail (length b + length tail + 1) ≡ b ++ tail
unfolding strlcat
strlcat-room b tail =
    ground (arith, take_all (length b + length tail + 1 - length b - 1) tail (omega arith))

append-room :
    (str : Str) (tail : Bytes) (m : ℕ)
    → IsValid str
    → length (text str) + length tail < m
    → Holds (some (append_text (str_set_min_size str m) tail)) (text str ++ tail)
append-room str tail m v h =
    rw (set_min_size-text str m v (omega arith), strlcat-room (text str) tail)
      ((sym (length-append (text str) tail), omega (arith, set_min_size-room str m)), refl)

str_append-text :
    (str : Str) (tail : Bytes)
    → IsValid str
    → Holds (str_append (some str) (some tail)) (text str ++ tail)
unfolding str_append
str_append-text str tail v =
    append-room str tail (str.length_of + length tail + 1) v (omega (arith, length-text str v))

append_c-room :
    (str : Str) (c m : ℕ)
    → IsValid str
    → length (text str) + 1 < m
    → Holds (some (append_byte (str_set_min_size str m) c)) (text str ++ c ∷ [])
append_c-room str c m v h =
    rw
      (
        set_min_size-text str m v (omega arith),
        take_all (length (text str)) (text str) (omega arith),
      )
      ((sym (length-append (text str) (c ∷ [])), omega (arith, set_min_size-room str m)), refl)

str_append_c-text :
    (str : Str) (c : ℕ) → IsValid str → Holds (str_append_c (some str) c) (text str ++ c ∷ [])
unfolding str_append_c
str_append_c-text str c v =
    append_c-room str c (str.length_of + 2) v (omega (arith, length-text str v))

str_store-text : (str : Str) (s : Bytes) → IsValid str → Holds (str_store (some str) s) s
unfolding str_store
str_store-text str s v = (with_text-IsValid str (length s + 1) s (omega arith), refl)

prepend-fields :
    (o : Option Bytes) (n room : ℕ) (head : Bytes)
    → Fits o n room
    → Holds (str_prepend (some (mk o n room)) (some head)) (head ++ or_empty o)
unfolding str_prepend
prepend-fields none n room head v = rw (v.0, append-nil head) ((refl, ground arith), refl)
prepend-fields (some b) n room head v =
    rw (take_all n b (omega (arith, v.0)))
      ((omega (arith, length-append head b, v.0), ground arith), refl)

length-ascii_lower : (b : Bytes) → length (ascii_lower b) ≡ length b
unfolding ascii_lower
length-ascii_lower [] = refl
length-ascii_lower (c ∷ b) = ap suc (length-ascii_lower b)

tolower-fields :
    (o : Option Bytes) (n room : ℕ)
    → Fits o n room
    → Holds (str_tolower (some (mk o n room))) (ascii_lower (or_empty o))
unfolding str_tolower ascii_lower
tolower-fields none n room v = (v, refl)
tolower-fields (some b) n room v =
    rw
      (
        take_all n b (omega (arith, v.0)),
        drop_all n b (omega (arith, v.0)),
        append-nil (ascii_lower b),
      )
      ((v.0 ∙ sym (length-ascii_lower b), v.1), refl)

dup-fields :
    (o : Option Bytes) (n room : ℕ)
    → Fits o n room
    → Holds (str_dup (some (mk o n room))) (or_empty o)
unfolding str_dup str_set_min_size str_allocate
dup-fields none n room v = rw v.1 ((refl, refl), refl)
dup-fields (some b) n room v =
    rw (take_all n b (omega (arith, v.0)))
      ((v.0, omega (arith, set_min_size-room str_allocate room, v.1)), refl)

trim_text : (b : Bytes) → skip_spaces (trim_but_first b) ≡ skip_spaces (trim_end b)
unfolding skip_spaces trim_end
trim_text [] = refl
trim_text (c ∷ b) = keep (trim_end b)
  where
    keep : (t : Bytes) → skip_spaces (c ∷ t) ≡ skip_spaces (keep_head c t)
    keep [] = ground arith
    keep (d ∷ t) = refl

length-skip_spaces : (b : Bytes) → length (skip_spaces b) ≤ length b
unfolding skip_spaces
length-skip_spaces [] = omega arith
length-skip_spaces (c ∷ b) = ground (arith, length-skip_spaces b)

length-trim_end : (b : Bytes) → length (trim_end b) ≤ length b
unfolding trim_end
length-trim_end [] = omega arith
length-trim_end (c ∷ b) = keep (trim_end b) (length-trim_end b)
  where
    keep : (t : Bytes) → length t ≤ length b → length (keep_head c t) ≤ suc (length b)
    keep [] h = ground arith
    keep (d ∷ t) h = omega (arith, h)

trim-fields :
    (b : Bytes) (n room : ℕ)
    → Fits (some b) n room
    → Holds (str_trim (some (mk (some b) n room))) (skip_spaces (trim_end b))
unfolding str_trim str_trim_left str_trim_right
trim-fields b n room v =
    rw (trim_text b)
      ((refl, omega (arith, length-skip_spaces (trim_end b), length-trim_end b, v.0, v.1)), refl)

length-take : (n : ℕ) (b : Bytes) → n ≤ length b → length (take n b) ≡ n
length-take zero b h = refl
length-take (suc n) [] h = absurd (omega arith)
length-take (suc n) (c ∷ b) h = ap suc (length-take n b (omega arith))

length-drop : (n : ℕ) (b : Bytes) → length (drop n b) ≡ length b - n
length-drop zero b = omega arith
length-drop (suc n) [] = omega arith
length-drop (suc n) (c ∷ b) = omega (arith, length-drop n b)

-- What is left without the bytes of a range.
abbrev pub without : Bytes → ℕ → ℕ → Bytes
without t pos len = if leb (pos + len) (length t) then take pos t ++ drop (pos + len) t else t

nothing_left : (pos k : ℕ) → take pos [] ++ drop k [] ≡ or_empty none
nothing_left zero zero = refl
nothing_left zero (suc k) = refl
nothing_left (suc pos) zero = refl
nothing_left (suc pos) (suc k) = refl

beyond : (n k m : ℕ) → ltb n k ≡ true → n ≡ m → leb k m ≡ false
beyond n k m s h = ground arith

inside : (n k m : ℕ) → ltb n k ≡ false → n ≡ m → leb k m ≡ true
inside n k m s h = ground arith

range_inside : (n pos len : ℕ) → ltb n (pos + len) ≡ false → pos + len ≤ n
range_inside n pos len s = ground arith

no_wrap : (pos len : ℕ) → pos + len < 2 ^ 64 → size_sum pos len ≡ pos + len
no_wrap pos len h = omega (arith, h)

-- The string after a call that does not go beyond the buffer.
abbrev pub after_erase : Option (Option Str × Option Str) → Option Str
after_erase none = none
after_erase (some r) = r.0

erase-fields :
    (o : Option Bytes) (n room pos len : ℕ)
    → Fits o n room
    → pos + len < 2 ^ 64
    → Holds (after_erase (str_erase (some (mk o n room)) pos len)) (without (or_empty o) pos len)
unfolding str_erase
erase-fields none n room pos len v h = elim (Bool-cases (leb (pos + len) 0)) [
  | inl s ↦ rw s (v, sym (nothing_left pos (pos + len)))
  | inr s ↦ rw s (v, refl)
]
erase-fields (some b) n room pos len v h = elim (Bool-cases (ltb n (pos + len))) [
  | inl s ↦ rw (no_wrap pos len h, s, beyond n (pos + len) (length b) s v.0) (v, refl)
  | inr s ↦
      rw
        (
          no_wrap pos len h,
          s,
          lt→ltb (pos + len) (2 ^ 64) h,
          inside n (pos + len) (length b) s v.0,
          take_all (n - (pos + len)) (drop (pos + len) b)
              (omega (arith, length-drop (pos + len) b, v.0)),
        )
        (
          (
            omega (
              arith,
              length-append (take pos b) (drop (pos + len) b),
              length-take pos b (ground (arith, v.0)),
              length-drop (pos + len) b,
              v.0,
              range_inside n pos len s,
            ),
            omega (arith, v.1),
          ),
          refl,
        )
]

-- A string that is valid, that is, whose length is that of its text and is below the size of its
-- buffer, stays valid under every edit, and the edits do to its text what they say: str_append and
-- str_append_c add at its end, str_prepend at its front, str_store replaces it, str_erase, where the
-- sum of position and length does not wrap, takes a range out or, where the range ends beyond it, nothing, str_tolower makes its letters small, and
-- str_dup gives a valid string with the same text.
pub edits-text :
    (str : Str) (s : Bytes) (c pos len : ℕ)
    → IsValid str
    → pos + len < 2 ^ 64
    → Holds (str_append (some str) (some s)) (text str ++ s)
      × Holds (str_append_c (some str) c) (text str ++ c ∷ [])
      × Holds (str_prepend (some str) (some s)) (s ++ text str)
      × Holds (str_store (some str) s) s
      × Holds (after_erase (str_erase (some str) pos len)) (without (text str) pos len)
      × Holds (str_tolower (some str)) (ascii_lower (text str))
      × Holds (str_dup (some str)) (text str)
edits-text str s c pos len v h = (
  str_append-text str s v,
  str_append_c-text str c v,
  prepend-fields str.buffer str.length_of str.allocated s v,
  str_store-text str s v,
  erase-fields str.buffer str.length_of str.allocated pos len v h,
  tolower-fields str.buffer str.length_of str.allocated v,
  dup-fields str.buffer str.length_of str.allocated v,
)

trim-some :
    (o : Option Bytes) (n room : ℕ) (b : Bytes)
    → o ≡ some b
    → Fits o n room
    → Holds (str_trim (some (mk o n room))) (skip_spaces (trim_end b))
trim-some none n room b e v = cc e
trim-some (some c) n room b e v = let h : b ≡ c = cc e in rw h (trim-fields c n room v)

-- A valid string that has a buffer, trimmed at both ends, is valid and has the text without the spaces
-- at its ends, although str_trim_right alone never drops the first byte.
pub str_trim-text :
    (str : Str) (b : Bytes)
    → str.buffer ≡ some b
    → IsValid str
    → Holds (str_trim (some str)) (skip_spaces (trim_end b))
str_trim-text str b e v = trim-some str.buffer str.length_of str.allocated b e v
