-- ===== src/Base/CString.antt =====
-- C strings as lists of their bytes, without the terminator, and the functions of the C library
-- (string.h, ctype.h in the "C" locale) that the program calls on them.
use Prim.Native.Nat.{ℕ, suc, ◌+◌}
use Prim.Native.Char.{code}
use Prim.Native.String.{String}
use mathlib.Core.Path.{◌≡◌, refl}
use mathlib.Core.Bool.{Bool, true, false, ◌&&◌, ◌||◌}
use mathlib.Core.Logic.{◌↔◌}
use mathlib.Core.List.{List, [], ◌∷◌, map}
use mathlib.Core.Option.{Option, none, some}
use native.Mathlib.Omega.{arith}
use wzdftpd.Base.Tests.{leb, ◌==◌, if◌then◌else◌}

abbrev pub Bytes : Type 0
Bytes = List ℕ

-- The bytes of an ASCII literal.
abbrev pub codes : String → Bytes
codes String.[] = []
codes (String.◌∷◌ c s) = code c ∷ codes s

abbrev pub is_space : ℕ → Bool
is_space c = c == 32 || (leb 9 c && leb c 13)

abbrev pub is_digit : ℕ → Bool
is_digit c = leb b'0' c && leb c b'9'

abbrev pub is_upper : ℕ → Bool
is_upper c = leb b'A' c && leb c b'Z'

abbrev pub is_lower : ℕ → Bool
is_lower c = leb b'a' c && leb c b'z'

abbrev pub is_alnum : ℕ → Bool
is_alnum c = is_digit c || is_upper c || is_lower c

abbrev pub to_lower : ℕ → ℕ
to_lower c = if is_upper c then c + 32 else c

-- `strcmp(a, b) == 0`
unfoldable pub str_eq : Bytes → Bytes → Bool
str_eq [] [] = true
str_eq (x ∷ xs) (y ∷ ys) = x == y && str_eq xs ys
str_eq _ _ = false

pub str_eq_iff : (a b : Bytes) → (str_eq a b ≡ true) ↔ (a ≡ b)
unfolding str_eq
str_eq_iff (x ∷ a) (y ∷ b) = ground (arith, str_eq_iff a b)
str_eq_iff _ _ = ground arith

pub str_eq_refl : (a : Bytes) → str_eq a a ≡ true
str_eq_refl a = (str_eq_iff a a).1 refl

pub str_eq_symm : (a b : Bytes) → str_eq a b ≡ str_eq b a
unfolding str_eq
str_eq_symm (x ∷ a) (y ∷ b) = ground (arith, str_eq_symm a b)
str_eq_symm [] [] = refl
str_eq_symm [] (y ∷ b) = refl
str_eq_symm (x ∷ a) [] = refl

-- `strcasecmp(a, b) == 0`
unfoldable pub str_case_eq : Bytes → Bytes → Bool
str_case_eq a b = str_eq (map to_lower a) (map to_lower b)

-- `strchr(s, c) != NULL`
unfoldable pub has_char : ℕ → Bytes → Bool
has_char c [] = false
has_char c (x ∷ xs) = x == c || has_char c xs

abbrev pub next_index : Option ℕ → Option ℕ
next_index none = none
next_index (some i) = some (suc i)

-- `strchr(s, c) - s`
unfoldable pub index_of : ℕ → Bytes → Option ℕ
index_of c [] = none
index_of c (x ∷ xs) = if x == c then some 0 else next_index (index_of c xs)

-- `strrchr(s, c) - s`
unfoldable pub last_index_of : ℕ → Bytes → Option ℕ
last_index_of c [] = none
last_index_of c (x ∷ xs) = elim (last_index_of c xs) [
  | some i ↦ some (suc i)
  | none ↦ if x == c then some 0 else none
]

-- `while (isspace(*s)) s++;`
unfoldable pub skip_spaces : Bytes → Bytes
skip_spaces [] = []
skip_spaces (c ∷ cs) = if is_space c then skip_spaces cs else c ∷ cs

-- `while (len > 0 && isspace(s[len - 1])) len--;`
abbrev pub keep_head : ℕ → Bytes → Bytes
keep_head c [] = if is_space c then [] else c ∷ []
keep_head c (d ∷ rest) = c ∷ d ∷ rest

unfoldable pub trim_end : Bytes → Bytes
trim_end [] = []
trim_end (c ∷ cs) = keep_head c (trim_end cs)

-- `s[len - 1] == c`, for a string that is not empty
unfoldable pub ends_with : ℕ → Bytes → Bool
ends_with c [] = false
ends_with c (x ∷ []) = x == c
ends_with c (x ∷ y ∷ r) = ends_with c (y ∷ r)

-- the string without its last byte
unfoldable pub drop_last : Bytes → Bytes
drop_last [] = []
drop_last (x ∷ []) = []
drop_last (x ∷ y ∷ r) = x ∷ drop_last (y ∷ r)
