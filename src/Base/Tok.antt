-- ===== src/Base/Tok.antt =====
-- strtok_r and strpbrk of the C library, on texts without the terminator.
use Prim.Native.Nat.{ℕ}
use mathlib.Core.List.{[], ◌∷◌}
use mathlib.Core.Option.{Option, none, some}
use wzdftpd.Base.Tests.{if◌then◌else◌}
use wzdftpd.Base.CString.{Bytes, has_char, next_index}

-- strtok_r: a token that ends before a delimiter, and what stands after that.
unfoldable pub skip_any : Bytes → Bytes → Bytes
skip_any delims [] = []
skip_any delims (c ∷ s) = if has_char c delims then skip_any delims s else c ∷ s

unfoldable pub up_to : Bytes → Bytes → Bytes
up_to delims [] = []
up_to delims (c ∷ s) = if has_char c delims then [] else c ∷ up_to delims s

unfoldable pub past : Bytes → Bytes → Bytes
past delims [] = []
past delims (c ∷ s) = if has_char c delims then s else past delims s

abbrev pub cut : Bytes → Bytes → Option Bytes × Bytes
cut delims [] = (none, [])
cut delims (c ∷ s) = (some (up_to delims (c ∷ s)), past delims (c ∷ s))

unfoldable pub strtok : Bytes → Bytes → Option Bytes × Bytes
strtok delims s = cut delims (skip_any delims s)

abbrev pub blanks : Bytes
blanks = b' ' ∷ b'\t' ∷ b'\r' ∷ b'\n' ∷ []

-- `strpbrk(s, set) - s`
unfoldable pub index_of_any : Bytes → Bytes → Option ℕ
index_of_any set [] = none
index_of_any set (c ∷ s) = if has_char c set then some 0 else next_index (index_of_any set s)
