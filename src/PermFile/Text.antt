-- ===== src/PermFile/Text.antt =====
-- libwzd-core/wzd_file.c: reading and writing a permission file, with read_token of wzd_misc.c. The file
-- is its text, which wzd_cache_gets gives line by line: a line is shorter than the buffer.
use wzdftpd.Base.{
  ℕ, zero, suc, ◌+◌, ◌-◌, ◌*◌, ◌/◌, ◌%◌, Bool, true, false, ◌&&◌, ◌||◌, List, [], ◌∷◌, ◌++◌, Option,
  none, some, Bytes, if◌then◌else◌, ltb, leb, ◌==◌, length, drop, get_or, codes, str_eq, has_char,
  skip_spaces, strtok, blanks, index_of_any,
}
use wzdftpd.Perm.Add.{c_string}
use wzdftpd.PermFile.{FileKind, file_lnk, Acl, File, find_file, add_new_file, change_file, add_acl}

abbrev pub is_quote : ℕ → Bool
is_quote c = c == b'"' || c == b'\''

abbrev pub stops : Bytes
stops = b' ' ∷ b'\t' ∷ b'\r' ∷ b'\n' ∷ b'"' ∷ b'\'' ∷ []

-- strtok_r stores where it stopped: never NULL.
abbrev pub stored_end : Option Bytes × Bytes → Option Bytes × Option Bytes
stored_end (token, rest) = (token, some rest)

-- From the first blank or quote on, at index `i` of the text.
abbrev pub from_stop : Bytes → ℕ → Option Bytes × Option Bytes
from_stop s i =
    if is_quote (get_or s i 0)
    then (if has_char (get_or s i 0) (drop (suc i) s)
        then stored_end (strtok (get_or s i 0 ∷ []) (drop i s))
        else (none, none))
    else stored_end (strtok blanks s)

abbrev pub token_to : Bytes → Option ℕ → Option Bytes × Option Bytes
token_to s none = (some s, none)
token_to s (some i) = from_stop s i

abbrev pub token_from : Bytes → Option Bytes × Option Bytes
token_from [] = (none, none)
token_from (c ∷ s) = token_to (c ∷ s) (index_of_any stops (c ∷ s))

-- `read_token(NULL, &ptr)`: the token and the new `ptr`, `none` for NULL.
unfoldable pub read_token : Option Bytes → Option Bytes × Option Bytes
read_token none = (none, none)
read_token (some s) = token_from (skip_spaces s)

abbrev pub u64_max : ℕ
u64_max = 18446744073709551615

abbrev pub is_octal : ℕ → Bool
is_octal c = leb b'0' c && leb c b'7'

-- The digits from the start of a text on.
unfoldable pub octal_value : ℕ → Bytes → ℕ
octal_value acc [] = acc
octal_value acc (c ∷ s) = if is_octal c then octal_value (acc * 8 + (c - b'0')) s else acc

abbrev pub clamped : ℕ → ℕ
clamped v = if leb v u64_max then v else u64_max

abbrev pub negated : ℕ → ℕ
negated v = if leb v u64_max then (u64_max + 1 - v) % (u64_max + 1) else u64_max

abbrev pub has_digit : Bytes → Bool
has_digit [] = false
has_digit (c ∷ s) = is_octal c

-- `strtoul(s, &ptr, 8)`, `none` where `ptr == s`.
abbrev pub signed_octal : Bytes → Option ℕ
signed_octal [] = none
signed_octal (c ∷ s) =
    if c == b'-'
    then (if has_digit s then some (negated (octal_value 0 s)) else none)
    else (if c == b'+'
        then (if has_digit s then some (clamped (octal_value 0 s)) else none)
        else (if has_digit (c ∷ s) then some (clamped (octal_value 0 (c ∷ s))) else none))

unfoldable pub strtoul_8 : Bytes → Option ℕ
strtoul_8 s = signed_octal (skip_spaces s)

-- The permissions that a line gives: the bits of the token, the umask where there is no token, or what
-- they were where it is no number.
abbrev pub permissions_of : ℕ → Option Bytes → ℕ → ℕ
permissions_of umask none old = umask
permissions_of umask (some token) old = elim (strtoul_8 token) [ none ↦ old | some ul ↦ ul ]

abbrev pub set_owner : ℕ → Bytes → Bytes → Option Bytes → File → File
set_owner umask owner group token f = record f {
  owner = owner;
  group = group;
  permissions = permissions_of umask token f.permissions;
}

abbrev pub set_link : ℕ → Bytes → Bytes → Bytes → Option Bytes → File → File
set_link umask target owner group token f =
    set_owner umask owner group token (record f { kind = file_lnk; target = some target })

abbrev pub with_acl : Bytes → Bytes → File → File
with_acl user rights f = record f { acl = add_acl user rights f.acl }

-- The entry of that name, added at the end where there is none.
unfoldable pub ensure_file : ℕ → Bytes → List File → List File
ensure_file umask name l = elim (find_file name l) [
  | some f ↦ l
  | none ↦ add_new_file umask name [] [] l
]

-- The fifth token of a link, and what follows it.
abbrev pub link_line : ℕ → Bytes → Bytes → Bytes → Option Bytes × Bytes → List File → List File
link_line umask name t3 t4 (none, rest) l = l
link_line umask name t3 t4 (some group, rest) l =
    change_file name (set_link umask t3 t4 group (strtok blanks rest).0) l

-- A line with its first four tokens.
abbrev pub apply_line : ℕ → Bytes → Bytes → Bytes → Bytes → Bytes → List File → List File
apply_line umask t1 name t3 t4 rest l =
    if str_eq t1 (codes "owner")
    then change_file name (set_owner umask t3 t4 (strtok blanks rest).0) l
    else (if str_eq t1 (codes "perm")
        then change_file name (with_acl t3 t4) l
        else (if str_eq t1 (codes "link")
            then link_line umask name t3 t4 (strtok blanks rest) l
            else l))

-- The tokens of a line, with what follows each of them: a line with fewer than four is left out; `none`
-- where strtok_r reads through the NULL that read_token leaves in `ptr`.
abbrev pub on_token_4 :
    ℕ → Bytes → Bytes → Bytes → Option Bytes × Bytes → List File → Option (List File)
on_token_4 umask t1 name t3 (none, rest) l = some l
on_token_4 umask t1 name t3 (some t4, rest) l =
    some (apply_line umask t1 name t3 t4 rest (ensure_file umask name l))

abbrev pub on_token_3 :
    ℕ → Bytes → Bytes → Option Bytes × Option Bytes → List File → Option (List File)
on_token_3 umask t1 name (none, ptr) l = some l
on_token_3 umask t1 name (some t3, none) l = none
on_token_3 umask t1 name (some t3, some rest) l = on_token_4 umask t1 name t3 (strtok blanks rest) l

abbrev pub on_token_2 : ℕ → Bytes → Option Bytes × Option Bytes → List File → Option (List File)
on_token_2 umask t1 (none, ptr) l = some l
on_token_2 umask t1 (some name, ptr) l = on_token_3 umask t1 name (read_token ptr) l

abbrev pub on_token_1 : ℕ → Option Bytes × Bytes → List File → Option (List File)
on_token_1 umask (none, rest) l = some l
on_token_1 umask (some t1, rest) l = on_token_2 umask t1 (read_token (some rest)) l

-- A round of the loop of readPermFile.
unfoldable pub read_line : ℕ → Bytes → List File → Option (List File)
read_line umask line l = on_token_1 umask (strtok blanks line) l

-- The first line of a text, with its newline, and the rest.
abbrev pub line_first : ℕ → Bytes × Bytes → Bytes × Bytes
line_first c (line, rest) = (c ∷ line, rest)

unfoldable pub gets : Bytes → Bytes × Bytes
gets [] = ([], [])
gets (c ∷ s) = if c == b'\n' then (c ∷ [], s) else line_first c (gets s)

-- The loop, with a round for each byte at most.
unfoldable pub read_lines : ℕ → ℕ → Bytes → List File → Option (List File)
read_lines umask zero s l = some l
read_lines umask (suc fuel) [] l = some l
read_lines umask (suc fuel) (c ∷ s) l =
    let (line, rest) = gets (c ∷ s) in
    elim (read_line umask line l) [ none ↦ none | some l' ↦ read_lines umask fuel rest l' ]

-- The list that readPermFile makes of the text of a file, from an empty list.
unfoldable pub read_perm_file : ℕ → Bytes → Option (List File)
read_perm_file umask s = read_lines umask (length s) s []

-- "%lo"
unfoldable pub octal_digits : ℕ → ℕ → Bytes
octal_digits zero n = (b'0' + n % 8) ∷ []
octal_digits (suc fuel) n =
    let high = octal_digits fuel (n / 8) in
    if ltb n 8 then (b'0' + n) ∷ [] else high ++ (b'0' + n % 8) ∷ []

unfoldable pub show_octal : ℕ → Bytes
show_octal n = octal_digits n n

abbrev pub tab : ℕ
tab = b'\t'

abbrev pub newline : ℕ
newline = b'\n'

abbrev pub quoted : Bytes → Bytes
quoted s = if has_char b' ' s then b'\'' ∷ s ++ b'\'' ∷ [] else s

abbrev pub or_empty : Option Bytes → Bytes
or_empty none = []
or_empty (some s) = s

unfoldable pub print_link : File → Bytes
print_link f =
    codes "link"
    ++ (tab ∷ f.filename
        ++ (tab ∷ quoted (or_empty f.target)
            ++ (tab ∷ f.owner
                ++ (tab ∷ f.group ++ (tab ∷ show_octal f.permissions ++ newline ∷ [])))))

unfoldable pub print_owner : File → Bytes
print_owner f =
    codes "owner"
    ++ (tab ∷ quoted f.filename
        ++ (tab ∷ f.owner ++ (tab ∷ f.group ++ (tab ∷ show_octal f.permissions ++ newline ∷ []))))

-- A zero among the three bytes ends what is written of the line.
unfoldable pub print_acl : Bytes → Acl → Bytes
print_acl name a =
    codes "perm"
    ++ (tab ∷ quoted name ++ (tab ∷ a.user ++ (tab ∷ c_string (a.perms ++ newline ∷ []))))

unfoldable pub print_acls : Bytes → List Acl → Bytes
print_acls name [] = []
print_acls name (a ∷ l) = print_acl name a ++ print_acls name l

abbrev pub is_link : FileKind → Bool
is_link file_lnk = true
is_link _ = false

abbrev pub is_nil : Bytes → Bool
is_nil [] = true
is_nil (c ∷ s) = false

unfoldable pub print_entry : File → Bytes
print_entry f =
    if is_link f.kind
    then print_link f
    else (if is_nil f.owner && is_nil f.group then [] else print_owner f)
      ++ print_acls f.filename f.acl

-- What writePermFile writes; an empty list deletes the file instead.
unfoldable pub print_files : List File → Bytes
print_files [] = []
print_files (f ∷ l) = print_entry f ++ print_files l
