-- ===== src/PermFile.antt =====
-- libwzd-core/wzd_file.c: the permission files. A directory's file .dirinfo is a list of entries, each
-- with its owner, its permission bits and the rights of single users. A pointer to an entry of a list is
-- its name: it is the first with that name. The texts are shorter than the arrays of 256 bytes.
pub mod Text
pub mod Access
pub mod Paths
pub mod Parents
pub mod Words
pub mod Octal
pub mod Names
pub mod Lines
pub mod Ends
pub mod Kept
pub mod Reads
pub mod Entries
pub mod RoundTrip
pub mod Rights
pub mod Changes
pub mod Granted
pub mod Grants
pub mod Permits
use wzdftpd.Base.{
  ℕ, zero, suc, Bool, true, false, not, ◌&&◌, ◌||◌, List, [], ◌∷◌, ◌++◌, Option, none, some, Bytes,
  if◌then◌else◌, ltb, ◌==◌, map, replicate, length, take, str_eq,
}

-- wzd_file_kind_t
pub data FileKind : Type 0 where
  file_notset file_reg file_dir file_lnk file_vfs : FileKind

-- wzd_acl_line_t: `perms` has three bytes.
pub record Acl : Type 0 where
  pub user : Bytes
  pub perms : Bytes

-- wzd_file_t: `target` is `data`, the target of a link.
pub record File : Type 0 where
  pub filename : Bytes
  pub owner : Bytes
  pub group : Bytes
  pub permissions : ℕ
  pub acl : List Acl
  pub kind : FileKind
  pub target : Option Bytes

unfoldable pub find_file : Bytes → List File → Option File
find_file name [] = none
find_file name (f ∷ l) = if str_eq name f.filename then some f else find_file name l

-- The list without the first entry of that name, and that entry.
unfoldable pub remove_file : Bytes → List File → List File × Option File
remove_file name [] = ([], none)
remove_file name (f ∷ l) =
    let rest = remove_file name l in
    if str_eq name f.filename then (l, some f) else (f ∷ rest.0, rest.1)

-- `strcmp(a, b) > 0`
unfoldable pub str_gt : Bytes → Bytes → Bool
str_gt [] b = false
str_gt (x ∷ a) [] = true
str_gt (x ∷ a) (y ∷ b) = if x == y then str_gt a b else ltb y x

unfoldable pub file_insert_sorted : File → List File → List File
file_insert_sorted entry [] = entry ∷ []
file_insert_sorted entry (it ∷ l) =
    if str_gt entry.filename it.filename then it ∷ file_insert_sorted entry l else entry ∷ it ∷ l

unfoldable pub find_acl : Bytes → List Acl → Option Acl
find_acl username [] = none
find_acl username (a ∷ l) = if str_eq username a.user then some a else find_acl username l

-- The new entry of add_new_file; NULL for a name is the empty text.
abbrev pub new_file : ℕ → Bytes → Bytes → Bytes → File
new_file umask name owner group = record {
  filename = name;
  owner = owner;
  group = group;
  permissions = umask;
  acl = [];
  kind = file_notset;
  target = none;
}

unfoldable pub add_new_file : ℕ → Bytes → Bytes → Bytes → List File → List File
add_new_file umask name owner group first = first ++ new_file umask name owner group ∷ []

-- A write through the pointer to the entry of that name.
unfoldable pub change_file : Bytes → (File → File) → List File → List File
change_file name g [] = []
change_file name g (f ∷ l) = if str_eq name f.filename then g f ∷ l else f ∷ change_file name g l

-- Every entry after the first is a copy of the first.
unfoldable pub copied_acl : List Acl → List Acl
copied_acl [] = []
copied_acl (a ∷ l) = a ∷ map (λ _. a) l

unfoldable pub file_deep_copy : File → File
file_deep_copy f = record f { acl = copied_acl f.acl }

-- strncpy of three bytes
abbrev pub three : Bytes → Bytes
three [] = 0 ∷ 0 ∷ 0 ∷ []
three (a ∷ []) = a ∷ 0 ∷ 0 ∷ []
three (a ∷ b ∷ []) = a ∷ b ∷ 0 ∷ []
three (a ∷ b ∷ c ∷ s) = a ∷ b ∷ c ∷ []

abbrev pub acl_line : Bytes → Bytes → Acl
acl_line user rights = record { user = user; perms = three rights }

-- The loop of addAcl: the list with the rights of the user replaced, where the user is in it.
unfoldable pub replace_acl : Bytes → Bytes → List Acl → Option (List Acl)
replace_acl user rights [] = none
replace_acl user rights (a ∷ l) =
    let rest = replace_acl user rights l in
    if str_eq a.user user
    then some (acl_line a.user rights ∷ l)
    else elim rest [ none ↦ none | some l' ↦ some (a ∷ l') ]

unfoldable pub add_acl : Bytes → Bytes → List Acl → List Acl
add_acl user rights acl = elim (replace_acl user rights acl) [
  | none ↦ acl_line user rights ∷ acl
  | some acl' ↦ acl'
]
