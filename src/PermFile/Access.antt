-- ===== src/PermFile/Access.antt =====
-- libwzd-core/wzd_file.c: _checkFileForPerm, _checkPerm, _setPerm and _movePerm over a disk, which gives
-- the text of each permission file. Writing a file succeeds.
use wzdftpd.Base.{
  ℕ, zero, suc, ◌+◌, ◌/◌, ◌%◌, ◌^◌, Bool, true, false, not, ◌||◌, List, [], ◌∷◌, ◌++◌, Option, none,
  some, Bytes, if◌then◌else◌, leb, ◌==◌, length, take, drop, get_or, codes, str_eq, has_char,
  ends_with,
}
use Prim.Native.Nat.{bit_and}
use wzdftpd.Perm.Add.{c_string}
use wzdftpd.User.{User, wzd_max_path}
use wzdftpd.PermFile.{Acl, File, find_file, find_acl, change_file}
use wzdftpd.PermFile.Text.{read_perm_file, print_files, ensure_file, with_acl, is_nil}

-- The rights, as bits
abbrev pub right_list : ℕ
right_list = 1

abbrev pub right_retr : ℕ
right_retr = 2

abbrev pub right_stor : ℕ
right_stor = 4

abbrev pub right_cwd : ℕ
right_cwd = 65536

abbrev pub right_mkdir : ℕ
right_mkdir = 131072

abbrev pub right_rmdir : ℕ
right_rmdir = 262144

abbrev pub right_rnfr : ℕ
right_rnfr = 2097152

abbrev pub flag_anonymous : ℕ
flag_anonymous = b'A'

abbrev pub flag_siteop : ℕ
flag_siteop = b'O'

-- 0, 1, -1, and a read through a NULL pointer
pub data Verdict : Type 0 where
  allowed denied error crash : Verdict

abbrev pub allows : Bool → Verdict
allows true = allowed
allows false = denied

-- _default_perm
unfoldable pub default_perm : ℕ → User → Verdict
default_perm wanted_right user = allows (not (bit_and wanted_right user.userperms == 0))

-- `permissions & (1 << k)`
abbrev pub bit : ℕ → ℕ → Bool
bit p k = (p / 2 ^ k) % 2 == 1

-- The three switches on the bits of the owner (at 6), the group (at 3) and the others (at 0).
unfoldable pub bits_allow : ℕ → ℕ → ℕ → Bool
bits_allow wanted_right permissions at =
    if wanted_right == right_list || wanted_right == right_retr
    then bit permissions (at + 2)
    else (if wanted_right == right_stor
          || wanted_right == right_mkdir
          || wanted_right == right_rmdir
          || wanted_right == right_rnfr
        then bit permissions (at + 1)
        else (if wanted_right == right_cwd then bit permissions at else false))

-- The switch on the rights of the user's own line.
unfoldable pub acl_allows : ℕ → Bool → Acl → Verdict
acl_allows wanted_right is_dir a =
    let r = get_or a.perms 0 0 == b'r' in
    let w = get_or a.perms 1 0 == b'w' in
    let x = get_or a.perms 2 0 == b'x' in
    if wanted_right == right_retr
    then allows r
    else (if wanted_right == right_stor
        then allows w
        else (if wanted_right == right_cwd
            then (if is_dir then allows x else error)
            else (if wanted_right == right_list
                then (if is_dir then allows r else error)
                else (if wanted_right == right_rnfr then allows w else error))))

-- The loop over the groups of the user, by their names.
unfoldable pub in_group : Bytes → List Bytes → Bool
in_group group [] = false
in_group group (g ∷ l) = str_eq g group || in_group group l

-- A file without a line for the user.
abbrev pub by_bits : ℕ → User → List Bytes → File → Verdict
by_bits wanted_right user groups f =
    if str_eq user.username f.owner
    then allows (bits_allow wanted_right f.permissions 6)
    else (if in_group f.group groups
        then allows (bits_allow wanted_right f.permissions 3)
        else allows (bits_allow wanted_right f.permissions 0))

unfoldable pub check_entry : ℕ → User → List Bytes → Bytes → Option File → Verdict
check_entry wanted_right user groups name none = default_perm wanted_right user
check_entry wanted_right user groups name (some f) = elim (find_acl user.username f.acl) [
  | none ↦ by_bits wanted_right user groups f
  | some a ↦ acl_allows wanted_right (str_eq name (codes ".")) a
]

abbrev pub hard_permfile : Bytes
hard_permfile = codes ".dirinfo"

abbrev pub Disk : Type 0
Disk = Bytes → Option Bytes

unfoldable pub write_file : Disk → Bytes → Option Bytes → Disk
write_file d path text p = if str_eq path p then text else d p

-- writePermFile: an empty list deletes the file.
unfoldable pub write_perm_file : Disk → Bytes → List File → Disk
write_perm_file d path [] = write_file d path none
write_perm_file d path (f ∷ l) = write_file d path (some (print_files (f ∷ l)))

-- readPermFile from an empty list; where there is no file, it fails and leaves the list.
unfoldable pub read_disk : ℕ → Disk → Bytes → Option (List File × Bool)
read_disk umask d path = elim (d path) [
  | none ↦ some ([], false)
  | some text ↦ elim (read_perm_file umask text) [ none ↦ none | some l ↦ some (l, true) ]
]

abbrev pub siteop : User → Bool
siteop user = has_char flag_siteop (c_string user.flags)

abbrev pub verdict_of : ℕ → User → List Bytes → Bytes → Option (List File × Bool) → Verdict
verdict_of wanted_right user groups name none = crash
verdict_of wanted_right user groups name (some (l, found)) =
    if found
    then check_entry wanted_right user groups name (find_file name l)
    else default_perm wanted_right user

-- `groups` are the names that GetGroupByID gives for the user's groups. `dir` ends in a slash.
unfoldable pub check_file_for_perm : ℕ → Disk → Bytes → Bytes → ℕ → User → List Bytes → Verdict
check_file_for_perm umask d dir wanted_file wanted_right user groups =
    if leb wzd_max_path (length dir + length hard_permfile)
    then error
    else (if siteop user
        then allowed
        else verdict_of wanted_right user groups wanted_file
            (read_disk umask d (dir ++ hard_permfile)))

abbrev pub with_slash : Bytes → Bytes
with_slash dir = if ends_with b'/' dir then dir else dir ++ b'/' ∷ []

-- A path cut at its last slash: the directory and the name.
abbrev pub cut_at : Bytes → Option ℕ → Bytes × Bytes
cut_at path none = (path, [])
cut_at path (some zero) = (b'/' ∷ [], drop 1 path)
cut_at path (some (suc i)) = (take (suc i) path, drop (suc (suc i)) path)

-- _setPerm cuts a file in the root at its first byte too.
abbrev pub cut_all : Bytes → Option ℕ → Bytes × Bytes
cut_all path none = (path, [])
cut_all path (some i) = (take i path, drop (suc i) path)

abbrev pub or_old : Option Bytes → Bytes → Bytes
or_old none old = old
or_old (some s) old = s

abbrev pub or_default : Bytes → Bytes → Bytes
or_default s d = if is_nil s then d else s

abbrev pub owned_by : Option Bytes → Option Bytes → File → File
owned_by none none f = f
owned_by owner group f = record f {
  owner = or_default (or_old owner f.owner) (codes "nobody");
  group = or_default (or_old group f.group) (codes "nogroup");
}

abbrev pub granted_rights : Bytes → Option Bytes → File → File
granted_rights user none f = f
granted_rights user (some rights) f = with_acl user rights f

abbrev pub moded : Option ℕ → File → File
moded none f = f
moded (some perms) f = record f { permissions = perms }

-- What _setPerm changes of an entry; `none` stands for NULL and for (unsigned long)-1.
abbrev pub changed_entry :
    Bytes → Option Bytes → Option Bytes → Option Bytes → Option ℕ → File → File
changed_entry user owner group rights perms f =
    moded perms (granted_rights user rights (owned_by owner group f))

-- _setPerm, for the directory and the name that it finds: the new disk, `none` for a crash.
unfoldable pub set_in_dir :
    ℕ
    → Disk
    → Bytes
    → Bytes
    → Bytes
    → Option Bytes
    → Option Bytes
    → Option Bytes
    → Option ℕ
    → Option Disk
set_in_dir umask d dir name user owner group rights perms =
    elim (read_disk umask d (dir ++ hard_permfile)) [
      | none ↦ none
      | some (l, found) ↦ some (
          write_perm_file d (dir ++ hard_permfile) (
            change_file name (changed_entry user owner group rights perms)
              (ensure_file umask name l)))
    ]
