-- ===== src/Tests/Files.antt =====
-- Permission files read and written, and the theorems on them at a concrete file.
use wzdftpd.Base.{
  ℕ, Option, Bool, true, ◌||◌, All, if◌then◌else◌, false, replicate, has_char, last_index_of,
  ends_with, str_eq, List, [], ◌∷◌, none, some, codes, ◌≡◌, refl, map, arith,
}
use wzdftpd.PermFile.{File, file_notset, file_lnk, acl_line, new_file}
use wzdftpd.PermFile.Text.{print_files, read_perm_file}
use wzdftpd.PermFile.Entries.{IsPrintable, linked, owned, granted, read_back}
use wzdftpd.PermFile.Reads.{with_lines, are_acls}
use wzdftpd.PermFile.Words.{every}
use wzdftpd.PermFile.Kept.{distinct_names, distinct_users, known, has_line}
use wzdftpd.User.{User}
use wzdftpd.Perm.Add.{c_string}
use wzdftpd.PermFile.Access.{error, read_disk, default_perm, Disk, check_file_for_perm}
use wzdftpd.PermFile.Paths.{check_perm}
use wzdftpd.PermFile.Parents.{Checked, check_perm-Checked}
use wzdftpd.PermFile.RoundTrip.{print_files-read_perm_file}

abbrev a_link : File
a_link = record {
  filename = codes "latest";
  owner = codes "bob";
  group = codes "admin";
  permissions = 493;
  acl = [];
  kind = file_lnk;
  target = some (codes "/srv/new files");
}

abbrev a_file : File
a_file = record {
  filename = codes "my file";
  owner = codes "bob";
  group = codes "admin";
  permissions = 420;
  acl = acl_line (codes "alice") (codes "rwx") ∷ acl_line (codes "carol") (codes "r--") ∷ [];
  kind = file_notset;
  target = none;
}

abbrev some_files : List File
some_files =
    a_link
    ∷ a_file
    ∷ with_lines (acl_line (codes "alice") (codes "r-x") ∷ []) (new_file 438 (codes ".") [] [])
    ∷ []

some_files-IsPrintable : All (IsPrintable 438) some_files
unfolding distinct_users are_acls every has_line has_char str_eq
some_files-IsPrintable = (
  linked a_link (codes "/srv/new files") refl refl refl refl refl refl refl (omega arith),
  (
    owned a_file refl refl refl refl refl (omega arith) refl refl,
    (granted (codes ".") (acl_line (codes "alice") (codes "r-x")) [] refl refl refl, tt),
  ),
)

print_files-read_perm_file_example :
    read_perm_file 438 (print_files some_files) ≡ some (map read_back some_files)
unfolding distinct_names known str_eq
print_files-read_perm_file_example =
    print_files-read_perm_file 438 some_files some_files-IsPrintable refl

abbrev named : List ℕ → User
named name = record {
  uid = 7;
  backend_id = 0;
  username = name;
  userpass = [];
  rootpath = codes "/home";
  creator = 0;
  group_num = 0;
  groups = [];
  userperms = 0;
  flags = replicate 32 0;
  num_logins = 1;
  logins_per_ip = 0;
  ip_list = [];
  credits = 0;
  ratio = 0;
}

abbrev one_directory : Disk
one_directory path =
    if str_eq path (codes "/srv/.dirinfo") then some (print_files some_files) else none

abbrev stat_of : List ℕ → Option Bool
stat_of path =
    if str_eq path (codes "/") || str_eq path (codes "/srv")
    then some true
    else (if str_eq path (codes "/srv/my file") then some false else none)

root-exists : stat_of (codes "/") ≡ some true
unfolding str_eq
root-exists = refl

-- A file in a directory that is to be made.
check_perm-Checked_example :
    Checked 438 stat_of one_directory 4
      (named (codes "alice"))
      []
      (codes "/srv/new/a")
      (check_perm 438 stat_of one_directory 12 (codes "/srv/new/a") 4 (named (codes "alice")) [])
check_perm-Checked_example =
    check_perm-Checked 438 stat_of one_directory 4 (named (codes "alice")) [] 12 (codes "srv/new/a")
      true root-exists (omega arith)

-- Without permission files, the rights of Alice decide, who has none.
check_perm-made :
    check_perm 438 stat_of (λ path. none) 12 (codes "/srv/new/a") 4 (named (codes "alice")) []
    ≡ error
unfolding check_perm has_char c_string str_eq last_index_of check_file_for_perm ends_with read_disk
    default_perm
check_perm-made = refl
