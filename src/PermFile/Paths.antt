-- ===== src/PermFile/Paths.antt =====
-- libwzd-core/wzd_file.c: _checkPerm, _setPerm and _movePerm on paths. `stat` is fs_file_stat: whether
-- there is such a file, and whether it is a directory. The paths have a slash.
use wzdftpd.Base.{
  ℕ, zero, suc, ◌+◌, Bool, true, false, not, ◌&&◌, ◌||◌, List, ◌++◌, Option, none, some, Bytes,
  if◌then◌else◌, leb, ltb, ◌==◌, length, codes, has_char, last_index_of,
}
use wzdftpd.Perm.Add.{c_string}
use wzdftpd.User.{User, wzd_max_path}
use wzdftpd.PermFile.{File, find_file, remove_file, add_new_file, change_file}
use wzdftpd.PermFile.Text.{is_nil}
use wzdftpd.PermFile.Access.{
  Verdict, allowed, error, crash, Disk, right_stor, right_mkdir, right_rmdir, right_rnfr,
  flag_anonymous, hard_permfile, check_file_for_perm, with_slash, cut_at, cut_all, set_in_dir,
  read_disk, write_perm_file,
}

abbrev pub is_allowed : Verdict → Bool
is_allowed allowed = true
is_allowed _ = false

abbrev pub changes_files : ℕ → Bool
changes_files right =
    right == right_stor || right == right_mkdir || right == right_rmdir || right == right_rnfr

abbrev pub anonymous : User → Bool
anonymous user = has_char flag_anonymous (c_string user.flags)

abbrev pub creates : ℕ → Bool
creates right = right == right_stor || right == right_mkdir

-- The tests before the first look at the file.
abbrev pub refused : Bytes → ℕ → User → Bool
refused filename right user = is_nil filename || (anonymous user && changes_files right)

abbrev pub is_some_dir : Option Bool → Bool
is_some_dir (some true) = true
is_some_dir _ = false

-- A crash of a parent's check is one of the whole.
abbrev pub after_parent : Verdict → Verdict → Verdict
after_parent allowed v = v
after_parent crash v = crash
after_parent _ v = error

-- The entry of the destination: with the rights of the moved one.
abbrev pub moved_into : Bool → Bool → File → File → File
moved_into owner group moved f = record f {
  owner = if owner then moved.owner else f.owner;
  group = if group then moved.group else f.group;
  acl = moved.acl;
}

module _ (umask : ℕ) (stat : Bytes → Option Bool) (d : Disk) where
  abbrev pub check_in : Bytes × Bytes → ℕ → User → List Bytes → Verdict
  check_in (dir, name) right user groups =
      check_file_for_perm umask d (with_slash dir) name right user groups

  -- _checkPerm; the fuel bounds the steps to parent directories that do not exist.
  unfoldable pub check_perm : ℕ → Bytes → ℕ → User → List Bytes → Verdict
  check_perm zero filename right user groups = error
  check_perm (suc fuel) filename right user groups =
      let parent =
        check_perm fuel (cut_at filename (last_index_of b'/' filename)).0 right user groups in
      if refused filename right user then error else elim (stat filename) [
        | none ↦
            if not (creates right)
            then error
            else after_parent parent
                (check_in (cut_at filename (last_index_of b'/' filename)) right user groups)
        | some dir ↦
            check_in
              (if dir then (filename, codes ".") else cut_at filename (last_index_of b'/' filename))
              right user groups
      ]

  -- _setPerm: the new disk, or the old one for -1; `none` for a crash.
  unfoldable pub set_perm :
      Bytes → Bytes → Option Bytes → Option Bytes → Option Bytes → Option ℕ → Option Disk
  set_perm filename user owner group rights perms =
      if is_nil filename then some d else elim (stat filename) [
        | none ↦ some d
        | some is_dir ↦
            (let (dir, name) =
                if is_dir
                then (filename, codes ".")
                else cut_all filename (last_index_of b'/' filename) in
              if leb wzd_max_path (length (with_slash dir) + length hard_permfile)
              then some d
              else set_in_dir umask d (with_slash dir) name user owner group rights perms)
      ]

  abbrev pub placed : Bool → Bool → Bytes → File → List File → List File
  placed owner group name moved l = elim (find_file name l) [
    | none ↦
        change_file name (moved_into false false moved)
          (add_new_file umask name moved.owner moved.group l)
    | some f ↦ change_file name (moved_into owner group moved) l
  ]

  -- The destination: `moved` is the entry that the source had.
  abbrev pub put_moved : Disk → Bytes → Bool → Bool → Bytes → Option File → Option Disk
  put_moved d1 dst_file owner group name moved = elim (read_disk umask d1 dst_file) [
    | none ↦ none
    | some (l, found) ↦ elim moved [
      | none ↦ some (write_perm_file d1 dst_file (remove_file name l).0)
      | some m ↦ some (write_perm_file d1 dst_file (placed owner group name m l))
    ]
  ]

  abbrev pub take_moved :
      Bytes → Bytes → Bytes → Bytes → Bool → Bool → Option (List File × Bool) → Option Disk
  take_moved src_file src dst_file dst owner group none = none
  take_moved src_file src dst_file dst owner group (some (l, found)) =
      let (rest, moved) = if found then remove_file src l else (l, none) in
      put_moved (write_perm_file d src_file rest) dst_file owner group dst moved

  -- _movePerm, for a file that is not a directory; `owner` and `group` say whether they are not NULL.
  unfoldable pub move_perm : Bytes → Bytes → Bool → Bool → Option Disk
  move_perm old new owner group =
      let (src_dir, src) = cut_all old (last_index_of b'/' old) in
      let (dst_dir, dst) = cut_all new (last_index_of b'/' new) in
      let src_file = with_slash src_dir ++ hard_permfile in
      let dst_file = with_slash dst_dir ++ hard_permfile in
      if is_nil old || is_nil new then some d else elim (stat old) [
        | none ↦ some d
        | some true ↦ some d
        | some false ↦
            if ltb 4095 (length src_file) || is_some_dir (stat new) || ltb 4095 (length dst_file)
            then some d
            else take_moved src_file src dst_file dst owner group (read_disk umask d src_file)
      ]
