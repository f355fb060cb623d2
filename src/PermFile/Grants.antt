-- ===== src/PermFile/Grants.antt =====
-- Rights that _setPerm grants, as _checkFileForPerm sees them afterwards.
use wzdftpd.Base.{
  ℕ, ◌+◌, true, false, List, [], ◌∷◌, ◌++◌, none, some, Bytes, map, All, leb, ◌≡◌, refl, sym, ap,
  ◌∙◌, codes, length, str_eq, str_eq_refl, inl, inr, Bool-cases,
}
use wzdftpd.User.{User, wzd_max_path}
use wzdftpd.PermFile.{File, find_file, acl_line}
use wzdftpd.PermFile.Text.{with_acl, print_files}
use wzdftpd.PermFile.Access.{
  Disk, Verdict, acl_allows, by_bits, check_entry, check_file_for_perm, set_in_dir, hard_permfile,
  siteop, read_disk, write_perm_file, write_file,
}
use wzdftpd.PermFile.Names.{is_name}
use wzdftpd.PermFile.Kept.{distinct_names, distinct_users}
use wzdftpd.PermFile.Reads.{is_acl}
use wzdftpd.PermFile.Entries.{IsPrintable, read_back}
use wzdftpd.PermFile.RoundTrip.{print_files-read_perm_file}
use wzdftpd.PermFile.Granted.{with_grant-IsGranted}
use wzdftpd.PermFile.Rights.{find_acl-add_acl, find_acl-reverse}
use wzdftpd.PermFile.Changes.{
  with_grant, link_named, link_named-read_back, All-read_back, distinct_names-read_back,
  distinct_users-IsPrintable,
}

-- The verdict on a name that a list gives.
abbrev verdict : ℕ → User → List Bytes → Bytes → List File → Verdict
verdict wanted user groups name l = check_entry wanted user groups name (find_file name l)

check_entry-read_back :
    (wanted : ℕ) (user : User) (groups : List Bytes) (name : Bytes) (f : File)
    → distinct_users f.acl ≡ true
    → check_entry wanted user groups name (some (read_back f))
      ≡ check_entry wanted user groups name (some f)
unfolding check_entry
check_entry-read_back wanted user groups name f h =
    ap
      (λ o. elim o [
        | none ↦ by_bits wanted user groups f
        | some a ↦ acl_allows wanted (str_eq name (codes ".")) a
      ])
      (find_acl-reverse user.username f.acl h)

verdict-read_back :
    (umask wanted : ℕ) (user : User) (groups : List Bytes) (name : Bytes) (l : List File)
    → All (IsPrintable umask) l
    → verdict wanted user groups name (map read_back l) ≡ verdict wanted user groups name l
unfolding find_file
verdict-read_back umask wanted user groups name [] h = refl
verdict-read_back umask wanted user groups name (f ∷ l) h =
    elim (Bool-cases (str_eq name f.filename)) [
      | inl e ↦
          rw e (
            check_entry-read_back wanted user groups name f
              (distinct_users-IsPrintable umask f h.0))
      | inr e ↦ rw e (verdict-read_back umask wanted user groups name l h.1)
    ]

read_disk-printed :
    (umask : ℕ) (d : Disk) (path : Bytes) (l : List File)
    → All (IsPrintable umask) l
    → distinct_names l ≡ true
    → d path ≡ some (print_files l)
    → read_disk umask d path ≡ some (map read_back l, true)
unfolding read_disk
read_disk-printed umask d path l h hd hp =
    rw (read_disk, hp, print_files-read_perm_file umask l h hd) refl

-- A check in a directory whose permission file was written.
check_file_for_perm-printed :
    (umask : ℕ) (d : Disk) (dir name : Bytes) (wanted : ℕ) (user : User) (groups : List Bytes)
    (l : List File)
    → All (IsPrintable umask) l
    → distinct_names l ≡ true
    → d (dir ++ hard_permfile) ≡ some (print_files l)
    → leb wzd_max_path (length dir + length hard_permfile) ≡ false
    → siteop user ≡ false
    → check_file_for_perm umask d dir name wanted user groups ≡ verdict wanted user groups name l
unfolding check_file_for_perm
check_file_for_perm-printed umask d dir name wanted user groups l h hd hp hs ho =
    rw (hs, ho, read_disk-printed umask d (dir ++ hard_permfile) l h hd hp)
      (verdict-read_back umask wanted user groups name l h)

write_perm_file-found :
    (d : Disk) (path name : Bytes) (l : List File) (f : File)
    → find_file name l ≡ some f
    → write_perm_file d path l path ≡ some (print_files l)
unfolding find_file write_perm_file write_file
write_perm_file-found d path name [] f h = cc
write_perm_file-found d path name (g ∷ l) f h = rw (str_eq_refl path) refl

check_entry-granted :
    (wanted : ℕ) (user : User) (groups : List Bytes) (name rights : Bytes) (f : File)
    → check_entry wanted user groups name (some (with_acl user.username rights f))
      ≡ acl_allows wanted (str_eq name (codes ".")) (acl_line user.username rights)
unfolding check_entry
check_entry-granted wanted user groups name rights f =
    ap
      (λ o. elim o [
        | none ↦ by_bits wanted user groups (with_acl user.username rights f)
        | some a ↦ acl_allows wanted (str_eq name (codes ".")) a
      ])
      (find_acl-add_acl user.username rights f.acl)

-- The part of _setPerm and _checkPerm after they have found the directory and the name.
pub set_in_dir-check_file_for_perm :
    (umask : ℕ) (d : Disk) (dir name rights other : Bytes) (wanted : ℕ) (user other_user : User)
    (groups : List Bytes) (l : List File)
    → All (IsPrintable umask) l
    → distinct_names l ≡ true
    → d (dir ++ hard_permfile) ≡ some (print_files l)
    → link_named name l ≡ false
    → is_name name ≡ true
    → is_acl (acl_line user.username rights) ≡ true
    → leb wzd_max_path (length dir + length hard_permfile) ≡ false
    → siteop user ≡ false
    → siteop other_user ≡ false
    → str_eq other name ≡ false
    → (d' : Disk) × (set_in_dir umask d dir name user.username none none (some rights) none
        ≡ some d')
      × ((right : ℕ)
          → check_file_for_perm umask d' dir name right user groups
            ≡ acl_allows right (str_eq name (codes ".")) (acl_line user.username rights))
      × (check_file_for_perm umask d' dir other wanted other_user groups
          ≡ check_file_for_perm umask d dir other wanted other_user groups)
unfolding set_in_dir
set_in_dir-check_file_for_perm umask d dir name rights other wanted user other_user groups l h hd hp
      hl hn hu hs ho hoo hne =
    let path = dir ++ hard_permfile in
    let k = map read_back l in
    let l' = with_grant umask name user.username rights k in
    let d' = write_perm_file d path l' in
    let r =
      with_grant-IsGranted umask name user.username rights k (All-read_back umask l h)
        (distinct_names-read_back l hd) (link_named-read_back name l ∙ hl) hn hu in
    let text =
      write_perm_file-found d path name l' (with_acl user.username rights r.before) r.found in
    (
      d',
      rw (set_in_dir, read_disk-printed umask d path l h hd hp) refl,
      λ right.
          check_file_for_perm-printed umask d' dir name right user groups l' r.all_printable
            r.all_distinct text hs ho
          ∙ ap (check_entry right user groups name) r.found
          ∙ check_entry-granted right user groups name rights r.before,
      check_file_for_perm-printed umask d' dir other wanted other_user groups l' r.all_printable
            r.all_distinct text hs hoo
          ∙ ap (check_entry wanted other_user groups other) (r.others other hne)
          ∙ verdict-read_back umask wanted other_user groups other l h
          ∙ sym (
              check_file_for_perm-printed umask d dir other wanted other_user groups l h hd hp hs
                hoo),
    )
