-- ===== src/PermFile/Entries.antt =====
-- What readPermFile makes of the lines of one entry that writePermFile writes.
use wzdftpd.Base.{
  ℕ, ◌≤◌, true, false, List, [], ◌∷◌, ◌++◌, none, some, Bytes, ◌≡◌, refl, ap, ◌∙◌, append_assoc,
  arith,
}
use mathlib.Core.Path.{subst}
use mathlib.Core.List.{reverse}
use wzdftpd.PermFile.{Acl, File, file_notset, file_lnk, new_file, change_file}
use wzdftpd.PermFile.Text.{
  with_acl, ensure_file, print_acl, print_acls, print_owner, print_link, print_entry, is_nil,
  set_owner, set_link, show_octal, u64_max,
}
use wzdftpd.PermFile.Words.{is_word}
use wzdftpd.PermFile.Names.{is_name}
use wzdftpd.PermFile.Lines.{read_line-owner, read_line-link, read_line-perm, permissions_of-octal}
use wzdftpd.PermFile.Ends.{is_line-owner, is_line-link, is_line-perm}
use wzdftpd.PermFile.Kept.{
  known, has_line, no_lines, distinct_users, ensure_file-new, change_file-last, add_acl-new,
  no_lines-cons,
}
use wzdftpd.PermFile.Reads.{
  Reads, Reads-line, Reads-acls, is_acl, are_acls, with_lines, acl-user, acl-perms, acl_line-same,
}

-- The entries that can be written: a link, an entry with an owner, and one with rights only, whose bits
-- are those that an entry is made with.
pub data IsPrintable (umask : ℕ) : File → Type 0 where
  linked :
      (f : File) (target : Bytes)
      → f.kind ≡ file_lnk
      → f.target ≡ some target
      → f.acl ≡ []
      → is_word f.filename ≡ true
      → is_name target ≡ true
      → is_word f.owner ≡ true
      → is_word f.group ≡ true
      → f.permissions ≤ u64_max
      → IsPrintable umask f
  owned :
      (f : File)
      → f.kind ≡ file_notset
      → f.target ≡ none
      → is_name f.filename ≡ true
      → is_word f.owner ≡ true
      → is_word f.group ≡ true
      → f.permissions ≤ u64_max
      → are_acls f.acl ≡ true
      → distinct_users f.acl ≡ true
      → IsPrintable umask f
  granted :
      (name : Bytes) (a : Acl) (l : List Acl)
      → is_name name ≡ true
      → are_acls (a ∷ l) ≡ true
      → distinct_users (a ∷ l) ≡ true
      → IsPrintable umask (with_lines (a ∷ l) (new_file umask name [] []))

-- add_acl puts each new line at the head: the lines come back in the other order.
abbrev pub read_back : File → File
read_back f = with_lines (reverse f.acl) f

set_owner-new :
    (umask : ℕ) (f : File)
    → f.kind ≡ file_notset
    → f.target ≡ none
    → f.permissions ≤ u64_max
    → set_owner umask f.owner f.group
        (some (show_octal f.permissions))
        (new_file umask f.filename [] [])
      ≡ with_lines [] f
set_owner-new umask f hk ht hp = rw (permissions_of-octal umask f.permissions umask hp, hk, ht) refl

set_link-new :
    (umask : ℕ) (f : File) (target : Bytes)
    → f.kind ≡ file_lnk
    → f.target ≡ some target
    → f.permissions ≤ u64_max
    → set_link umask target f.owner f.group
        (some (show_octal f.permissions))
        (new_file umask f.filename [] [])
      ≡ with_lines [] f
set_link-new umask f target hk ht hp =
    rw (permissions_of-octal umask f.permissions umask hp, hk, ht) refl

-- A line that changes the entry which it makes.
pub change_new :
    (umask : ℕ) (g : File → File) (name : Bytes) (l : List File)
    → known name l ≡ false
    → change_file name g (ensure_file umask name l) ≡ l ++ g (new_file umask name [] []) ∷ []
change_new umask g name l h =
    rw (ensure_file-new umask name l h) (change_file-last g l (new_file umask name [] []) h)

pub no_lines-nil : (k : List Acl) → no_lines k [] ≡ true
unfolding no_lines has_line
no_lines-nil [] = refl
no_lines-nil (a ∷ k) = no_lines-nil k

Reads-linked :
    (umask : ℕ) (f : File) (target : Bytes) (l l' : List File) (s : Bytes)
    → f.kind ≡ file_lnk
    → f.target ≡ some target
    → is_word f.filename ≡ true
    → is_name target ≡ true
    → is_word f.owner ≡ true
    → is_word f.group ≡ true
    → f.permissions ≤ u64_max
    → known f.filename l ≡ false
    → Reads umask s (l ++ with_lines [] f ∷ []) l'
    → Reads umask (print_link f ++ s) l l'
Reads-linked umask f target l l' s hk ht hn hw ho hg hp u r =
    Reads-line umask (print_link f) s l (l ++ with_lines [] f ∷ []) l'
      (is_line-link f target ht hn hw ho hg)
      (read_line-link umask f target l ht hn hw ho hg
        ∙ ap some (
            change_new umask _ f.filename l u
            ∙ ap (λ x. l ++ x ∷ []) (set_link-new umask f target hk ht hp)))
      r

Reads-owned :
    (umask : ℕ) (f : File) (l l' : List File) (s : Bytes)
    → f.kind ≡ file_notset
    → f.target ≡ none
    → is_name f.filename ≡ true
    → is_word f.owner ≡ true
    → is_word f.group ≡ true
    → f.permissions ≤ u64_max
    → known f.filename l ≡ false
    → Reads umask s (l ++ with_lines [] f ∷ []) l'
    → Reads umask (print_owner f ++ s) l l'
Reads-owned umask f l l' s hk ht hn ho hg hp u r =
    Reads-line umask (print_owner f) s l (l ++ with_lines [] f ∷ []) l' (is_line-owner f hn ho hg)
      (read_line-owner umask f l hn ho hg hp
        ∙ ap some (
            change_new umask _ f.filename l u
            ∙ ap (λ x. l ++ x ∷ []) (set_owner-new umask f hk ht hp)))
      r

Reads-granted :
    (umask : ℕ) (name : Bytes) (a : Acl) (l l' : List File) (s : Bytes)
    → is_name name ≡ true
    → is_acl a ≡ true
    → known name l ≡ false
    → Reads umask s (l ++ with_lines (a ∷ []) (new_file umask name [] []) ∷ []) l'
    → Reads umask (print_acl name a ++ s) l l'
unfolding has_line
Reads-granted umask name a l l' s hn ha u r =
    Reads-line umask (print_acl name a) s l
      (l ++ with_lines (a ∷ []) (new_file umask name [] []) ∷ []) l'
      (is_line-perm name a hn (acl-user a ha) (acl-perms a ha))
      (read_line-perm umask name a l hn (acl-user a ha) (acl-perms a ha)
        ∙ ap some (
            change_new umask (with_acl a.user a.perms) name l u
            ∙ rw (add_acl-new a.user a.perms [] refl, acl_line-same a ha) refl))
      r

is_nil-word : (s : Bytes) → is_word s ≡ true → is_nil s ≡ false
is_nil-word [] h = cc
is_nil-word (c ∷ s) h = refl

print_entry-owned :
    (f : File)
    → f.kind ≡ file_notset
    → is_word f.owner ≡ true
    → print_entry f ≡ print_owner f ++ print_acls f.filename f.acl
unfolding print_entry
print_entry-owned f hk ho = rw (hk, is_nil-word f.owner ho) refl

print_entry-linked : (f : File) → f.kind ≡ file_lnk → print_entry f ≡ print_link f
unfolding print_entry
print_entry-linked f hk = rw hk refl

pub Reads-file :
    (umask : ℕ) (f : File) (l l' : List File) (s : Bytes)
    → IsPrintable umask f
    → known f.filename l ≡ false
    → Reads umask s (l ++ read_back f ∷ []) l'
    → Reads umask (print_entry f ++ s) l l'
unfolding print_entry print_acls are_acls distinct_users
Reads-file umask f l l' s (linked _ target hk ht ha hn hw ho hg hp) u r =
    rw (print_entry-linked f hk) (
      Reads-linked umask f target l l' s hk ht hn hw ho hg hp u
        (subst (λ k. Reads umask s (l ++ with_lines (reverse k) f ∷ []) l') ha r))
Reads-file umask f l l' s (owned _ hk ht hn ho hg hp ha hd) u r =
    rw (print_entry-owned f hk ho, append_assoc (print_owner f) (print_acls f.filename f.acl) s)
      (Reads-owned umask f l l' (print_acls f.filename f.acl ++ s) hk ht hn ho hg hp u
        (Reads-acls umask f f.acl [] l l' s hn u ha hd (no_lines-nil f.acl) r))
Reads-file umask f l l' s (granted name a k hn ha hd) u r =
    rw (append_assoc (print_acl name a) (print_acls name k) s) (
      Reads-granted umask name a l l' (print_acls name k ++ s) hn (ground arith) u (
        Reads-acls umask (new_file umask name [] []) k (a ∷ []) l l' s hn u (ground arith)
          (ground arith) (no_lines-cons k [] a (no_lines-nil k) (ground arith)) r))
