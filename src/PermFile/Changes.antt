-- ===== src/PermFile/Changes.antt =====
-- A list of printable entries after it was read, and after rights were granted in it.
use wzdftpd.Base.{
  ℕ, Bool, true, false, ◌&&◌, ◌||◌, List, [], ◌∷◌, some, Bytes, map, All, if◌then◌else◌, ◌≡◌, refl,
  sym, ap, ◌∙◌, str_eq, str_eq_iff, inl, inr, Bool-cases, arith,
}
use mathlib.Core.Path.{subst}
use mathlib.Core.List.{reverse, reverse_aux}
use wzdftpd.PermFile.{Acl, File, new_file, find_file, change_file, find_acl, add_acl, acl_line}
use wzdftpd.PermFile.Text.{ensure_file, with_acl, is_link}
use wzdftpd.PermFile.Names.{is_name}
use wzdftpd.PermFile.Kept.{known, distinct_names, distinct_users}
use wzdftpd.PermFile.Reads.{is_acl, are_acls, with_lines}
use wzdftpd.PermFile.Entries.{IsPrintable, linked, owned, granted, read_back}
use wzdftpd.PermFile.Rights.{
  distinct_users-add_acl, are_acls-add_acl, find_acl-add_acl, are_acls-reverse,
  distinct_users-reverse,
}

abbrev pub has_lines : List Acl → Bool
has_lines [] = false
has_lines (a ∷ l) = true

pub IsPrintable-granted :
    (umask : ℕ) (name : Bytes) (acl : List Acl)
    → is_name name ≡ true
    → are_acls acl ≡ true
    → distinct_users acl ≡ true
    → has_lines acl ≡ true
    → IsPrintable umask (with_lines acl (new_file umask name [] []))
IsPrintable-granted umask name [] hn ha hd h = cc
IsPrintable-granted umask name (a ∷ l) hn ha hd h = granted name a l hn ha hd

has_lines-reverse_aux :
    (k acc : List Acl) → has_lines acc ≡ true → has_lines (reverse_aux k acc) ≡ true
has_lines-reverse_aux [] acc h = h
has_lines-reverse_aux (a ∷ k) acc h = has_lines-reverse_aux k (a ∷ acc) refl

has_lines-found :
    (user : Bytes) (l : List Acl) (a : Acl) → find_acl user l ≡ some a → has_lines l ≡ true
unfolding find_acl
has_lines-found user [] a h = cc
has_lines-found user (b ∷ l) a h = refl

has_lines-add_acl : (user rights : Bytes) (l : List Acl) → has_lines (add_acl user rights l) ≡ true
has_lines-add_acl user rights l =
    has_lines-found user (add_acl user rights l) (acl_line user rights)
      (find_acl-add_acl user rights l)

-- Reading keeps an entry printable.
read_back-IsPrintable :
    (umask : ℕ) (f : File) → IsPrintable umask f → IsPrintable umask (read_back f)
read_back-IsPrintable umask f (linked _ target hk ht ha hn hw ho hg hp) =
    linked (read_back f) target hk ht (ap reverse ha) hn hw ho hg hp
read_back-IsPrintable umask f (owned _ hk ht hn ho hg hp ha hd) =
    owned (read_back f) hk ht hn ho hg hp (are_acls-reverse f.acl ha)
      (distinct_users-reverse f.acl hd)
read_back-IsPrintable umask f (granted name a l hn ha hd) =
    IsPrintable-granted umask name (reverse (a ∷ l)) hn (are_acls-reverse (a ∷ l) ha)
      (distinct_users-reverse (a ∷ l) hd) (has_lines-reverse_aux l (a ∷ []) refl)

-- So does a grant, but to a link.
with_acl-IsPrintable :
    (umask : ℕ) (user rights : Bytes) (f : File)
    → is_acl (acl_line user rights) ≡ true
    → is_link f.kind ≡ false
    → IsPrintable umask f
    → IsPrintable umask (with_acl user rights f)
with_acl-IsPrintable umask user rights f hu hl (linked _ target hk ht ha hn hw ho hg hp) =
    let impossible : true ≡ false = sym (ap is_link hk) ∙ hl in cc
with_acl-IsPrintable umask user rights f hu hl (owned _ hk ht hn ho hg hp ha hd) =
    owned (with_acl user rights f) hk ht hn ho hg hp (are_acls-add_acl user rights f.acl hu ha)
      (distinct_users-add_acl user rights f.acl hd)
with_acl-IsPrintable umask user rights f hu hl (granted name a l hn ha hd) =
    IsPrintable-granted umask name (add_acl user rights (a ∷ l)) hn
      (are_acls-add_acl user rights (a ∷ l) hu ha) (distinct_users-add_acl user rights (a ∷ l) hd)
      (has_lines-add_acl user rights (a ∷ l))

-- A grant on a name that is not in the list makes a printable entry.
pub new_file-IsPrintable :
    (umask : ℕ) (name user rights : Bytes)
    → is_name name ≡ true
    → is_acl (acl_line user rights) ≡ true
    → IsPrintable umask (with_acl user rights (new_file umask name [] []))
unfolding are_acls distinct_users
new_file-IsPrintable umask name user rights hn hu =
    IsPrintable-granted umask name (add_acl user rights []) hn
      (are_acls-add_acl user rights [] hu refl) (distinct_users-add_acl user rights [] refl)
      (has_lines-add_acl user rights [])

pub distinct_users-IsPrintable :
    (umask : ℕ) (f : File) → IsPrintable umask f → distinct_users f.acl ≡ true
unfolding distinct_users
distinct_users-IsPrintable umask f (linked _ target hk ht ha hn hw ho hg hp) = rw ha refl
distinct_users-IsPrintable umask f (owned _ hk ht hn ho hg hp ha hd) = hd
distinct_users-IsPrintable umask f (granted name a l hn ha hd) = hd

-- An entry of that name is a link.
unfoldable pub link_named : Bytes → List File → Bool
link_named name [] = false
link_named name (f ∷ l) = str_eq name f.filename && is_link f.kind || link_named name l

-- What _setPerm makes of a list to grant a user rights.
abbrev pub with_grant : ℕ → Bytes → Bytes → Bytes → List File → List File
with_grant umask name user rights l =
    change_file name (with_acl user rights) (ensure_file umask name l)

known-read_back : (name : Bytes) (l : List File) → known name (map read_back l) ≡ known name l
unfolding known
known-read_back name [] = refl
known-read_back name (f ∷ l) = ap (λ b. str_eq name f.filename || b) (known-read_back name l)

pub distinct_names-read_back :
    (l : List File) → distinct_names l ≡ true → distinct_names (map read_back l) ≡ true
unfolding distinct_names
distinct_names-read_back [] h = refl
distinct_names-read_back (f ∷ l) h =
    ground (arith, distinct_names-read_back l, known-read_back f.filename l)

pub link_named-read_back :
    (name : Bytes) (l : List File) → link_named name (map read_back l) ≡ link_named name l
unfolding link_named
link_named-read_back name [] = refl
link_named-read_back name (f ∷ l) =
    ap (λ b. str_eq name f.filename && is_link f.kind || b) (link_named-read_back name l)

pub All-read_back :
    (umask : ℕ) (l : List File)
    → All (IsPrintable umask) l
    → All (IsPrintable umask) (map read_back l)
All-read_back umask [] h = tt
All-read_back umask (f ∷ l) h = (read_back-IsPrintable umask f h.0, All-read_back umask l h.1)

-- A change of an entry that is there.
module _ (umask : ℕ) (name user rights : Bytes) (hu : is_acl (acl_line user rights) ≡ true) where
  pub change_file-IsPrintable :
      (l : List File)
      → All (IsPrintable umask) l
      → link_named name l ≡ false
      → All (IsPrintable umask) (change_file name (with_acl user rights) l)
  unfolding change_file link_named
  change_file-IsPrintable [] h hl = tt
  change_file-IsPrintable (f ∷ l) h hl = elim (Bool-cases (str_eq name f.filename)) [
    | inl e ↦ rw e (with_acl-IsPrintable umask user rights f hu (ground arith) h.0, h.1)
    | inr e ↦ rw e (h.0, change_file-IsPrintable l h.1 (ground arith))
  ]

pub known-change_file :
    (v name user rights : Bytes) (l : List File)
    → known v (change_file name (with_acl user rights) l) ≡ known v l
unfolding known change_file
known-change_file v name user rights [] = refl
known-change_file v name user rights (f ∷ l) =
    ground (arith, known-change_file v name user rights l)

pub distinct_names-change_file :
    (name user rights : Bytes) (l : List File)
    → distinct_names l ≡ true
    → distinct_names (change_file name (with_acl user rights) l) ≡ true
unfolding distinct_names change_file
distinct_names-change_file name user rights [] h = refl
distinct_names-change_file name user rights (f ∷ l) h = ground (
  arith,
  distinct_names-change_file name user rights l,
  known-change_file f.filename name user rights l,
)

pub find_file-change_other :
    (other name user rights : Bytes) (l : List File)
    → str_eq other name ≡ false
    → find_file other (change_file name (with_acl user rights) l) ≡ find_file other l
unfolding find_file change_file
find_file-change_other other name user rights [] h = refl
find_file-change_other other name user rights (f ∷ l) h =
    elim (Bool-cases (str_eq name f.filename)) [
      | inl e ↦
          let differs : str_eq other f.filename ≡ false =
            subst (λ n. str_eq other n ≡ false) ((str_eq_iff name f.filename).0 e) h in
          rw (e, differs) refl
      | inr e ↦ rw e (
          ap (λ o. if str_eq other f.filename then some f else o)
            (find_file-change_other other name user rights l h))
    ]

pub find_file-change_here :
    (name user rights : Bytes) (l : List File)
    → known name l ≡ true
    → (f : File) × (find_file name (change_file name (with_acl user rights) l)
        ≡ some (with_acl user rights f))
unfolding known find_file change_file
find_file-change_here name user rights [] h = cc
find_file-change_here name user rights (f ∷ l) h = elim (Bool-cases (str_eq name f.filename)) [
  | inl e ↦ (f, rw (e, e) refl)
  | inr e ↦
      let (g, eq) = find_file-change_here name user rights l (ground arith) in (g, rw (e, e) eq)
]
