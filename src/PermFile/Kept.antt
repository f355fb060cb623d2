-- ===== src/PermFile/Kept.antt =====
-- The list that readPermFile builds: a line changes the last entry, or adds it.
use wzdftpd.Base.{
  ℕ, Bool, true, false, not, ◌&&◌, ◌||◌, List, [], ◌∷◌, ◌++◌, none, some, Bytes, ◌≡◌, refl, str_eq,
  str_eq_refl, str_eq_symm, arith,
}
use wzdftpd.PermFile.{
  Acl, File, new_file, find_file, change_file, add_new_file, replace_acl, add_acl, acl_line,
}
use wzdftpd.PermFile.Text.{ensure_file}

-- There is an entry of that name.
unfoldable pub known : Bytes → List File → Bool
known name [] = false
known name (f ∷ l) = str_eq name f.filename || known name l

-- The names of a list are not known in another.
unfoldable pub unknown : List File → List File → Bool
unknown [] l = true
unknown (f ∷ k) l = not (known f.filename l) && unknown k l

-- The names of a list differ.
unfoldable pub distinct_names : List File → Bool
distinct_names [] = true
distinct_names (f ∷ l) = not (known f.filename l) && distinct_names l

pub known-append :
    (name : Bytes) (l : List File) (f : File)
    → known name (l ++ f ∷ []) ≡ known name l || str_eq name f.filename
unfolding known
known-append name [] f = ground arith
known-append name (g ∷ l) f = ground (arith, known-append name l f)

pub unknown-append :
    (k l : List File) (f : File)
    → unknown k l ≡ true
    → known f.filename k ≡ false
    → unknown k (l ++ f ∷ []) ≡ true
unfolding unknown known
unknown-append [] l f hu hk = refl
unknown-append (g ∷ k) l f hu hk =
    ground
      (arith, unknown-append k l f, known-append g.filename l f, str_eq_symm f.filename g.filename)

find_file-unknown : (name : Bytes) (l : List File) → known name l ≡ false → find_file name l ≡ none
unfolding known find_file
find_file-unknown name [] h = refl
find_file-unknown name (f ∷ l) h = ground (arith, find_file-unknown name l)

find_file-last :
    (l : List File) (f : File)
    → known f.filename l ≡ false
    → find_file f.filename (l ++ f ∷ []) ≡ some f
unfolding known find_file
find_file-last [] f h = rw (str_eq_refl f.filename) refl
find_file-last (g ∷ l) f h = ground (arith, find_file-last l f)

pub ensure_file-new :
    (umask : ℕ) (name : Bytes) (l : List File)
    → known name l ≡ false
    → ensure_file umask name l ≡ l ++ new_file umask name [] [] ∷ []
unfolding ensure_file add_new_file
ensure_file-new umask name l h = rw (ensure_file, find_file-unknown name l h) refl

pub ensure_file-last :
    (umask : ℕ) (l : List File) (f : File)
    → known f.filename l ≡ false
    → ensure_file umask f.filename (l ++ f ∷ []) ≡ l ++ f ∷ []
unfolding ensure_file
ensure_file-last umask l f h = rw (ensure_file, find_file-last l f h) refl

pub change_file-last :
    (g : File → File) (l : List File) (f : File)
    → known f.filename l ≡ false
    → change_file f.filename g (l ++ f ∷ []) ≡ l ++ g f ∷ []
unfolding known change_file
change_file-last g [] f h = rw (str_eq_refl f.filename) refl
change_file-last g (k ∷ l) f h = ground (arith, change_file-last g l f)

-- There is a line for that user.
unfoldable pub has_line : Bytes → List Acl → Bool
has_line user [] = false
has_line user (a ∷ l) = str_eq a.user user || has_line user l

unfoldable pub no_lines : List Acl → List Acl → Bool
no_lines [] l = true
no_lines (a ∷ k) l = not (has_line a.user l) && no_lines k l

unfoldable pub distinct_users : List Acl → Bool
distinct_users [] = true
distinct_users (a ∷ l) = not (has_line a.user l) && distinct_users l

pub no_lines-cons :
    (k l : List Acl) (a : Acl)
    → no_lines k l ≡ true
    → has_line a.user k ≡ false
    → no_lines k (a ∷ l) ≡ true
unfolding no_lines has_line
no_lines-cons [] l a hn hk = refl
no_lines-cons (b ∷ k) l a hn hk = ground (arith, no_lines-cons k l a, str_eq_symm a.user b.user)

replace_acl-none :
    (user rights : Bytes) (l : List Acl)
    → has_line user l ≡ false
    → replace_acl user rights l ≡ none
unfolding has_line replace_acl
replace_acl-none user rights [] h = refl
replace_acl-none user rights (a ∷ l) h = ground (arith, replace_acl-none user rights l)

pub add_acl-new :
    (user rights : Bytes) (l : List Acl)
    → has_line user l ≡ false
    → add_acl user rights l ≡ acl_line user rights ∷ l
unfolding add_acl
add_acl-new user rights l h = rw (add_acl, replace_acl-none user rights l h) refl
