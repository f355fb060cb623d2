-- ===== src/PermFile/Granted.antt =====
-- What a grant of _setPerm does to a list of printable entries.
use wzdftpd.Base.{
  ℕ, true, false, List, [], ◌∷◌, ◌++◌, some, Bytes, All, All-append, if◌then◌else◌, ◌≡◌, refl, sym,
  ap, str_eq, str_eq_refl, str_eq_symm, inl, inr, Bool-cases, arith,
}
use mathlib.Core.Path.{subst}
use wzdftpd.PermFile.{File, new_file, find_file, acl_line, change_file}
use wzdftpd.PermFile.Text.{ensure_file, with_acl}
use wzdftpd.PermFile.Names.{is_name}
use wzdftpd.PermFile.Kept.{known, distinct_names, known-append}
use wzdftpd.PermFile.Reads.{is_acl}
use wzdftpd.PermFile.Entries.{IsPrintable, change_new}
use wzdftpd.PermFile.Changes.{
  with_grant, link_named, change_file-IsPrintable, distinct_names-change_file,
  find_file-change_other, find_file-change_here, new_file-IsPrintable,
}

distinct_names-append :
    (l : List File) (f : File)
    → distinct_names l ≡ true
    → known f.filename l ≡ false
    → distinct_names (l ++ f ∷ []) ≡ true
unfolding distinct_names known
distinct_names-append [] f h hk = refl
distinct_names-append (g ∷ l) f h hk = ground (
  arith,
  distinct_names-append l f,
  known-append g.filename l f,
  str_eq_symm f.filename g.filename,
)

find_file-known :
    (name : Bytes) (l : List File) → known name l ≡ true → (f : File) × (find_file name l ≡ some f)
unfolding known find_file
find_file-known name [] h = cc
find_file-known name (f ∷ l) h = elim (Bool-cases (str_eq name f.filename)) [
  | inl e ↦ (f, rw e refl)
  | inr e ↦ let (g, eq) = find_file-known name l (ground arith) in (g, rw e eq)
]

ensure_file-known :
    (umask : ℕ) (name : Bytes) (l : List File) → known name l ≡ true → ensure_file umask name l ≡ l
unfolding ensure_file
ensure_file-known umask name l h = rw (ensure_file, (find_file-known name l h).1) refl

find_file-append_here :
    (l : List File) (f : File)
    → known f.filename l ≡ false
    → find_file f.filename (l ++ f ∷ []) ≡ some f
unfolding known find_file
find_file-append_here [] f h = rw (str_eq_refl f.filename) refl
find_file-append_here (g ∷ l) f h = ground (arith, find_file-append_here l f)

find_file-append_other :
    (other : Bytes) (l : List File) (f : File)
    → str_eq other f.filename ≡ false
    → find_file other (l ++ f ∷ []) ≡ find_file other l
unfolding find_file
find_file-append_other other [] f h = rw h refl
find_file-append_other other (g ∷ l) f h =
    ap (λ o. if str_eq other g.filename then some g else o) (find_file-append_other other l f h)

-- The list `l` after a grant, `l'`: still printable, with the user's rights, and the same for other names.
pub record IsGranted (umask : ℕ) (name user rights : Bytes) (l l' : List File) : Type 0 where
  pub all_printable : All (IsPrintable umask) l'
  pub all_distinct : distinct_names l' ≡ true
  pub before : File
  pub found : find_file name l' ≡ some (with_acl user rights before)
  pub others : (other : Bytes) → str_eq other name ≡ false → find_file other l' ≡ find_file other l

pub with_grant-IsGranted :
    (umask : ℕ) (name user rights : Bytes) (l : List File)
    → All (IsPrintable umask) l
    → distinct_names l ≡ true
    → link_named name l ≡ false
    → is_name name ≡ true
    → is_acl (acl_line user rights) ≡ true
    → IsGranted umask name user rights l (with_grant umask name user rights l)
with_grant-IsGranted umask name user rights l h hd hl hn hu = elim (Bool-cases (known name l)) [
  | inl e ↦
      let (f, found) = find_file-change_here name user rights l e in
      subst (IsGranted umask name user rights l)
        (ap (change_file name (with_acl user rights)) (sym (ensure_file-known umask name l e)))
        (record {
          all_printable = change_file-IsPrintable umask name user rights hu l h hl;
          all_distinct = distinct_names-change_file name user rights l hd;
          before = f;
          found = found;
          others = λ other d. find_file-change_other other name user rights l d;
        })
  | inr e ↦
      subst (IsGranted umask name user rights l)
        (sym (change_new umask (with_acl user rights) name l e))
        (record {
          all_printable =
              All-append (IsPrintable umask) l _ h
                (new_file-IsPrintable umask name user rights hn hu, tt);
          all_distinct = distinct_names-append l _ hd e;
          before = new_file umask name [] [];
          found = find_file-append_here l (with_acl user rights (new_file umask name [] [])) e;
          others = λ other d. find_file-append_other other l _ d;
        })
]
