-- ===== src/PermFile/Rights.antt =====
-- The lists of rights: what addAcl changes of one, and lists in the other order.
use wzdftpd.Base.{
  true, false, List, [], ◌∷◌, none, some, Bytes, if◌then◌else◌, ◌≡◌, refl, sym, ap, ◌∙◌, str_eq,
  str_eq_iff, str_eq_refl, str_eq_symm, inl, inr, Bool-cases, arith,
}
use mathlib.Core.Path.{subst}
use mathlib.Core.List.{reverse, reverse_aux}
use wzdftpd.PermFile.{Acl, find_acl, replace_acl, add_acl, acl_line}
use wzdftpd.PermFile.Kept.{has_line, no_lines, distinct_users, no_lines-cons}
use wzdftpd.PermFile.Reads.{is_acl, are_acls}
use wzdftpd.PermFile.Entries.{no_lines-nil}

-- The list with the rights of a user in it replaced.
unfoldable pub replaced : Bytes → Bytes → List Acl → List Acl
replaced user rights [] = []
replaced user rights (a ∷ l) =
    if str_eq a.user user then acl_line a.user rights ∷ l else a ∷ replaced user rights l

replace_acl-replaced :
    (user rights : Bytes) (l : List Acl)
    → replace_acl user rights l ≡ (if has_line user l then some (replaced user rights l) else none)
unfolding replace_acl replaced has_line
replace_acl-replaced user rights [] = refl
replace_acl-replaced user rights (a ∷ l) = elim (Bool-cases (str_eq a.user user)) [
  | inl h ↦ rw h refl
  | inr h ↦ elim (Bool-cases (has_line user l)) [
    | inl e ↦ rw (h, replace_acl-replaced user rights l, e) refl
    | inr e ↦ rw (h, replace_acl-replaced user rights l, e) refl
  ]
]

add_acl-replaced :
    (user rights : Bytes) (l : List Acl)
    → add_acl user rights l
      ≡ (if has_line user l then replaced user rights l else acl_line user rights ∷ l)
unfolding add_acl
add_acl-replaced user rights l = elim (Bool-cases (has_line user l)) [
  | inl h ↦ rw (add_acl, replace_acl-replaced user rights l, h) refl
  | inr h ↦ rw (add_acl, replace_acl-replaced user rights l, h) refl
]

has_line-replaced :
    (v user rights : Bytes) (l : List Acl) → has_line v (replaced user rights l) ≡ has_line v l
unfolding has_line replaced
has_line-replaced v user rights [] = refl
has_line-replaced v user rights (a ∷ l) = ground (arith, has_line-replaced v user rights l)

distinct_users-replaced :
    (user rights : Bytes) (l : List Acl)
    → distinct_users l ≡ true
    → distinct_users (replaced user rights l) ≡ true
unfolding distinct_users replaced
distinct_users-replaced user rights [] h = refl
distinct_users-replaced user rights (a ∷ l) h =
    ground (arith, distinct_users-replaced user rights l, has_line-replaced a.user user rights l)

are_acls-replaced :
    (user rights : Bytes) (l : List Acl)
    → is_acl (acl_line user rights) ≡ true
    → are_acls l ≡ true
    → are_acls (replaced user rights l) ≡ true
unfolding are_acls replaced
are_acls-replaced user rights [] hu h = refl
are_acls-replaced user rights (a ∷ l) hu h = elim (Bool-cases (str_eq a.user user)) [
  | inl e ↦
      let same : is_acl (acl_line a.user rights) ≡ true =
        subst (λ u. is_acl (acl_line u rights) ≡ true) (sym ((str_eq_iff a.user user).0 e)) hu in
      rw (e, same) (ground arith)
  | inr e ↦ rw e (ground (arith, are_acls-replaced user rights l hu))
]

find_acl-replaced :
    (user rights : Bytes) (l : List Acl)
    → has_line user l ≡ true
    → find_acl user (replaced user rights l) ≡ some (acl_line user rights)
unfolding find_acl replaced has_line
find_acl-replaced user rights [] h = cc
find_acl-replaced user rights (a ∷ l) h = elim (Bool-cases (str_eq a.user user)) [
  | inl e ↦
      rw (e, str_eq_symm user a.user, e)
        (ap (λ u. some (acl_line u rights)) ((str_eq_iff a.user user).0 e))
  | inr e ↦ rw (e, str_eq_symm user a.user, e) (find_acl-replaced user rights l (ground arith))
]

pub distinct_users-add_acl :
    (user rights : Bytes) (l : List Acl)
    → distinct_users l ≡ true
    → distinct_users (add_acl user rights l) ≡ true
unfolding distinct_users
distinct_users-add_acl user rights l h = elim (Bool-cases (has_line user l)) [
  | inl e ↦ rw (add_acl-replaced user rights l, e) (distinct_users-replaced user rights l h)
  | inr e ↦ rw (add_acl-replaced user rights l, e) (ground arith)
]

pub are_acls-add_acl :
    (user rights : Bytes) (l : List Acl)
    → is_acl (acl_line user rights) ≡ true
    → are_acls l ≡ true
    → are_acls (add_acl user rights l) ≡ true
unfolding are_acls
are_acls-add_acl user rights l hu h = elim (Bool-cases (has_line user l)) [
  | inl e ↦ rw (add_acl-replaced user rights l, e) (are_acls-replaced user rights l hu h)
  | inr e ↦ rw (add_acl-replaced user rights l, e, hu) h
]

pub find_acl-add_acl :
    (user rights : Bytes) (l : List Acl)
    → find_acl user (add_acl user rights l) ≡ some (acl_line user rights)
unfolding find_acl
find_acl-add_acl user rights l = elim (Bool-cases (has_line user l)) [
  | inl e ↦ rw (add_acl-replaced user rights l, e) (find_acl-replaced user rights l e)
  | inr e ↦ rw (add_acl-replaced user rights l, e, str_eq_refl user) refl
]

are_acls-reverse_aux :
    (k acc : List Acl)
    → are_acls k ≡ true
    → are_acls acc ≡ true
    → are_acls (reverse_aux k acc) ≡ true
unfolding are_acls
are_acls-reverse_aux [] acc hk h = h
are_acls-reverse_aux (a ∷ k) acc hk h =
    are_acls-reverse_aux k (a ∷ acc) (ground arith) (ground arith)

distinct_users-reverse_aux :
    (k acc : List Acl)
    → distinct_users k ≡ true
    → distinct_users acc ≡ true
    → no_lines k acc ≡ true
    → distinct_users (reverse_aux k acc) ≡ true
unfolding distinct_users no_lines
distinct_users-reverse_aux [] acc hk h hn = h
distinct_users-reverse_aux (a ∷ k) acc hk h hn =
    distinct_users-reverse_aux k (a ∷ acc) (ground arith) (ground arith)
      (no_lines-cons k acc a (ground arith) (ground arith))

find_acl-head :
    (user : Bytes) (a : Acl) (k acc : List Acl)
    → has_line a.user k ≡ false
    → (if has_line user k then find_acl user k else find_acl user (a ∷ acc))
      ≡ (if has_line user (a ∷ k) then find_acl user (a ∷ k) else find_acl user acc)
unfolding find_acl has_line
find_acl-head user a k acc h = elim (Bool-cases (str_eq a.user user)) [
  | inl e ↦
      let absent : has_line user k ≡ false =
        subst (λ u. has_line u k ≡ false) ((str_eq_iff a.user user).0 e) h in
      rw (str_eq_symm user a.user, e, absent) refl
  | inr e ↦ rw (str_eq_symm user a.user, e) refl
]

find_acl-reverse_aux :
    (user : Bytes) (k acc : List Acl)
    → distinct_users k ≡ true
    → no_lines k acc ≡ true
    → find_acl user (reverse_aux k acc)
      ≡ (if has_line user k then find_acl user k else find_acl user acc)
unfolding distinct_users no_lines find_acl has_line
find_acl-reverse_aux user [] acc hk hn = refl
find_acl-reverse_aux user (a ∷ k) acc hk hn =
    find_acl-reverse_aux user k (a ∷ acc) (ground arith)
      (no_lines-cons k acc a (ground arith) (ground arith))
    ∙ find_acl-head user a k acc (ground arith)

find_acl-none : (user : Bytes) (l : List Acl) → has_line user l ≡ false → find_acl user l ≡ none
unfolding find_acl has_line
find_acl-none user [] h = refl
find_acl-none user (a ∷ l) h = ground (arith, find_acl-none user l, str_eq_symm user a.user)

pub are_acls-reverse : (l : List Acl) → are_acls l ≡ true → are_acls (reverse l) ≡ true
unfolding are_acls
are_acls-reverse l h = are_acls-reverse_aux l [] h refl

pub distinct_users-reverse :
    (l : List Acl) → distinct_users l ≡ true → distinct_users (reverse l) ≡ true
unfolding distinct_users
distinct_users-reverse l h = distinct_users-reverse_aux l [] h refl (no_lines-nil l)

pub find_acl-reverse :
    (user : Bytes) (l : List Acl)
    → distinct_users l ≡ true
    → find_acl user (reverse l) ≡ find_acl user l
unfolding find_acl
find_acl-reverse user l h = elim (Bool-cases (has_line user l)) [
  | inl e ↦ find_acl-reverse_aux user l [] h (no_lines-nil l) ∙ rw e refl
  | inr e ↦ find_acl-reverse_aux user l [] h (no_lines-nil l) ∙ rw (e, find_acl-none user l e) refl
]
