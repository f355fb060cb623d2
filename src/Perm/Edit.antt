-- ===== src/Perm/Edit.antt =====
-- libwzd-core/wzd_perm.c: the list of commands as a map from names, which upper and lower case do not
-- tell apart.
use wzdftpd.Base.{
  ℕ, Bool, true, false, List, [], ◌∷◌, ◌++◌, Option, none, some, Bytes, ◌≡◌, refl, sym, ◌∙◌, ap,
  inl, inr, arith, if◌then◌else◌, Option-cases, map, to_lower, str_eq, str_case_eq, str_eq_refl,
  get_elem?, length, next_index,
}
use mathlib.Core.Option.{or_else}
use wzdftpd.Perm.{Perm, perm_at, perm_find, find_exact, perm_find_create, remove_from, perm_remove}
use wzdftpd.Perm.Names.{
  command, perm_at-next, command-perm_find, IsValid, case_symm, command-same, command-remove_from,
  remove_from-IsValid,
}

perm_remove-from :
    (name : Bytes) (perms : List Perm) → (perm_remove name perms).0 ≡ (remove_from name perms).0
unfolding perm_remove remove_from
perm_remove-from name [] = refl
perm_remove-from name (p ∷ perms) = refl

-- On a list of commands whose stored names are in lower case and differ, perm_remove takes away what
-- the given name leads to, in whatever case it is given; every other name leads to what it led to; and
-- the stored names of the new list are in lower case and differ.
pub perm_remove-perm_find :
    (name q : Bytes) (perms : List Perm)
    → IsValid perms
    → let r = (perm_remove name perms).0 in
      IsValid r
      × (perm_at r (perm_find q r)
          ≡ (if str_case_eq name q then none else perm_at perms (perm_find q perms)))
perm_remove-perm_find name q perms v =
    rw
      (
        perm_remove-from name perms,
        command-perm_find q (remove_from name perms).0,
        command-perm_find q perms,
      )
      (remove_from-IsValid name perms v, command-remove_from name q perms v)

abbrev pub empty_perm : Bytes → Perm
empty_perm name = record { command_name = name; entry_list = [] }

command-append :
    (name q : Bytes) (perms : List Perm)
    → command q (perms ++ empty_perm name ∷ [])
      ≡ or_else (command q perms) (if str_case_eq name q then some (empty_perm name) else none)
unfolding command or_else
command-append name q [] = ground arith
command-append name q (p ∷ perms) = ground (arith, command-append name q perms)

-- On names in lower case, strcmp and strcasecmp agree.
exact_case : (a b : Bytes) → map to_lower a ≡ a → map to_lower b ≡ b → str_case_eq a b ≡ str_eq a b
unfolding str_case_eq
exact_case a b ha hb = rw (ha, hb) refl

abbrev is_none {ℓ} : {A : Type ℓ} → Option A → Bool
is_none none = true
is_none (some a) = false

command-find_exact :
    (name : Bytes) (perms : List Perm)
    → map to_lower name ≡ name
    → IsValid perms
    → perm_at perms (find_exact name perms) ≡ command name perms
unfolding find_exact command
command-find_exact name [] h v = refl
command-find_exact name (p ∷ perms) h v = ground (
  arith,
  exact_case p.command_name name v.0 h,
  command-find_exact name perms h v.2,
  perm_at-next p perms (find_exact name perms),
)

created :
    (name : Bytes) (perms : List Perm)
    → find_exact name perms ≡ none
    → map to_lower name ≡ name
    → IsValid perms
    → command name perms ≡ none
created name perms f h v = sym (command-find_exact name perms h v) ∙ ap (perm_at perms) f

append-IsValid :
    (name : Bytes) (perms : List Perm)
    → map to_lower name ≡ name
    → command name perms ≡ none
    → IsValid perms
    → IsValid (perms ++ empty_perm name ∷ [])
unfolding command or_else
append-IsValid name [] h c v = (h, refl, tt)
append-IsValid name (p ∷ perms) h c v = (
  v.0,
  rw (command-append name p.command_name perms, v.1)
      (ground (arith, case_symm name p.command_name)),
  append-IsValid name perms h (ground arith) v.2,
)

is_none-next : (o : Option ℕ) → is_none (next_index o) ≡ is_none o
is_none-next none = refl
is_none-next (some i) = refl

found_there :
    (name : Bytes) (perms : List Perm)
    → is_none (perm_at perms (find_exact name perms)) ≡ is_none (find_exact name perms)
unfolding find_exact
found_there name [] = refl
found_there name (p ∷ perms) = ground (
  arith,
  found_there name perms,
  perm_at-next p perms (find_exact name perms),
  is_none-next (find_exact name perms),
)

or_else-some :
    (o : Option Perm) (b : Bool) (p : Perm)
    → (b ≡ true → is_none o ≡ false)
    → o ≡ or_else o (if b then some p else none)
unfolding or_else
or_else-some none true p h = cc (h refl)
or_else-some none false p h = refl
or_else-some (some a) b p h = refl

old_kept :
    (name q : Bytes) (perms : List Perm) (i : ℕ)
    → map to_lower name ≡ name
    → IsValid perms
    → find_exact name perms ≡ some i
    → str_case_eq name q ≡ true
    → is_none (perm_at perms (perm_find q perms)) ≡ false
old_kept name q perms i h v f s =
    rw
      (
        command-perm_find q perms,
        sym (command-same name q perms s),
        sym (command-find_exact name perms h v),
      )
      (found_there name perms ∙ ap is_none f)

get_elem?-last :
    (perms : List Perm) (p : Perm) → get_elem? (perms ++ p ∷ []) (length perms) ≡ some p
get_elem?-last [] p = refl
get_elem?-last (q ∷ perms) p = get_elem?-last perms p

case_refl : (a : Bytes) → str_case_eq a a ≡ true
unfolding str_case_eq
case_refl a = str_eq_refl (map to_lower a)

-- On a list of commands whose names are in lower case and differ, perm_find_create with a name in
-- lower case returns what the name leads to in the new list: the structure that was there, or else a
-- new one without entries. Every other name leads to what it led to, and the names of the new
-- list are in lower case and differ.
pub perm_find_create-perm_find :
    (name q : Bytes) (perms : List Perm)
    → map to_lower name ≡ name
    → IsValid perms
    → let r = perm_find_create name perms in
      IsValid r.0
      × (get_elem? r.0 r.1 ≡ perm_at r.0 (perm_find name r.0))
      × (perm_at r.0 (perm_find q r.0)
          ≡ or_else
              (perm_at perms (perm_find q perms))
              (if str_case_eq name q then some (empty_perm name) else none))
unfolding perm_find_create or_else
perm_find_create-perm_find name q perms h v = elim (Option-cases (find_exact name perms)) [
  | inl f ↦
      rw (f, perm_find_create)
        (
          append-IsValid name perms h (created name perms f h v) v,
          get_elem?-last perms (empty_perm name)
              ∙ sym (
                  command-perm_find name (perms ++ empty_perm name ∷ [])
                  ∙ command-append name name perms
                  ∙ rw (created name perms f h v, case_refl name) refl),
          rw (command-perm_find q (perms ++ empty_perm name ∷ []), command-perm_find q perms)
              (command-append name q perms),
        )
  | inr (i, f) ↦
      rw (f, perm_find_create)
        (
          v,
          ap (perm_at perms) (sym f)
              ∙ command-find_exact name perms h v
              ∙ sym (command-perm_find name perms),
          or_else-some (perm_at perms (perm_find q perms)) (str_case_eq name q) (empty_perm name)
              (old_kept name q perms i h v f),
        )
]
