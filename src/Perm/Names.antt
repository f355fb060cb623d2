-- ===== src/Perm/Names.antt =====
-- libwzd-core/wzd_perm.c: the structure that a name leads to, and names up to case.
use wzdftpd.Base.{
  ℕ, true, List, [], ◌∷◌, Option, none, some, Bytes, ◌≡◌, refl, ◌∙◌, ap, inl, inr, arith,
  if◌then◌else◌, Bool-cases, map, to_lower, str_eq, str_case_eq, str_eq_iff, str_eq_symm,
  next_index,
}
use wzdftpd.Perm.{Perm, perm_at, perm_find, remove_from}

-- The structure that a name leads to.
unfoldable pub command : Bytes → List Perm → Option Perm
command name [] = none
command name (p ∷ perms) = if str_case_eq p.command_name name then some p else command name perms

pub perm_at-next :
    (p : Perm) (perms : List Perm) (o : Option ℕ)
    → perm_at (p ∷ perms) (next_index o) ≡ perm_at perms o
perm_at-next p perms none = refl
perm_at-next p perms (some i) = refl

pub command-perm_find :
    (name : Bytes) (perms : List Perm) → perm_at perms (perm_find name perms) ≡ command name perms
unfolding perm_find command
command-perm_find name [] = refl
command-perm_find name (p ∷ perms) =
    ground (arith, command-perm_find name perms, perm_at-next p perms (perm_find name perms))

-- No two names are the same up to case, and all of them are in lower case, as the callers give
-- them to perm_find_create.
abbrev pub IsValid : List Perm → Type 0
IsValid [] = Unit
IsValid (p ∷ perms) =
    (map to_lower p.command_name ≡ p.command_name)
    × (command p.command_name perms ≡ none)
    × IsValid perms

pub case_congr : (a b c : Bytes) → str_case_eq a b ≡ true → str_case_eq a c ≡ str_case_eq b c
unfolding str_case_eq
case_congr a b c h =
    ap (λ x. str_eq x (map to_lower c)) ((str_eq_iff (map to_lower a) (map to_lower b)).0 h)

pub case_symm : (a b : Bytes) → str_case_eq a b ≡ str_case_eq b a
unfolding str_case_eq
case_symm a b = str_eq_symm (map to_lower a) (map to_lower b)

pub command-same :
    (a b : Bytes) (perms : List Perm) → str_case_eq a b ≡ true → command a perms ≡ command b perms
unfolding command
command-same a b [] h = refl
command-same a b (p ∷ perms) h = ground (
  arith,
  command-same a b perms h,
  case_congr a b p.command_name h,
  case_symm a p.command_name,
  case_symm b p.command_name,
)

pub command-remove_from :
    (name q : Bytes) (perms : List Perm)
    → IsValid perms
    → command q (remove_from name perms).0 ≡ (if str_case_eq name q then none else command q perms)
unfolding command remove_from
command-remove_from name q [] v = ground arith
command-remove_from name q (p ∷ perms) v = ground (
  arith,
  command-remove_from name q perms v.2,
  case_congr p.command_name name q,
  command-same p.command_name q perms,
  case_congr name q p.command_name,
  case_symm p.command_name name,
  case_symm p.command_name q,
)

pub remove_from-IsValid :
    (name : Bytes) (perms : List Perm) → IsValid perms → IsValid (remove_from name perms).0
unfolding remove_from
remove_from-IsValid name [] v = tt
remove_from-IsValid name (p ∷ perms) v = elim (Bool-cases (str_case_eq p.command_name name)) [
  | inl h ↦ rw h v.2
  | inr h ↦ rw h (
    v.0,
    (command-remove_from name p.command_name perms v.2
        ∙ ap (λ b. if b then none else command p.command_name perms)
            (case_symm name p.command_name ∙ h)
        ∙ v.1),
    remove_from-IsValid name perms v.2,
  )
]
