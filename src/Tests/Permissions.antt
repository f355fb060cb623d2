-- ===== src/Tests/Permissions.antt =====
-- The permissions of two commands.
use wzdftpd.Base.{
  [], ◌∷◌, ◌++◌, none, some, true, false, ◌&&◌, ◌≡◌, refl, codes, if◌then◌else◌, List, get_elem?,
  str_case_eq, str_eq, All,
}
use mathlib.Core.Option.{or_else}
use wzdftpd.Perm.{
  cperm_user, cperm_group, cperm_flag, Entry, Perm, User, ok, denied, negate, perm_at, perm_find,
  perm_find_create, perm_find_create_entry, find_same_entry, perm_remove, perm_check,
  perm_check_perm, has_flag, in_groups, entry_applies, check_entries,
}
use wzdftpd.Perm.Check.{
  decides, decision, any_decides, entry, is_none, perm_check_perm-first,
  perm_find_create_entry-check,
}
use wzdftpd.Perm.Edit.{empty_perm, perm_remove-perm_find, perm_find_create-perm_find}
use wzdftpd.Perm.Names.{IsValid, command}

unfoldable runs : Unit {0}
unfolding perm_find perm_find_create perm_check perm_check_perm check_entries entry_applies has_flag
    str_case_eq str_eq in_groups command
runs = tt

abbrev visitor : User
visitor = record { username = codes "anna"; groups = codes "staff" ∷ []; flags = codes "G" }

abbrev entries : List Entry
entries = entry (codes "!guest") cperm_user ∷ entry (codes "STAFF") cperm_group ∷ []

abbrev commands : List Perm
commands =
    record { command_name = codes "site_kick"; entry_list = entries }
    ∷ record { command_name = codes "delete"; entry_list = entry [] cperm_flag ∷ [] }
    ∷ []

kick : perm_check (codes "SITE_KICK") visitor commands ≡ ok
unfolding runs
kick = refl

-- An entry `+` without a flag applies to every user, since strchr finds the terminator.
empty_flag : perm_check (codes "delete") visitor commands ≡ ok
unfolding runs
empty_flag = refl

kick_entries :
    perm_check_perm
      (some (record { command_name = codes "site_kick"; entry_list = entries }))
      visitor
    ≡ ok
unfolding runs
kick_entries = refl

perm_check_perm-first_example :
    (before : List Entry) × (e : Entry) × (after : List Entry) × (entries ≡ before ++ e ∷ after)
    × (decides visitor e ≡ true)
    × (negate e.target ≡ false)
    × All (λ x. decides visitor x ≡ false) before
perm_check_perm-first_example =
    perm_check_perm-first entries visitor (codes "site_kick") kick_entries

abbrev kick_perm : Perm
kick_perm = record { command_name = codes "site_kick"; entry_list = entries }

perm_find_create_entry-check_example :
    let new = entry (codes "*") cperm_user in
    let added = is_none (find_same_entry (codes "*") cperm_user kick_perm.entry_list) in
    perm_check_perm (some (perm_find_create_entry (codes "*") cperm_user kick_perm).0) visitor ≡ (
      if any_decides visitor kick_perm.entry_list
      then perm_check_perm (some kick_perm) visitor
      else (if added && decides visitor new then decision new else denied))
perm_find_create_entry-check_example =
    perm_find_create_entry-check (codes "*") cperm_user kick_perm visitor

commands-IsValid : IsValid commands
unfolding runs
commands-IsValid = (refl, refl, (refl, refl, tt))

perm_remove-perm_find_example :
    let r = (perm_remove (codes "Delete") commands).0 in
    IsValid r
    × (perm_at r (perm_find (codes "site_kick") r) ≡ (
        if str_case_eq (codes "Delete") (codes "site_kick")
        then none
        else perm_at commands (perm_find (codes "site_kick") commands)))
perm_remove-perm_find_example =
    perm_remove-perm_find (codes "Delete") (codes "site_kick") commands commands-IsValid

perm_find_create-perm_find_example :
    let r = perm_find_create (codes "quit") commands in
    IsValid r.0
    × (get_elem? r.0 r.1 ≡ perm_at r.0 (perm_find (codes "quit") r.0))
    × (perm_at r.0 (perm_find (codes "QUIT") r.0)
        ≡ or_else (perm_at commands (perm_find (codes "QUIT") commands)) (
            if str_case_eq (codes "quit") (codes "QUIT")
            then some (empty_perm (codes "quit"))
            else none))
perm_find_create-perm_find_example =
    perm_find_create-perm_find (codes "quit") (codes "QUIT") commands refl commands-IsValid
