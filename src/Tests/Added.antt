-- ===== src/Tests/Added.antt =====
-- Lines of permissions.
use wzdftpd.Base.{[], ◌∷◌, false, ◌≡◌, refl, codes, List, none, some, str_eq, str_case_eq, has_char}
use wzdftpd.Perm.{
  Perm, perm_at, perm_find, cperm_user, cperm_group, perm_find_create, find_exact,
  perm_find_create_entry, find_same_entry,
}
use wzdftpd.Perm.Add.{
  perm_add_perm, added, add_tokens, strtok_r, skip_delimiters, token_end, read_mark, c_string,
}
use wzdftpd.Perm.Check.{entry}
use wzdftpd.Perm.Kept.{perm_add_perm-kept}
use wzdftpd.Perm.Names.{IsValid, command}

unfoldable runs : Unit {0}
unfolding perm_add_perm add_tokens strtok_r skip_delimiters token_end read_mark c_string has_char
    perm_find_create find_exact perm_find_create_entry find_same_entry str_eq str_case_eq
runs = tt

three_entries :
    perm_add_perm (codes "delete") (codes "=a !-b  *") []
    ≡ some (
      record {
        command_name = codes "delete";
        entry_list =
            entry (codes "a") cperm_user
            ∷ entry (codes "!b") cperm_group
            ∷ entry (codes "*") cperm_user
            ∷ [];
      }
          ∷ [],
      added,
    )
unfolding runs
three_entries = refl

-- A token without a mark runs on into the next ones, and an entry takes the rest of the line with it.
runs_on :
    perm_add_perm (codes "delete") (codes "abc =x =y") []
    ≡ some (
      record {
        command_name = codes "delete";
        entry_list =
            entry (codes "x =y") cperm_user
            ∷ entry (codes "x") cperm_user
            ∷ entry (codes "y") cperm_user
            ∷ [];
      }
          ∷ [],
      added,
    )
unfolding runs
runs_on = refl

no_mark : perm_add_perm (codes "delete") (codes "abc") [] ≡ none
unfolding runs
no_mark = refl

abbrev one_command : List Perm
one_command =
    record { command_name = codes "retr"; entry_list = entry (codes "*") cperm_user ∷ [] } ∷ []

one_command-IsValid : IsValid one_command
unfolding command
one_command-IsValid = (refl, refl, tt)

not_same : str_case_eq (codes "delete") (codes "RETR") ≡ false
unfolding runs
not_same = refl

abbrev two_commands : List Perm
two_commands =
    record { command_name = codes "retr"; entry_list = entry (codes "*") cperm_user ∷ [] }
    ∷ record { command_name = codes "delete"; entry_list = entry (codes "a") cperm_user ∷ [] }
    ∷ []

adds_line : perm_add_perm (codes "delete") (codes "=a") one_command ≡ some (two_commands, added)
unfolding runs
adds_line = refl

perm_add_perm-kept_example :
    perm_at two_commands (perm_find (codes "RETR") two_commands)
    ≡ perm_at one_command (perm_find (codes "RETR") one_command)
perm_add_perm-kept_example =
    perm_add_perm-kept (codes "delete") (codes "RETR") (codes "=a") one_command two_commands added
      refl one_command-IsValid not_same adds_line
