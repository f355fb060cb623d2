-- ===== src/Perm.antt =====
-- libwzd-core/wzd_perm.c: the permissions of commands. A pointer to a structure that a function
-- returns is its index in the list. The arrays hold 256 bytes: a text is shorter than that here, since
-- strncpy leaves a longer one without its terminator, and the code then reads on.
pub mod Check
pub mod Names
pub mod Edit
pub mod Add
pub mod Kept
use wzdftpd.Base.{
  ℕ, ◌+◌, Bool, true, false, not, ◌&&◌, ◌||◌, List, [], ◌∷◌, ◌++◌, Option, none, some, Bytes,
  if◌then◌else◌, ◌==◌, length, get_elem?, set, str_eq, str_case_eq, has_char, next_index,
}

-- wzd_cp_t
pub data Cp : Type 0 where
  cperm_user cperm_group cperm_flag : Cp

pub record Entry : Type 0 where
  pub target : Bytes
  pub cp : Cp

pub record Perm : Type 0 where
  pub command_name : Bytes
  pub entry_list : List Entry

-- What the checks read of a user: its name, the names that GetGroupByID gives for its groups, in
-- order, and its flags.
pub record User : Type 0 where
  pub username : Bytes
  pub groups : List Bytes
  pub flags : Bytes

-- 0, 1 and -1
pub data Answer : Type 0 where
  ok denied error : Answer

abbrev pub same_cp : Cp → Cp → Bool
same_cp cperm_user cperm_user = true
same_cp cperm_group cperm_group = true
same_cp cperm_flag cperm_flag = true
same_cp _ _ = false

unfoldable pub perm_find : Bytes → List Perm → Option ℕ
perm_find commandname [] = none
perm_find commandname (p ∷ perms) =
    if str_case_eq p.command_name commandname
    then some 0
    else next_index (perm_find commandname perms)

-- The loop of perm_find_create, which compares with strcmp.
unfoldable pub find_exact : Bytes → List Perm → Option ℕ
find_exact commandname [] = none
find_exact commandname (p ∷ perms) =
    if str_eq p.command_name commandname then some 0 else next_index (find_exact commandname perms)

unfoldable pub perm_find_create : Bytes → List Perm → List Perm × ℕ
perm_find_create commandname perm_list = elim (find_exact commandname perm_list) [
  | some i ↦ (perm_list, i)
  | none ↦
      (perm_list ++ record { command_name = commandname; entry_list = [] } ∷ [], length perm_list)
]

-- The answer is ok for 0, denied for 1, when the command is not found, and error for -1.
unfoldable pub remove_from : Bytes → List Perm → List Perm × Answer
remove_from commandname [] = ([], denied)
remove_from commandname (p ∷ perms) =
    let rest = remove_from commandname perms in
    if str_case_eq p.command_name commandname then (perms, ok) else (p ∷ rest.0, rest.1)

unfoldable pub perm_remove : Bytes → List Perm → List Perm × Answer
perm_remove commandname [] = ([], error)
perm_remove commandname (p ∷ perms) = remove_from commandname (p ∷ perms)

-- `strcasecmp(entry->target, target) == 0 && entry->cp == cp`
unfoldable pub find_same_entry : Bytes → Cp → List Entry → Option ℕ
find_same_entry target cp [] = none
find_same_entry target cp (e ∷ entries) =
    if str_case_eq e.target target && same_cp e.cp cp
    then some 0
    else next_index (find_same_entry target cp entries)

unfoldable pub perm_find_create_entry : Bytes → Cp → Perm → Perm × ℕ
perm_find_create_entry target cp command_perm =
    elim (find_same_entry target cp command_perm.entry_list) [
      | some i ↦ (command_perm, i)
      | none ↦ (
        record {
          command_name = command_perm.command_name;
          entry_list = command_perm.entry_list ++ record { target = target; cp = cp } ∷ [];
        },
        length command_perm.entry_list,
      )
    ]

-- The target after its `!`, and whether it has one.
abbrev pub negate : Bytes → Bool
negate [] = false
negate (c ∷ s) = c == b'!'

abbrev pub entry_target : Bytes → Bytes
entry_target [] = []
entry_target (c ∷ s) = if c == b'!' then s else c ∷ s

-- `entry_target[0] == '*'`
abbrev pub is_star : Bytes → Bool
is_star [] = false
is_star (c ∷ s) = c == b'*'

-- What perm_find_entry returns: `(void*)-1` for an entry that is negated.
pub data Found : Type 0 where
  not_found negated : Found
  found : ℕ → Found

abbrev pub next_found : Found → Found
next_found (found i) = found (i + 1)
next_found f = f

unfoldable pub find_entry_in : Bytes → Cp → List Entry → Found
find_entry_in target cp [] = not_found
find_entry_in target cp (e ∷ entries) =
    let rest = next_found (find_entry_in target cp entries) in
    if is_star (entry_target e.target)
      || (str_case_eq (entry_target e.target) target && same_cp e.cp cp)
    then (if negate e.target then negated else found 0)
    else rest

unfoldable pub perm_find_entry : Bytes → Cp → Perm → Found
perm_find_entry target cp command_perm = find_entry_in target cp command_perm.entry_list

-- the loop over the groups of a user
unfoldable pub in_groups : Bytes → List Bytes → Bool
in_groups target [] = false
in_groups target (g ∷ groups) = str_case_eq target g || in_groups target groups

-- `strchr(user->flags, *entry_target)`: strchr finds the terminator of the flags, so an empty
-- target is found.
unfoldable pub has_flag : Bytes → Bytes → Bool
has_flag flags [] = true
has_flag flags (c ∷ s) = has_char c flags

unfoldable pub entry_applies : Bytes → Cp → User → Bool
entry_applies target cperm_user user = str_case_eq target user.username
entry_applies target cperm_group user = in_groups target user.groups
entry_applies target cperm_flag user = has_flag user.flags target

unfoldable pub check_entries : List Entry → User → Answer
check_entries [] user = denied
check_entries (e ∷ entries) user =
    let rest = check_entries entries user in
    if is_star (entry_target e.target) || entry_applies (entry_target e.target) e.cp user
    then (if negate e.target then denied else ok)
    else rest

unfoldable pub perm_check_perm : Option Perm → User → Answer
perm_check_perm none user = error
perm_check_perm (some perm) user = check_entries perm.entry_list user

abbrev pub perm_at : List Perm → Option ℕ → Option Perm
perm_at perms none = none
perm_at perms (some i) = get_elem? perms i

unfoldable pub perm_check : Bytes → User → List Perm → Answer
perm_check permname user [] = error
perm_check [] user (p ∷ perms) = error
perm_check (c ∷ permname) user (p ∷ perms) =
    perm_check_perm (perm_at (p ∷ perms) (perm_find (c ∷ permname) (p ∷ perms))) user
