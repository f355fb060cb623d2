-- ===== src/Commands.antt =====
-- libwzd-core/wzd_commands.c: the table of the commands of the server, a hash table from names in
-- lower case. A command is changed through the pointer that the table holds: here it is written back.
use wzdftpd.Base.{
  ℕ, Bool, true, false, not, ◌||◌, List, [], ◌∷◌, Option, none, some, Bytes, ◌≡◌, refl, ◌∙◌, ap,
  if◌then◌else◌, ◌==◌, str_eq, Option-cases, inl, inr,
}
use wzdftpd.Hash.{
  Element, Table, Return, returns_0, returns_1, hash_str, chtbl_init, chtbl_lookup, chtbl_insert,
  chtbl_change, is_some,
}
use wzdftpd.Hash.Invariant.{IsValid}
use wzdftpd.Hash.Lookup.{element, answer, chtbl_lookup-element, chtbl_insert-lookup}
use wzdftpd.Hash.Strings.{strings-IsKeyed}
use wzdftpd.Match.{ascii_lower}
use wzdftpd.Perm.{Perm, User, Answer, ok, perm_check_perm}
use wzdftpd.Perm.Add.{Added, added, refused, perm_add_perm}

-- `F` names the functions of commands.
pub record Command (F : Type 0) : Type 0 where
  pub name : Bytes
  pub id : ℕ
  pub command : Option F
  pub help_function : Option F
  pub external_command : Option Bytes
  pub perms : List Perm

abbrev pub Commands : Type 0 → Type 0
Commands F = Table Bytes (Command F) ℕ

abbrev pub is_0 : Return → Bool
is_0 returns_0 = true
is_0 _ = false

abbrev pub first_perm : List Perm → Option Perm
first_perm [] = none
first_perm (p ∷ l) = some p

module _ {F : Type 0} where
  unfoldable pub commands_init : Commands F
  commands_init = chtbl_init 128

  -- The element that is inserted: no trigger, no release of the key, and _command_free, named 0.
  abbrev pub stored : Command F → Element Bytes (Command F) ℕ
  stored c = record {
    key = c.name;
    value = some c;
    trigger = none;
    free_key = none;
    free_element = some 0;
  }

  abbrev pub insert_command : Commands F → Command F → Commands F × Bool
  insert_command ctable c =
      let r = chtbl_insert hash_str str_eq ctable (stored c) in (r.0, is_0 r.1)

  abbrev pub new_command : Bytes → F → Option F → ℕ → Command F
  new_command n f help i = record {
    name = ascii_lower n;
    id = i;
    command = some f;
    help_function = help;
    external_command = none;
    perms = [];
  }

  -- The table after the call, and whether it returns 0: otherwise it returns -1.
  unfoldable pub commands_add :
      Commands F → Option Bytes → Option F → Option F → ℕ → Commands F × Bool
  commands_add ctable (some n) (some f) help i =
      if i == 0
      then (ctable, false)
      else (if is_0 (chtbl_lookup hash_str str_eq ctable (some n)).0
          then (ctable, true)
          else insert_command ctable (new_command n f help i))
  commands_add ctable _ _ help i = (ctable, false)

  -- str_tolower, then the lookup
  unfoldable pub commands_find : Commands F → Option Bytes → Option (Command F)
  commands_find ctable none = none
  commands_find ctable (some str) = (chtbl_lookup hash_str str_eq ctable (some (ascii_lower str))).1

  abbrev pub with_perms : Command F → List Perm → Command F
  with_perms c l = record {
    name = c.name;
    id = c.id;
    command = c.command;
    help_function = c.help_function;
    external_command = c.external_command;
    perms = l;
  }

  abbrev pub write_back : Commands F → Command F → List Perm → Commands F
  write_back ctable c l = (chtbl_change hash_str str_eq ctable c.name (some (with_perms c l))).0

  -- 0 is added, 1 refused; no result where perm_add_perm reads after the end of its buffer.
  abbrev pub replace_perms :
      Commands F → Command F → Option (List Perm × Added) → Option (Commands F × Option Added)
  replace_perms ctable c none = none
  replace_perms ctable c (some (perms, added)) = some (write_back ctable c perms, some added)
  replace_perms ctable c (some (perms, refused)) = some (ctable, some refused)

  -- The code `none` is -1: there is no such command.
  unfoldable pub commands_set_permission :
      Commands F → Bytes → Bytes → Option (Commands F × Option Added)
  commands_set_permission ctable permname permline = elim (commands_find ctable (some permname)) [
    | none ↦ some (ctable, none)
    | some c ↦ replace_perms ctable c (perm_add_perm permname permline [])
  ]

  abbrev pub add_perms :
      Commands F → Command F → Option (List Perm × Added) → Option (Commands F × Option Added)
  add_perms ctable c none = none
  add_perms ctable c (some (perms, code)) = some (write_back ctable c perms, some code)

  unfoldable pub commands_add_permission :
      Commands F → Bytes → Bytes → Option (Commands F × Option Added)
  commands_add_permission ctable permname permline = elim (commands_find ctable (some permname)) [
    | none ↦ some (ctable, none)
    | some c ↦ add_perms ctable c (perm_add_perm permname permline c.perms)
  ]

  unfoldable pub commands_check_permission : Option (Command F) → User → Answer
  commands_check_permission none user = ok
  commands_check_permission (some c) user = perm_check_perm (first_perm c.perms) user

  -- Whether it returns 0: otherwise it returns 1.
  unfoldable pub commands_delete_permission : Commands F → Option Bytes → Commands F × Bool
  commands_delete_permission ctable str = elim (commands_find ctable str) [
    | none ↦ (ctable, false)
    | some c ↦ (write_back ctable c [], true)
  ]

  found_there :
      (ctable : Commands F) (n : Bytes) (o : Element Bytes (Command F) ℕ)
      → element hash_str str_eq ctable n ≡ some o
      → is_0 (chtbl_lookup hash_str str_eq ctable (some n)).0 ≡ true
  found_there ctable n o h =
      ap (λ r. is_0 r.0)
        (chtbl_lookup-element hash_str str_eq ctable n ∙ ap (answer hash_str str_eq) h)

  not_there :
      (ctable : Commands F) (n : Bytes)
      → element hash_str str_eq ctable n ≡ none
      → is_0 (chtbl_lookup hash_str str_eq ctable (some n)).0 ≡ false
  not_there ctable n h =
      ap (λ r. is_0 r.0)
        (chtbl_lookup-element hash_str str_eq ctable n ∙ ap (answer hash_str str_eq) h)

  pick :
      (b s : Bool) (r t : Return × Option (Command F))
      → b ≡ false
      → (if b || not s then r else t).1 ≡ (if not s then r.1 else t.1)
  pick false true r t e = refl
  pick false false r t e = refl
  pick true s r t e = cc e

  insert_command-find :
      (ctable : Commands F) (c : Command F) (q : Bytes)
      → IsValid hash_str str_eq ctable
      → element hash_str str_eq ctable c.name ≡ none
      → ((insert_command ctable c).1 ≡ true)
        × ((chtbl_lookup hash_str str_eq (insert_command ctable c).0 (some q)).1 ≡ (
            if not (str_eq c.name q)
            then (chtbl_lookup hash_str str_eq ctable (some q)).1
            else some c))
  insert_command-find ctable c q v h =
      let (a, b) = chtbl_insert-lookup hash_str str_eq strings-IsKeyed ctable (stored c) q v in
      (
        ap is_0 (a ∙ ap (λ o. if is_some o then returns_1 else returns_0) h),
        ap (λ r. r.1) b
            ∙ pick (is_some (element hash_str str_eq ctable c.name)) (str_eq c.name q)
                (chtbl_lookup hash_str str_eq ctable (some q)) (returns_0, some c) (ap is_some h),
      )

  -- In a valid table, commands_add with a name in lower case, a function and an identifier that is not
  -- 0 succeeds. Afterwards, where the table had no such name, the name, spelled in any case, leads to
  -- the new command; every other name, and every name where it had one, leads to what it led to.
  pub commands_add-find :
      (ctable : Commands F) (n q : Bytes) (f : F) (help : Option F) (i : ℕ)
      → IsValid hash_str str_eq ctable
      → ascii_lower n ≡ n
      → (i == 0) ≡ false
      → let r = commands_add ctable (some n) (some f) help i in
        let found = is_0 (chtbl_lookup hash_str str_eq ctable (some n)).0 in
        (r.1 ≡ true)
        × (commands_find r.0 (some q) ≡ (
            if found || not (str_eq n (ascii_lower q))
            then commands_find ctable (some q)
            else some (new_command n f help i)))
  unfolding commands_add commands_find
  commands_add-find ctable n q f help i v l z =
      elim (Option-cases (element hash_str str_eq ctable n)) [
        | inr (o, h) ↦ rw (z, found_there ctable n o h) (refl, refl)
        | inl h ↦
            rw (z, not_there ctable n h)
              (let c = new_command n f help i in
                let (a, b) =
                  insert_command-find ctable c (ascii_lower q) v
                    (ap (element hash_str str_eq ctable) l ∙ h) in
                (
                  a,
                  b
                      ∙ ap
                          (λ m.
                            if not (str_eq m (ascii_lower q))
                            then (chtbl_lookup hash_str str_eq ctable (some (ascii_lower q))).1
                            else some c)
                          l,
                ))
      ]
