-- ===== src/Tests/Table.antt =====
-- A table of commands.
use wzdftpd.Base.{
  ℕ, false, true, not, ◌||◌, none, some, ◌≡◌, refl, arith, codes, str_eq, if◌then◌else◌,
}
use wzdftpd.Commands.{
  Commands, commands_init, commands_add, commands_find, new_command, is_0, commands_add-find,
}
use wzdftpd.Hash.{hash_str, hash_from, char_value, chtbl_init, chtbl_lookup, chtbl_insert, find}
use wzdftpd.Hash.Invariant.{chtbl_init-IsValid}
use wzdftpd.Match.{ascii_lower}

unfoldable runs : Unit {0}
unfolding commands_init commands_add commands_find chtbl_init chtbl_lookup chtbl_insert hash_str
    hash_from char_value ascii_lower find str_eq
runs = tt

abbrev empty_table : Commands ℕ
empty_table = chtbl_init 128

retr_lower : ascii_lower (codes "retr") ≡ codes "retr"
unfolding runs
retr_lower = refl

-- commands_add looks the name up as it is given, and then inserts it in lower case.
twice :
    (commands_add
      (commands_add empty_table (some (codes "RETR")) (some 5) none 1).0
      (some (codes "RETR"))
      (some 5)
      none
      1).1
    ≡ false
unfolding runs
twice = refl

commands_add-find_example :
    let r = commands_add empty_table (some (codes "retr")) (some 5) none 7 in
    let found = is_0 (chtbl_lookup hash_str str_eq empty_table (some (codes "retr"))).0 in
    (r.1 ≡ true)
    × (commands_find r.0 (some (codes "RETR")) ≡ (
        if found || not (str_eq (codes "retr") (ascii_lower (codes "RETR")))
        then commands_find empty_table (some (codes "RETR"))
        else some (new_command (codes "retr") 5 none 7)))
commands_add-find_example =
    commands_add-find empty_table (codes "retr") (codes "RETR") 5 none 7
      (chtbl_init-IsValid hash_str str_eq 128 (omega arith)) retr_lower refl
