-- ===== src/Config/Printable.antt =====
-- The configurations that `config_to_data` writes in a form that the parser takes.
use wzdftpd.Base.{
  Bool, true, false, List, [], ◌∷◌, Option, none, some, Bytes, ◌≡◌, ◌≢◌, All, skip_spaces,
}
use wzdftpd.Config.{KeyValue, Group, Config}
use wzdftpd.Config.Comment.{config_line_is_comment}
use wzdftpd.Config.Feed.{Without, IsLine}
use wzdftpd.Config.Scan.{IsKey, IsValue}
use wzdftpd.Config.Unique.{UniqueKeys}

-- A line that the parser takes for a comment.
pub record IsComment (text : Bytes) : Type 0 where
  pub line : IsLine text
  pub mark : config_line_is_comment (skip_spaces text) ≡ true

-- The flag says whether the group has a name: only then may a key stand in it.
abbrev pub EntryOf : Bool → Option Bytes → Bytes → Type 0
EntryOf has_name none value = IsComment value
EntryOf has_name (some []) value = ⊥
EntryOf has_name (some (c ∷ cs)) value = (has_name ≡ true) × IsKey c cs × IsValue value

abbrev pub IsEntry : Bool → KeyValue → Type 0
IsEntry has_name kv = EntryOf has_name kv.key kv.value

-- `group->comment` is printed in front of the header, where the parser gives it to the group
-- before: there must be none.
pub record IsNamedGroup (group : Group) : Type 0 where
  pub name : Bytes
  pub is_named : group.name ≡ some name
  pub no_comment : group.comment ≡ none
  pub one_line : Without b'\n' name
  pub keys : UniqueKeys group.values
  pub entries : All (IsEntry true) group.values

-- There is a first line, and it is not blank.
abbrev pub Opens : List KeyValue → List Group → Type 0
Opens [] [] = ⊥
Opens [] (g ∷ gs) = Unit
Opens (kv ∷ kvs) gs = kv.value ≢ []

-- Comments at the top, in the group without a name, then the groups with names.
pub record IsPrintable (file : Config) : Type 0 where
  pub top : List KeyValue
  pub rest : List Group
  pub groups : file.groups ≡ record { name = none; comment = none; values = top } ∷ rest
  pub comments : All (IsEntry false) top
  pub sections : All IsNamedGroup rest
  pub keys : UniqueKeys top
  pub opens : Opens top rest
