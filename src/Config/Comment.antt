-- ===== src/Config/Comment.antt =====
-- libwzd-core/wzd_configfile.c: comments above a key, above a group and at the top of the file.
use wzdftpd.Base.{
  ℕ, Bool, true, ◌||◌, List, [], ◌∷◌, ◌++◌, Option, none, some, Bytes, take, drop, set, get_elem?,
  ◌==◌, if◌then◌else◌,
}
use wzdftpd.Config.{
  Code, cf_ok, invalid_args, group_not_found, parse_error, not_found, out_of_bounds, KeyValue,
  Group, Config, is_some, lookup_group, lookup_keyvalue,
}
use wzdftpd.Config.Edit.{put_values, remark}

unfoldable pub config_line_is_comment : Bytes → Bool
config_line_is_comment [] = true
config_line_is_comment (c ∷ line) = c == b'#' || c == b'\n'

-- Without the comments at its end: the loop over `element->prev`.
abbrev pub keep_key : KeyValue → List KeyValue → List KeyValue
keep_key kv [] = if is_some kv.key then kv ∷ [] else []
keep_key kv (x ∷ rest) = kv ∷ x ∷ rest

unfoldable pub strip_comments : List KeyValue → List KeyValue
strip_comments [] = []
strip_comments (kv ∷ kvs) = keep_key kv (strip_comments kvs)

abbrev pub key_comment : Config → ℕ → Group → ℕ → Option Bytes → Config × Code
key_comment config i group j none =
    (put_values config i group (strip_comments (take j group.values) ++ drop j group.values), cf_ok)
key_comment config i group j (some comment) = (
  put_values config i group
      (strip_comments (take j group.values) ++ remark comment ∷ drop j group.values),
  parse_error,
)

unfoldable pub key_comment_in : Config → ℕ → Group → Bytes → Option Bytes → Config × Code
unfolding lookup_keyvalue strip_comments
key_comment_in config i group key comment = elim (lookup_keyvalue group.values key) [
  | none ↦ (config, not_found)
  | some j ↦ key_comment config i group j comment
]

unfoldable pub config_set_key_comment : Config → Bytes → Bytes → Option Bytes → Config × Code
unfolding lookup_group key_comment_in
config_set_key_comment config groupname key comment = elim (lookup_group config.groups groupname) [
  | none ↦ (config, group_not_found)
  | some i ↦ elim (get_elem? config.groups i) [
    | none ↦ (config, group_not_found)
    | some group ↦ key_comment_in config i group key comment
  ]
]

abbrev pub put_comment : Config → ℕ → Group → Option Bytes → Config
put_comment config i group comment = record config {
  groups = set config.groups i (record group { comment = comment });
}

unfoldable pub group_comment_in : Config → ℕ → Group → Option Bytes → Config × Code
unfolding config_line_is_comment
group_comment_in config i group none = (put_comment config i group none, cf_ok)
group_comment_in config i group (some comment) =
    if config_line_is_comment comment
    then (put_comment config i group (some comment), cf_ok)
    else (put_comment config i group none, parse_error)

unfoldable pub config_set_group_comment : Config → Bytes → Option Bytes → Config × Code
unfolding lookup_group group_comment_in
config_set_group_comment config groupname comment = elim (lookup_group config.groups groupname) [
  | none ↦ (config, group_not_found)
  | some i ↦ elim (get_elem? config.groups i) [
    | none ↦ (config, group_not_found)
    | some group ↦ group_comment_in config i group comment
  ]
]

unfoldable pub top_comment_in : Config → Group → Option Bytes → Config × Code
unfolding config_line_is_comment
top_comment_in config group none = (put_values config 0 group [], cf_ok)
top_comment_in config group (some comment) =
    if config_line_is_comment comment
    then (put_values config 0 group (remark comment ∷ []), cf_ok)
    else (put_values config 0 group [], parse_error)

-- With no group at all, `list_data` reads through a NULL element.
unfoldable pub config_set_top_comment : Config → Option Bytes → Config × Code
unfolding top_comment_in
config_set_top_comment config comment = elim (get_elem? config.groups 0) [
  | none ↦ (config, out_of_bounds)
  | some group ↦
      if is_some group.name then (config, invalid_args) else top_comment_in config group comment
]

-- `none` for a NULL name or key
unfoldable pub config_set_comment :
    Config → Option Bytes → Option Bytes → Option Bytes → Config × Code
unfolding config_set_key_comment config_set_group_comment config_set_top_comment
config_set_comment file (some groupname) (some key) comment =
    config_set_key_comment file groupname key comment
config_set_comment file (some groupname) none comment =
    config_set_group_comment file groupname comment
config_set_comment file none key comment = config_set_top_comment file comment

unfoldable pub config_remove_comment : Config → Option Bytes → Option Bytes → Config × Code
unfolding config_set_comment
config_remove_comment file groupname key = config_set_comment file groupname key none
