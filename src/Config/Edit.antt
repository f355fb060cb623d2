-- ===== src/Config/Edit.antt =====
-- libwzd-core/wzd_configfile.c: the operations that change keys, groups and comments.
use wzdftpd.Base.{
  ℕ, suc, ◌-◌, Bool, List, [], ◌∷◌, ◌++◌, Option, none, some, Bytes, codes, set, length, get_elem?,
  remove_at, ltb, ◌==◌, if◌then◌else◌,
}
use wzdftpd.Config.{
  Code, cf_ok, invalid_args, group_not_found, not_found, key_already_exists, KeyValue, Group,
  Config, group_init, lookup_group, lookup_keyvalue,
}

-- What the code writes through `group->values`.
abbrev pub put_values : Config → ℕ → Group → List KeyValue → Config
put_values config i group kvs = record config {
  groups = set config.groups i (record group { values = kvs });
}

-- `_configfile_keyvalue_calloc` with both fields set
abbrev pub pair : Bytes → Bytes → KeyValue
pair key value = record { key = some key; value = value }

abbrev pub remark : Bytes → KeyValue
remark text = record { key = none; value = text }

abbrev pub set_value_of : List KeyValue → ℕ → Bytes → List KeyValue
set_value_of [] j value = []
set_value_of (kv ∷ kvs) ℕ.zero value = record kv { value = value } ∷ kvs
set_value_of (kv ∷ kvs) (suc j) value = kv ∷ set_value_of kvs j value

abbrev pub value_at : List KeyValue → ℕ → Bytes
value_at [] j = []
value_at (kv ∷ kvs) ℕ.zero = kv.value
value_at (kv ∷ kvs) (suc j) = value_at kvs j

-- On the group at an index, which the caller has looked up.
unfoldable pub add_key_in : Config → ℕ → Group → Bytes → Bytes → Config × Code
unfolding lookup_keyvalue
add_key_in config i group key value = elim (lookup_keyvalue group.values key) [
  | some j ↦
      if config.merge_multiple
      then (
        put_values config i group
            (set_value_of group.values j (value_at group.values j ++ (codes ", " ++ value))),
        cf_ok,
      )
      else (config, key_already_exists)
  | none ↦ (put_values config i group (group.values ++ pair key value ∷ []), cf_ok)
]

-- `none` for a NULL group
unfoldable pub config_add_key : Config → Option ℕ → Bytes → Bytes → Config × Code
unfolding add_key_in
config_add_key config none key value = (config, invalid_args)
config_add_key config (some i) key value = elim (get_elem? config.groups i) [
  | none ↦ (config, invalid_args)
  | some group ↦ add_key_in config i group key value
]

unfoldable pub config_add_group : Config → Bytes → Config
unfolding group_init
config_add_group config groupname = record config {
  groups = config.groups ++ record group_init { name = some groupname } ∷ [];
  current_group = some (length config.groups);
}

unfoldable pub store_in : Config → ℕ → Group → Bytes → Bytes → Config × Code
unfolding add_key_in lookup_keyvalue
store_in file i group key value = elim (lookup_keyvalue group.values key) [
  | none ↦ add_key_in file i group key value
  | some j ↦ (put_values file i group (set_value_of group.values j value), cf_ok)
]

unfoldable pub store : Config → Option ℕ → Bytes → Bytes → Config × Code
unfolding store_in
store file none key value = (file, group_not_found)
store file (some i) key value = elim (get_elem? file.groups i) [
  | none ↦ (file, group_not_found)
  | some group ↦ store_in file i group key value
]

-- `none` for a NULL value
unfoldable pub config_set_value : Config → Bytes → Bytes → Option Bytes → Config × Code
unfolding lookup_group config_add_group store
config_set_value file groupname key none = (file, invalid_args)
config_set_value file groupname key (some value) = elim (lookup_group file.groups groupname) [
  | some i ↦ store file (some i) key value
  | none ↦
      let file' = config_add_group file groupname in
      store file' (lookup_group file'.groups groupname) key value
]

unfoldable pub config_set_boolean : Config → Bytes → Bytes → Bool → Config × Code
unfolding config_set_value
config_set_boolean file groupname key value =
    config_set_value file groupname key (some (if value then codes "true" else codes "false"))

unfoldable pub remove_key_in : Config → ℕ → Group → Bytes → Config × Code
unfolding lookup_keyvalue
remove_key_in file i group key = elim (lookup_keyvalue group.values key) [
  | none ↦ (file, not_found)
  | some j ↦ (put_values file i group (remove_at group.values j), cf_ok)
]

unfoldable pub config_remove_key : Config → Bytes → Bytes → Config × Code
unfolding lookup_group remove_key_in
config_remove_key file groupname key = elim (lookup_group file.groups groupname) [
  | none ↦ (file, group_not_found)
  | some i ↦ elim (get_elem? file.groups i) [
    | none ↦ (file, group_not_found)
    | some group ↦ remove_key_in file i group key
  ]
]

-- The pointer to the current group, once the group at `i` is gone.
abbrev pub current_after : ℕ → Option ℕ → Option ℕ
current_after i none = none
current_after i (some c) =
    if c == i then (if i == 0 then none else some 0) else if ltb i c then some (c - 1) else some c

unfoldable pub config_remove_group : Config → Bytes → Config × Code
unfolding lookup_group
config_remove_group file groupname = elim (lookup_group file.groups groupname) [
  | none ↦ (file, group_not_found)
  | some i ↦ (
    record file {
      groups = remove_at file.groups i;
      current_group = current_after i file.current_group;
    },
    cf_ok,
  )
]
