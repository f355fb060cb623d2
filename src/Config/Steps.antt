-- ===== src/Config/Steps.antt =====
-- The states of a configuration: what a caller reaches from `config_new` by any sequence of loads
-- and edits, and what holds in them.
use wzdftpd.Base.{
  ℕ, zero, suc, Bool, true, ◌&&◌, List, [], ◌∷◌, Option, none, some, Bytes, ◌≡◌, refl, inl, inr,
  arith, if◌then◌else◌, Option-cases, get_elem?, remove_at, str_eq, str_eq_symm, str_eq_iff,
}
use wzdftpd.Config.{
  KeyValue, Group, Config, config_init, named, lookup_group, lookup_keyvalue, config_get_value,
}
use wzdftpd.Config.Comment.{config_set_comment}
use wzdftpd.Config.Edit.{config_set_value, remove_key_in, config_remove_key, config_remove_group}
use wzdftpd.Config.Invariant.{
  IsValid, HasUniqueKeys, All-get_elem?, config_init-IsValid, config_set_value-IsValid,
  config_remove_key-IsValid, config_remove_group-IsValid,
}
use wzdftpd.Config.InvariantComments.{config_set_comment-IsValid}
use wzdftpd.Config.InvariantParse.{
  config_load_from_data-IsValid, config_load_from_fd-IsValid, parse_chunks-IsValid,
}
use wzdftpd.Config.Lookup.{
  find_value, value_in, named-str_eq, config_get_value-value_in, value_in-set, value_in-found,
  lookup_group-get_elem?,
}
use wzdftpd.Config.Parse.{config_load_from_data, config_load_from_fd, parse_chunks}
use wzdftpd.Config.Unique.{Absent, UniqueKeys, lookup-append}

-- One call, whatever code it returns.
pub data Step : Config → Config → Type 0 where
  load :
      {file : Config} (data' : Bytes) (merge : Bool)
      → Step file (config_load_from_data file data' merge).0
  load_from_fd :
      {file : Config} (chunks : List Bytes) (merge : Bool)
      → Step file (config_load_from_fd file chunks merge).0
  -- config_load_from_fd, where `read` fails after these chunks
  read_fails :
      {file : Config} (chunks : List Bytes) (merge : Bool)
      → Step file (parse_chunks chunks (record file { merge_multiple = merge })).0
  set_value :
      {file : Config} (groupname key : Bytes) (value : Option Bytes)
      → Step file (config_set_value file groupname key value).0
  remove_key :
      {file : Config} (groupname key : Bytes) → Step file (config_remove_key file groupname key).0
  remove_group :
      {file : Config} (groupname : Bytes) → Step file (config_remove_group file groupname).0
  set_comment :
      {file : Config} (groupname key comment : Option Bytes)
      → Step file (config_set_comment file groupname key comment).0

pub data Reach : Config → Type 0 where
  new : Reach config_init
  next : {file file' : Config} → Reach file → Step file file' → Reach file'

Step-IsValid : {file file' : Config} → Step file file' → IsValid file → IsValid file'
Step-IsValid (load {file} data' merge) v = config_load_from_data-IsValid file data' merge v
Step-IsValid (load_from_fd {file} chunks merge) v = config_load_from_fd-IsValid file chunks merge v
Step-IsValid (read_fails {file} chunks merge) v = parse_chunks-IsValid file chunks merge v
Step-IsValid (set_value {file} g k value) v = config_set_value-IsValid file g k value v
Step-IsValid (remove_key {file} g k) v = config_remove_key-IsValid file g k v
Step-IsValid (remove_group {file} g) v = config_remove_group-IsValid file g v
Step-IsValid (set_comment {file} g k c) v = config_set_comment-IsValid file g k c v

-- In every state that a configuration reaches by loads from memory or from a file, whatever the bytes
-- and the errors, and by changes of values, keys, groups and comments, no key stands twice in a group,
-- the current group is one of the groups and never NULL, and the first group has no name.
pub Reach-IsValid : {file : Config} → Reach file → IsValid file
Reach-IsValid new = config_init-IsValid
Reach-IsValid (next r s) = Step-IsValid s (Reach-IsValid r)

find_value-absent :
    (kvs : List KeyValue) (key : Bytes) → lookup_keyvalue kvs key ≡ none → find_value kvs key ≡ none
unfolding find_value
find_value-absent [] key h = refl
find_value-absent (x ∷ kvs) key h =
    ground (arith, lookup-append [] x kvs key, find_value-absent kvs key)

Absent-find_value :
    (o : Option Bytes) (kvs : List KeyValue) (key q : Bytes)
    → Absent o kvs
    → named o key ≡ true
    → str_eq key q ≡ true
    → find_value kvs q ≡ none
unfolding named
Absent-find_value none kvs key q h n e = ground arith
Absent-find_value (some x) kvs key q h n e =
    ground (arith, find_value-absent kvs x, str_eq_iff x key, str_eq_iff key q)

find_value-remove_at :
    (kvs : List KeyValue) (key q : Bytes) (j : ℕ)
    → UniqueKeys kvs
    → lookup_keyvalue kvs key ≡ some j
    → find_value (remove_at kvs j) q ≡ (if str_eq key q then none else find_value kvs q)
unfolding lookup_keyvalue find_value
find_value-remove_at [] key q j u h = cc
find_value-remove_at (x ∷ kvs) key q zero u h =
    ground (arith, named-str_eq x.key key q, Absent-find_value x.key kvs key q)
find_value-remove_at (x ∷ kvs) key q (suc j) u h = ground (
  arith,
  named-str_eq x.key key q,
  named-str_eq x.key q key,
  str_eq_symm key q,
  find_value-remove_at kvs key q j,
)

remove_key_in-get :
    (file : Config) (i : ℕ) (group : Group) (groupname key name k : Bytes)
    → IsValid file
    → lookup_group file.groups groupname ≡ some i
    → get_elem? file.groups i ≡ some group
    → value_in (remove_key_in file i group key).0.groups name k
      ≡ (if str_eq groupname name && str_eq key k then none else value_in file.groups name k)
unfolding remove_key_in
remove_key_in-get file i group groupname key name k v at is =
    let u = All-get_elem? HasUniqueKeys file.groups i group v.keys is in
    elim (Option-cases (lookup_keyvalue group.values key)) [
      | inl h ↦
          rw (h, remove_key_in)
            (ground (
              arith,
              value_in-found file.groups groupname i group name k at is,
              find_value-absent group.values key h,
              str_eq_iff key k,
            ))
      | inr (j, h) ↦
          rw (h, remove_key_in)
            (ground (
              arith,
              value_in-set file.groups groupname i group (remove_at group.values j) name k at is,
              value_in-found file.groups groupname i group name k at is,
              find_value-remove_at group.values key k j u h,
            ))
    ]

value_in-absent :
    (gs : List Group) (groupname key : Bytes)
    → lookup_group gs groupname ≡ none
    → value_in gs groupname key ≡ none
unfolding lookup_group value_in
value_in-absent [] groupname key h = refl
value_in-absent (g ∷ gs) groupname key h = ground (arith, value_in-absent gs groupname key)

-- In a valid file, removing a key leaves it without a value, and every other key of every group
-- with the value that it had.
pub config_remove_key-get :
    (file : Config) (groupname key name k : Bytes)
    → IsValid file
    → config_get_value (config_remove_key file groupname key).0 name k
      ≡ (if str_eq groupname name && str_eq key k then none else config_get_value file name k)
unfolding config_remove_key
config_remove_key-get file groupname key name k v =
    simp config_get_value-value_in (elim (Option-cases (lookup_group file.groups groupname)) [
      | inl h ↦
          rw (h, config_remove_key)
            (ground (arith, value_in-absent file.groups groupname k h, str_eq_iff groupname name))
      | inr (i, h) ↦
          let (group, e) = lookup_group-get_elem? file.groups groupname i h in
          rw (h, config_remove_key)
            (rw e (remove_key_in-get file i group groupname key name k v h e))
    ])
