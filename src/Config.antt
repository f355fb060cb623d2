-- ===== src/Config.antt =====
-- libwzd-core/wzd_configfile.c: the data of a configuration file, its lookups and its queries.
-- `current_group` points into the list of groups: it is an index here. A list element of the C
-- program is named by its index too, so what the code writes through a pointer is written back.
pub mod Edit
pub mod Comment
pub mod Parse
pub mod Print
pub mod Lookup
pub mod Store
pub mod Chunks
pub mod Feed
pub mod Lines
pub mod Printable
pub mod RoundTrip
pub mod Invariant
pub mod InvariantParse
pub mod Steps
pub mod InvariantComments
pub mod UniqueComments
pub mod Unique
pub mod Scan
use wzdftpd.Base.{
  ℕ, Bool, true, false, List, [], ◌∷◌, ◌++◌, Option, none, some, Bytes, str_eq, codes, next_index,
  get_elem?, if◌then◌else◌, map, ◌||◌,
}

-- The codes of wzd_configfile.h. `out_of_bounds` stands for a read outside of a buffer, where C
-- says nothing of what follows.
pub data Code : Type 0 where
  cf_ok invalid_args group_not_found no_current_group parse_error : Code
  not_found key_already_exists out_of_bounds : Code

-- A comment has no key.
pub record KeyValue : Type 0 where
  pub key : Option Bytes
  pub value : Bytes

pub record Group : Type 0 where
  pub name : Option Bytes
  pub comment : Option Bytes
  pub values : List KeyValue

-- `parse_buffer` is `none` while its `char *` is NULL; `merge_multiple` is the one flag that the
-- code tests outside of its debug output.
pub record Config : Type 0 where
  pub groups : List Group
  pub parse_buffer : Option Bytes
  pub current_group : Option ℕ
  pub merge_multiple : Bool

unfoldable pub group_init : Group
group_init = record { name = none; comment = none; values = [] }

unfoldable pub config_init : Config
unfolding group_init
config_init = record {
  groups = group_init ∷ [];
  parse_buffer = none;
  current_group = some 0;
  merge_multiple = false;
}

-- `p && strcmp(p, k) == 0`
unfoldable pub named : Option Bytes → Bytes → Bool
named none k = false
named (some n) k = str_eq n k

unfoldable pub lookup_group : List Group → Bytes → Option ℕ
lookup_group [] groupname = none
lookup_group (g ∷ gs) groupname =
    if named g.name groupname then some 0 else next_index (lookup_group gs groupname)

unfoldable pub lookup_keyvalue : List KeyValue → Bytes → Option ℕ
lookup_keyvalue [] key = none
lookup_keyvalue (kv ∷ kvs) key =
    if named kv.key key then some 0 else next_index (lookup_keyvalue kvs key)

-- The group that a pointer names.
abbrev pub group_at : Config → ℕ → Option Group
group_at file i = get_elem? file.groups i

abbrev pub is_some {ℓ} : {A : Type ℓ} → Option A → Bool
is_some none = false
is_some (some a) = true

abbrev pub bind_option {ℓ κ} : {A : Type ℓ} {B : Type κ} → Option A → (A → Option B) → Option B
bind_option none f = none
bind_option (some a) f = f a

infixl 5 ◌>>=◌
abbrev pub ◌>>=◌ {ℓ κ} : {A : Type ℓ} {B : Type κ} → Option A → (A → Option B) → Option B
m >>= f = bind_option m f

unfoldable pub config_has_group : Config → Bytes → Bool
unfolding lookup_group
config_has_group file groupname = is_some (lookup_group file.groups groupname)

unfoldable pub config_has_key : Config → Bytes → Bytes → Bool
unfolding lookup_group lookup_keyvalue
config_has_key file groupname key = is_some (do
  i ← lookup_group file.groups groupname
  group ← group_at file i
  lookup_keyvalue group.values key)

unfoldable pub config_get_value : Config → Bytes → Bytes → Option Bytes
unfolding lookup_group lookup_keyvalue
config_get_value file groupname key = do
  i ← lookup_group file.groups groupname
  group ← group_at file i
  j ← lookup_keyvalue group.values key
  kv ← get_elem? group.values j
  some kv.value

-- The names, in order; `STR(NULL)` is an empty string object.
unfoldable pub config_get_groups : Config → List (Option Bytes)
config_get_groups file = map (λ g. g.name) file.groups

unfoldable pub config_get_keys : Config → Bytes → Option (List (Option Bytes))
unfolding lookup_group
config_get_keys file groupname = do
  i ← lookup_group file.groups groupname
  group ← group_at file i
  some (map (λ kv. kv.key) group.values)

-- The result -1 of the C function, with the code that it stores in `errcode`, is a `Code`.
pub data Parsed {ℓ} (A : Type ℓ) : Type ℓ where
  got : A → Parsed A
  failed : Code → Parsed A

read_boolean : Bytes → Parsed Bool
read_boolean value =
    if str_eq value (codes "true") || str_eq value (codes "1") || str_eq value (codes "yes")
    then got true
    else if str_eq value (codes "false") || str_eq value (codes "0") || str_eq value (codes "no")
    then got false
    else failed parse_error

unfoldable pub config_get_boolean : Config → Bytes → Bytes → Parsed Bool
unfolding config_get_value read_boolean
config_get_boolean file groupname key = elim (config_get_value file groupname key) [
  | none ↦ failed not_found
  | some value ↦ read_boolean value
]
