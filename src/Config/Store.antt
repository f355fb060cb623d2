-- ===== src/Config/Store.antt =====
-- Writes to a configuration file, against the map that it stands for.
use wzdftpd.Base.{
  ℕ, ◌&&◌, List, [], Option, none, some, Bytes, str_eq, str_eq_refl, ◌≡◌, refl, ◌∙◌, inl, inr,
  arith, get_elem?, length, if◌then◌else◌, Option-cases,
}
use wzdftpd.Config.{
  cf_ok, KeyValue, Group, Config, lookup_group, lookup_keyvalue, group_init, config_get_value,
}
use wzdftpd.Config.Edit.{
  put_values, add_key_in, store_in, store, config_add_group, config_set_value,
}
use wzdftpd.Config.Lookup.{
  find_value, value_in, named_pair, config_get_value-value_in, find_value-set_value_of,
  find_value-append, value_in-set, value_in-found, value_in-append, lookup_group-append,
  lookup_group-get_elem?,
}

-- A map with one value changed.
abbrev pub update :
    (Bytes → Bytes → Option Bytes) → Bytes → Bytes → Bytes → Bytes → Bytes → Option Bytes
update f groupname key value name k =
    if str_eq groupname name && str_eq key k then some value else f name k

module _ (file : Config) (i : ℕ) (group : Group) (groupname key value : Bytes)
    (at : lookup_group file.groups groupname ≡ some i)
    (is : get_elem? file.groups i ≡ some group) where
  put_values-update :
      (kvs : List KeyValue) (name k : Bytes)
      → ((q : Bytes)
          → find_value kvs q ≡ (if str_eq key q then some value else find_value group.values q))
      → value_in (put_values file i group kvs).groups name k
        ≡ update (value_in file.groups) groupname key value name k
  put_values-update kvs name k h = ground (
    arith,
    value_in-set file.groups groupname i group kvs name k at is,
    value_in-found file.groups groupname i group name k at is,
    h k,
  )

  add_key_in-update :
      (name k : Bytes)
      → lookup_keyvalue group.values key ≡ none
      → let r = add_key_in file i group key value in
        (r.1 ≡ cf_ok)
        × (value_in r.0.groups name k ≡ update (value_in file.groups) groupname key value name k)
  unfolding add_key_in
  add_key_in-update name k h =
      rw (h, add_key_in)
        (refl, put_values-update _ name k (λ q. find_value-append group.values key value q h))

  store_in-update :
      (name k : Bytes)
      → let r = store_in file i group key value in
        (r.1 ≡ cf_ok)
        × (value_in r.0.groups name k ≡ update (value_in file.groups) groupname key value name k)
  unfolding store_in
  store_in-update name k = elim (Option-cases (lookup_keyvalue group.values key)) [
    | inl h ↦ rw (h, store_in) (add_key_in-update name k h)
    | inr (j, h) ↦
        rw (h, store_in)
          (
            refl,
            put_values-update _ name k (λ q. find_value-set_value_of group.values key value q j h),
          )
  ]

store-update :
    (file : Config) (i : ℕ) (groupname key value name k : Bytes)
    → lookup_group file.groups groupname ≡ some i
    → let r = store file (some i) key value in
      (r.1 ≡ cf_ok)
      × (value_in r.0.groups name k ≡ update (value_in file.groups) groupname key value name k)
unfolding store
store-update file i groupname key value name k at =
    let (group, is) = lookup_group-get_elem? file.groups groupname i at in
    rw (is, store) (store_in-update file i group groupname key value at is name k)

add_group-lookup :
    (file : Config) (groupname : Bytes)
    → lookup_group file.groups groupname ≡ none
    → let gs = (config_add_group file groupname).groups in
      (lookup_group gs groupname ≡ some (length file.groups))
      × (get_elem? gs (length file.groups)
          ≡ some (record { name = some groupname; comment = none; values = [] }))
unfolding config_add_group group_init
add_group-lookup file groupname h =
    lookup_group-append file.groups _ groupname h
      (named_pair groupname groupname ∙ str_eq_refl groupname)

pub add_group-value_in :
    (file : Config) (groupname name k : Bytes)
    → value_in (config_add_group file groupname).groups name k ≡ value_in file.groups name k
unfolding config_add_group group_init
add_group-value_in file groupname name k = value_in-append file.groups _ name k refl

set_value-update :
    (file : Config) (groupname key value name k : Bytes)
    → let r = config_set_value file groupname key (some value) in
      (r.1 ≡ cf_ok)
      × (value_in r.0.groups name k ≡ update (value_in file.groups) groupname key value name k)
unfolding config_set_value
set_value-update file groupname key value name k =
    elim (Option-cases (lookup_group file.groups groupname)) [
      | inr (i, at) ↦ rw (at, config_set_value) (store-update file i groupname key value name k at)
      | inl h ↦
          let file' = config_add_group file groupname in
          let (at, _) = add_group-lookup file groupname h in
          let stored = store-update file' (length file.groups) groupname key value name k at in
          rw (h, config_set_value) (rw at (rw (add_group-value_in file groupname name k) at stored))
    ]

-- Setting a value always succeeds, creating the group and the key where they are missing; the key
-- then has that value, and every other key of every group keeps the value it had.
pub config_set_value-get :
    (file : Config) (groupname key value name k : Bytes)
    → let r = config_set_value file groupname key (some value) in
      (r.1 ≡ cf_ok)
      × (config_get_value r.0 name k ≡ (
          if str_eq groupname name && str_eq key k
          then some value
          else config_get_value file name k))
config_set_value-get file groupname key value name k =
    simp config_get_value-value_in (set_value-update file groupname key value name k)
