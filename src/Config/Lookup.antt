-- ===== src/Config/Lookup.antt =====
-- The map that a file stands for: the value of a key, read by recursion on the lists.
use wzdftpd.Base.{
  ℕ, zero, suc, true, List, [], ◌∷◌, ◌++◌, Option, none, some, Bytes, str_eq, str_eq_iff,
  str_eq_symm, ◌≡◌, refl, arith, length, get_elem?, set, if◌then◌else◌,
}
use wzdftpd.Config.{
  KeyValue, Group, Config, named, lookup_group, lookup_keyvalue, config_get_value, ◌>>=◌,
}
use wzdftpd.Config.Edit.{pair, set_value_of}

unfoldable pub find_value : List KeyValue → Bytes → Option Bytes
find_value [] key = none
find_value (kv ∷ kvs) key = if named kv.key key then some kv.value else find_value kvs key

unfoldable pub value_in : List Group → Bytes → Bytes → Option Bytes
value_in [] groupname key = none
value_in (g ∷ gs) groupname key =
    if named g.name groupname then find_value g.values key else value_in gs groupname key

pub named-some : (n : Bytes) (k q : Bytes) → named (some n) k ≡ true → named (some n) q ≡ str_eq k q
unfolding named
named-some n k q h = ground (arith, str_eq_iff n k)

pub named_pair : (n k : Bytes) → named (some n) k ≡ str_eq n k
unfolding named
named_pair n k = refl

-- A name that matches two strings makes them equal.
pub named-str_eq : (o : Option Bytes) (k q : Bytes) → named o k ≡ true → named o q ≡ str_eq k q
unfolding named
named-str_eq none k q h = ground arith
named-str_eq (some n) k q h = ground (arith, str_eq_iff n k)

pub lookup_keyvalue-find_value :
    (kvs : List KeyValue) (key : Bytes)
    → (lookup_keyvalue kvs key >>= λ j. get_elem? kvs j >>= λ kv. some kv.value)
      ≡ find_value kvs key
unfolding lookup_keyvalue find_value
lookup_keyvalue-find_value [] key = refl
lookup_keyvalue-find_value (kv ∷ kvs) key = ground (arith, lookup_keyvalue-find_value kvs key)

pub lookup_group-value_in :
    (gs : List Group) (groupname key : Bytes)
    → (lookup_group gs groupname >>= λ i. get_elem? gs i >>= λ g. find_value g.values key)
      ≡ value_in gs groupname key
unfolding lookup_group value_in
lookup_group-value_in [] groupname key = refl
lookup_group-value_in (g ∷ gs) groupname key =
    ground (arith, lookup_group-value_in gs groupname key)

pub config_get_value-value_in :
    (file : Config) (groupname key : Bytes)
    → config_get_value file groupname key ≡ value_in file.groups groupname key
unfolding config_get_value
config_get_value-value_in file groupname key =
    simp (lookup_keyvalue-find_value, lookup_group-value_in)

pub find_value-set_value_of :
    (kvs : List KeyValue) (key value q : Bytes) (j : ℕ)
    → lookup_keyvalue kvs key ≡ some j
    → find_value (set_value_of kvs j value) q
      ≡ (if str_eq key q then some value else find_value kvs q)
unfolding lookup_keyvalue find_value
find_value-set_value_of [] key value q j h = ground arith
find_value-set_value_of (kv ∷ kvs) key value q zero h = ground (arith, named-str_eq kv.key key q)
find_value-set_value_of (kv ∷ kvs) key value q (suc j) h = ground (
  arith,
  named-str_eq kv.key key q,
  named-str_eq kv.key q key,
  str_eq_iff key q,
  find_value-set_value_of kvs key value q j,
)

pub find_value-append :
    (kvs : List KeyValue) (key value q : Bytes)
    → lookup_keyvalue kvs key ≡ none
    → find_value (kvs ++ pair key value ∷ []) q
      ≡ (if str_eq key q then some value else find_value kvs q)
unfolding lookup_keyvalue find_value
find_value-append [] key value q h = ground (arith, named_pair key q)
find_value-append (kv ∷ kvs) key value q h =
    ground (arith, named-str_eq kv.key q key, str_eq_symm key q, find_value-append kvs key value q)

-- A group replaced by one of the same name.
pub value_in-set :
    (gs : List Group) (groupname : Bytes) (i : ℕ) (group : Group) (kvs : List KeyValue)
    (name key : Bytes)
    → lookup_group gs groupname ≡ some i
    → get_elem? gs i ≡ some group
    → value_in (set gs i (record group { values = kvs })) name key
      ≡ (if str_eq groupname name then find_value kvs key else value_in gs name key)
unfolding lookup_group value_in
value_in-set [] groupname i group kvs name key h e = ground arith
value_in-set (g ∷ gs) groupname zero group kvs name key h e =
    ground (arith, named-str_eq g.name groupname name)
value_in-set (g ∷ gs) groupname (suc i) group kvs name key h e = ground (
  arith,
  named-str_eq g.name groupname name,
  named-str_eq g.name name groupname,
  str_eq_symm groupname name,
  value_in-set gs groupname i group kvs name key,
)

pub value_in-found :
    (gs : List Group) (groupname : Bytes) (i : ℕ) (group : Group) (name key : Bytes)
    → lookup_group gs groupname ≡ some i
    → get_elem? gs i ≡ some group
    → str_eq groupname name ≡ true
    → value_in gs name key ≡ find_value group.values key
unfolding lookup_group value_in
value_in-found [] groupname i group name key h e s = ground arith
value_in-found (g ∷ gs) groupname zero group name key h e s =
    ground (arith, named-str_eq g.name groupname name)
value_in-found (g ∷ gs) groupname (suc i) group name key h e s = ground (
  arith,
  named-str_eq g.name name groupname,
  str_eq_symm groupname name,
  str_eq_iff groupname groupname,
  value_in-found gs groupname i group name key,
)

-- A new group at the end has no keys, so it changes no value.
pub value_in-append :
    (gs : List Group) (group : Group) (name key : Bytes)
    → group.values ≡ []
    → value_in (gs ++ group ∷ []) name key ≡ value_in gs name key
unfolding value_in find_value
value_in-append [] group name key h = ground arith
value_in-append (g ∷ gs) group name key h = ground (arith, value_in-append gs group name key)

pub lookup_group-append :
    (gs : List Group) (group : Group) (groupname : Bytes)
    → lookup_group gs groupname ≡ none
    → named group.name groupname ≡ true
    → (lookup_group (gs ++ group ∷ []) groupname ≡ some (length gs))
      × (get_elem? (gs ++ group ∷ []) (length gs) ≡ some group)
unfolding lookup_group
lookup_group-append [] group groupname h n = (ground arith, refl)
lookup_group-append (g ∷ gs) group groupname h n = (
  ground (arith, lookup_group-append gs group groupname),
  ground (arith, lookup_group-append gs group groupname),
)

-- What a lookup returns is an index into the list.
pub lookup_group-get_elem? :
    (gs : List Group) (groupname : Bytes) (i : ℕ)
    → lookup_group gs groupname ≡ some i
    → (group : Group) × (get_elem? gs i ≡ some group)
unfolding lookup_group
lookup_group-get_elem? [] groupname i h = ground arith
lookup_group-get_elem? (g ∷ gs) groupname zero h = (g, refl)
lookup_group-get_elem? (g ∷ gs) groupname (suc i) h =
    lookup_group-get_elem? gs groupname i (ground arith)
