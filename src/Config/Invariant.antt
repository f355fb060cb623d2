-- ===== src/Config/Invariant.antt =====
-- What every operation keeps: no key twice in a group, a current group that exists, and a first
-- group without a name, which holds the comments at the top.
use wzdftpd.Base.{
  ℕ, zero, suc, ◌+◌, ◌<◌, Bool, true, false, List, [], ◌∷◌, ◌++◌, Option, none, some, Bytes, ◌≡◌,
  refl, sym, inl, inr, arith, if◌then◌else◌, Option-cases, All, All-append, All-set, All-remove_at,
  length, length-append, length-set, get_elem?, set, remove_at,
}
use mathlib.Core.Path.{subst}
use mathlib.Core.Option.{some-injective}
use wzdftpd.Config.{
  Code, KeyValue, Group, Config, named, lookup_group, lookup_keyvalue, config_init, group_init,
}
use wzdftpd.Config.Edit.{
  put_values, add_key_in, config_add_key, config_add_group, store_in, store, config_set_value,
  remove_key_in, config_remove_key, current_after, config_remove_group,
}
use wzdftpd.Config.Lookup.{lookup_group-get_elem?}
use wzdftpd.Config.Unique.{
  UniqueKeys, UniqueKeys-pair, UniqueKeys-set_value_of, UniqueKeys-remove_at,
}

abbrev pub InRange : Option ℕ → ℕ → Type 0
InRange none n = ⊥
InRange (some i) n = i < n

abbrev pub StartsUnnamed : List Group → Type 0
StartsUnnamed [] = ⊥
StartsUnnamed (g ∷ gs) = g.name ≡ none

abbrev pub HasUniqueKeys : Group → Type 0
HasUniqueKeys g = UniqueKeys g.values

pub record IsValid (file : Config) : Type 0 where
  pub keys : All HasUniqueKeys file.groups
  pub current : InRange file.current_group (length file.groups)
  pub top : StartsUnnamed file.groups

pub All-get_elem? {ℓ κ} :
    {A : Type ℓ} (P : A → Type κ) (xs : List A) (i : ℕ) (x : A)
    → All P xs
    → get_elem? xs i ≡ some x
    → P x
All-get_elem? P [] i x h e = cc
All-get_elem? P (y ∷ xs) zero x h e = subst P (some-injective y x e) h.0
All-get_elem? P (y ∷ xs) (suc i) x h e = All-get_elem? P xs i x h.1 e

StartsUnnamed-set :
    (gs : List Group) (i : ℕ) (group group' : Group)
    → StartsUnnamed gs
    → get_elem? gs i ≡ some group
    → group'.name ≡ group.name
    → StartsUnnamed (set gs i group')
StartsUnnamed-set [] i group group' h e n = h
StartsUnnamed-set (g ∷ gs) zero group group' h e n = ground arith
StartsUnnamed-set (g ∷ gs) (suc i) group group' h e n = h

InRange-length : (o : Option ℕ) (n m : ℕ) → n ≡ m → InRange o n → InRange o m
InRange-length none n m e h = absurd h
InRange-length (some i) n m e h = omega arith

-- A group replaced by one of the same name, with unique keys.
pub set-IsValid :
    (file : Config) (i : ℕ) (group group' : Group)
    → IsValid file
    → get_elem? file.groups i ≡ some group
    → group'.name ≡ group.name
    → UniqueKeys group'.values
    → IsValid (record file { groups = set file.groups i group' })
set-IsValid file i group group' v e n u = record {
  keys = All-set HasUniqueKeys file.groups i group' v.keys u;
  current = InRange-length file.current_group _ _ (sym (length-set file.groups i group')) v.current;
  top = StartsUnnamed-set file.groups i group group' v.top e n;
}

pub put_values-IsValid :
    (file : Config) (i : ℕ) (group : Group) (kvs : List KeyValue)
    → IsValid file
    → get_elem? file.groups i ≡ some group
    → UniqueKeys kvs
    → IsValid (put_values file i group kvs)
put_values-IsValid file i group kvs v e u = set-IsValid file i group _ v e refl u

pub config_init-IsValid : IsValid config_init
unfolding config_init group_init
config_init-IsValid = record { keys = (tt, tt); current = omega arith; top = refl }

-- Both branches of a test.
pub if-IsValid :
    (b : Bool) (r s : Config × Code) → IsValid r.0 → IsValid s.0 → IsValid (if b then r else s).0
if-IsValid true r s h k = h
if-IsValid false r s h k = k

add_key_in-IsValid :
    (file : Config) (i : ℕ) (group : Group) (key value : Bytes)
    → IsValid file
    → get_elem? file.groups i ≡ some group
    → IsValid (add_key_in file i group key value).0
unfolding add_key_in
add_key_in-IsValid file i group key value v e =
    let u = All-get_elem? HasUniqueKeys file.groups i group v.keys e in
    elim (Option-cases (lookup_keyvalue group.values key)) [
      | inl h ↦
          rw (h, add_key_in)
            (put_values-IsValid file i group _ v e (UniqueKeys-pair group.values key value u h))
      | inr (j, h) ↦
          rw (h, add_key_in)
            (if-IsValid file.merge_multiple _ _
              (put_values-IsValid file i group _ v e (UniqueKeys-set_value_of group.values j _ u))
              v)
    ]

pub config_add_key-IsValid :
    (file : Config) (at : Option ℕ) (key value : Bytes)
    → IsValid file
    → IsValid (config_add_key file at key value).0
unfolding config_add_key
config_add_key-IsValid file none key value v = v
config_add_key-IsValid file (some i) key value v = elim (Option-cases (get_elem? file.groups i)) [
  | inl h ↦ rw (h, config_add_key) v
  | inr (group, h) ↦ rw (h, config_add_key) (add_key_in-IsValid file i group key value v h)
]

StartsUnnamed-append : (gs hs : List Group) → StartsUnnamed gs → StartsUnnamed (gs ++ hs)
StartsUnnamed-append [] hs h = absurd h
StartsUnnamed-append (g ∷ gs) hs h = h

pub config_add_group-IsValid :
    (file : Config) (groupname : Bytes) → IsValid file → IsValid (config_add_group file groupname)
unfolding config_add_group group_init
config_add_group-IsValid file groupname v = record {
  keys = All-append HasUniqueKeys file.groups _ v.keys (tt, tt);
  current = omega (
    arith,
    length-append file.groups (record { name = some groupname; comment = none; values = [] } ∷ []),
  );
  top = StartsUnnamed-append file.groups _ v.top;
}

store_in-IsValid :
    (file : Config) (i : ℕ) (group : Group) (key value : Bytes)
    → IsValid file
    → get_elem? file.groups i ≡ some group
    → IsValid (store_in file i group key value).0
unfolding store_in
store_in-IsValid file i group key value v e =
    let u = All-get_elem? HasUniqueKeys file.groups i group v.keys e in
    elim (Option-cases (lookup_keyvalue group.values key)) [
      | inl h ↦ rw (h, store_in) (add_key_in-IsValid file i group key value v e)
      | inr (j, h) ↦
          rw (h, store_in)
            (put_values-IsValid file i group _ v e (UniqueKeys-set_value_of group.values j value u))
    ]

store-IsValid :
    (file : Config) (at : Option ℕ) (key value : Bytes)
    → IsValid file
    → IsValid (store file at key value).0
unfolding store
store-IsValid file none key value v = v
store-IsValid file (some i) key value v = elim (Option-cases (get_elem? file.groups i)) [
  | inl h ↦ rw (h, store) v
  | inr (group, h) ↦ rw (h, store) (store_in-IsValid file i group key value v h)
]

pub config_set_value-IsValid :
    (file : Config) (groupname key : Bytes) (value : Option Bytes)
    → IsValid file
    → IsValid (config_set_value file groupname key value).0
unfolding config_set_value
config_set_value-IsValid file groupname key none v = v
config_set_value-IsValid file groupname key (some value) v =
    elim (Option-cases (lookup_group file.groups groupname)) [
      | inl h ↦
          rw (h, config_set_value)
            (store-IsValid _ _ key value (config_add_group-IsValid file groupname v))
      | inr (i, h) ↦ rw (h, config_set_value) (store-IsValid file (some i) key value v)
    ]

remove_key_in-IsValid :
    (file : Config) (i : ℕ) (group : Group) (key : Bytes)
    → IsValid file
    → get_elem? file.groups i ≡ some group
    → IsValid (remove_key_in file i group key).0
unfolding remove_key_in
remove_key_in-IsValid file i group key v e =
    let u = All-get_elem? HasUniqueKeys file.groups i group v.keys e in
    elim (Option-cases (lookup_keyvalue group.values key)) [
      | inl h ↦ rw (h, remove_key_in) v
      | inr (j, h) ↦
          rw (h, remove_key_in)
            (put_values-IsValid file i group _ v e (UniqueKeys-remove_at group.values j u))
    ]

pub config_remove_key-IsValid :
    (file : Config) (groupname key : Bytes)
    → IsValid file
    → IsValid (config_remove_key file groupname key).0
unfolding config_remove_key
config_remove_key-IsValid file groupname key v =
    elim (Option-cases (lookup_group file.groups groupname)) [
      | inl h ↦ rw (h, config_remove_key) v
      | inr (i, h) ↦
          let (group, e) = lookup_group-get_elem? file.groups groupname i h in
          rw (h, config_remove_key) (rw e (remove_key_in-IsValid file i group key v e))
    ]

lookup_group-lt :
    (gs : List Group) (groupname : Bytes) (i : ℕ)
    → lookup_group gs groupname ≡ some i
    → i < length gs
unfolding lookup_group
lookup_group-lt [] groupname i e = cc
lookup_group-lt (g ∷ gs) groupname zero e = omega arith
lookup_group-lt (g ∷ gs) groupname (suc i) e = ground (arith, lookup_group-lt gs groupname i)

-- A group that a lookup by name finds has a name, so it is not the first.
lookup_group-pos :
    (gs : List Group) (groupname : Bytes) (i : ℕ)
    → StartsUnnamed gs
    → lookup_group gs groupname ≡ some i
    → (0 < i) × (i < length gs)
unfolding lookup_group named
lookup_group-pos [] groupname i h e = absurd h
lookup_group-pos (g ∷ gs) groupname zero h e = ground arith
lookup_group-pos (g ∷ gs) groupname (suc i) h e =
    (omega arith, lookup_group-lt (g ∷ gs) groupname (suc i) e)

StartsUnnamed-remove_at :
    (gs : List Group) (i : ℕ) → 0 < i → StartsUnnamed gs → StartsUnnamed (remove_at gs i)
StartsUnnamed-remove_at [] i p h = h
StartsUnnamed-remove_at (g ∷ gs) zero p h = absurd (omega arith)
StartsUnnamed-remove_at (g ∷ gs) (suc i) p h = h

length-remove_at :
    {A : Type 0} (xs : List A) (i : ℕ) → i < length xs → length (remove_at xs i) + 1 ≡ length xs
length-remove_at [] i h = absurd (omega arith)
length-remove_at (x ∷ xs) zero h = omega arith
length-remove_at (x ∷ xs) (suc i) h = omega (arith, length-remove_at xs i (omega arith))

InRange-current_after :
    (o : Option ℕ) (i n : ℕ) → InRange o (n + 1) → 0 < i → i < n + 1 → InRange (current_after i o) n
InRange-current_after none i n h p l = absurd h
InRange-current_after (some c) i n h p l = ground arith

pub config_remove_group-IsValid :
    (file : Config) (groupname : Bytes)
    → IsValid file
    → IsValid (config_remove_group file groupname).0
unfolding config_remove_group
config_remove_group-IsValid file groupname v =
    elim (Option-cases (lookup_group file.groups groupname)) [
      | inl h ↦ rw (h, config_remove_group) v
      | inr (i, h) ↦
          let (p, l) = lookup_group-pos file.groups groupname i v.top h in
          let n = length-remove_at file.groups i l in
          rw (h, config_remove_group)
            (record {
              keys = All-remove_at HasUniqueKeys file.groups i v.keys;
              current =
                  InRange-current_after file.current_group i _
                    (InRange-length file.current_group _ _ (sym n) v.current) p (omega arith);
              top = StartsUnnamed-remove_at file.groups i p v.top;
            })
    ]
