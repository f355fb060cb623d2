-- ===== src/Config/Unique.antt =====
-- Lists of keys and comments in which no key stands twice.
use wzdftpd.Base.{
  ℕ, zero, suc, false, List, [], ◌∷◌, ◌++◌, Option, none, some, Bytes, str_eq_iff, str_eq_symm, ◌≡◌,
  refl, arith, remove_at,
}
use wzdftpd.Config.{KeyValue, named, lookup_keyvalue}
use wzdftpd.Config.Edit.{pair, remark, set_value_of}

-- No entry has the key; a comment has none.
abbrev pub Absent : Option Bytes → List KeyValue → Type 0
Absent none kvs = Unit
Absent (some key) kvs = lookup_keyvalue kvs key ≡ none

abbrev pub UniqueKeys : List KeyValue → Type 0
UniqueKeys [] = Unit
UniqueKeys (kv ∷ kvs) = Absent kv.key kvs × UniqueKeys kvs

pub lookup-append :
    (kvs : List KeyValue) (kv : KeyValue) (rest : List KeyValue) (key : Bytes)
    → lookup_keyvalue (kvs ++ kv ∷ rest) key ≡ none
    → (lookup_keyvalue kvs key ≡ none)
      × (named kv.key key ≡ false)
      × (lookup_keyvalue rest key ≡ none)
unfolding lookup_keyvalue
lookup-append [] kv rest key h = (refl, ground arith, ground arith)
lookup-append (x ∷ kvs) kv rest key h =
    let ih = lookup-append kvs kv rest key in
    (ground (arith, ih), ground (arith, ih), ground (arith, ih))

pub append-lookup :
    (kvs rest : List KeyValue) (key : Bytes)
    → lookup_keyvalue kvs key ≡ none
    → lookup_keyvalue rest key ≡ none
    → lookup_keyvalue (kvs ++ rest) key ≡ none
unfolding lookup_keyvalue
append-lookup [] rest key h k = k
append-lookup (x ∷ kvs) rest key h k = ground (arith, append-lookup kvs rest key)

named-swap :
    (o : Option Bytes) (x key : Bytes)
    → o ≡ some key
    → named o x ≡ false
    → named (some x) key ≡ false
unfolding named
named-swap none x key e h = ground arith
named-swap (some n) x key e h = ground (arith, str_eq_symm n x, str_eq_iff n key, str_eq_symm x key)

Absent-named :
    (o : Option Bytes) (kvs : List KeyValue) (kv : KeyValue) (rest : List KeyValue) (key : Bytes)
    → Absent o (kvs ++ kv ∷ rest)
    → kv.key ≡ some key
    → named o key ≡ false
unfolding named
Absent-named none kvs kv rest key h e = refl
Absent-named (some x) kvs kv rest key h e =
    named-swap kv.key x key e (lookup-append kvs kv rest x h).1

-- An entry's key is not among the entries in front of it.
pub UniqueKeys-before :
    (kvs : List KeyValue) (kv : KeyValue) (rest : List KeyValue) (key : Bytes)
    → UniqueKeys (kvs ++ kv ∷ rest)
    → kv.key ≡ some key
    → lookup_keyvalue kvs key ≡ none
unfolding lookup_keyvalue
UniqueKeys-before [] kv rest key u e = refl
UniqueKeys-before (x ∷ kvs) kv rest key u e =
    ground (arith, Absent-named x.key kvs kv rest key, UniqueKeys-before kvs kv rest key)

Absent-append :
    (o : Option Bytes) (kvs rest : List KeyValue)
    → Absent o kvs
    → Absent o rest
    → Absent o (kvs ++ rest)
Absent-append none kvs rest h k = tt
Absent-append (some key) kvs rest h k = append-lookup kvs rest key h k

Absent-pair :
    (o : Option Bytes) (key value : Bytes) → named o key ≡ false → Absent o (pair key value ∷ [])
unfolding lookup_keyvalue named
Absent-pair none key value h = tt
Absent-pair (some x) key value h = ground (arith, str_eq_symm x key)

lookup-cons :
    (x : KeyValue) (kvs : List KeyValue) (key : Bytes)
    → lookup_keyvalue (x ∷ kvs) key ≡ none
    → (named x.key key ≡ false) × (lookup_keyvalue kvs key ≡ none)
lookup-cons x kvs key h = let r = lookup-append [] x kvs key h in (r.1, r.2)

-- A new pair at the end, under a key that is not there.
pub UniqueKeys-pair :
    (kvs : List KeyValue) (key value : Bytes)
    → UniqueKeys kvs
    → lookup_keyvalue kvs key ≡ none
    → UniqueKeys (kvs ++ pair key value ∷ [])
unfolding lookup_keyvalue
UniqueKeys-pair [] key value u h = (refl, tt)
UniqueKeys-pair (x ∷ kvs) key value u h =
    let (n, later) = lookup-cons x kvs key h in
    (
      Absent-append x.key kvs _ u.0 (Absent-pair x.key key value n),
      UniqueKeys-pair kvs key value u.1 later,
    )

Absent-remark_end : (o : Option Bytes) (text : Bytes) → Absent o (remark text ∷ [])
unfolding lookup_keyvalue named
Absent-remark_end none text = tt
Absent-remark_end (some x) text = refl

pub UniqueKeys-remark :
    (kvs : List KeyValue) (text : Bytes) → UniqueKeys kvs → UniqueKeys (kvs ++ remark text ∷ [])
UniqueKeys-remark [] text u = (tt, tt)
UniqueKeys-remark (x ∷ kvs) text u =
    (Absent-append x.key kvs _ u.0 (Absent-remark_end x.key text), UniqueKeys-remark kvs text u.1)

Absent-set_value_of :
    (o : Option Bytes) (kvs : List KeyValue) (j : ℕ) (value : Bytes)
    → Absent o kvs
    → Absent o (set_value_of kvs j value)
unfolding lookup_keyvalue
Absent-set_value_of none kvs j value h = tt
Absent-set_value_of (some key) [] j value h = h
Absent-set_value_of (some key) (x ∷ kvs) zero value h = h
Absent-set_value_of (some key) (x ∷ kvs) (suc j) value h =
    ground (arith, lookup-cons x kvs key, Absent-set_value_of (some key) kvs j value)

pub UniqueKeys-set_value_of :
    (kvs : List KeyValue) (j : ℕ) (value : Bytes)
    → UniqueKeys kvs
    → UniqueKeys (set_value_of kvs j value)
UniqueKeys-set_value_of [] j value u = u
UniqueKeys-set_value_of (x ∷ kvs) zero value u = u
UniqueKeys-set_value_of (x ∷ kvs) (suc j) value u =
    (Absent-set_value_of x.key kvs j value u.0, UniqueKeys-set_value_of kvs j value u.1)

Absent-remove_at :
    (o : Option Bytes) (kvs : List KeyValue) (j : ℕ) → Absent o kvs → Absent o (remove_at kvs j)
unfolding lookup_keyvalue
Absent-remove_at none kvs j h = tt
Absent-remove_at (some key) [] j h = h
Absent-remove_at (some key) (x ∷ kvs) zero h = (lookup-cons x kvs key h).1
Absent-remove_at (some key) (x ∷ kvs) (suc j) h =
    ground (arith, lookup-cons x kvs key, Absent-remove_at (some key) kvs j)

pub UniqueKeys-remove_at :
    (kvs : List KeyValue) (j : ℕ) → UniqueKeys kvs → UniqueKeys (remove_at kvs j)
UniqueKeys-remove_at [] j u = u
UniqueKeys-remove_at (x ∷ kvs) zero u = u.1
UniqueKeys-remove_at (x ∷ kvs) (suc j) u =
    (Absent-remove_at x.key kvs j u.0, UniqueKeys-remove_at kvs j u.1)
