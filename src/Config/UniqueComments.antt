-- ===== src/Config/UniqueComments.antt =====
-- Comments taken out of a list of keys, or put in, leave the keys unique.
use wzdftpd.Base.{
  ℕ, List, [], ◌∷◌, ◌++◌, Option, none, some, Bytes, sym, inl, inr, arith, take, drop,
  take-append-drop, Bool-cases,
}
use mathlib.Core.Path.{subst}
use wzdftpd.Config.{KeyValue, named, lookup_keyvalue, is_some}
use wzdftpd.Config.Comment.{keep_key, strip_comments}
use wzdftpd.Config.Edit.{remark}
use wzdftpd.Config.Unique.{Absent, UniqueKeys, lookup-append}

Absent-cons :
    (o : Option Bytes) (x : KeyValue) (kvs : List KeyValue) (rest : List KeyValue)
    → Absent o (x ∷ kvs)
    → (Absent o kvs → Absent o rest)
    → Absent o (x ∷ rest)
unfolding lookup_keyvalue
Absent-cons none x kvs rest h k = tt
Absent-cons (some key) x kvs rest h k = ground (arith, lookup-append [] x kvs key, k)

Absent-tail :
    (o : Option Bytes) (x : KeyValue) (kvs : List KeyValue) → Absent o (x ∷ kvs) → Absent o kvs
Absent-tail none x kvs h = tt
Absent-tail (some key) x kvs h = (lookup-append [] x kvs key h).2

Absent-keep_key :
    (o : Option Bytes) (x : KeyValue) (kvs rest : List KeyValue)
    → Absent o (x ∷ (kvs ++ rest))
    → Absent o (keep_key x kvs ++ rest)
Absent-keep_key o x [] rest h = elim (Bool-cases (is_some x.key)) [
  | inl k ↦ rw k h
  | inr k ↦ rw k (Absent-tail o x rest h)
]
Absent-keep_key o x (y ∷ kvs) rest h = h

UniqueKeys-keep_key :
    (x : KeyValue) (kvs rest : List KeyValue)
    → UniqueKeys (x ∷ (kvs ++ rest))
    → UniqueKeys (keep_key x kvs ++ rest)
UniqueKeys-keep_key x [] rest u = elim (Bool-cases (is_some x.key)) [
  | inl k ↦ rw k u
  | inr k ↦ rw k u.1
]
UniqueKeys-keep_key x (y ∷ kvs) rest u = u

Absent-strip_comments :
    (o : Option Bytes) (kvs rest : List KeyValue)
    → Absent o (kvs ++ rest)
    → Absent o (strip_comments kvs ++ rest)
unfolding strip_comments
Absent-strip_comments o [] rest h = h
Absent-strip_comments o (x ∷ kvs) rest h =
    Absent-keep_key o x (strip_comments kvs) rest
      (Absent-cons o x (kvs ++ rest) _ h (Absent-strip_comments o kvs rest))

UniqueKeys-strip :
    (kvs rest : List KeyValue) → UniqueKeys (kvs ++ rest) → UniqueKeys (strip_comments kvs ++ rest)
unfolding strip_comments
UniqueKeys-strip [] rest u = u
UniqueKeys-strip (x ∷ kvs) rest u =
    UniqueKeys-keep_key x (strip_comments kvs) rest
      (Absent-strip_comments x.key kvs rest u.0, UniqueKeys-strip kvs rest u.1)

Absent-remark :
    (o : Option Bytes) (text : Bytes) (rest : List KeyValue)
    → Absent o rest
    → Absent o (remark text ∷ rest)
unfolding lookup_keyvalue named
Absent-remark none text rest h = tt
Absent-remark (some key) text rest h = ground arith

Absent-insert :
    (o : Option Bytes) (text : Bytes) (kvs rest : List KeyValue)
    → Absent o (kvs ++ rest)
    → Absent o (kvs ++ remark text ∷ rest)
Absent-insert o text [] rest h = Absent-remark o text rest h
Absent-insert o text (x ∷ kvs) rest h =
    Absent-cons o x (kvs ++ rest) _ h (Absent-insert o text kvs rest)

UniqueKeys-insert :
    (text : Bytes) (kvs rest : List KeyValue)
    → UniqueKeys (kvs ++ rest)
    → UniqueKeys (kvs ++ remark text ∷ rest)
UniqueKeys-insert text [] rest u = (tt, u)
UniqueKeys-insert text (x ∷ kvs) rest u =
    (Absent-insert x.key text kvs rest u.0, UniqueKeys-insert text kvs rest u.1)

-- The comments above the entry at `j` are dropped.
pub UniqueKeys-uncommented :
    (kvs : List KeyValue) (j : ℕ)
    → UniqueKeys kvs
    → UniqueKeys (strip_comments (take j kvs) ++ drop j kvs)
UniqueKeys-uncommented kvs j u =
    UniqueKeys-strip (take j kvs) (drop j kvs) (subst UniqueKeys (sym (take-append-drop j kvs)) u)

-- One is put in their place.
pub UniqueKeys-commented :
    (kvs : List KeyValue) (j : ℕ) (text : Bytes)
    → UniqueKeys kvs
    → UniqueKeys (strip_comments (take j kvs) ++ remark text ∷ drop j kvs)
UniqueKeys-commented kvs j text u =
    UniqueKeys-insert text (strip_comments (take j kvs)) (drop j kvs)
      (UniqueKeys-uncommented kvs j u)
