-- ===== src/Tests/HashTheorems.antt =====
-- The hash tables on a table of two containers, and the theorems on it.
use wzdftpd.Base.{
  ℕ, [], ◌∷◌, none, some, true, not, ◌||◌, ◌≡◌, refl, arith, codes, Bytes, str_eq, if◌then◌else◌,
  map,
}
use Prim.Native.Nat.{Ordering}
use mathlib.Core.List.{Perm}
use wzdftpd.Hash.{
  Element, Table, Chain, returns_minus_1, returns_0, returns_1, hash_str, hash_from, char_value,
  find, chtbl_init, chtbl_lookup, chtbl_insert, chtbl_remove, chtbl_change, chtbl_insert_or_change,
  call_trigger, is_some,
}
use wzdftpd.Hash.Extract.{chtbl_extract, chtbl_extract-sorted, Ascending, kept_all, is_gt, is_lt}
use wzdftpd.Hash.Invariant.{IsValid}
use wzdftpd.Hash.Lookup.{
  element, chtbl_insert-lookup, chtbl_remove-lookup, chtbl_insert_or_change-lookup,
}
use wzdftpd.Hash.Steps.{Reachable, init, insert, remove, Reachable-IsValid}
use wzdftpd.Hash.Strings.{strings-IsKeyed}

abbrev entry : Bytes → ℕ → Element Bytes ℕ ℕ
entry k v = record {
  key = k;
  value = some v;
  trigger = some 9;
  free_key = none;
  free_element = none;
}

abbrev two_keys : Table Bytes ℕ ℕ
two_keys =
    (chtbl_insert hash_str str_eq
      (chtbl_insert hash_str str_eq (chtbl_init 2) (entry (codes "site") 1)).0
      (entry (codes "user") 2)).0

two_keys-Reachable : Reachable hash_str str_eq two_keys
two_keys-Reachable =
    insert (entry (codes "user") 2) (insert (entry (codes "site") 1) (init (omega arith)))

Reachable-IsValid_example :
    IsValid hash_str str_eq (chtbl_remove hash_str str_eq two_keys (codes "site")).0
Reachable-IsValid_example =
    Reachable-IsValid hash_str str_eq strings-IsKeyed (remove (codes "site") two_keys-Reachable)

two_keys-IsValid : IsValid hash_str str_eq two_keys
two_keys-IsValid = Reachable-IsValid hash_str str_eq strings-IsKeyed two_keys-Reachable

unfoldable runs : Unit {0}
unfolding chtbl_init chtbl_lookup chtbl_insert chtbl_remove chtbl_change chtbl_insert_or_change
    chtbl_extract str_eq hash_str find hash_from char_value
runs = tt

two_keys-site : chtbl_lookup hash_str str_eq two_keys (some (codes "site")) ≡ (returns_0, some 1)
unfolding runs
two_keys-site = refl

two_keys-change :
    (chtbl_change hash_str str_eq two_keys (codes "user") (some 5)).2
    ≡ call_trigger (some 9) (codes "user") (some 5)
unfolding runs
two_keys-change = refl

chtbl_insert-lookup_example :
    let r = chtbl_insert hash_str str_eq two_keys (entry (codes "quit") 3) in
    let found = is_some (element hash_str str_eq two_keys (codes "quit")) in
    (r.1 ≡ (if found then returns_1 else returns_0))
    × (chtbl_lookup hash_str str_eq r.0 (some (codes "quit")) ≡ (
        if found || not (str_eq (codes "quit") (codes "quit"))
        then chtbl_lookup hash_str str_eq two_keys (some (codes "quit"))
        else (returns_0, some 3)))
chtbl_insert-lookup_example =
    chtbl_insert-lookup hash_str str_eq strings-IsKeyed two_keys (entry (codes "quit") 3)
      (codes "quit") two_keys-IsValid

chtbl_remove-lookup_example :
    let r = chtbl_remove hash_str str_eq two_keys (codes "site") in
    (r.1 ≡ (
      if is_some (element hash_str str_eq two_keys (codes "site"))
      then returns_0
      else returns_minus_1))
    × (chtbl_lookup hash_str str_eq r.0 (some (codes "user")) ≡ (
        if str_eq (codes "site") (codes "user")
        then (returns_1, none)
        else chtbl_lookup hash_str str_eq two_keys (some (codes "user"))))
chtbl_remove-lookup_example =
    chtbl_remove-lookup hash_str str_eq strings-IsKeyed two_keys (codes "site") (codes "user")
      two_keys-IsValid

chtbl_insert_or_change-lookup_example :
    let r = chtbl_insert_or_change hash_str str_eq two_keys (entry (codes "site") 7) in
    (r.1 ≡ returns_0)
    × (chtbl_lookup hash_str str_eq r.0 (some (codes "site")) ≡ (
        if str_eq (codes "site") (codes "site")
        then (returns_0, some 7)
        else chtbl_lookup hash_str str_eq two_keys (some (codes "site"))))
    × (r.2 ≡ elim (element hash_str str_eq two_keys (codes "site")) [
      | none ↦ []
      | some o ↦ call_trigger o.trigger o.key (some 7)
    ])
chtbl_insert_or_change-lookup_example =
    chtbl_insert_or_change-lookup hash_str str_eq strings-IsKeyed two_keys (entry (codes "site") 7)
      7 (codes "site") two_keys-IsValid refl

-- Keys by their lengths.
abbrev by_length : Bytes → Bytes → Ordering
by_length [] [] = Ordering.eq
by_length [] (y ∷ b) = Ordering.lt
by_length (x ∷ a) [] = Ordering.gt
by_length (x ∷ a) (y ∷ b) = by_length a b

by_length-flip : (a b : Bytes) → is_gt (by_length a b) ≡ is_lt (by_length b a)
by_length-flip [] [] = refl
by_length-flip [] (y ∷ b) = refl
by_length-flip (x ∷ a) [] = refl
by_length-flip (x ∷ a) (y ∷ b) = by_length-flip a b

chtbl_extract-sorted_example :
    ((l : Chain Bytes ℕ ℕ) × (chtbl_extract two_keys (λ k. true) (some by_length)
        ≡ map (λ e. e.value) l)
      × Ascending by_length l
      × Perm l (kept_all (λ k. true) two_keys.table))
    × (chtbl_extract two_keys (λ k. true) none
        ≡ map (λ e. e.value) (kept_all (λ k. true) two_keys.table))
chtbl_extract-sorted_example = chtbl_extract-sorted by_length two_keys (λ k. true) by_length-flip
