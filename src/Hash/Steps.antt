-- ===== src/Hash/Steps.antt =====
-- The states of a hash table: what its users reach from `chtbl_init`.
use wzdftpd.Base.{ℕ, ◌<◌, Bool, Option}
use wzdftpd.Hash.{
  Element, Table, IsKeyed, chtbl_init, chtbl_insert, chtbl_remove, chtbl_change,
  chtbl_insert_or_change,
}
use wzdftpd.Hash.Invariant.{
  IsValid, chtbl_init-IsValid, chtbl_insert-IsValid, chtbl_remove-IsValid, chtbl_change-IsValid,
  chtbl_insert_or_change-IsValid,
}

module _ {K V F : Type 0} (h : K → ℕ) (same : K → K → Bool) where
  pub data Reachable : Table K V F → Type 0 where
    init : {containers : ℕ} → 0 < containers → Reachable (chtbl_init containers)
    insert :
        {htab : Table K V F} (e : Element K V F)
        → Reachable htab
        → Reachable (chtbl_insert h same htab e).0
    remove :
        {htab : Table K V F} (k : K) → Reachable htab → Reachable (chtbl_remove h same htab k).0
    change :
        {htab : Table K V F} (k : K) (v : Option V)
        → Reachable htab
        → Reachable (chtbl_change h same htab k v).0
    insert_or_change :
        {htab : Table K V F} (e : Element K V F)
        → Reachable htab
        → Reachable (chtbl_insert_or_change h same htab e).0

  -- Where the comparison is an equivalence that the hash respects, a table that insertions,
  -- removals and changes reach from an empty one with at least one container, whatever they return,
  -- has its size equal to the number of its elements, every element in the container of its
  -- hash, and no two elements with the same key.
  pub Reachable-IsValid :
      IsKeyed h same → {htab : Table K V F} → Reachable htab → IsValid h same htab
  Reachable-IsValid keyed (init b) = chtbl_init-IsValid h same _ b
  Reachable-IsValid keyed (insert e r) = chtbl_insert-IsValid h same _ e (Reachable-IsValid keyed r)
  Reachable-IsValid keyed (remove k r) =
      chtbl_remove-IsValid h same keyed _ k (Reachable-IsValid keyed r)
  Reachable-IsValid keyed (change k v r) =
      chtbl_change-IsValid h same keyed _ k v (Reachable-IsValid keyed r)
  Reachable-IsValid keyed (insert_or_change e r) =
      chtbl_insert_or_change-IsValid h same keyed _ e (Reachable-IsValid keyed r)
