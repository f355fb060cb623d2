-- ===== src/DList/Refine.antt =====
-- A doubly linked list as the sequence that it holds.
use wzdftpd.Base.{
  true, false, [], ◌∷◌, ◌++◌, Option, none, some, ◌==◌, ◌≡◌, refl, length, length-append, arith,
}
use wzdftpd.DList.{Ptr, DList, Heap, Outcome, done, elmt}
use wzdftpd.DList.Seg.{Cells, first_of, last_of, Seg, all_distinct, Seg-right}

-- A list that holds a sequence of elements on the heap.
pub record IsDList {D : Type 0} (h : Heap D) (l : DList) (cs : Cells D) : Type 0 where
  pub linked : Seg h none cs none
  pub distinct : all_distinct cs ≡ true
  pub head_is : l.head ≡ first_of cs none
  pub tail_is : l.tail ≡ last_of none cs
  pub size_is : l.size ≡ length cs

-- A call that succeeds and leaves a list with these elements.
pub record Gives {D : Type 0} (o : Outcome D) (cs : Cells D) : Type 0 where
  pub heap : Heap D
  pub list : DList
  pub gives : o ≡ done heap list
  pub holds : IsDList heap list cs

module _ {D : Type 0} where
  pub last_of-append :
      (b : Option Ptr) (xs ys : Cells D) → last_of b (xs ++ ys) ≡ last_of (last_of b xs) ys
  last_of-append b [] ys = refl
  last_of-append b (c ∷ xs) ys = last_of-append (some c.0) xs ys

  pub node_at :
      (h : Heap D) (c : Ptr × D) (xs ys : Cells D)
      → Seg h none (xs ++ c ∷ ys) none
      → h c.0 ≡ some (elmt c.1 (last_of none xs) (first_of ys none))
  unfolding Seg
  node_at h c xs ys s = (Seg-right h none none xs (c ∷ ys) s).0

  pub not_empty :
      (l : DList) (c : Ptr × D) (xs ys : Cells D)
      → l.size ≡ length (xs ++ c ∷ ys)
      → (l.size == 0) ≡ false
  not_empty l c xs ys e = ground (arith, length-append xs (c ∷ ys))
