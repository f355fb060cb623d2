-- ===== src/DList/Seg.antt =====
-- Lists on the heap: the elements at a sequence of addresses, with their data.
use wzdftpd.Base.{
  Bool, true, false, not, ◌&&◌, ◌||◌, List, [], ◌∷◌, ◌++◌, Option, some, ◌==◌, ◌≡◌, refl, arith,
}
use wzdftpd.DList.{Ptr, DListElmt, Heap, elmt, write}

abbrev pub Cells : Type 0 → Type 0
Cells D = List (Ptr × D)

module _ {D : Type 0} where
  abbrev pub first_of : Cells D → Option Ptr → Option Ptr
  first_of [] after = after
  first_of (c ∷ cs) after = some c.0

  abbrev pub last_of : Option Ptr → Cells D → Option Ptr
  last_of before [] = before
  last_of before (c ∷ cs) = last_of (some c.0) cs

  -- The elements are linked both ways, from `before` to `after`.
  unfoldable pub Seg : Heap D → Option Ptr → Cells D → Option Ptr → Type 0
  Seg h before [] after = Unit
  Seg h before (c ∷ cs) after =
      (h c.0 ≡ some (elmt c.1 before (first_of cs after))) × Seg h (some c.0) cs after

  unfoldable pub has : Ptr → Cells D → Bool
  has p [] = false
  has p (c ∷ cs) = c.0 == p || has p cs

  unfoldable pub all_distinct : Cells D → Bool
  all_distinct [] = true
  all_distinct (c ∷ cs) = not (has c.0 cs) && all_distinct cs

  pub Seg-append :
      (h : Heap D) (before after : Option Ptr) (xs ys : Cells D)
      → Seg h before xs (first_of ys after)
      → Seg h (last_of before xs) ys after
      → Seg h before (xs ++ ys) after
  unfolding Seg
  Seg-append h before after [] ys a b = b
  Seg-append h before after (c ∷ []) ys a b = (a.0, b)
  Seg-append h before after (c ∷ d ∷ xs) ys a b =
      (a.0, Seg-append h (some c.0) after (d ∷ xs) ys a.1 b)

  pub Seg-left :
      (h : Heap D) (before after : Option Ptr) (xs ys : Cells D)
      → Seg h before (xs ++ ys) after
      → Seg h before xs (first_of ys after)
  unfolding Seg
  Seg-left h before after [] ys a = tt
  Seg-left h before after (c ∷ []) ys a = (a.0, tt)
  Seg-left h before after (c ∷ d ∷ xs) ys a = (a.0, Seg-left h (some c.0) after (d ∷ xs) ys a.1)

  pub Seg-right :
      (h : Heap D) (before after : Option Ptr) (xs ys : Cells D)
      → Seg h before (xs ++ ys) after
      → Seg h (last_of before xs) ys after
  unfolding Seg
  Seg-right h before after [] ys a = a
  Seg-right h before after (c ∷ xs) ys a = Seg-right h (some c.0) after xs ys a.1

  -- A write elsewhere keeps the elements.
  pub Seg-write :
      (h : Heap D) (p : Ptr) (n : Option (DListElmt D)) (before after : Option Ptr) (xs : Cells D)
      → has p xs ≡ false
      → Seg h before xs after
      → Seg (write h p n) before xs after
  unfolding Seg has write
  Seg-write h p n before after [] e s = tt
  Seg-write h p n before after (c ∷ xs) e s =
      let other : (c.0 == p) ≡ false = ground arith in
      (rw other s.0, Seg-write h p n (some c.0) after xs (ground arith) s.1)

  pub has-append : (p : Ptr) (xs ys : Cells D) → has p (xs ++ ys) ≡ has p xs || has p ys
  unfolding has
  has-append p [] ys = refl
  has-append p (c ∷ xs) ys = ground (arith, has-append p xs ys)
