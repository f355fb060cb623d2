-- ===== src/DList/Removed.antt =====
-- dlist_remove takes an element out.
use wzdftpd.Base.{
  ◌-◌, true, false, [], ◌∷◌, ◌++◌, Option, none, some, ◌≡◌, refl, sym, ap, ◌∙◌, length,
  length-append, arith,
}
use mathlib.Core.Path.{subst}
use wzdftpd.DList.{
  Ptr, DList, Heap, set_next_of, set_prev_of, and_then, freed, points_to, shrunk, new_tail,
  dlist_remove,
}
use wzdftpd.DList.Seg.{Cells, first_of, last_of, has, all_distinct, has-append}
use wzdftpd.DList.Link.{distinct-remove}
use wzdftpd.DList.Splice.{unsplice}
use wzdftpd.DList.Refine.{IsDList, Gives, last_of-append, node_at, not_empty}

size-new_tail : (t p : Option Ptr) (l : DList) → (new_tail t p l).size ≡ l.size
size-new_tail none p l = refl
size-new_tail (some b) p l = refl

head-new_tail : (t p : Option Ptr) (l : DList) → (new_tail t p l).head ≡ l.head
head-new_tail none p l = refl
head-new_tail (some b) p l = refl

module _ {D : Type 0} where
  last_of-some : (p : Ptr) (xs : Cells D) → (a : Ptr) × (last_of (some p) xs ≡ some a)
  last_of-some p [] = (p, refl)
  last_of-some p (x ∷ xs) = last_of-some x.0 xs

  head_differs :
      (l : DList) (c x : Ptr × D) (xs ys : Cells D)
      → all_distinct (x ∷ xs ++ c ∷ ys) ≡ true
      → l.head ≡ some x.0
      → points_to l.head c.0 ≡ false
  unfolding all_distinct has
  head_differs l c x xs ys u e = rw e (ground (arith, has-append x.0 xs (c ∷ ys)))

  size_of-rest :
      (l : DList) (c : Ptr × D) (xs ys : Cells D)
      → l.size ≡ length (xs ++ c ∷ ys)
      → l.size - 1 ≡ length (xs ++ ys)
  size_of-rest l c xs ys e = omega (arith, length-append xs (c ∷ ys), length-append xs ys)

  tail-new_tail :
      (p : Option Ptr) (l : DList) (c : Ptr × D) (xs ys : Cells D)
      → p ≡ last_of none xs
      → l.tail ≡ last_of none (xs ++ c ∷ ys)
      → (new_tail (first_of ys none) p l).tail ≡ last_of none (xs ++ ys)
  tail-new_tail p l c xs [] e t = e ∙ sym (last_of-append none xs [])
  tail-new_tail p l c xs (y ∷ ys) e t =
      t ∙ last_of-append none xs (c ∷ y ∷ ys) ∙ sym (last_of-append none xs (y ∷ ys))

  dlist_remove-head :
      (h : Heap D) (l : DList) (ys : Cells D) (c : Ptr × D)
      → IsDList h l (c ∷ ys)
      → Gives (dlist_remove h l (some c.0)) ys
  unfolding dlist_remove
  dlist_remove-head h l ys c i =
      let (h', e, s) = unsplice h c [] ys i.linked i.distinct in
      let l1 = record l { head = first_of ys none } in
      let here : points_to l.head c.0 ≡ true = rw i.head_is (ground arith) in
      record {
        heap = h';
        list = shrunk (new_tail (first_of ys none) none l1);
        gives = rw (not_empty l c [] ys i.size_is, node_at h c [] ys i.linked, here, e) refl;
        holds = record {
          linked = s;
          distinct = distinct-remove c [] ys i.distinct;
          head_is = head-new_tail (first_of ys none) none l1;
          tail_is = tail-new_tail none l1 c [] ys refl i.tail_is;
          size_is =
              ap (λ n. n - 1) (size-new_tail (first_of ys none) none l1)
              ∙ size_of-rest l c [] ys i.size_is;
        };
      }

  dlist_remove-inner :
      (h : Heap D) (l : DList) (x : Ptr × D) (xs ys : Cells D) (c : Ptr × D)
      → IsDList h l (x ∷ xs ++ c ∷ ys)
      → Gives (dlist_remove h l (some c.0)) (x ∷ xs ++ ys)
  unfolding dlist_remove
  dlist_remove-inner h l x xs ys c i =
      let (h', e, s) = unsplice h c (x ∷ xs) ys i.linked i.distinct in
      let (a, ea) = last_of-some x.0 xs in
      let e' =
        subst
          (λ p.
            and_then
              (and_then (set_next_of p (first_of ys none) h) (set_prev_of (first_of ys none) p))
              (freed c.0)
            ≡ some h')
          ea e in
      record {
        heap = h';
        list = shrunk (new_tail (first_of ys none) (some a) l);
        gives =
            rw
              (
                not_empty l c (x ∷ xs) ys i.size_is,
                node_at h c (x ∷ xs) ys i.linked,
                head_differs l c x xs ys i.distinct i.head_is,
                ea,
                e',
              )
              refl;
        holds = record {
          linked = s;
          distinct = distinct-remove c (x ∷ xs) ys i.distinct;
          head_is = head-new_tail (first_of ys none) (some a) l ∙ i.head_is;
          tail_is = tail-new_tail (some a) l c (x ∷ xs) ys (sym ea) i.tail_is;
          size_is =
              ap (λ n. n - 1) (size-new_tail (first_of ys none) (some a) l)
              ∙ size_of-rest l c (x ∷ xs) ys i.size_is;
        };
      }

  pub dlist_remove-Gives :
      (h : Heap D) (l : DList) (xs ys : Cells D) (c : Ptr × D)
      → IsDList h l (xs ++ c ∷ ys)
      → Gives (dlist_remove h l (some c.0)) (xs ++ ys)
  dlist_remove-Gives h l [] ys c i = dlist_remove-head h l ys c i
  dlist_remove-Gives h l (x ∷ xs) ys c i = dlist_remove-inner h l x xs ys c i
