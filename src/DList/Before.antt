-- ===== src/DList/Before.antt =====
-- dlist_ins_prev puts an element before another.
use wzdftpd.Base.{
  ◌+◌, Bool, true, false, [], ◌∷◌, ◌++◌, none, some, ◌≡◌, refl, sym, ◌∙◌, length-append, arith,
}
use wzdftpd.DList.{Ptr, DList, Heap, is_null, grown, with_head, dlist_ins_prev}
use wzdftpd.DList.Seg.{Cells, first_of, last_of, has}
use wzdftpd.DList.Link.{distinct-insert}
use wzdftpd.DList.Splice.{splice_before}
use wzdftpd.DList.Refine.{IsDList, Gives, last_of-append, node_at, not_empty}

size-before : (l : DList) (q : Ptr) (b : Bool) → (grown (with_head b q l)).size ≡ l.size + 1
size-before l q true = refl
size-before l q false = refl

module _ {D : Type 0} where
  is_null-last_of : (p : Ptr) (xs : Cells D) → is_null (last_of (some p) xs) ≡ false
  is_null-last_of p [] = refl
  is_null-last_of p (x ∷ xs) = is_null-last_of x.0 xs

  head-before :
      (l : DList) (q : Ptr) (d : D) (xs ys : Cells D)
      → l.head ≡ first_of (xs ++ ys) none
      → (grown (with_head (is_null (last_of none xs)) q l)).head ≡ first_of (xs ++ (q, d) ∷ ys) none
  head-before l q d [] ys e = refl
  head-before l q d (x ∷ xs) ys e = rw (is_null-last_of x.0 xs) e

  tail-before :
      (l : DList) (c : Ptr × D) (q : Ptr) (d : D) (xs ys : Cells D)
      → l.tail ≡ last_of none (xs ++ c ∷ ys)
      → (grown (with_head (is_null (last_of none xs)) q l)).tail
        ≡ last_of none (xs ++ (q, d) ∷ c ∷ ys)
  tail-before l c q d [] ys e = e
  tail-before l c q d (x ∷ xs) ys e = rw (is_null-last_of x.0 xs) (
      e
      ∙ last_of-append none (x ∷ xs) (c ∷ ys)
      ∙ sym (last_of-append none (x ∷ xs) ((q, d) ∷ c ∷ ys)))

  module _ (h : Heap D) (l : DList) (xs ys : Cells D) (c : Ptr × D) (q : Ptr) (d : D)
      (i : IsDList h l (xs ++ c ∷ ys)) (f : has q (xs ++ c ∷ ys) ≡ false) where
    pub dlist_ins_prev-Gives :
        Gives (dlist_ins_prev (some q) h l (some c.0) d) (xs ++ (q, d) ∷ c ∷ ys)
    unfolding dlist_ins_prev
    dlist_ins_prev-Gives =
        let (h', e, s) = splice_before h q d xs (c ∷ ys) i.linked i.distinct f in
        record {
          heap = h';
          list = grown (with_head (is_null (last_of none xs)) q l);
          gives = rw (not_empty l c xs ys i.size_is, node_at h c xs ys i.linked, e) refl;
          holds = record {
            linked = s;
            distinct = distinct-insert q d xs (c ∷ ys) i.distinct f;
            head_is = head-before l q d xs (c ∷ ys) i.head_is;
            tail_is = tail-before l c q d xs ys i.tail_is;
            size_is =
                size-before l q (is_null (last_of none xs))
                ∙ omega (
                  arith,
                  i.size_is,
                  length-append xs (c ∷ ys),
                  length-append xs ((q, d) ∷ c ∷ ys),
                );
          };
        }
