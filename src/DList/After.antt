-- ===== src/DList/After.antt =====
-- dlist_ins_next puts an element after another.
use wzdftpd.Base.{
  ◌+◌, true, false, [], ◌∷◌, ◌++◌, append_assoc, none, some, ◌≡◌, refl, sym, ◌∙◌, length-append,
  arith,
}
use mathlib.Core.Path.{subst}
use wzdftpd.DList.{
  Ptr, DList, Heap, elmt, write, set_next, set_next_of, set_prev_of, and_then, is_null, grown,
  with_tail, dlist_ins_next,
}
use wzdftpd.DList.Seg.{Cells, first_of, last_of, Seg, has, all_distinct}
use wzdftpd.DList.Link.{distinct-insert}
use wzdftpd.DList.Splice.{splice_after}
use wzdftpd.DList.Refine.{IsDList, Gives, last_of-append, node_at, not_empty}

module _ {D : Type 0} where
  tail-after :
      (l : DList) (c : Ptr × D) (q : Ptr) (d : D) (xs ys : Cells D)
      → l.tail ≡ last_of none (xs ++ c ∷ ys)
      → (grown (with_tail (is_null (first_of ys none)) q l)).tail
        ≡ last_of none (xs ++ c ∷ (q, d) ∷ ys)
  tail-after l c q d xs [] e = sym (last_of-append none xs (c ∷ (q, d) ∷ []))
  tail-after l c q d xs (y ∷ ys) e =
      e ∙ last_of-append none xs (c ∷ y ∷ ys) ∙ sym (last_of-append none xs (c ∷ (q, d) ∷ y ∷ ys))

  head-after :
      (l : DList) (c : Ptr × D) (q : Ptr) (xs ys zs : Cells D)
      → l.head ≡ first_of (xs ++ c ∷ ys) none
      → (grown (with_tail (is_null (first_of ys none)) q l)).head ≡ first_of (xs ++ c ∷ zs) none
  head-after l c q [] [] zs e = e
  head-after l c q [] (y ∷ ys) zs e = e
  head-after l c q (x ∷ xs) [] zs e = e
  head-after l c q (x ∷ xs) (y ∷ ys) zs e = e

  size-after :
      (l : DList) (q : Ptr) (ys : Cells D)
      → (grown (with_tail (is_null (first_of ys none)) q l)).size ≡ l.size + 1
  size-after l q [] = refl
  size-after l q (y ∷ ys) = refl

  module _ (h : Heap D) (l : DList) (xs ys : Cells D) (c : Ptr × D) (q : Ptr) (d : D)
      (i : IsDList h l (xs ++ c ∷ ys)) (f : has q (xs ++ c ∷ ys) ≡ false) where
    linked_after :
        (h' : Heap D) × (and_then
            (set_prev_of
              (first_of ys none)
              (some q)
              (write h q (some (elmt d (some c.0) (first_of ys none)))))
            (set_next c.0 (some q))
          ≡ some h')
        × Seg h' none (xs ++ c ∷ (q, d) ∷ ys) none
    linked_after =
        let assoc = sym (append_assoc xs (c ∷ []) ys) in
        let (h', e, s) =
          splice_after h q d (xs ++ c ∷ []) ys (subst (λ z. Seg h none z none) assoc i.linked)
            (subst (λ z. all_distinct z ≡ true) assoc i.distinct)
            (subst (λ z. has q z ≡ false) assoc f) in
        (
          h',
          subst
              (λ p.
                and_then
                  (set_prev_of (first_of ys none) (some q)
                    (write h q (some (elmt d p (first_of ys none)))))
                  (set_next_of p (some q))
                ≡ some h')
              (last_of-append none xs (c ∷ [])) e,
          subst (λ z. Seg h' none z none) (append_assoc xs (c ∷ []) ((q, d) ∷ ys)) s,
        )

    pub dlist_ins_next-Gives :
        Gives (dlist_ins_next (some q) h l (some c.0) d) (xs ++ c ∷ (q, d) ∷ ys)
    unfolding dlist_ins_next
    dlist_ins_next-Gives =
        let (h', e, s) = linked_after in
        record {
          heap = h';
          list = grown (with_tail (is_null (first_of ys none)) q l);
          gives = rw (not_empty l c xs ys i.size_is, node_at h c xs ys i.linked, e) refl;
          holds = record {
            linked = s;
            distinct =
                subst (λ z. all_distinct z ≡ true) (append_assoc xs (c ∷ []) ((q, d) ∷ ys))
                  (distinct-insert q d (xs ++ c ∷ []) ys
                    (subst (λ z. all_distinct z ≡ true) (sym (append_assoc xs (c ∷ []) ys))
                      i.distinct)
                    (subst (λ z. has q z ≡ false) (sym (append_assoc xs (c ∷ []) ys)) f));
            head_is = head-after l c q xs ys ((q, d) ∷ ys) i.head_is;
            tail_is = tail-after l c q d xs ys i.tail_is;
            size_is =
                size-after l q ys
                ∙ omega (
                  arith,
                  i.size_is,
                  length-append xs (c ∷ ys),
                  length-append xs (c ∷ (q, d) ∷ ys),
                );
          };
        }
