-- ===== src/DList/Laws.antt =====
-- The operations of a doubly linked list, as changes of the sequence that it holds.
use wzdftpd.Base.{◌+◌, false, [], ◌∷◌, ◌++◌, Option, none, some, ◌≡◌, refl, ap}
use wzdftpd.DList.{
  Ptr, DList, Heap, done, refused, dlist_ins_next, dlist_ins_prev, dlist_remove, removed_data, elmt,
  write,
}
use wzdftpd.DList.Seg.{Cells, has, Seg, all_distinct}
use wzdftpd.DList.Link.{write-here}
use wzdftpd.DList.Refine.{IsDList, Gives, node_at, not_empty}
use wzdftpd.DList.After.{dlist_ins_next-Gives}
use wzdftpd.DList.Before.{dlist_ins_prev-Gives}
use wzdftpd.DList.Removed.{dlist_remove-Gives}

module _ {D : Type 0} where
  -- On a list that holds a sequence of elements and for an element of it, where malloc gives an address
  -- that is not in the list: dlist_ins_next puts the new element after it, dlist_ins_prev before it, and
  -- dlist_remove takes it out and gives its data; the links of both directions, the head, the tail and
  -- the size are again those of the sequence. Without an element, and where malloc fails, both insertions
  -- return -1.
  pub dlist-Gives :
      (h : Heap D) (l : DList) (xs ys : Cells D) (c : Ptr × D) (q : Ptr) (d : D)
      → IsDList h l (xs ++ c ∷ ys)
      → has q (xs ++ c ∷ ys) ≡ false
      → Gives (dlist_ins_next (some q) h l (some c.0) d) (xs ++ c ∷ (q, d) ∷ ys)
        × Gives (dlist_ins_prev (some q) h l (some c.0) d) (xs ++ (q, d) ∷ c ∷ ys)
        × Gives (dlist_remove h l (some c.0)) (xs ++ ys)
        × (removed_data h l (some c.0) ≡ some c.1)
        × (dlist_ins_next (some q) h l none d ≡ refused)
        × (dlist_ins_prev (some q) h l none d ≡ refused)
        × (dlist_ins_next none h l (some c.0) d ≡ refused)
        × (dlist_ins_prev none h l (some c.0) d ≡ refused)
  unfolding dlist_ins_next dlist_ins_prev removed_data
  dlist-Gives h l xs ys c q d i f =
      let size = not_empty l c xs ys i.size_is in
      (
        dlist_ins_next-Gives h l xs ys c q d i f,
        dlist_ins_prev-Gives h l xs ys c q d i f,
        dlist_remove-Gives h l xs ys c i,
        rw (size, node_at h c xs ys i.linked) refl,
        rw size refl,
        rw size refl,
        refl,
        refl,
      )

  empty-done :
      (h : Heap D) (l : DList) (element : Option Ptr) (q : Ptr) (d : D)
      → l.size ≡ 0
      → dlist_ins_next (some q) h l element d
        ≡ done
            (write h q (some (elmt d none none)))
            (record { size = l.size + 1; head = some q; tail = some q })
  unfolding dlist_ins_next
  empty-done h l none q d e = rw e refl
  empty-done h l (some p) q d e = rw e refl

  -- The first insertion into an empty list holds one element, whatever element is given.
  dlist_ins_next-empty :
      (h : Heap D) (l : DList) (element : Option Ptr) (q : Ptr) (d : D)
      → IsDList h l []
      → Gives (dlist_ins_next (some q) h l element d) ((q, d) ∷ [])
  unfolding dlist_ins_next Seg all_distinct has
  dlist_ins_next-empty h l element q d i = record {
    heap = write h q (some (elmt d none none));
    list = record { size = l.size + 1; head = some q; tail = some q };
    gives = empty-done h l element q d i.size_is;
    holds = record {
      linked = (write-here h q _, tt);
      distinct = refl;
      head_is = refl;
      tail_is = refl;
      size_is = ap (λ n. n + 1) i.size_is;
    };
  }
