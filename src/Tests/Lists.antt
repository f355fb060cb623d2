-- ===== src/Tests/Lists.antt =====
-- A doubly linked list on a concrete heap, and the theorem on it.
use wzdftpd.Base.{ℕ, [], ◌∷◌, none, some, if◌then◌else◌, ◌==◌, ◌≡◌, refl}
use wzdftpd.DList.{
  DList, Heap, elmt, refused, dlist_ins_next, dlist_ins_prev, dlist_remove, removed_data,
  dlist_destroy,
}
use wzdftpd.DList.Seg.{Seg, has, all_distinct}
use wzdftpd.DList.Refine.{IsDList, Gives}
use wzdftpd.DList.Destroy.{dlist_destroy-all}
use wzdftpd.DList.Laws.{dlist-Gives}

abbrev two_elements : Heap ℕ
two_elements p =
    if p == 10
    then some (elmt 1 none (some 20))
    else (if p == 20 then some (elmt 2 (some 10) none) else none)

abbrev two_list : DList
two_list = record { size = 2; head = some 10; tail = some 20 }

two_list-IsDList : IsDList two_elements two_list ((10, 1) ∷ (20, 2) ∷ [])
unfolding Seg has all_distinct
two_list-IsDList = record {
  linked = (refl, (refl, tt));
  distinct = refl;
  head_is = refl;
  tail_is = refl;
  size_is = refl;
}

-- Around the second element, which is the tail.
dlist-Gives_example :
    Gives
      (dlist_ins_next (some 30) two_elements two_list (some 20) 3)
      ((10, 1) ∷ (20, 2) ∷ (30, 3) ∷ [])
    × Gives
        (dlist_ins_prev (some 30) two_elements two_list (some 20) 3)
        ((10, 1) ∷ (30, 3) ∷ (20, 2) ∷ [])
    × Gives (dlist_remove two_elements two_list (some 20)) ((10, 1) ∷ [])
    × (removed_data two_elements two_list (some 20) ≡ some 2)
    × (dlist_ins_next (some 30) two_elements two_list none 3 ≡ refused)
    × (dlist_ins_prev (some 30) two_elements two_list none 3 ≡ refused)
    × (dlist_ins_next none two_elements two_list (some 20) 3 ≡ refused)
    × (dlist_ins_prev none two_elements two_list (some 20) 3 ≡ refused)
unfolding has
dlist-Gives_example =
    dlist-Gives two_elements two_list ((10, 1) ∷ []) [] (20, 2) 30 3 two_list-IsDList refl

dlist_destroy-all_example : dlist_destroy two_elements two_list ≡ some (2 ∷ 1 ∷ [])
dlist_destroy-all_example =
    dlist_destroy-all two_elements two_list ((10, 1) ∷ (20, 2) ∷ []) two_list-IsDList
