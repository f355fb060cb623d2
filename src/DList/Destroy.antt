-- ===== src/DList/Destroy.antt =====
-- dlist_destroy empties a list from its tail.
use wzdftpd.Base.{
  ℕ, zero, suc, List, [], ◌∷◌, ◌++◌, append-nil, map, none, some, ◌≡◌, refl, sym, ap, ◌∙◌, ◌⊎◌, inl,
  inr, length, length-append, arith,
}
use mathlib.Core.Path.{subst}
use mathlib.Core.List.{reverse, reverse_aux}
use wzdftpd.DList.{
  Ptr, DList, Heap, dlist_remove, removed_data, next_round, destroy_from, dlist_destroy,
}
use wzdftpd.DList.Seg.{Cells}
use wzdftpd.DList.Refine.{IsDList, node_at, not_empty, last_of-append}
use wzdftpd.DList.Removed.{dlist_remove-Gives}

module _ {D : Type 0} where
  abbrev pub data_of_all : Cells D → List D
  data_of_all cs = map (λ c. c.1) cs

  last_cell : (cs : Cells D) → (cs ≡ []) ⊎ ((xs : Cells D) × (c : Ptr × D) × (cs ≡ xs ++ c ∷ []))
  last_cell [] = inl refl
  last_cell (b ∷ cs) = elim (last_cell cs) [
    | inl e ↦ inr ([], b, ap (◌∷◌ b) e)
    | inr (xs, c, e) ↦ inr (b ∷ xs, c, ap (◌∷◌ b) e)
  ]

  reverse_aux-last :
      (xs : Cells D) (c : Ptr × D) (acc : List D)
      → reverse_aux (data_of_all (xs ++ c ∷ [])) acc ≡ c.1 ∷ reverse_aux (data_of_all xs) acc
  reverse_aux-last [] c acc = refl
  reverse_aux-last (x ∷ xs) c acc = reverse_aux-last xs c (x.1 ∷ acc)

  removed-last :
      (h : Heap D) (l : DList) (xs : Cells D) (c : Ptr × D)
      → IsDList h l (xs ++ c ∷ [])
      → removed_data h l (some c.0) ≡ some c.1
  unfolding removed_data
  removed-last h l xs c i = rw (not_empty l c xs [] i.size_is, node_at h c xs [] i.linked) refl

  destroy_from-step :
      (n : ℕ) (h : Heap D) (l : DList) (xs : Cells D) (c : Ptr × D) (ds : List D)
      → IsDList h l (xs ++ c ∷ [])
      → ((h' : Heap D) (l' : DList) → IsDList h' l' xs → destroy_from n h' l' ≡ some ds)
      → destroy_from (suc n) h l ≡ some (c.1 ∷ ds)
  unfolding destroy_from
  destroy_from-step n h l xs c ds i k =
      let g = dlist_remove-Gives h l xs [] c i in
      let tail : l.tail ≡ some c.0 = i.tail_is ∙ last_of-append none xs (c ∷ []) in
      rw (not_empty l c xs [] i.size_is) (
        ap (λ t. next_round (dlist_remove h l t) (removed_data h l t) (destroy_from n) h l) tail
        ∙ rw
            (
              g.gives,
              removed-last h l xs c i,
              k g.heap g.list (subst (IsDList g.heap g.list) (append-nil xs) g.holds),
            )
            refl)

  destroy_from-all :
      (n : ℕ) (h : Heap D) (l : DList) (cs : Cells D)
      → IsDList h l cs
      → length cs ≡ n
      → destroy_from n h l ≡ some (reverse (data_of_all cs))
  unfolding destroy_from
  destroy_from-all zero h l [] i e = rw i.size_is refl
  destroy_from-all zero h l (c ∷ cs) i e = absurd (omega arith)
  destroy_from-all (suc n) h l cs i e = elim (last_cell cs) [
    | inl z ↦ absurd (omega (arith, ap length z))
    | inr (xs, c, z) ↦
        let shorter : length xs ≡ n = omega (arith, ap length z, length-append xs (c ∷ [])) in
        destroy_from-step n h l xs c (reverse (data_of_all xs)) (subst (IsDList h l) z i)
          (λ h' l' i'. destroy_from-all n h' l' xs i' shorter)
        ∙ ap some (sym (ap (λ k. reverse (data_of_all k)) z ∙ reverse_aux-last xs c []))
  ]

  -- On a list that holds a sequence of elements, the loop of dlist_destroy ends, without a fault, and
  -- calls destroy once on each element's data, from the tail to the head.
  pub dlist_destroy-all :
      (h : Heap D) (l : DList) (cs : Cells D)
      → IsDList h l cs
      → dlist_destroy h l ≡ some (reverse (data_of_all cs))
  unfolding dlist_destroy
  dlist_destroy-all h l cs i =
      ap (λ n. destroy_from n h l) i.size_is ∙ destroy_from-all (length cs) h l cs i refl
