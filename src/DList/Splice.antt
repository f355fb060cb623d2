-- ===== src/DList/Splice.antt =====
-- Elements put between two parts of a list, and taken out.
use wzdftpd.Base.{true, false, ◌∷◌, ◌++◌, none, some, ◌≡◌, refl, ◌∙◌, inl, inr, Bool-cases, arith}
use wzdftpd.DList.{Ptr, Heap, elmt, write, set_next_of, set_prev_of, and_then, freed}
use wzdftpd.DList.Seg.{
  Cells, first_of, last_of, Seg, has, all_distinct, Seg-append, Seg-left, Seg-right, Seg-write,
  has-append,
}
use wzdftpd.DList.Link.{
  write-here, Seg-same, relink_next, relink_prev, distinct-left, distinct-right, has-disjoint,
  distinct-remove, distinct-head,
}

module _ {D : Type 0} where
  -- The heap with a new element that nothing points to yet.
  abbrev pub with_new : Heap D → Ptr → D → Cells D → Cells D → Heap D
  with_new h q d xs ys = write h q (some (elmt d (last_of none xs) (first_of ys none)))

  has-parts :
      (q : Ptr) (xs ys : Cells D)
      → has q (xs ++ ys) ≡ false
      → (has q xs ≡ false) × (has q ys ≡ false)
  has-parts q xs ys e = ground (arith, has-append q xs ys)

  disjoint-left :
      (r : Ptr) (xs ys : Cells D)
      → all_distinct (xs ++ ys) ≡ true
      → has r ys ≡ true
      → has r xs ≡ false
  disjoint-left r xs ys e h = elim (Bool-cases (has r xs)) [
    | inl k ↦ let absurd_false = has-disjoint r xs ys e k in cc
    | inr k ↦ k
  ]

  module _ (h : Heap D) (q : Ptr) (d : D) (xs ys : Cells D) (s : Seg h none (xs ++ ys) none)
      (u : all_distinct (xs ++ ys) ≡ true) (f : has q (xs ++ ys) ≡ false) where
    pub splice_after :
        (h' : Heap D) × (and_then
            (set_prev_of (first_of ys none) (some q) (with_new h q d xs ys))
            (set_next_of (last_of none xs) (some q))
          ≡ some h')
        × Seg h' none (xs ++ (q, d) ∷ ys) none
    unfolding Seg
    splice_after =
        let (fx, fy) = has-parts q xs ys f in
        let left = Seg-write h q _ none (first_of ys none) xs fx (Seg-left h none none xs ys s) in
        let right = Seg-write h q _ (last_of none xs) none ys fy (Seg-right h none none xs ys s) in
        let (h1, e1, s1, k1) =
          relink_prev (with_new h q d xs ys) (last_of none xs) (some q) ys right
            (distinct-right xs ys u) in
        let left1 =
          Seg-same (with_new h q d xs ys) h1 none (first_of ys none) xs
            (λ r e. k1 r (has-disjoint r xs ys u e)) left in
        let (h2, e2, s2, k2) =
          relink_next h1 (first_of ys none) (some q) xs left1 (distinct-left xs ys u) in
        let right2 = Seg-same h1 h2 (some q) none ys (λ r e. k2 r (disjoint-left r xs ys u e)) s1 in
        let here = k2 q fx ∙ k1 q fy ∙ write-here h q _ in
        (h2, rw e1 e2, Seg-append h2 none none xs ((q, d) ∷ ys) s2 (here, right2))

    pub splice_before :
        (h' : Heap D) × (and_then
            (set_next_of (last_of none xs) (some q) (with_new h q d xs ys))
            (set_prev_of (first_of ys none) (some q))
          ≡ some h')
        × Seg h' none (xs ++ (q, d) ∷ ys) none
    unfolding Seg
    splice_before =
        let (fx, fy) = has-parts q xs ys f in
        let left = Seg-write h q _ none (first_of ys none) xs fx (Seg-left h none none xs ys s) in
        let right = Seg-write h q _ (last_of none xs) none ys fy (Seg-right h none none xs ys s) in
        let (h1, e1, s1, k1) =
          relink_next (with_new h q d xs ys) (first_of ys none) (some q) xs left
            (distinct-left xs ys u) in
        let right1 =
          Seg-same (with_new h q d xs ys) h1 (last_of none xs) none ys
            (λ r e. k1 r (disjoint-left r xs ys u e)) right in
        let (h2, e2, s2, k2) =
          relink_prev h1 (last_of none xs) (some q) ys right1 (distinct-right xs ys u) in
        let left2 = Seg-same h1 h2 none (some q) xs (λ r e. k2 r (has-disjoint r xs ys u e)) s1 in
        let here = k2 q fy ∙ k1 q fx ∙ write-here h q _ in
        (h2, rw e1 e2, Seg-append h2 none none xs ((q, d) ∷ ys) left2 (here, s2))

  has-first : (c : Ptr × D) (xs : Cells D) → has c.0 (c ∷ xs) ≡ true
  unfolding has
  has-first c xs = ground arith

  module _ (h : Heap D) (c : Ptr × D) (xs ys : Cells D) (s : Seg h none (xs ++ c ∷ ys) none)
      (u : all_distinct (xs ++ c ∷ ys) ≡ true) where
    pub unsplice :
        (h' : Heap D) × (and_then
            (and_then
              (set_next_of (last_of none xs) (first_of ys none) h)
              (set_prev_of (first_of ys none) (last_of none xs)))
            (freed c.0)
          ≡ some h')
        × Seg h' none (xs ++ ys) none
    unfolding Seg
    unsplice =
        let w = distinct-remove c xs ys u in
        let fx = disjoint-left c.0 xs (c ∷ ys) u (has-first c ys) in
        let fy = distinct-head c ys (distinct-right xs (c ∷ ys) u) in
        let right = (Seg-right h none none xs (c ∷ ys) s).1 in
        let (h1, e1, s1, k1) =
          relink_next h (some c.0) (first_of ys none) xs (Seg-left h none none xs (c ∷ ys) s)
            (distinct-left xs ys w) in
        let right1 =
          Seg-same h h1 (some c.0) none ys (λ r e. k1 r (disjoint-left r xs ys w e)) right in
        let (h2, e2, s2, k2) =
          relink_prev h1 (some c.0) (last_of none xs) ys right1 (distinct-right xs ys w) in
        let left2 =
          Seg-same h1 h2 none (first_of ys none) xs (λ r e. k2 r (has-disjoint r xs ys w e)) s1 in
        (
          write h2 c.0 none,
          rw (e1, e2) refl,
          Seg-append (write h2 c.0 none) none none xs ys
              (Seg-write h2 c.0 none none (first_of ys none) xs fx left2)
              (Seg-write h2 c.0 none (last_of none xs) none ys fy s2),
        )
