-- ===== src/DList/Link.antt =====
-- Writes to the links at the ends of a part of a list.
use wzdftpd.Base.{
  true, false, [], ◌∷◌, ◌++◌, Option, none, some, ◌==◌, ==_iff, ◌≡◌, refl, ◌∙◌, inl, inr,
  Bool-cases, arith,
}
use mathlib.Core.Path.{subst}
use wzdftpd.DList.{Ptr, DListElmt, Heap, elmt, write, set_next, set_prev, set_next_of, set_prev_of}
use wzdftpd.DList.Seg.{Cells, first_of, last_of, Seg, has, all_distinct, Seg-write, has-append}

module _ {D : Type 0} where
  pub write-here : (h : Heap D) (p : Ptr) (n : Option (DListElmt D)) → write h p n p ≡ n
  unfolding write
  write-here h p n = ground arith

  pub write-other :
      (h : Heap D) (p r : Ptr) (n : Option (DListElmt D)) → (r == p) ≡ false → write h p n r ≡ h r
  unfolding write
  write-other h p r n e = rw e refl

  pub Seg-same :
      (h h' : Heap D) (before after : Option Ptr) (xs : Cells D)
      → ((r : Ptr) → has r xs ≡ true → h' r ≡ h r)
      → Seg h before xs after
      → Seg h' before xs after
  unfolding Seg has
  Seg-same h h' before after [] same s = tt
  Seg-same h h' before after (c ∷ xs) same s = (
    same c.0 (ground arith) ∙ s.0,
    Seg-same h h' (some c.0) after xs (λ r e. same r (ground arith)) s.1,
  )

  has-tail : (r : Ptr) (c : Ptr × D) (xs : Cells D) → has r (c ∷ xs) ≡ false → has r xs ≡ false
  unfolding has
  has-tail r c xs e = ground arith

  distinct-tail :
      (c : Ptr × D) (xs : Cells D) → all_distinct (c ∷ xs) ≡ true → all_distinct xs ≡ true
  unfolding all_distinct
  distinct-tail c xs e = ground arith

  pub distinct-head :
      (c : Ptr × D) (xs : Cells D) → all_distinct (c ∷ xs) ≡ true → has c.0 xs ≡ false
  unfolding all_distinct
  distinct-head c xs e = ground arith

  set_next-at :
      (h : Heap D) (p : Ptr) (n : DListElmt D) (x : Option Ptr)
      → h p ≡ some n
      → set_next p x h ≡ some (write h p (some (record n { next = x })))
  unfolding set_next
  set_next-at h p n x e = rw (set_next, e) refl

  set_prev-at :
      (h : Heap D) (p : Ptr) (n : DListElmt D) (x : Option Ptr)
      → h p ≡ some n
      → set_prev p x h ≡ some (write h p (some (record n { prev = x })))
  unfolding set_prev
  set_prev-at h p n x e = rw (set_prev, e) refl

  relink_next-from :
      (h : Heap D) (before after x : Option Ptr) (c : Ptr × D) (xs : Cells D)
      → Seg h before (c ∷ xs) after
      → all_distinct (c ∷ xs) ≡ true
      → (h' : Heap D) × (set_next_of (last_of before (c ∷ xs)) x h ≡ some h')
        × Seg h' before (c ∷ xs) x
        × ((r : Ptr) → has r (c ∷ xs) ≡ false → h' r ≡ h r)
  unfolding Seg has all_distinct set_next
  relink_next-from h before after x c [] s e = (
    write h c.0 (some (elmt c.1 before x)),
    set_next-at h c.0 _ x s.0,
    (write-here h c.0 _, tt),
    λ r n. write-other h c.0 r _ (ground arith),
  )
  relink_next-from h before after x c (d ∷ xs) s e =
      let (h', eq, s', same) =
        relink_next-from h (some c.0) after x d xs s.1 (distinct-tail c (d ∷ xs) e) in
      (
        h',
        eq,
        (same c.0 (distinct-head c (d ∷ xs) e) ∙ s.0, s'),
        λ r n. same r (has-tail r c (d ∷ xs) n),
      )

  -- The last element gets another next one.
  pub relink_next :
      (h : Heap D) (after x : Option Ptr) (xs : Cells D)
      → Seg h none xs after
      → all_distinct xs ≡ true
      → (h' : Heap D) × (set_next_of (last_of none xs) x h ≡ some h')
        × Seg h' none xs x
        × ((r : Ptr) → has r xs ≡ false → h' r ≡ h r)
  unfolding Seg
  relink_next h after x [] s e = (h, refl, tt, λ r n. refl)
  relink_next h after x (c ∷ xs) s e = relink_next-from h none after x c xs s e

  -- The first element gets another previous one.
  pub relink_prev :
      (h : Heap D) (before x : Option Ptr) (xs : Cells D)
      → Seg h before xs none
      → all_distinct xs ≡ true
      → (h' : Heap D) × (set_prev_of (first_of xs none) x h ≡ some h')
        × Seg h' x xs none
        × ((r : Ptr) → has r xs ≡ false → h' r ≡ h r)
  unfolding Seg has all_distinct set_prev
  relink_prev h before x [] s e = (h, refl, tt, λ r n. refl)
  relink_prev h before x (c ∷ xs) s e = (
    write h c.0 (some (elmt c.1 x (first_of xs none))),
    set_prev-at h c.0 _ x s.0,
    (write-here h c.0 _, Seg-write h c.0 _ (some c.0) none xs (ground arith) s.1),
    λ r n. write-other h c.0 r _ (ground arith),
  )

  pub distinct-left : (xs ys : Cells D) → all_distinct (xs ++ ys) ≡ true → all_distinct xs ≡ true
  unfolding all_distinct
  distinct-left [] ys e = refl
  distinct-left (c ∷ xs) ys e = ground (arith, distinct-left xs ys, has-append c.0 xs ys)

  pub distinct-right : (xs ys : Cells D) → all_distinct (xs ++ ys) ≡ true → all_distinct ys ≡ true
  unfolding all_distinct
  distinct-right [] ys e = e
  distinct-right (c ∷ xs) ys e = ground (arith, distinct-right xs ys)

  pub has-disjoint :
      (r : Ptr) (xs ys : Cells D)
      → all_distinct (xs ++ ys) ≡ true
      → has r xs ≡ true
      → has r ys ≡ false
  unfolding all_distinct has
  has-disjoint r [] ys e h = cc
  has-disjoint r (c ∷ xs) ys e h = elim (Bool-cases (c.0 == r)) [
    | inl k ↦
        subst (λ p. has p ys ≡ false) ((==_iff c.0 r).0 k) (ground (arith, has-append c.0 xs ys))
    | inr k ↦ has-disjoint r xs ys (ground arith) (ground arith)
  ]

  pub distinct-insert :
      (q : Ptr) (d : D) (xs ys : Cells D)
      → all_distinct (xs ++ ys) ≡ true
      → has q (xs ++ ys) ≡ false
      → all_distinct (xs ++ (q, d) ∷ ys) ≡ true
  unfolding all_distinct has
  distinct-insert q d [] ys e h = ground arith
  distinct-insert q d (c ∷ xs) ys e h =
      ground
        (arith, distinct-insert q d xs ys, has-append c.0 xs ys, has-append c.0 xs ((q, d) ∷ ys))

  pub distinct-remove :
      (c : Ptr × D) (xs ys : Cells D)
      → all_distinct (xs ++ c ∷ ys) ≡ true
      → all_distinct (xs ++ ys) ≡ true
  unfolding all_distinct has
  distinct-remove c [] ys e = ground arith
  distinct-remove c (b ∷ xs) ys e =
      ground (arith, distinct-remove c xs ys, has-append b.0 xs ys, has-append b.0 xs (c ∷ ys))
