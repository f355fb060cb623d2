-- ===== src/Cron/Order.antt =====
-- libwzd-core/wzd_crontab.c: the order of the list of jobs, and what insertion does to it.
use wzdftpd.Base.{
  ◌≤◌, List, [], ◌∷◌, ◌++◌, ◌≡◌, refl, ap, arith, ltb, All, Bool-cases, inl, inr, All-map,
}
use wzdftpd.Cron.{Job, insert_after, crontab_insert_sorted}

module _ {F : Type 0} where
  -- No job is due before the one that stands before it.
  abbrev pub Ascending : List (Job F) → Type 0
  Ascending [] = Unit
  Ascending (j ∷ []) = Unit
  Ascending (j ∷ k ∷ l) = (j.next_run ≤ k.next_run) × Ascending (k ∷ l)

  pub tail-Ascending : (j : Job F) (l : List (Job F)) → Ascending (j ∷ l) → Ascending l
  tail-Ascending j [] a = tt
  tail-Ascending j (k ∷ l) a = a.1

  pub head-least :
      (j : Job F) (l : List (Job F)) → Ascending (j ∷ l) → All (λ k. j.next_run ≤ k.next_run) l
  head-least j [] a = tt
  head-least j (k ∷ l) a = (
    a.0,
    All-map (λ x. k.next_run ≤ x.next_run) (λ x. j.next_run ≤ x.next_run) l
        (λ x h. omega (arith, h, a.0)) (head-least k l a.1),
  )

  insert_after-Ascending :
      (c job : Job F) (l : List (Job F))
      → c.next_run ≤ job.next_run
      → Ascending (c ∷ l)
      → Ascending (c ∷ insert_after job l)
  unfolding insert_after
  insert_after-Ascending c job [] h a = (h, tt)
  insert_after-Ascending c job (x ∷ l) h a = elim (Bool-cases (ltb x.next_run job.next_run)) [
    | inl s ↦ rw s (a.0, insert_after-Ascending x job l (ground arith) a.1)
    | inr s ↦ rw s (h, (ground arith, a.1))
  ]

  pub insert_sorted-Ascending :
      (job : Job F) (l : List (Job F)) → Ascending l → Ascending (crontab_insert_sorted job l)
  unfolding crontab_insert_sorted
  insert_sorted-Ascending job [] a = tt
  insert_sorted-Ascending job (c ∷ l) a = elim (Bool-cases (ltb job.next_run c.next_run)) [
    | inl s ↦ rw s (ground arith, a)
    | inr s ↦ rw s (insert_after-Ascending c job l (ground arith) a)
  ]

  -- The job stands at one place between the jobs of the list.
  abbrev pub Splits : Job F → List (Job F) → List (Job F) → Type 0
  Splits job l l' =
      (before : List (Job F)) × (after : List (Job F)) × (l ≡ before ++ after)
      × (l' ≡ before ++ job ∷ after)

  later-Splits :
      (c job : Job F) (l l' : List (Job F)) → Splits job l l' → Splits job (c ∷ l) (c ∷ l')
  later-Splits c job l l' (before, after, e, e') = (c ∷ before, after, ap (◌∷◌ c) e, ap (◌∷◌ c) e')

  insert_after-Splits : (job : Job F) (l : List (Job F)) → Splits job l (insert_after job l)
  unfolding insert_after
  insert_after-Splits job [] = ([], [], refl, refl)
  insert_after-Splits job (c ∷ l) = elim (Bool-cases (ltb c.next_run job.next_run)) [
    | inl s ↦ rw s (later-Splits c job l (insert_after job l) (insert_after-Splits job l))
    | inr s ↦ rw s ([], c ∷ l, refl, refl)
  ]

  pub insert_sorted-Splits :
      (job : Job F) (l : List (Job F)) → Splits job l (crontab_insert_sorted job l)
  unfolding crontab_insert_sorted
  insert_sorted-Splits job [] = ([], [], refl, refl)
  insert_sorted-Splits job (c ∷ l) = elim (Bool-cases (ltb job.next_run c.next_run)) [
    | inl s ↦ rw s ([], c ∷ l, refl, refl)
    | inr s ↦ rw s (later-Splits c job l (insert_after job l) (insert_after-Splits job l))
  ]

  module _ (P : Job F → Type 0) where
    insert_after-All :
        (job : Job F) (l : List (Job F)) → P job → All P l → All P (insert_after job l)
    unfolding insert_after
    insert_after-All job [] p a = (p, tt)
    insert_after-All job (c ∷ l) p a = elim (Bool-cases (ltb c.next_run job.next_run)) [
      | inl s ↦ rw s (a.0, insert_after-All job l p a.1)
      | inr s ↦ rw s (p, a)
    ]

    pub insert_sorted-All :
        (job : Job F) (l : List (Job F)) → P job → All P l → All P (crontab_insert_sorted job l)
    unfolding crontab_insert_sorted
    insert_sorted-All job [] p a = (p, tt)
    insert_sorted-All job (c ∷ l) p a = elim (Bool-cases (ltb job.next_run c.next_run)) [
      | inl s ↦ rw s (p, a)
      | inr s ↦ rw s (a.0, insert_after-All job l p a.1)
    ]
