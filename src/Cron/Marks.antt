-- ===== src/Cron/Marks.antt =====
-- libwzd-core/wzd_crontab.c: the jobs whose time has come, and the marks that a run puts on them.
use wzdftpd.Base.{
  ℕ, ◌≤◌, ◌<◌, false, List, [], ◌∷◌, map, ◌≡◌, refl, arith, if◌then◌else◌, ◌==◌, ltb, leb, length,
  All, Bool-cases, inl, inr, All-map,
}
use mathlib.Core.List.{Perm}
use mathlib.Core.List.Perm
use wzdftpd.Cron.{Job, with_next, insert_after, crontab_insert_sorted, run_due, jobs_run}
use wzdftpd.Cron.Date.{time_zero}
use wzdftpd.Cron.Order.{Ascending, tail-Ascending, head-least}

module _ {F : Type 0} where
  -- The jobs with a time, and those whose time is 0.
  abbrev pub waiting : List (Job F) → List (Job F)
  waiting [] = []
  waiting (j ∷ l) = if j.next_run == time_zero then waiting l else j ∷ waiting l

  abbrev pub marked : List (Job F) → List (Job F)
  marked [] = []
  marked (j ∷ l) = if j.next_run == time_zero then j ∷ marked l else marked l

  -- The jobs whose time has come, and the others.
  abbrev pub due : ℕ → List (Job F) → List (Job F)
  due now [] = []
  due now (j ∷ l) = if leb j.next_run now then j ∷ due now l else due now l

  abbrev pub later : ℕ → List (Job F) → List (Job F)
  later now [] = []
  later now (j ∷ l) = if leb j.next_run now then later now l else j ∷ later now l

  -- The list that cronjob_add and cronjob_run keep: sorted, and no time is 0.
  abbrev pub IsValid : List (Job F) → Type 0
  IsValid l = Ascending l × All (λ j. time_zero < j.next_run) l

  pub all_waiting :
      (l : List (Job F)) → All (λ j. time_zero < j.next_run) l → (waiting l ≡ l) × (marked l ≡ [])
  all_waiting [] a = (refl, refl)
  all_waiting (j ∷ l) a = ground (arith, all_waiting l a.1, a.0)

  -- No time of a list is negative.
  abbrev pub FromZero : List (Job F) → Type 0
  FromZero l = All (λ j. time_zero ≤ j.next_run) l

  pub none_marked :
      (l : List (Job F)) → FromZero l → length (marked l) ≤ 0 → All (λ j. time_zero < j.next_run) l
  none_marked [] z h = tt
  none_marked (j ∷ l) z h = (ground (arith, z.0), none_marked l z.1 (ground arith))

  pub all-FromZero : (l : List (Job F)) → All (λ j. time_zero < j.next_run) l → FromZero l
  all-FromZero l a =
      All-map (λ j. time_zero < j.next_run) (λ j. time_zero ≤ j.next_run) l
        (λ j h. omega (arith, h)) a

  pub marked-insert_after :
      (job : Job F) (l : List (Job F))
      → time_zero < job.next_run
      → marked (insert_after job l) ≡ marked l
  unfolding insert_after
  marked-insert_after job [] h = ground arith
  marked-insert_after job (c ∷ l) h = ground (arith, marked-insert_after job l h)

  pub marked-insert :
      (job : Job F) (l : List (Job F))
      → time_zero < job.next_run
      → marked (crontab_insert_sorted job l) ≡ marked l
  unfolding crontab_insert_sorted
  marked-insert job [] h = ground arith
  marked-insert job (c ∷ l) h = ground (arith, marked-insert_after job l h)

  pub waiting-cons :
      (job : Job F) (l : List (Job F))
      → time_zero < job.next_run
      → waiting (job ∷ l) ≡ job ∷ waiting l
  waiting-cons job l h = ground arith

  pub waiting-cons_perm :
      (job c : Job F) (l m : List (Job F))
      → Perm (waiting m) (job ∷ waiting l)
      → Perm (waiting (c ∷ m)) (job ∷ waiting (c ∷ l))
  waiting-cons_perm job c l m p = elim (Bool-cases (c.next_run == time_zero)) [
    | inl s ↦ rw s p
    | inr s ↦ rw s (Perm.trans (Perm.cons c p) (Perm.swap job c (waiting l)))
  ]

  pub waiting-insert_after :
      (job : Job F) (l : List (Job F))
      → time_zero < job.next_run
      → Perm (waiting (insert_after job l)) (job ∷ waiting l)
  unfolding insert_after
  waiting-insert_after job [] h = rw (waiting-cons job [] h) (Perm.refl _)
  waiting-insert_after job (c ∷ l) h = elim (Bool-cases (ltb c.next_run job.next_run)) [
    | inl s ↦ rw s (waiting-cons_perm job c l (insert_after job l) (waiting-insert_after job l h))
    | inr s ↦ rw (s, waiting-cons job (c ∷ l) h) (Perm.refl _)
  ]

  pub waiting-insert :
      (job : Job F) (l : List (Job F))
      → time_zero < job.next_run
      → Perm (waiting (crontab_insert_sorted job l)) (job ∷ waiting l)
  unfolding crontab_insert_sorted
  waiting-insert job [] h = rw (waiting-cons job [] h) (Perm.refl _)
  waiting-insert job (c ∷ l) h = elim (Bool-cases (ltb job.next_run c.next_run)) [
    | inl s ↦ rw (s, waiting-cons job (c ∷ l) h) (Perm.refl _)
    | inr s ↦ rw s (waiting-cons_perm job c l (insert_after job l) (waiting-insert_after job l h))
  ]

  pub due_none :
      (now : ℕ) (l : List (Job F))
      → All (λ j. now < j.next_run) l
      → (due now l ≡ []) × (later now l ≡ l)
  due_none now [] a = (refl, refl)
  due_none now (j ∷ l) a = ground (arith, due_none now l a.1, a.0)

  pub not_due_head :
      (now : ℕ) (j : Job F) (l : List (Job F))
      → IsValid (j ∷ l)
      → leb j.next_run now ≡ false
      → (due now l ≡ []) × (later now l ≡ l)
  not_due_head now j l v h = due_none now l (
      All-map (λ k. j.next_run ≤ k.next_run) (λ k. now < k.next_run) l (λ k a. ground arith)
        (head-least j l v.0))

  pub marked-run_due :
      (now : ℕ) (l : List (Job F))
      → IsValid l
      → marked (run_due now l) ≡ map (λ j. with_next j time_zero) (due now l)
  unfolding run_due
  marked-run_due now [] v = refl
  marked-run_due now (j ∷ l) v = ground (
    arith,
    marked-run_due now l (tail-Ascending j l v.0, v.1.1),
    not_due_head now j l v,
    all_waiting l v.1.1,
    v.1.0,
  )

  pub waiting-run_due :
      (now : ℕ) (l : List (Job F)) → IsValid l → waiting (run_due now l) ≡ later now l
  unfolding run_due
  waiting-run_due now [] v = refl
  waiting-run_due now (j ∷ l) v = ground (
    arith,
    waiting-run_due now l (tail-Ascending j l v.0, v.1.1),
    not_due_head now j l v,
    all_waiting l v.1.1,
    v.1.0,
  )

  pub jobs_run-due : (now : ℕ) (l : List (Job F)) → IsValid l → jobs_run now l ≡ due now l
  unfolding jobs_run
  jobs_run-due now [] v = refl
  jobs_run-due now (j ∷ l) v =
      ground (arith, jobs_run-due now l (tail-Ascending j l v.0, v.1.1), not_due_head now j l v)

  pub zero-Ascending :
      (j : Job F) (l : List (Job F))
      → FromZero l
      → Ascending l
      → Ascending (with_next j time_zero ∷ l)
  zero-Ascending j [] z a = tt
  zero-Ascending j (k ∷ l) z a = (z.0, a)

  pub run_due-FromZero : (now : ℕ) (l : List (Job F)) → FromZero l → FromZero (run_due now l)
  unfolding run_due
  run_due-FromZero now [] z = tt
  run_due-FromZero now (j ∷ l) z = elim (Bool-cases (leb j.next_run now)) [
    | inl s ↦ rw s (omega arith, run_due-FromZero now l z.1)
    | inr s ↦ rw s z
  ]

  pub run_due-Ascending : (now : ℕ) (l : List (Job F)) → IsValid l → Ascending (run_due now l)
  unfolding run_due
  run_due-Ascending now [] v = tt
  run_due-Ascending now (j ∷ l) v = elim (Bool-cases (leb j.next_run now)) [
    | inl s ↦
        let rest : IsValid l = (tail-Ascending j l v.0, v.1.1) in
        rw s (
          zero-Ascending j (run_due now l) (run_due-FromZero now l (all-FromZero l v.1.1))
            (run_due-Ascending now l rest))
    | inr s ↦ rw s v.0
  ]

  pub marked-length : (l : List (Job F)) → length (marked l) ≤ length l
  marked-length [] = omega arith
  marked-length (j ∷ l) = ground (arith, marked-length l)

  pub length-run_due : (now : ℕ) (l : List (Job F)) → length (run_due now l) ≡ length l
  unfolding run_due
  length-run_due now [] = refl
  length-run_due now (j ∷ l) = ground (arith, length-run_due now l)
