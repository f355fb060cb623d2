-- ===== src/Cron/Run.antt =====
-- libwzd-core/wzd_crontab.c: a run of the list, as one that picks the jobs whose time has come.
use wzdftpd.Base.{
  ℕ, zero, suc, ◌≤◌, ◌<◌, true, false, ◌||◌, List, [], ◌∷◌, ◌++◌, map, ◌≡◌, refl, sym, arith,
  if◌then◌else◌, ◌==◌, ltb, length, All, Bool-cases, inl, inr, All-map, append-nil,
}
use mathlib.Core.Path.{subst}
use mathlib.Core.List.{Perm, perm_middle}
use mathlib.Core.List.Perm
use wzdftpd.Cron.{
  Job, with_next, crontab_insert_sorted, run_due, jobs_run, next_date, reschedule, cronjob_run,
  cronjob_add, has_nothing,
}
use wzdftpd.Cron.Date.{Tm, Time, time_zero}
use wzdftpd.Cron.Order.{
  Ascending, tail-Ascending, head-least, insert_sorted-Ascending, insert_sorted-All,
  insert_sorted-Splits,
}
use wzdftpd.Cron.Marks.{
  waiting, marked, due, later, IsValid, all_waiting, none_marked, marked-insert, waiting-insert,
  due_none, marked-run_due, waiting-run_due, jobs_run-due, run_due-Ascending, marked-length,
  length-run_due, FromZero, all-FromZero, run_due-FromZero,
}

after_zero : (t : ℕ) → time_zero ≤ t → (t == time_zero) ≡ false → time_zero < t
after_zero t z h = ground arith

module _ {F : Type 0} where
  module _ (localtime : Time → Tm) (mktime : Tm → Time) where
    -- The jobs that have a next time, with it.
    abbrev pub rescheduled : ℕ → List (Job F) → List (Job F)
    rescheduled now [] = []
    rescheduled now (j ∷ l) =
        let t = next_date localtime mktime now j in
        if t == time_zero then rescheduled now l else with_next j t ∷ rescheduled now l

    rescheduled-marked :
        (now : ℕ) (l : List (Job F))
        → rescheduled now (map (λ j. with_next j time_zero) l) ≡ rescheduled now l
    rescheduled-marked now [] = refl
    rescheduled-marked now (j ∷ l) = ground (arith, rescheduled-marked now l)

    -- What is left of the list when the head has a time.
    settled :
        (now : ℕ) (j : Job F) (l : List (Job F))
        → Ascending (j ∷ l)
        → time_zero ≤ j.next_run
        → (j.next_run == time_zero) ≡ false
        → All (λ k. time_zero < k.next_run) (j ∷ l)
    settled now j l a z h = (
      ground arith,
      All-map (λ k. j.next_run ≤ k.next_run) (λ k. time_zero < k.next_run) l (λ k b. ground arith)
          (head-least j l a),
    )

    all_waiting-Perm :
        (now : ℕ) (l : List (Job F))
        → All (λ j. time_zero < j.next_run) l
        → Perm l (waiting l ++ rescheduled now (marked l))
    all_waiting-Perm now l a = let (w, m) = all_waiting l a in rw (w, m, append-nil l) (Perm.refl l)

    inserted-Perm :
        (now : ℕ) (k : Job F) (l : List (Job F))
        → time_zero < k.next_run
        → Perm
            (waiting (crontab_insert_sorted k l)
              ++ rescheduled now (marked (crontab_insert_sorted k l)))
            (waiting l ++ k ∷ rescheduled now (marked l))
    inserted-Perm now k l h = rw (marked-insert k l h) (
        Perm.trans (Perm.append_right (rescheduled now (marked l)) (waiting-insert k l h))
          (Perm.symm (perm_middle (waiting l) (rescheduled now (marked l)))))

    fuel_left :
        (fuel : ℕ) (j k : Job F) (l : List (Job F))
        → length (marked (j ∷ l)) ≤ suc fuel
        → (j.next_run == time_zero) ≡ true
        → time_zero < k.next_run
        → length (marked (crontab_insert_sorted k l)) ≤ fuel
    fuel_left fuel j k l f s h = ground (arith, marked-insert k l h)

    -- The marked jobs have a next time that is not negative.
    abbrev pub FromZeroNext : ℕ → List (Job F) → Type 0
    FromZeroNext now l = All (λ j. time_zero ≤ next_date localtime mktime now j) l

    marked-head :
        (now : ℕ) (j : Job F) (l : List (Job F))
        → (j.next_run == time_zero) ≡ true
        → FromZeroNext now (marked (j ∷ l))
        → (time_zero ≤ next_date localtime mktime now j) × FromZeroNext now (marked l)
    marked-head now j l s n =
        subst (λ b. FromZeroNext now (if b then j ∷ marked l else marked l)) s n

    marked-FromZeroNext :
        (now : ℕ) (l : List (Job F))
        → FromZeroNext now l
        → FromZeroNext now (map (λ j. with_next j time_zero) l)
    marked-FromZeroNext now [] n = tt
    marked-FromZeroNext now (j ∷ l) n = (n.0, marked-FromZeroNext now l n.1)

    reschedule-IsValid :
        (fuel now : ℕ) (l : List (Job F))
        → length (marked l) ≤ fuel
        → Ascending l
        → FromZero l
        → FromZeroNext now (marked l)
        → IsValid (reschedule localtime mktime fuel now l)
          × Perm (reschedule localtime mktime fuel now l) (waiting l ++ rescheduled now (marked l))
    unfolding reschedule
    reschedule-IsValid zero now l f a z n =
        ((a, none_marked l z f), all_waiting-Perm now l (none_marked l z f))
    reschedule-IsValid (suc fuel) now [] f a z n = ((tt, tt), Perm.refl _)
    reschedule-IsValid (suc fuel) now (j ∷ l) f a z n =
        elim (Bool-cases (j.next_run == time_zero)) [
          | inr s ↦ rw s (
            (a, settled now j l a z.0 s),
            Perm.cons j (all_waiting-Perm now l (settled now j l a z.0 s).1),
          )
          | inl s ↦
              let (first, others) = marked-head now j l s n in
              elim (Bool-cases (next_date localtime mktime now j == time_zero)) [
                | inl t ↦
                    rw (s, t)
                      (reschedule-IsValid fuel now l (ground arith) (tail-Ascending j l a) z.1
                        others)
                | inr t ↦
                    rw (s, t)
                      (let k = with_next j (next_date localtime mktime now j) in
                        let later : time_zero < k.next_run =
                          after_zero (next_date localtime mktime now j) first t in
                        let (v, p) =
                          reschedule-IsValid fuel now (crontab_insert_sorted k l)
                            (fuel_left fuel j k l f s later)
                            (insert_sorted-Ascending k l (tail-Ascending j l a))
                            (insert_sorted-All (λ j. time_zero ≤ j.next_run) k l first z.1)
                            (subst (FromZeroNext now) (sym (marked-insert k l later)) others) in
                        (v, Perm.trans p (inserted-Perm now k l later)))
              ]
        ]

    head_later :
        (now : ℕ) (j : Job F) (l : List (Job F))
        → IsValid (j ∷ l)
        → now < j.next_run
        → All (λ k. now < k.next_run) (j ∷ l)
    head_later now j l v h = (
      h,
      All-map (λ k. j.next_run ≤ k.next_run) (λ k. now < k.next_run) l (λ k a. omega (arith, a, h))
          (head-least j l v.0),
    )

    untouched :
        (now : ℕ) (l : List (Job F))
        → IsValid l
        → All (λ k. now < k.next_run) l
        → IsValid l × ([] ≡ due now l) × Perm l (later now l ++ rescheduled now (due now l))
    untouched now l v a =
        let (d, k) = due_none now l a in (v, sym d, rw (d, k, append-nil l) (Perm.refl l))

    ran :
        (now : ℕ) (l : List (Job F))
        → IsValid l
        → FromZeroNext now (due now l)
        → let r = reschedule localtime mktime (length l) now (run_due now l) in
          IsValid r
          × (jobs_run now l ≡ due now l)
          × Perm r (later now l ++ rescheduled now (due now l))
    ran now l v n =
        let (a, p) =
          reschedule-IsValid (length l) now (run_due now l)
            (omega (arith, marked-length (run_due now l), length-run_due now l))
            (run_due-Ascending now l v) (run_due-FromZero now l (all-FromZero l v.1))
            (subst (FromZeroNext now) (sym (marked-run_due now l v))
              (marked-FromZeroNext now (due now l) n)) in
        (
          a,
          jobs_run-due now l v,
          rw
              (
                sym (rescheduled-marked now (due now l)),
                sym (marked-run_due now l v),
                sym (waiting-run_due now l v),
              )
              p,
        )

    -- On a list that is sorted and has only positive times, and where no due job's next time is negative
    -- (so mktime does not fail), cronjob_run runs exactly the jobs whose time has come, in their order.
    -- The new list is sorted and has only positive times, and it holds the other jobs as they were and
    -- each of these with its next time, if it has one: every due job is rescheduled or taken out, no job
    -- is lost or doubled, and the loop ends within its fuel.
    pub cronjob_run-IsValid :
        (crontab : List (Job F)) (now : ℕ)
        → IsValid crontab
        → FromZeroNext now (due now crontab)
        → let r = cronjob_run localtime mktime crontab now in
          IsValid r.0
          × (r.1 ≡ due now crontab)
          × Perm r.0 (later now crontab ++ rescheduled now (due now crontab))
    unfolding cronjob_run
    cronjob_run-IsValid [] now v n = ((tt, tt), refl, Perm.refl _)
    cronjob_run-IsValid (j ∷ l) now v n = elim (Bool-cases (ltb now j.next_run)) [
      | inl s ↦ rw s (untouched now (j ∷ l) v (head_later now j l v (ground arith)))
      | inr s ↦ rw s (ran now (j ∷ l) v n)
    ]

    -- On a list that is sorted and has only positive times, for a job that has neither a function nor a
    -- command, or whose next time is positive: cronjob_add returns 1 and leaves the list as it was in the
    -- first case; otherwise it returns 0 and puts the job, at its next time, at one place into the list,
    -- which stays sorted and has only positive times.
    pub cronjob_add-IsValid :
        (crontab : List (Job F)) (now : ℕ) (new : Job F)
        → IsValid crontab
        → (has_nothing new.hook new.external_command
            || ltb time_zero (next_date localtime mktime now new))
          ≡ true
        → let r = cronjob_add localtime mktime crontab now new in
          let nothing = has_nothing new.hook new.external_command in
          IsValid r.0
          × (r ≡ (if nothing then (crontab, false) else (r.0, true)))
          × (before : List (Job F)) × (after : List (Job F)) × (crontab ≡ before ++ after)
          × (r.0 ≡ (
              if nothing
              then crontab
              else before ++ with_next new (next_date localtime mktime now new) ∷ after))
    unfolding cronjob_add
    cronjob_add-IsValid crontab now new v h =
        elim (Bool-cases (has_nothing new.hook new.external_command)) [
          | inl s ↦ rw s (v, refl, [], crontab, refl, refl)
          | inr s ↦
              let k = with_next new (next_date localtime mktime now new) in
              let later : time_zero < k.next_run = ground arith in
              let (before, after, e, e') = insert_sorted-Splits k crontab in
              rw s (
                (
                  insert_sorted-Ascending k crontab v.0,
                  insert_sorted-All (λ j. time_zero < j.next_run) k crontab later v.1,
                ),
                refl,
                before,
                after,
                e,
                e',
              )
        ]
