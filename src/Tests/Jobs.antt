-- ===== src/Tests/Jobs.antt =====
-- A list of two jobs, in a calendar whose times are numbers of minutes.
use wzdftpd.Base.{
  ℕ, ◌+◌, ◌-◌, ◌||◌, ltb, true, false, ◌*◌, [], ◌∷◌, ◌++◌, none, some, ◌≡◌, refl, arith, codes,
  if◌then◌else◌, List, str_eq, Bytes, skip_spaces,
}
use mathlib.Core.List.{Perm}
use wzdftpd.Cron.{
  Job, run_due, reschedule, crontab_insert_sorted, cronjob_add, cronjob_run, has_nothing, with_next,
  next_date,
}
use wzdftpd.Cron.Date.{
  Time, time_zero, Tm, ℤ, pos, negsuc, cronjob_find_next_exec_date, next_tm, number, month_number,
  strtol, digits,
}
use wzdftpd.Cron.Marks.{IsValid, due, later}
use wzdftpd.Cron.Run.{FromZeroNext, rescheduled, cronjob_run-IsValid, cronjob_add-IsValid}

unfoldable runs : Unit {0}
unfolding cronjob_find_next_exec_date next_tm number month_number strtol digits str_eq skip_spaces
runs = tt

abbrev natural : ℤ → ℕ
natural (pos n) = n
natural (negsuc n) = 0

-- The time of a number of minutes
abbrev at : ℕ → Time
at n = time_zero + n

abbrev localtime : Time → Tm
localtime t = record {
  tm_sec = pos 0;
  tm_min = pos (t - time_zero);
  tm_hour = pos 0;
  tm_mday = pos 1;
  tm_mon = pos 0;
  tm_year = pos 70;
}

abbrev mktime : Tm → Time
mktime t = at (natural t.tm_min + natural t.tm_hour * 60)

abbrev job : Bytes → Time → Job ℕ
job minutes t = record {
  hook = some 1;
  external_command = none;
  minutes = minutes;
  hours = codes "*";
  day_of_month = codes "*";
  month = codes "*";
  day_of_week = codes "*";
  next_run = t;
}

abbrev jobs : List (Job ℕ)
jobs = job (codes "ONCE") (at 5) ∷ job (codes "*") (at 9) ∷ job (codes "30") (at 30) ∷ []

next_minute : next_date localtime mktime (at 9) (job (codes "*") (at 9)) ≡ at 10
unfolding runs
next_minute = refl

next_hour : next_date localtime mktime (at 45) (job (codes "30") (at 30)) ≡ at 90
unfolding runs
next_hour = refl

-- A calendar whose mktime fails: the job whose turn comes first stays at the head with the time -1, and
-- the other one keeps the time 0.
mktime_fails :
    (cronjob_run localtime
      (λ t. time_zero - 1)
      (job (codes "*") (at 5) ∷ job (codes "*") (at 6) ∷ [])
      (at 9)).0
    ≡ job (codes "*") (time_zero - 1) ∷ job (codes "*") time_zero ∷ []
unfolding runs cronjob_run run_due reschedule crontab_insert_sorted
mktime_fails = refl

jobs-IsValid : IsValid jobs
jobs-IsValid = ((omega arith, (omega arith, tt)), (omega arith, (omega arith, (omega arith, tt))))

next-FromZeroNext : FromZeroNext localtime mktime (at 9) (due (at 9) jobs)
unfolding runs
next-FromZeroNext = (omega arith, (omega arith, tt))

cronjob_run-IsValid_example :
    let r = cronjob_run localtime mktime jobs (at 9) in
    IsValid r.0
    × (r.1 ≡ due (at 9) jobs)
    × Perm r.0 (later (at 9) jobs ++ rescheduled localtime mktime (at 9) (due (at 9) jobs))
cronjob_run-IsValid_example =
    cronjob_run-IsValid localtime mktime jobs (at 9) jobs-IsValid next-FromZeroNext

abbrev quarter : Job ℕ
quarter = job (codes "15") time_zero

quarter_next :
    (has_nothing quarter.hook quarter.external_command
      || ltb time_zero (next_date localtime mktime (at 9) quarter))
    ≡ true
unfolding runs
quarter_next = refl

cronjob_add-IsValid_example :
    let r = cronjob_add localtime mktime jobs (at 9) quarter in
    let nothing = has_nothing quarter.hook quarter.external_command in
    IsValid r.0
    × (r ≡ (if nothing then (jobs, false) else (r.0, true)))
    × (before : List (Job ℕ)) × (after : List (Job ℕ)) × (jobs ≡ before ++ after)
    × (r.0 ≡ (
        if nothing
        then jobs
        else before ++ with_next quarter (next_date localtime mktime (at 9) quarter) ∷ after))
cronjob_add-IsValid_example =
    cronjob_add-IsValid localtime mktime jobs (at 9) quarter jobs-IsValid quarter_next
