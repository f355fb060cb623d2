-- ===== src/Cron.antt =====
-- libwzd-core/wzd_crontab.c: the jobs and their list. `time` gives the
-- argument `now`. localtime and mktime are the C library's calendar: they are
-- parameters. The fields of a job are shorter than their 32 bytes, and memory is there.
pub mod Date
pub mod Order
pub mod Marks
pub mod Run
use wzdftpd.Base.{
  ℕ, zero, suc, Bool, true, false, ◌&&◌, List, [], ◌∷◌, ◌++◌, Option, none, some, Bytes, codes,
  if◌then◌else◌, ◌==◌, ltb, leb, length,
}
use wzdftpd.Cron.Date.{Tm, Time, time_zero, cronjob_find_next_exec_date}

-- `hook` names the function of a job that has one.
pub record Job (F : Type 0) : Type 0 where
  pub hook : Option F
  pub external_command : Option Bytes
  pub minutes : Bytes
  pub hours : Bytes
  pub day_of_month : Bytes
  pub month : Bytes
  pub day_of_week : Bytes
  pub next_run : Time

module _ {F : Type 0} where
  abbrev pub with_next : Job F → Time → Job F
  with_next j t = record {
    hook = j.hook;
    external_command = j.external_command;
    minutes = j.minutes;
    hours = j.hours;
    day_of_month = j.day_of_month;
    month = j.month;
    day_of_week = j.day_of_week;
    next_run = t;
  }

  -- the loop of _crontab_insert_sorted, after the head
  unfoldable pub insert_after : Job F → List (Job F) → List (Job F)
  insert_after job [] = job ∷ []
  insert_after job (c ∷ l) =
      if ltb c.next_run job.next_run then c ∷ insert_after job l else job ∷ c ∷ l

  unfoldable pub crontab_insert_sorted : Job F → List (Job F) → List (Job F)
  crontab_insert_sorted job [] = job ∷ []
  crontab_insert_sorted job (c ∷ l) =
      if ltb job.next_run c.next_run then job ∷ c ∷ l else c ∷ insert_after job l

  -- `!fn && !command`
  abbrev pub has_nothing : Option F → Option Bytes → Bool
  has_nothing none none = true
  has_nothing _ _ = false

  -- The list after the call, and whether it returns 0.
  unfoldable pub cronjob_add_once :
      List (Job F) → Option F → Option Bytes → Time → List (Job F) × Bool
  cronjob_add_once crontab fn command date = if has_nothing fn command then (crontab, false) else (
    crontab_insert_sorted
        (record {
          hook = fn;
          external_command = command;
          minutes = codes "ONCE";
          hours = [];
          day_of_month = [];
          month = [];
          day_of_week = [];
          next_run = date;
        })
        crontab,
    true,
  )

  -- The first loop of cronjob_run: the jobs from the head on whose time has come are run, and
  -- their time is set to 0.
  unfoldable pub run_due : Time → List (Job F) → List (Job F)
  run_due now [] = []
  run_due now (j ∷ l) = if leb j.next_run now then with_next j time_zero ∷ run_due now l else j ∷ l

  -- The jobs that this loop runs, in its order.
  unfoldable pub jobs_run : Time → List (Job F) → List (Job F)
  jobs_run now [] = []
  jobs_run now (j ∷ l) = if leb j.next_run now then j ∷ jobs_run now l else []

  module _ (localtime : Time → Tm) (mktime : Tm → Time) where
    abbrev pub next_date : Time → Job F → Time
    next_date now j =
        cronjob_find_next_exec_date localtime mktime now j.minutes j.hours j.day_of_month j.month
          j.day_of_week

    unfoldable pub cronjob_add : List (Job F) → Time → Job F → List (Job F) × Bool
    cronjob_add crontab now new =
        if has_nothing new.hook new.external_command
        then (crontab, false)
        else (crontab_insert_sorted (with_next new (next_date now new)) crontab, true)

    -- The second loop, on fuel: a job at the head whose time is 0 gets its next one, or is taken
    -- out of the list when it has none.
    unfoldable pub reschedule : ℕ → Time → List (Job F) → List (Job F)
    reschedule zero now l = l
    reschedule (suc fuel) now [] = []
    reschedule (suc fuel) now (j ∷ l) =
        let t = next_date now j in
        let again = reschedule fuel now (crontab_insert_sorted (with_next j t) l) in
        let freed = reschedule fuel now l in
        if j.next_run == time_zero then (if t == time_zero then freed else again) else j ∷ l

    -- The list after the call, and the jobs that were run.
    unfoldable pub cronjob_run : List (Job F) → Time → List (Job F) × List (Job F)
    cronjob_run [] now = ([], [])
    cronjob_run (j ∷ l) now =
        if ltb now j.next_run
        then (j ∷ l, [])
        else (reschedule (length (j ∷ l)) now (run_due now (j ∷ l)), jobs_run now (j ∷ l))
