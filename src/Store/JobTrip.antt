-- ===== src/Store/JobTrip.antt =====
-- A job that server/internal/store/jobs.go writes, and what `loadJobs` reads.
use mathlib.Core.List.{append_assoc, append-nil}
use sshbackup.Common.{
  ◌≡◌, refl, sym, ap, ◌∙◌, String, Bool, true, false, not, Option, none, some, List, [], ◌∷◌, ◌++◌,
  All, map, eq_refl, arith,
}
use sshbackup.Domain.{Job, Source, Script, Schedule, RetentionPolicy, HealthCheck, ok}
use sshbackup.Backup.World.{seconds}
use sshbackup.Store.Convert.{Formats, is_empty, bool_to_int, int_to_bool}
use sshbackup.Store.Lists.{storable, is_weekday, split_strings-join_strings, split_ints-join_ints}
use sshbackup.Store.JobRows.{job_row, source_row, script_row, schedule_row, retention_row}
use sshbackup.Store.LoadJobs.{
  JobQueries, scan_job_row, scan_source, scan_script, scan_schedule, scan_health_check, at_job,
  attach_sources, attach_scripts, attach_schedules, attach_retention, attach_children, scan_jobs,
  load_jobs, no_schedule,
}

abbrev pub IsSavableSource : Source → Type 0
IsSavableSource s = (storable s.include ≡ true) × (storable s.exclude ≡ true)

abbrev pub has_command : Option HealthCheck → Bool
has_command none = true
has_command (some h) = not (is_empty h.command)

-- What the columns can hold of a job: its times, a timeout of whole seconds, patterns that can be
-- joined by line breaks, days of the week, and a health check that has a command.
pub record IsSavable (c : Formats) (j : Job) : Type 0 where
  pub created : c.parse_time (c.format_time j.created_at) ≡ ok j.created_at
  pub updated : c.parse_time (c.format_time j.updated_at) ≡ ok j.updated_at
  pub timeout : seconds (c.whole_seconds j.archive_timeout) ≡ j.archive_timeout
  pub sources : All IsSavableSource j.sources
  pub weekdays : All (λ w. is_weekday w ≡ true) j.schedule.weekdays
  pub checked : has_command j.health_check ≡ true

-- The queries of `loadJobs` for one job find the rows that `Create` wrote.
pub record FindsJob (c : Formats) (q : JobQueries) (j : Job) : Type 0 where
  pub jobs : q.jobs ≡ ok (job_row c j ∷ [])
  pub sources : q.sources (j.id ∷ []) ≡ ok (map (source_row j.id) j.sources)
  pub scripts : q.scripts (j.id ∷ []) ≡ ok (map (script_row j.id) j.scripts)
  pub schedules : q.schedules (j.id ∷ []) ≡ ok (schedule_row j.id j.schedule ∷ [])
  pub retention : q.retention (j.id ∷ []) ≡ ok (retention_row j.id j.retention_policy ∷ [])

pub int_to_bool-bool_to_int : (b : Bool) → int_to_bool (bool_to_int b) ≡ b
int_to_bool-bool_to_int true = refl
int_to_bool-bool_to_int false = refl

scan_source-source_row :
    (id : String) (s : Source) → IsSavableSource s → scan_source (source_row id s) ≡ s
unfolding scan_source source_row
scan_source-source_row id s h =
    rw (split_strings-join_strings s.include h.0, split_strings-join_strings s.exclude h.1) refl

scan_script-script_row : (id : String) (s : Script) → scan_script (script_row id s) ≡ s
unfolding scan_script script_row
scan_script-script_row id s =
    rw (int_to_bool-bool_to_int s.critical_cleanup, int_to_bool-bool_to_int s.retry_on_failure) refl

scan_schedule-schedule_row :
    (c : Formats) (id : String) (s : Schedule)
    → All (λ w. is_weekday w ≡ true) s.weekdays
    → scan_schedule c (schedule_row id s) ≡ ok s
unfolding scan_schedule schedule_row
scan_schedule-schedule_row c id s h = rw (split_ints-join_ints c s.weekdays h) refl

at_own : (f : Job → Job) (j : Job) → at_job j.id f (j ∷ []) ≡ f j ∷ []
at_own f j = rw (eq_refl j.id) refl

attach_sources-source_row :
    (ss : List Source) (j : Job)
    → All IsSavableSource ss
    → attach_sources (map (source_row j.id) ss) (j ∷ [])
      ≡ record j { sources = j.sources ++ ss } ∷ []
unfolding attach_sources source_row
attach_sources-source_row [] j h =
    ap (λ xs. record j { sources = xs } ∷ []) (sym (append-nil j.sources))
attach_sources-source_row (s ∷ ss) j h =
    let scanned = scan_source (source_row j.id s) in
    let own = at_own (λ k. record k { sources = k.sources ++ scanned ∷ [] }) j in
    let rest =
      attach_sources-source_row ss (record j { sources = j.sources ++ scanned ∷ [] }) h.1 in
    let joined = append_assoc j.sources (scanned ∷ []) ss in
    let same = ap (λ x. j.sources ++ x ∷ ss) (scan_source-source_row j.id s h.0) in
    ap (attach_sources (map (source_row j.id) ss)) own
    ∙ (rest ∙ ap (λ xs. record j { sources = xs } ∷ []) (joined ∙ same))

attach_scripts-script_row :
    (ss : List Script) (j : Job)
    → attach_scripts (map (script_row j.id) ss) (j ∷ [])
      ≡ record j { scripts = j.scripts ++ ss } ∷ []
unfolding attach_scripts script_row
attach_scripts-script_row [] j =
    ap (λ xs. record j { scripts = xs } ∷ []) (sym (append-nil j.scripts))
attach_scripts-script_row (s ∷ ss) j =
    let scanned = scan_script (script_row j.id s) in
    let own = at_own (λ k. record k { scripts = k.scripts ++ scanned ∷ [] }) j in
    let rest = attach_scripts-script_row ss (record j { scripts = j.scripts ++ scanned ∷ [] }) in
    let joined = append_assoc j.scripts (scanned ∷ []) ss in
    let same = ap (λ x. j.scripts ++ x ∷ ss) (scan_script-script_row j.id s) in
    ap (attach_scripts (map (script_row j.id) ss)) own
    ∙ (rest ∙ ap (λ xs. record j { scripts = xs } ∷ []) (joined ∙ same))

attach_schedules-schedule_row :
    (c : Formats) (s : Schedule) (j : Job)
    → All (λ w. is_weekday w ≡ true) s.weekdays
    → attach_schedules c (schedule_row j.id s ∷ []) (j ∷ []) ≡ ok (record j { schedule = s } ∷ [])
unfolding attach_schedules schedule_row
attach_schedules-schedule_row c s j h =
    rw (scan_schedule-schedule_row c j.id s h)
      (ap (λ js. ok js) (at_own (λ k. record k { schedule = s }) j))

attach_retention-retention_row :
    (p : RetentionPolicy) (j : Job)
    → attach_retention (retention_row j.id p ∷ []) (j ∷ []) ≡ record j { retention_policy = p } ∷ []
unfolding attach_retention retention_row
attach_retention-retention_row p j = at_own (λ k. record k { retention_policy = p }) j

health_trip :
    (o : Option HealthCheck) (c : Formats) (j : Job)
    → o ≡ j.health_check
    → has_command o ≡ true
    → scan_health_check (job_row c j) ≡ o
unfolding job_row
health_trip none c j h k = rw⁻¹ h refl
health_trip (some hc) c j h k =
    let filled : is_empty hc.command ≡ false = ground (arith, k) in rw⁻¹ h (rw filled refl)

-- The job that `scanJobRow` makes, before its children are attached.
abbrev bare : Job → Job
bare j = record j {
  sources = [];
  scripts = [];
  schedule = no_schedule;
  retention_policy = record { keep_last = none; max_age_days = none };
}

scan_job_row-job_row :
    (c : Formats) (j : Job) → IsSavable c j → scan_job_row c (job_row c j) ≡ ok (bare j)
unfolding scan_job_row job_row
scan_job_row-job_row c j s =
    let health = health_trip j.health_check c j refl s.checked in
    rw (s.created, s.updated, s.timeout, int_to_bool-bool_to_int j.enabled)
      (ap (λ h. ok (record (bare j) { health_check = h })) health)

attached :
    (c : Formats) (q : JobQueries) (j : Job)
    → IsSavable c j
    → FindsJob c q j
    → attach_children c q (bare j ∷ []) ≡ ok (j ∷ [])
unfolding attach_children
attached c q j s f =
    let one = attach_sources-source_row j.sources (bare j) s.sources in
    let two = attach_scripts-script_row j.scripts (record (bare j) { sources = j.sources }) in
    let sourced = record (bare j) { sources = j.sources; scripts = j.scripts } in
    let three = attach_schedules-schedule_row c j.schedule sourced s.weekdays in
    let four =
      attach_retention-retention_row j.retention_policy
        (record sourced { schedule = j.schedule }) in
    rw (f.sources, f.scripts, f.schedules, f.retention)
      (rw (one, two, three) (ap (λ js. ok js) four))

-- A job that the columns can hold, where the queries of `loadJobs` find the rows that `Create`
-- wrote for it, is loaded as it was: with its sources and scripts in their order, its schedule, its
-- retention policy and its health check.
pub load_jobs-job_row :
    (c : Formats) (q : JobQueries) (j : Job)
    → IsSavable c j
    → FindsJob c q j
    → load_jobs c q ≡ ok (j ∷ [])
unfolding load_jobs scan_jobs attach_children
load_jobs-job_row c q j s f = rw (f.jobs) (rw (scan_job_row-job_row c j s) (attached c q j s f))
