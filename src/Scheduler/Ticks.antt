-- ===== src/Scheduler/Ticks.antt =====
-- The tick of server/internal/scheduler/dispatcher.go: what it may do to the dispatcher, and what it
-- must not leave undone.
use sshbackup.Common.{
  ◌≡◌, refl, String, ℤ, pos, true, false, Option, none, some, ltb, ltb_ℤ, arith, Bool-cases,
  Option-cases, inl, inr,
}
use sshbackup.Calendar.{Time}
use sshbackup.Domain.{Error, Job, Server, Result, ok, err}
use sshbackup.Scheduler.NextRun.{next_run}
use sshbackup.Scheduler.Dispatcher.{
  Dispatcher, set_baseline, reserve, try_start, started_or, settle, due, consider_job,
}

module _ (cron_next : String → Time → Result Time) (servers : String → Result Server) (now : Time)
    (limit : ℤ) where
  -- Why a job that is due is not started: its server is not known, the limit is reached, or its
  -- server has a run.
  pub data Blocked (job : Job) (d : Dispatcher) : Type 0 where
    no_server : (e : Error) → servers job.server_id ≡ err e → Blocked job d
    full : ltb_ℤ (pos d.running_count) limit ≡ false → Blocked job d
    busy : ltb 0 (d.running_servers job.server_id) ≡ true → Blocked job d

  -- What one job comes to.
  pub data Considered (job : Job) (d : Dispatcher) : Dispatcher → Type 0 where
    seen_first : d.scheduled_up_to job.id ≡ none → Considered job d (set_baseline job.id now d)
    idle :
        (last : Time)
        → d.scheduled_up_to job.id ≡ some last
        → due (next_run cron_next job.schedule last) now ≡ none
        → Considered job d d
    waiting :
        (last : Time) → d.scheduled_up_to job.id ≡ some last → Blocked job d → Considered job d d
    started_now :
        (last occurrence : Time) (d' : Dispatcher)
        → d.scheduled_up_to job.id ≡ some last
        → due (next_run cron_next job.schedule last) now ≡ some occurrence
        → reserve job.server_id limit d ≡ some d'
        → Considered job d (set_baseline job.id now d')

  module _ (job : Job) (d : Dispatcher) where
    refused_place : reserve job.server_id limit d ≡ none → Blocked job d
    unfolding reserve
    refused_place h = elim (Bool-cases (ltb_ℤ (pos d.running_count) limit)) [
      | inr k ↦ full k
      | inl k ↦ elim (Bool-cases (ltb 0 (d.running_servers job.server_id))) [
        | inl m ↦ busy m
        | inr m ↦ absurd (ground (arith, simp (k, m) at h))
      ]
    ]

    module _ (last : Time) (known : d.scheduled_up_to job.id ≡ some last) where
      settled :
          (occurrence : Time)
          → due (next_run cron_next job.schedule last) now ≡ some occurrence
          → (r : Option Dispatcher) → reserve job.server_id limit d ≡ r
          → Considered job d (settle job.id now (started_or r d))
      settled o k none h = waiting last known (refused_place h)
      settled o k (some d') h = started_now last o d' known k h

      started :
          (occurrence : Time)
          → due (next_run cron_next job.schedule last) now ≡ some occurrence
          → (s : Result Server) → servers job.server_id ≡ s
          → Considered job d (
              settle job.id now (elim s [
                | err e ↦ (d, false)
                | ok x ↦ started_or (reserve job.server_id limit d) d
              ]))
      started o k (err e) h = waiting last known (no_server e h)
      started o k (ok x) h = settled o k (reserve job.server_id limit d) refl

      considered :
          (o : Option Time)
          → due (next_run cron_next job.schedule last) now ≡ o
          → Considered job d
              (elim o [ none ↦ d | some t ↦ settle job.id now (try_start servers job limit d) ])
      unfolding try_start
      considered none k = idle last known k
      considered (some t) k = started t k (servers job.server_id) refl

    pub consider_job-Considered : Considered job d (consider_job cron_next servers now limit job d)
    unfolding consider_job
    consider_job-Considered = elim (Option-cases (d.scheduled_up_to job.id)) [
      | inl h ↦ rw (h, consider_job) (seen_first h)
      | inr (last, h) ↦
          rw (h, consider_job)
            (considered last h (due (next_run cron_next job.schedule last) now) refl)
    ]
