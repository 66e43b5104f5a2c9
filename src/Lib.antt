-- ===== src/Lib.antt =====
-- A verification library for the service of vpsbackup: a Windows service that archives directories of
-- remote servers over SSH, downloads the archives, checks them and keeps a number of them.
--
-- The parts, all under server/internal:
--   domain      the entities, their validation, and the archive's name: Domain and its children.
--   backup      the run engine: one run of a job, stage by stage: Backup and its children.
--   scheduler   the dispatcher that starts due jobs, and the schedules: Scheduler and its children.
--   retention   the deletion of old archives, here and on the server: Retention and its children.
--   remote      dialling with retries, host keys, the connection test, the limit on a command's output:
--               Remote and its children.
--   store       the repositories on SQLite: Store and its children.
--   ipc         the requests of the client and their answers: Ipc and its children.
-- Common has what they share; Calendar is Go's calendar as far as the program uses it; Examples has
-- concrete inputs, tests and witnesses. The scheduler starts a run through the engine; the engine
-- goes through a connection that the dialer opened, and calls the retention as its last stage. The
-- handlers of ipc call the store, and the engine's lock is the store's.
--
-- How the code is modelled.
-- * The outside (backup/transport.go, clock.go, store.go, engine.go's ports, the file system) is the
--   record Env of Backup.World. Each of its answers depends on the number of calls made before, so
--   that a theorem for every Env is one for every behaviour of the outside, in every order. World
--   keeps the calls made, the last one first.
-- * runContext (backup/runcontext.go) is RunContext of Backup.Context, and a method is an Action on
--   it, of the same name: fail, warn, record_recovery, final_status, check_cancelled, execute (in
--   Backup.Engine). steprecorder.go is start_step, persist_step and skip_recorded; cleanup.go's
--   registry is the field entries, in which a token is a place; its Drain is drain_pending.
--   with_step is the frame that every stage has: start a step, or fail with the stage's own answer.
--   preflight.go, healthcheck.go, remotecleanup.go and retention_stage.go are Backup.Stages;
--   validate.go is Backup.Validator;
--   scripts.go, archive.go, download.go and checks.go with diskspace.go are the modules of those names.
--   Deferred calls are written where Go runs them: in execute the transport is closed before the
--   drain, since the deferred call registered last runs first.
-- * Backup.Respects has the induction over a run's elementary changes, for any relation on run
--   contexts that composes; FirstFailure, Conclusion, Cleanup and Verified instantiate it.
--   Backup.Registry, Enrolment, Visits, Once, Ready and Guarantee count the attempts at a
--   guaranteed script from its registration to the drain; Answered has the relation that says what
--   becomes of each script that is entered.
-- * NewJob and NewServer are Domain.NewJob, with the source of identifiers as an argument.
-- * A table of SQLite (store) is a state with four statements, the record Table of Store.Table, and
--   IsTable is what SQL says of them: a statement that fails changes nothing. When one fails is left
--   open.
--   convert.go is Store.Convert, with the times' text form as a parameter. The rows of runs.go,
--   servers.go and settings.go are Store.Rows, those of jobs.go and jobs_children.go Store.JobRows
--   and Store.LoadJobs; the statements of jobs.go are Store.Jobs, those of runs.go Store.Runs,
--   settings.go is Store.Settings, locks.go is Store.Locks. The start-up recovery of server/cmd/vpsbackupservice/wire.go stands
--   with the statements it makes, in Store.Locks and Store.Runs.
-- * A message on the pipe (ipc/envelope.go, codec.go) is an Envelope of Ipc.Envelope; Ipc.Router is
--   router.go with the loop of session.go, whose connection is a record, Ipc.EventHub is eventhub.go; the lists of
--   subscribers and of messages are values. Ipc.Dto has the records of messages.go, Ipc.Convert
--   the functions of convert.go. Backend of Ipc.Backend is backend.go's record of repositories, as
--   operations on a state; the handlers of handlers_*.go are Ipc.ServerHandlers, Ipc.Handlers and
--   Ipc.RunHandlers. activeruns.go is Ipc.ActiveRuns, in which a cancel function is a number, and
--   a relation has the orders of a handler's steps and a run's.
-- * Engine.Run and Engine.Start differ in who waits for finishRun; run_job is Run.
-- * Dispatcher (scheduler/dispatcher.go) has the maps as functions and the list of runs in flight.
--   A section under the mutex is one function: set_baseline, reserve, release. Scheduler.Limits has
--   the step relation of these sections, in any interleaving; the catch-up runs of missedrun.go are a
--   list of their own, since they take no place. Ticks has the cases of one job, Account and Progress
--   those of a whole tick.
-- * An error is the record Error: the code that CodeOf finds, the text, and what callers ask of it.
--   An error group of a Validate method is the list of its messages.
-- * Numbers of Go's int are unbounded integers; no operation of the modelled code comes near 2 ^ 63.
--   A Time is a wall clock in one zone with a fixed offset.
-- * Loops are by recursion on the list or on the attempts that are left, so no fuel is chosen; only
--   itoa has fuel, a number's own value and one more, which bounds its digits.
--
-- Parameters, as arguments: robfig/cron (an expression's next occurrence and its error), the SSH and
-- SFTP libraries and the network, SQLite, JSON, the printing and reading of times, SHA-256, random
-- identifiers, filepath.Join and the operating system.
--
-- Not modelled: what is only logged; what time.Date makes of an hour, a minute or a day out of its
-- range, which a validated schedule does not have; remote/client.go and connector.go, which call the SSH
-- libraries; the dispatcher's loop goroutine and the walk of DetectMissedRuns; store/db.go,
-- migrate.go and steps.go, the statements of servers.go; ipc/pipeserver.go,
-- eventsink.go and runs.get; secrets, notify, config, applog and the rest of the wiring in
-- server/cmd; the client in apps/client.
pub mod Common
pub mod Calendar
pub mod Domain
pub mod Backup
pub mod Scheduler
pub mod Store
pub mod Ipc
pub mod Retention
pub mod Remote
pub mod Examples
