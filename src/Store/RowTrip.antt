-- ===== src/Store/RowTrip.antt =====
-- Runs, servers and settings that server/internal/store writes and reads.
use sshbackup.Common.{◌≡◌, refl, true, Option, none, some}
use sshbackup.Calendar.{Time}
use sshbackup.Domain.{Run, Server, Settings, ok}
use sshbackup.Store.Convert.{Formats, format_time_ptr, parse_time_ptr}
use sshbackup.Store.Lists.{storable, split_strings-join_strings}
use sshbackup.Store.Rows.{
  run_row, update_run_row, scan_run, server_row, update_server_row, scan_server, settings_row,
  scan_settings,
}
use sshbackup.Store.JobTrip.{int_to_bool-bool_to_int}

-- The time is read back as it was written.
abbrev pub IsKept : Formats → Time → Type 0
IsKept c t = c.parse_time (c.format_time t) ≡ ok t

abbrev pub IsKeptIfAny : Formats → Option Time → Type 0
IsKeptIfAny c none = Unit
IsKeptIfAny c (some t) = IsKept c t

-- What an update of a run leaves alone.
pub record IsLaterRun (old new : Run) : Type 0 where
  pub id : old.id ≡ new.id
  pub job_id : old.job_id ≡ new.job_id
  pub server_id : old.server_id ≡ new.server_id
  pub source_paths : old.source_paths ≡ new.source_paths
  pub trigger : old.trigger ≡ new.trigger
  pub started_at : old.started_at ≡ new.started_at

parse_time_ptr-format_time_ptr :
    (c : Formats) (t : Option Time)
    → IsKeptIfAny c t
    → parse_time_ptr c (format_time_ptr c t) ≡ ok t
parse_time_ptr-format_time_ptr c none h = refl
parse_time_ptr-format_time_ptr c (some t) h = rw h refl

-- A run that `Create` wrote in an earlier state and `Update` in a later one, with the same
-- identifiers, sources, trigger and start, is read as it is in the later state.
pub scan_run-update_run_row :
    (c : Formats) (old new : Run)
    → IsLaterRun old new
    → storable old.source_paths ≡ true
    → IsKept c old.started_at
    → IsKeptIfAny c new.finished_at
    → scan_run c (update_run_row c new (run_row c old)) ≡ ok new
unfolding scan_run update_run_row run_row
scan_run-update_run_row c old new l paths started finished =
    rw
      (
        started,
        parse_time_ptr-format_time_ptr c new.finished_at finished,
        split_strings-join_strings old.source_paths paths,
      )
      (rw (l.id, l.job_id, l.server_id, l.source_paths, l.trigger, l.started_at) refl)

-- What an update of a server leaves alone.
pub record IsLaterServer (old new : Server) : Type 0 where
  pub id : old.id ≡ new.id
  pub created_at : old.created_at ≡ new.created_at

-- A server that `Create` wrote in an earlier state and `Update` in a later one, with the same
-- identifier and creation time, is read as it is in the later state.
pub scan_server-update_server_row :
    (c : Formats) (old new : Server)
    → IsLaterServer old new
    → IsKept c old.created_at
    → IsKept c new.updated_at
    → scan_server c (update_server_row c new (server_row c old)) ≡ ok new
unfolding scan_server update_server_row server_row
scan_server-update_server_row c old new l created updated =
    rw (created, updated) (rw (l.id, l.created_at) refl)

-- The settings row gives the settings that were written to it.
pub scan_settings-settings_row : (s : Settings) → scan_settings (settings_row s) ≡ s
unfolding scan_settings settings_row
scan_settings-settings_row s =
    rw
      (
        int_to_bool-bool_to_int s.schedules_paused,
        int_to_bool-bool_to_int s.notify_success,
        int_to_bool-bool_to_int s.notify_failure,
        int_to_bool-bool_to_int s.stale_remote_cleanup_enabled,
      )
      refl
