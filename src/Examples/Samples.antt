-- ===== src/Examples/Samples.antt =====
-- A job, its server, and an environment in which every call succeeds.
use sshbackup.Common.{ℕ, ◌<>◌, pos, true, false, none, some, [], ◌∷◌}
use sshbackup.Calendar.{Time}
use sshbackup.Domain.{
  Error, plain_error, ok, Job, Server, Script, Schedule, RetentionPolicy, Run, Settings, new_run,
  running, manual, pre_backup, post_backup, on_success, always, monthly, run_as_soon_as_possible,
  password, tar_gz,
}
use sshbackup.Backup.World.{Env, World, Reply}
use sshbackup.Backup.Context.{Setup}

abbrev pub noon : ℕ → Time
noon day = record { year = 2024; month = 2; day = day; hour = 12; minute = 0; second = 0; nano = 0 }

abbrev pub refusal : Error
refusal = plain_error "refused"

abbrev pub seven : Reply
seven = record { exit_code = pos 0; stdout = "7"; stderr = ""; error = none }

-- Every file and every command's output is the text 7.
abbrev pub calm : Env
calm = record {
  now = λ t. noon 20;
  new_id = λ t. ok "id";
  cancelled = λ t. false;
  connect = λ t. none;
  run_remote = λ t cmd timeout. seven;
  download = λ t path. ("7", none);
  sha256_hex = λ bytes. bytes;
  create_file = λ t path. none;
  sync_file = λ t. none;
  rename = λ t a b. none;
  remove = λ t path. none;
  stat_size = λ t path. some (pos 1);
  make_dir = λ t dir. none;
  create_temp = λ t dir. ok "probe";
  local_free = λ t dir. some (pos 100);
  create_step = λ t step position. none;
  update_step = λ t step. none;
  create_run = λ t run. none;
  update_run = λ t run. none;
  acquire_lock = λ t job run. none;
  release_lock = λ t job. none;
  sleep = λ t d. none;
  apply_retention = λ t. (none, []);
  has_retention = true;
  has_events = true;
  redact = λ s. s;
  cron_error = λ s. none;
  join_path = λ a b. a <> "/" <> b;
}

abbrev pub stop_service : Script
stop_service = record {
  id = "stop";
  script_type = pre_backup;
  command = "stop";
  position = pos 0;
  timeout_seconds = pos 5;
  run_condition = on_success;
  critical_cleanup = false;
  retry_on_failure = false;
}

abbrev pub start_service : Script
start_service = record {
  id = "start";
  script_type = post_backup;
  command = "start";
  position = pos 1;
  timeout_seconds = pos 5;
  run_condition = always;
  critical_cleanup = true;
  retry_on_failure = true;
}

abbrev pub monthly_31 : Schedule
monthly_31 = record {
  schedule_type = monthly;
  hour = pos 3;
  minute = pos 30;
  weekdays = [];
  day_of_month = pos 31;
  cron_expression = "";
  missed_run_policy = run_as_soon_as_possible;
}

abbrev pub keep_one : RetentionPolicy
keep_one = record { keep_last = some (pos 1); max_age_days = some (pos 3) }

abbrev pub job : Job
job = record {
  id = "job";
  name = "Site";
  server_id = "server";
  enabled = true;
  sources =
      record {
        id = "site";
        position = pos 0;
        remote_path = "/srv/site";
        include = [];
        exclude = "tmp" ∷ [];
      }
      ∷ [];
  scripts = stop_service ∷ start_service ∷ [];
  schedule = monthly_31;
  retention_policy = keep_one;
  health_check = some (record { command = "curl"; attempts = pos 2; interval_seconds = pos 1 });
  remote_temp_directory = "/tmp";
  local_destination = "C:";
  archive_timeout = pos 60_000_000_000;
  archive_format = tar_gz;
  created_at = noon 1;
  updated_at = noon 2;
}

abbrev pub server : Server
server = record {
  id = "server";
  name = "Host";
  host = "host";
  port = pos 22;
  username = "backup";
  auth_type = password;
  credential_reference = "ref";
  private_key_path = "";
  host_key_algorithm = "ssh-ed25519";
  host_key_fingerprint = "SHA256:abc";
  connection_timeout_seconds = pos 5;
  command_timeout_seconds = pos 5;
  created_at = noon 1;
  updated_at = noon 2;
}

abbrev pub setup : Setup
setup = record { env = calm; job = job; server = server; dest_dir = "C:" }

abbrev pub settings : Settings
settings = record {
  schedules_paused = false;
  global_concurrency_limit = pos 2;
  notify_success = true;
  notify_failure = true;
  stale_remote_cleanup_enabled = false;
  stale_remote_cleanup_age_hours = pos 24;
}

-- A run that started on a day of February.
abbrev pub run_of : ℕ → Run
run_of day = record (new_run "run" (noon day) "job" "server" ("/srv/site" ∷ []) manual) {
  status = running;
  archive_name = "site.tar.gz";
}

-- A run as it is when its stages begin.
abbrev pub fresh_run : Run
fresh_run = record (new_run "run" (noon 20) "job" "server" ("/srv/site" ∷ []) manual) {
  status = running;
}

abbrev pub start : World
start = record { tick = 0; calls = [] }
