-- ===== src/Domain/NewJob.antt =====
-- `NewJob` of server/internal/domain/job.go, and `NewServer` of server.go. `NewID` is a parameter:
-- each call gives an identifier or an error.
use sshbackup.Common.{String, ℤ, pos, is_zero, join, Bool, Option, List, [], ◌∷◌, if◌then◌else◌}
use sshbackup.Common.Action.{Action, pure, ◌>>=◌}
use sshbackup.Calendar.{Time}
use sshbackup.Domain.Enums.{
  Result, ok, err, plain_error, AuthenticationType, MissedRunPolicy, run_as_soon_as_possible,
  skip_missed, no_policy, other_missed_run_policy, tar_gz,
}
use sshbackup.Domain.Entities.{Source, Script, Schedule, RetentionPolicy, HealthCheck, Job, Server}
use sshbackup.Domain.Validate.{is_empty, validate_job, validate_server}

pub record NewJobParams : Type 0 where
  pub name : String
  pub server_id : String
  pub enabled : Bool
  pub sources : List Source
  pub scripts : List Script
  pub schedule : Schedule
  pub retention_policy : RetentionPolicy
  pub health_check : Option HealthCheck
  pub remote_temp_directory : String
  pub local_destination : String
  pub archive_timeout : ℤ

pub record NewServerParams : Type 0 where
  pub name : String
  pub host : String
  pub port : ℤ
  pub username : String
  pub auth_type : AuthenticationType
  pub credential_reference : String
  pub private_key_path : String
  pub connection_timeout_seconds : ℤ
  pub command_timeout_seconds : ℤ

abbrev pub default_remote_temp_directory : String
default_remote_temp_directory = "/tmp/vps-backup-manager"

-- Two hours, in nanoseconds.
abbrev pub default_archive_timeout : ℤ
default_archive_timeout = pos 7_200_000_000_000

abbrev pub default_script_timeout_seconds : ℤ
default_script_timeout_seconds = pos 300

abbrev pub default_policy : MissedRunPolicy → MissedRunPolicy
default_policy no_policy = run_as_soon_as_possible
default_policy run_as_soon_as_possible = run_as_soon_as_possible
default_policy skip_missed = skip_missed
default_policy (other_missed_run_policy s) = other_missed_run_policy s

abbrev pub default_text : String → String → String
default_text d s = if is_empty s then d else s

abbrev pub default_number : ℤ → ℤ → ℤ
default_number d n = if is_zero n then d else n

-- The job that `NewJob` builds before it validates it.
abbrev pub built_job : Time → NewJobParams → String → List Source → List Script → Job
built_job now p id sources scripts = record {
  id = id;
  name = p.name;
  server_id = p.server_id;
  enabled = p.enabled;
  sources = sources;
  scripts = scripts;
  schedule = record p.schedule { missed_run_policy = default_policy p.schedule.missed_run_policy };
  retention_policy = p.retention_policy;
  health_check = p.health_check;
  remote_temp_directory = default_text default_remote_temp_directory p.remote_temp_directory;
  local_destination = p.local_destination;
  archive_timeout = default_number default_archive_timeout p.archive_timeout;
  archive_format = tar_gz;
  created_at = now;
  updated_at = now;
}

-- What `Validate` makes of a value: its errors, joined, or the value.
abbrev pub validated : {A : Type 0} → List String → A → Result A
validated [] a = ok a
validated (e ∷ es) a = err (plain_error (join (e ∷ es) "\n"))

-- The server that `NewServer` builds before it validates it.
abbrev pub built_server : Time → NewServerParams → Server
built_server now p = record {
  id = "";
  name = p.name;
  host = p.host;
  port = default_number (pos 22) p.port;
  username = p.username;
  auth_type = p.auth_type;
  credential_reference = p.credential_reference;
  private_key_path = p.private_key_path;
  host_key_algorithm = "";
  host_key_fingerprint = "";
  connection_timeout_seconds = default_number (pos 10) p.connection_timeout_seconds;
  command_timeout_seconds = default_number (pos 30) p.command_timeout_seconds;
  created_at = now;
  updated_at = now;
}

-- A result's value, or its error in place of what follows.
unfoldable pub try : {W A B : Type 0} → Result A → (A → Action W (Result B)) → Action W (Result B)
try (ok a) f w = f a w
try (err e) f w = (err e, w)

module _ {W : Type 0} (new_id : Action W (Result String)) where
  -- `if id == "" { id, err := NewID() … }`.
  unfoldable pub identify : String → Action W (Result String)
  identify id w = let fresh = new_id w in if is_empty id then fresh else (ok id, w)

  -- The loops over the sources and the scripts.
  unfoldable pub identify_sources : List Source → Action W (Result (List Source))
  identify_sources [] = pure (ok [])
  identify_sources (s ∷ ss) = do
    id ← identify s.id
    try id (λ i. do
      rest ← identify_sources ss
      try rest (λ done. pure (ok (record s { id = i } ∷ done))))

  unfoldable pub identify_scripts : List Script → Action W (Result (List Script))
  identify_scripts [] = pure (ok [])
  identify_scripts (s ∷ ss) = do
    id ← identify s.id
    try id (λ i. do
      rest ← identify_scripts ss
      try rest (λ done. pure (
          ok (
            record s {
              id = i;
              timeout_seconds = default_number default_script_timeout_seconds s.timeout_seconds;
            }
            ∷ done))))

  -- `NewJob`. The schedule and the policy get identifiers too, since no caller gives them one;
  -- nothing reads these.
  unfoldable pub new_job : (String → Option String) → Time → NewJobParams → Action W (Result Job)
  new_job cron_error now p = do
    id ← new_id
    try id (λ i. do
      sources ← identify_sources p.sources
      try sources (λ ss. do
        scripts ← identify_scripts p.scripts
        try scripts (λ cs. do
          schedule_id ← new_id
          try schedule_id (λ si. do
            policy_id ← new_id
            try policy_id (λ pi.
                let j = built_job now p i ss cs in
                pure (validated (validate_job cron_error j) j))))))

  -- `NewServer`.
  unfoldable pub new_server : Time → NewServerParams → Action W (Result Server)
  new_server now p =
      let s = built_server now p in
      try (validated (validate_server s) s)
        (λ v. do id ← new_id; try id (λ i. pure (ok (record v { id = i }))))
