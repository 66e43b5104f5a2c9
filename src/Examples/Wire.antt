-- ===== src/Examples/Wire.antt =====
-- Witnesses for the protocol and the handlers.
use sshbackup.Remote.TestConnection.{test_connection}
use sshbackup.Examples.Checks.{host, host-IsPeer}
use sshbackup.Common.{
  ℕ, ◌≡◌, ◌≢◌, arith, eq_iff, ◌⊎◌, ◌∙◌, refl, String, ℤ, pos, ◌/◌, pos_part, Bool, true, false,
  Option, none, some, List, [], ◌∷◌, All, is_zero,
}
use sshbackup.Common.Action.{Action, Leads, IsPreorder}
use sshbackup.Domain.{Error, Result, ok, err, Job, Server, Settings}
use sshbackup.Domain.NewJob.{new_job}
use sshbackup.Domain.Validate.{validate_settings}
use sshbackup.Ipc.Envelope.{Envelope, new_request}
use sshbackup.Ipc.Router.{HandlerFunc, Connection, answered, failed, serve}
use sshbackup.Ipc.Answers.{requests, AnswerEach, serve-AnswerEach}
use sshbackup.Ipc.EventHub.{
  Hub, new_event_hub, subscribe, publish, receive, start, after_subscribe, after_publish,
  after_receive,
}
use sshbackup.Ipc.Delivery.{IsServed, Reach-IsServed}
use sshbackup.Ipc.Convert.{Times, job_to_dto, settings_to_dto}
use sshbackup.Ipc.JobEdit.{IsSettled}
use sshbackup.Ipc.Backend.{Backend}
use sshbackup.Ipc.ServerHandlers.{ConfirmHostKeyRequest, handle_confirm_host_key}
use sshbackup.Ipc.Handlers.{handle_settings_set, handle_jobs_update}
use sshbackup.Ipc.Resave.{Saved, handle_jobs_update-Saved}
use sshbackup.Ipc.Trust.{IsLookedUp, IsTester, Seen, handle_confirm_host_key-Seen}
use sshbackup.Ipc.SettingsTrip.{UsesStore, Sets, handle_settings_set-Sets}
use sshbackup.Store.Table.{Table}
use sshbackup.Store.Rows.{settings_row}
use sshbackup.Store.Settings.{KeyedRow, same_number, IsSeeded, get_settings, update_settings}
use sshbackup.Examples.Memory.{part, part-IsTable}
use sshbackup.Examples.Samples.{refusal, job, server, settings, stop_service, start_service, noon}

-- A handler that answers with what it was sent.
abbrev echo : HandlerFunc ℕ String
echo payload w = elim payload [
  | some p ↦ (answered p, w)
  | none ↦ (failed (record { coded = none; text = "nothing" }), w)
]

abbrev two : List (Envelope String)
two = new_request "1" "echo" "a" ∷ new_request "2" "other" "b" ∷ []

-- A connection on which every write succeeds.
abbrev line : Connection ℕ String
line = record {
  write = λ env w. (none, w);
  push_error = λ w. (none, w);
  read_error = record { coded = none; text = "EOF" };
}

serve-AnswerEach_example :
    AnswerEach
      (serve line (("echo", echo) ∷ []) two 0).0.stop
      (requests two)
      (requests (serve line (("echo", echo) ∷ []) two 0).0.unread)
      (serve line (("echo", echo) ∷ []) two 0).0.written
serve-AnswerEach_example = serve-AnswerEach (("echo", echo) ∷ []) line two 0

-- A subscriber that received one of two events.
abbrev hub : Hub String
hub = receive 0 (publish "b" (publish "a" (subscribe new_event_hub).1))

Reach-IsServed_example : All IsServed hub.subs
Reach-IsServed_example =
    Reach-IsServed hub
      (after_receive 0 (after_publish "b" (after_publish "a" (after_subscribe start))))

abbrev times : Times
times = record {
  is_zero_time = λ t. false;
  rfc3339 = λ t. "2024-02-01T00:00:00Z";
  whole_seconds = λ d. pos (pos_part d / 1_000_000_000);
}

job-IsSettled : IsSettled times job
job-IsSettled = record {
  timeout = refl;
  positive = refl;
  directory = refl;
  policy = refl;
  scripts = (refl, (refl, tt));
  format = refl;
}

-- Identifiers are numbers in a row.
abbrev numbered : Action ℕ (Result String)
numbered w = (ok "new", w)

-- The job as it is made again.
abbrev saved : Job
saved = record job {
  id = "new";
  sources =
      record {
        id = "new";
        position = pos 0;
        remote_path = "/srv/site";
        include = [];
        exclude = "tmp" ∷ [];
      }
      ∷ [];
  scripts = record stop_service { id = "new" } ∷ record start_service { id = "new" } ∷ [];
  updated_at = noon 1;
}

abbrev pub Stored : Type 0
Stored = List Server × List KeyedRow

-- A database with one row of settings.
abbrev pub kept_settings : Stored
kept_settings = ([], (1, settings_row settings) ∷ [])

abbrev settings_table : Table Stored KeyedRow
settings_table = part (λ w. w.1) (λ rows w. (w.0, rows)) same_number

-- A backend with one server, whose connection test presents one key.
abbrev pub backend : Backend Stored
backend = record {
  get_server = λ id w. (ok server, w);
  create_server = λ s w. (none, (s ∷ w.0, w.1));
  update_server = λ s w. (none, (s ∷ w.0, w.1));
  delete_server = λ id w. (none, w);
  get_job = λ id w. (ok job, w);
  create_job = λ j w. (none, w);
  update_job = λ j w. (none, w);
  delete_job = λ id history w. (none, w);
  set_enabled = λ id enabled w. (none, w);
  get_settings = get_settings settings_table refusal;
  update_settings = update_settings settings_table;
  save_secret = λ s w. (ok "ref", w);
  replace_secret = λ r s w. (none, w);
  delete_secret = λ r w. (none, w);
  load_secret = λ r w. (ok "secret", w);
  read_file = λ path w. (ok "key", w);
  test_connection = λ s c f w. (test_connection host f, w);
  publish_settings = λ s w. (tt, w);
  now = λ w. (noon 5, w);
  new_id = λ w. (ok "new", w);
  cron_error = λ s. none;
  has_events = true;
}

abbrev saved_now : Job
saved_now = record saved { id = "job"; updated_at = noon 5 }

saved_again :
    (handle_jobs_update backend (ok (job_to_dto times job "")) kept_settings).0 ≡ ok saved_now
unfolding handle_jobs_update sshbackup.Domain.NewJob.new_job sshbackup.Domain.NewJob.try
    sshbackup.Domain.NewJob.identify sshbackup.Domain.NewJob.identify_sources
    sshbackup.Domain.NewJob.identify_scripts sshbackup.Common.Action.◌>>=◌
    sshbackup.Common.Action.pure sshbackup.Domain.Validate.validate_absolute_remote_path
    sshbackup.Domain.Validate.validate_cron sshbackup.Domain.Validate.validate_health_check
    sshbackup.Domain.Validate.validate_job sshbackup.Domain.Validate.validate_name
    sshbackup.Domain.Validate.validate_port sshbackup.Domain.Validate.validate_retention
    sshbackup.Domain.Validate.validate_schedule sshbackup.Domain.Validate.validate_script
    sshbackup.Domain.Validate.validate_server sshbackup.Domain.Validate.validate_settings
    sshbackup.Domain.Validate.validate_time_of_day
    sshbackup.Domain.Validate.validate_timeout_seconds sshbackup.Common.Text.is_blank
    sshbackup.Common.Text.is_space
saved_again = refl

handle_jobs_update-Saved_example :
    Saved backend job saved_now
      (handle_jobs_update backend (ok (job_to_dto times job "")) kept_settings)
handle_jobs_update-Saved_example =
    handle_jobs_update-Saved backend times job "" job-IsSettled kept_settings saved_now refl refl
      saved_again

abbrev asked : ConfirmHostKeyRequest
asked = record { server_id = "server"; fingerprint = "SHA256:other"; algorithm = "ssh-ed25519" }

-- The servers are the same.
abbrev SameServers : Stored → Stored → Type 0
SameServers w v = v.0 ≡ w.0

backend-IsLookedUp : IsLookedUp backend SameServers
backend-IsLookedUp = record {
  order = record { same = λ w. refl; chain = λ s t u p q. q ∙ p };
  on_get = λ id. record { at = λ w. refl };
  on_load = λ r. record { at = λ w. refl };
  on_read = λ path. record { at = λ w. refl };
  on_test = λ s c f. record { at = λ w. refl };
}

backend-IsTester : IsTester backend
backend-IsTester = record {
  peer = λ s c w. host;
  tests = λ s c f w. refl;
  keeps = λ s c w. host-IsPeer;
}

some_text : asked.fingerprint ≢ ""
some_text e = ground (arith, (eq_iff asked.fingerprint "").1 e)

handle_confirm_host_key-Seen_example :
    SameServers kept_settings (handle_confirm_host_key backend (ok asked) kept_settings).1
    ⊎ Seen backend backend-IsTester asked kept_settings
handle_confirm_host_key-Seen_example =
    handle_confirm_host_key-Seen backend backend-IsLookedUp backend-IsTester asked kept_settings
      some_text

backend-UsesStore : UsesStore backend settings_table refusal
backend-UsesStore = record {
  table = part-IsTable (λ w. w.1) (λ rows w. (w.0, rows)) same_number (λ rows w. refl);
  database = λ w. w;
  gets = λ w. refl;
  updates = λ s w. refl;
  changes = λ s w. refl;
  publishes = λ s w. refl;
}

seeded : IsSeeded settings_table backend-UsesStore.table (backend-UsesStore.database kept_settings)
unfolding IsSeeded sshbackup.Store.Settings.has_first backend-UsesStore
seeded = refl

handle_settings_set-Sets_example :
    Sets backend backend-UsesStore
      (settings_to_dto settings)
      (validate_settings settings)
      kept_settings
      (handle_settings_set backend (ok (settings_to_dto settings)) kept_settings)
handle_settings_set-Sets_example =
    handle_settings_set-Sets backend backend-UsesStore (settings_to_dto settings) kept_settings
      seeded
