-- ===== src/Ipc/Backend.antt =====
-- server/internal/ipc/backend.go: what the handlers use, and the credentials of a server.
use sshbackup.Common.{String, ◌<>◌, quote, Bool, true, false, Option, none, some, if◌then◌else◌}
use sshbackup.Common.Action.{Action, ◌>>=◌}
use sshbackup.Calendar.{Time}
use sshbackup.Domain.{
  Error, ErrorCode, invalid_config, ssh_auth_failed, Result, ok, err, Server, Job, Settings,
  AuthenticationType, password,
}
use sshbackup.Domain.Validate.{is_empty}
use sshbackup.Domain.NewJob.{try}
use sshbackup.Remote.TestConnection.{TestResult}

-- What a server's authentication needs: a key with its passphrase, or a password.
pub data Credentials : Type 0 where
  with_key : String → String → Credentials
  with_password : String → Credentials

-- The stores, the secrets, the connection test, the clock and the hub of a `Backend`, on a state.
pub record Backend (W : Type 0) : Type 0 where
  pub get_server : String → Action W (Result Server)
  pub create_server : Server → Action W (Option Error)
  pub update_server : Server → Action W (Option Error)
  pub delete_server : String → Action W (Option Error)
  pub get_job : String → Action W (Result Job)
  pub create_job : Job → Action W (Option Error)
  pub update_job : Job → Action W (Option Error)
  pub delete_job : String → Bool → Action W (Option Error)
  pub set_enabled : String → Bool → Action W (Option Error)
  pub get_settings : Action W (Result Settings)
  pub update_settings : Settings → Action W (Option Error)
  pub save_secret : String → Action W (Result String)
  pub replace_secret : String → String → Action W (Option Error)
  pub delete_secret : String → Action W (Option Error)
  pub load_secret : String → Action W (Result String)
  pub read_file : String → Action W (Result String)
  pub test_connection : Server → Credentials → String → Action W TestResult
  pub publish_settings : Settings → Action W (Unit {0})
  pub now : Action W Time
  pub new_id : Action W (Result String)
  pub cron_error : String → Option String
  pub has_events : Bool

-- `domain.NewCodedError(code, message, err)`, with the message that the router sends as its text.
abbrev pub coded : ErrorCode → String → Error
coded code text = record {
  code = some code;
  text = text;
  deadline_exceeded = false;
  not_exist = false;
}

abbrev pub refused : {A : Type 0} → Result A → Result A
refused (ok a) = ok a
refused (err e) = err (coded invalid_config e.text)

-- `if err != nil { return nil, err }` after a call that gives only an error.
abbrev pub done : {A : Type 0} → A → Option Error → Result A
done a none = ok a
done a (some e) = err e

abbrev pub is_password : AuthenticationType → Bool
is_password password = true
is_password _ = false

abbrev pub read_key : Server → String → Result String → Result Credentials
read_key s secret (ok key) = ok (with_key key secret)
read_key s secret (err e) =
    err (coded ssh_auth_failed ("could not read private key " <> quote s.private_key_path))

module _ {W : Type 0} (b : Backend W) where
  -- The part of `ResolveCredentials` that loads the stored secret.
  unfoldable pub stored_secret : String → Action W (Result String)
  stored_secret reference w =
      let loaded = b.load_secret reference w in if is_empty reference then (ok "", w) else loaded

  unfoldable pub key_or_password : Server → String → Action W (Result Credentials)
  key_or_password s secret w =
      let (key, w') = b.read_file s.private_key_path w in
      if is_password s.auth_type
      then (ok (with_password secret), w)
      else (read_key s secret key, w')

  -- `ResolveCredentials`, and the parameters that `connectParams` makes of them.
  unfoldable pub resolve_credentials : Server → Action W (Result Credentials)
  resolve_credentials s = do
    secret ← stored_secret s.credential_reference
    try secret (key_or_password s)

  -- `storeCredential`.
  unfoldable pub store_credential : String → String → Action W (Result String)
  store_credential passphrase existing w =
      let (failure, w') = b.replace_secret existing passphrase w in
      let saved = b.save_secret passphrase w in
      if is_empty passphrase
      then (ok existing, w)
      else if is_empty existing
      then saved
      else (done existing failure, w')
