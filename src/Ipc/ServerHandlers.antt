-- ===== src/Ipc/ServerHandlers.antt =====
-- server/internal/ipc/handlers_servers.go. A handler takes the request as `UnmarshalPayload` gives
-- it, decoded or an error, and gives the server whose DTO is the response.
use sshbackup.Common.{
  String, ℤ, pos, ltb_ℤ, Bool, false, not, ◌&&◌, Option, none, some, str_eq, if◌then◌else◌,
}
use sshbackup.Common.Action.{Action, pure, ◌>>=◌}
use sshbackup.Calendar.{Time}
use sshbackup.Domain.{Error, ssh_host_key_changed, Result, ok, err, Server, AuthenticationType}
use sshbackup.Domain.Validate.{is_empty, validate_server}
use sshbackup.Domain.NewJob.{try, validated, NewServerParams, new_server}
use sshbackup.Remote.TestConnection.{stage_text}
use sshbackup.Remote.HostKey.{HostKeyInfo}
use sshbackup.Ipc.Backend.{Backend, coded, refused, done, resolve_credentials, store_credential}

pub record SaveServerRequest : Type 0 where
  pub id : String
  pub name : String
  pub host : String
  pub port : ℤ
  pub username : String
  pub auth_type : AuthenticationType
  pub private_key_path : String
  pub passphrase : String
  pub connection_timeout_seconds : ℤ
  pub command_timeout_seconds : ℤ

pub record ConfirmHostKeyRequest : Type 0 where
  pub server_id : String
  pub fingerprint : String
  pub algorithm : String

pub record TestConnectionResponse : Type 0 where
  pub success : Bool
  pub failed_stage : String
  pub message : String
  pub host_key_algorithm : String
  pub host_key_fingerprint : String
  pub fingerprint_changed : Bool
  pub remote_os_info : String
  pub ssh_server_version : String

abbrev pub positive : ℤ → Bool
positive n = ltb_ℤ (pos 0) n

-- The server that `handleServersUpdate` validates and stores.
abbrev pub edited_server : Server → SaveServerRequest → String → Time → Server
edited_server s r credential now = record s {
  name = r.name;
  host = r.host;
  port = r.port;
  username = r.username;
  auth_type = r.auth_type;
  credential_reference = credential;
  private_key_path = if is_empty r.private_key_path then s.private_key_path else r.private_key_path;
  connection_timeout_seconds =
      if positive r.connection_timeout_seconds
      then r.connection_timeout_seconds
      else s.connection_timeout_seconds;
  command_timeout_seconds =
      if positive r.command_timeout_seconds
      then r.command_timeout_seconds
      else s.command_timeout_seconds;
  updated_at = now;
}

abbrev pub new_server_params : SaveServerRequest → String → NewServerParams
new_server_params r credential = record {
  name = r.name;
  host = r.host;
  port = r.port;
  username = r.username;
  auth_type = r.auth_type;
  credential_reference = credential;
  private_key_path = r.private_key_path;
  connection_timeout_seconds = r.connection_timeout_seconds;
  command_timeout_seconds = r.command_timeout_seconds;
}

-- `result.PresentedHostKey != nil && result.PresentedHostKey.Fingerprint == fingerprint`. A test
-- that got no key shows an empty one, which has the empty fingerprint.
abbrev pub presents : Option HostKeyInfo → String → Bool
presents none fingerprint = false
presents (some key) fingerprint = str_eq key.fingerprint fingerprint

abbrev pub error_text : Option Error → String
error_text none = ""
error_text (some e) = e.text

abbrev pub key_algorithm : Option HostKeyInfo → String
key_algorithm none = ""
key_algorithm (some key) = key.algorithm

abbrev pub key_fingerprint : Option HostKeyInfo → String
key_fingerprint none = ""
key_fingerprint (some key) = key.fingerprint

-- `server.HasTrustedHostKey() && …` where a key was presented.
abbrev pub key_changed : Option HostKeyInfo → String → Bool
key_changed none trusted = false
key_changed (some key) trusted = not (is_empty trusted) && not (str_eq key.fingerprint trusted)

module _ {W : Type 0} (b : Backend W) where
  -- `handleServersCreate`; the response holds the server's DTO.
  unfoldable pub handle_servers_create : Result SaveServerRequest → Action W (Result Server)
  handle_servers_create request = try (refused request) (λ r. do
    stored ← store_credential b r.passphrase ""
    try stored (λ credential. do
      now ← b.now
      made ← new_server b.new_id now (new_server_params r credential)
      try (refused made) (λ s. do failure ← b.create_server s; pure (done s failure))))

  -- `handleServersUpdate`.
  unfoldable pub handle_servers_update : Result SaveServerRequest → Action W (Result Server)
  handle_servers_update request = try (refused request) (λ r. do
    existing ← b.get_server r.id
    try existing (λ s. do
      stored ← store_credential b r.passphrase s.credential_reference
      try stored (λ credential. do
        now ← b.now
        let edited = edited_server s r credential now
        try (refused (validated (validate_server edited) edited))
            (λ v. do failure ← b.update_server v; pure (done v failure)))))

  unfoldable pub forget_secret : String → Action W (Option Error)
  forget_secret reference w =
      let deleted = b.delete_secret reference w in if is_empty reference then (none, w) else deleted

  -- `handleServersDelete`.
  unfoldable pub handle_servers_delete : Result String → Action W (Result (Unit {0}))
  handle_servers_delete request = try (refused request) (λ id. do
    found ← b.get_server id
    try found (λ s. do
      failure ← b.delete_server id
      try (done tt failure)
          (λ _. do lost ← forget_secret s.credential_reference; pure (done tt lost))))

  -- `handleTestConnection`.
  unfoldable pub handle_test_connection : Result String → Action W (Result TestConnectionResponse)
  handle_test_connection request = try (refused request) (λ id. do
    found ← b.get_server id
    try found (λ s. do
      credentials ← resolve_credentials b s
      try credentials (λ c. do
        result ← b.test_connection s c s.host_key_fingerprint
        pure (
            ok (record {
              success = result.success;
              failed_stage = stage_text result.failed_stage;
              message = error_text result.error;
              host_key_algorithm = key_algorithm result.presented_host_key;
              host_key_fingerprint = key_fingerprint result.presented_host_key;
              fingerprint_changed = key_changed result.presented_host_key s.host_key_fingerprint;
              remote_os_info = result.remote_os_info;
              ssh_server_version = result.ssh_server_version;
            })))))

  -- The end of `handleConfirmHostKey`.
  unfoldable pub record_host_key :
      Server → ConfirmHostKeyRequest → Option HostKeyInfo → Action W (Result Server)
  record_host_key s r presented w =
      let (now, w') = b.now w in
      let confirmed = record s {
        host_key_fingerprint = r.fingerprint;
        host_key_algorithm = r.algorithm;
        updated_at = now;
      } in
      let (failure, after) = b.update_server confirmed w' in
      if presents presented r.fingerprint then (done confirmed failure, after) else (
        err (
            coded ssh_host_key_changed
              "the presented host key no longer matches the fingerprint being confirmed"),
        w,
      )

  -- `handleConfirmHostKey`.
  unfoldable pub handle_confirm_host_key : Result ConfirmHostKeyRequest → Action W (Result Server)
  handle_confirm_host_key request = try (refused request) (λ r. do
    found ← b.get_server r.server_id
    try found (λ s. do
      credentials ← resolve_credentials b s
      try credentials (λ c. do
        result ← b.test_connection s c r.fingerprint
        record_host_key s r result.presented_host_key)))
