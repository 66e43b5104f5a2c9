-- ===== src/Remote/TestConnection.antt =====
-- server/internal/remote/testconnection.go: the check of a connection, up to a harmless command.
use sshbackup.Common.{◌≡◌, ◌≢◌, String, ◌<>◌, Bool, true, false, Option, none, some, if◌then◌else◌}
use sshbackup.Common.Text.{trim_space}
use sshbackup.Domain.{Error, ssh_auth_failed, ssh_connection_failed, Result, ok, err}
use sshbackup.Remote.HostKey.{HostKeyInfo, coded_error, verify_host_key}
use sshbackup.Remote.Dialer.{is_host_key_code}

-- `Stage`, with its empty value.
pub data Stage : Type 0 where
  tcp : Stage
  host_key : Stage
  auth : Stage
  command : Stage
  no_stage : Stage

abbrev pub stage_text : Stage → String
stage_text tcp = "TCP"
stage_text host_key = "HOST_KEY"
stage_text auth = "AUTH"
stage_text command = "COMMAND"
stage_text no_stage = ""

pub record TestResult : Type 0 where
  pub success : Bool
  pub failed_stage : Stage
  pub error : Option Error
  pub presented_host_key : Option HostKeyInfo
  pub remote_os_info : String
  pub ssh_server_version : String

-- What `ssh.NewClientConn` does with a host key callback: the key that the callback was called on,
-- and the server's version or the handshake's error.
pub record Handshake : Type 0 where
  pub presented : Option HostKeyInfo
  pub outcome : Result String

-- The outside of one check: `buildAuthMethod`, the dial, the handshake, the session and its command.
pub record Peer : Type 0 where
  pub addr : String
  pub auth_error : Option Error
  pub dial : Option Error
  pub handshake : (HostKeyInfo → Option Error) → Handshake
  pub open_session : Option Error
  pub run_command : String → Result String

-- What the SSH library says of the callback: a handshake succeeds only if the callback has accepted
-- a key; the callback's error comes out, wrapped; and the library's own errors carry no code.
pub record IsPeer (p : Peer) : Type 0 where
  pub accepted :
      (f : HostKeyInfo → Option Error) (v : String)
      → (p.handshake f).outcome ≡ ok v
      → (k : HostKeyInfo) × ((p.handshake f).presented ≡ some k) × (f k ≡ none)
  pub refused :
      (f : HostKeyInfo → Option Error) (k : HostKeyInfo) (e : Error)
      → (p.handshake f).presented ≡ some k
      → f k ≡ some e
      → (x : Error) × ((p.handshake f).outcome ≡ err x) × (x.code ≡ e.code)
  pub uncoded :
      (f : HostKeyInfo → Option Error) (x : Error)
      → (p.handshake f).outcome ≡ err x
      → x.code ≢ none
      → (k : HostKeyInfo) × (e : Error) × ((p.handshake f).presented ≡ some k) × (f k ≡ some e)

-- `newHostKeyCallback`.
abbrev pub host_key_callback : String → HostKeyInfo → Option Error
host_key_callback trusted key = (verify_host_key trusted key).0

-- The variable `presented`, which is empty until the callback is called.
abbrev pub shown : Option HostKeyInfo → HostKeyInfo
shown none = record { algorithm = ""; fingerprint = "" }
shown (some k) = k

-- A failed check.
abbrev pub stopped : Stage → Error → Option HostKeyInfo → String → TestResult
stopped stage e presented version = record {
  success = false;
  failed_stage = stage;
  error = some e;
  presented_host_key = presented;
  remote_os_info = "";
  ssh_server_version = version;
}

abbrev pub prefixed : String → Error → Error
prefixed what e = record e { text = what <> ": " <> e.text }

-- `TestConnection` from the session's command on.
unfoldable pub run_diagnostic : Peer → HostKeyInfo → String → Result String → TestResult
run_diagnostic p key version (err e) =
    stopped command (prefixed "run diagnostic command" e) (some key) version
run_diagnostic p key version (ok out) = record {
  success = true;
  failed_stage = no_stage;
  error = none;
  presented_host_key = some key;
  remote_os_info = trim_space out;
  ssh_server_version = version;
}

unfoldable pub check_session : Peer → HostKeyInfo → String → Option Error → TestResult
unfolding run_diagnostic
check_session p key version (some e) =
    stopped command (prefixed "open diagnostic session" e) (some key) version
check_session p key version none = run_diagnostic p key version (p.run_command "uname -sr")

-- `TestConnection` from the handshake on.
unfoldable pub check_handshake : Peer → HostKeyInfo → Result String → TestResult
unfolding check_session
check_handshake p key (err e) =
    if is_host_key_code e.code
    then stopped host_key e (some key) ""
    else stopped auth (coded_error ssh_auth_failed "SSH authentication failed") (some key) ""
check_handshake p key (ok version) = check_session p key version p.open_session

-- The first two stages of `TestConnection`, before the handshake.
unfoldable pub check_dial : Peer → Handshake → Option Error → TestResult
check_dial p h (some e) =
    stopped tcp (coded_error ssh_connection_failed ("could not reach " <> p.addr)) none ""
check_dial p h none = check_handshake p (shown h.presented) h.outcome

unfoldable pub check_auth : Peer → Handshake → Option Error → TestResult
check_auth p h (some e) = stopped auth e none ""
check_auth p h none = check_dial p h p.dial

-- `TestConnection`, with the fingerprint that is trusted.
unfoldable pub test_connection : Peer → String → TestResult
test_connection p trusted = check_auth p (p.handshake (host_key_callback trusted)) p.auth_error
