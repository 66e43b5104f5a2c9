-- ===== src/Remote/HostKey.antt =====
-- server/internal/remote/hostkey.go.
use sshbackup.Common.{
  String, ◌<>◌, false, Option, none, some, str_eq, eq_iff, if◌then◌else◌, ◌≡◌, ◌≢◌, ◌↔◌, arith,
}
use sshbackup.Domain.{Error, ErrorCode, ssh_host_key_unverified, ssh_host_key_changed}

pub record HostKeyInfo : Type 0 where
  pub algorithm : String
  pub fingerprint : String

-- `CodedError.Error` shows the code's text too; callers branch on the code.
abbrev pub coded_error : ErrorCode → String → Error
coded_error code text = record {
  code = some code;
  text = text;
  deadline_exceeded = false;
  not_exist = false;
}

-- `verifyHostKey`: the error, and the key that it reports as presented.
unfoldable pub verify_host_key : String → HostKeyInfo → Option Error × HostKeyInfo
verify_host_key trusted key =
    if str_eq trusted ""
    then (
      some (
          coded_error ssh_host_key_unverified
            "no trusted host key fingerprint is stored for this server; connect interactively to confirm it first"),
      key,
    )
    else if str_eq key.fingerprint trusted
    then (none, key)
    else (
      some (
          coded_error ssh_host_key_changed (
            "host key changed: expected " <> trusted <> ", got " <> key.fingerprint <> " ("
            <> key.algorithm <> ")")),
      key,
    )

-- The handshake goes on exactly when a fingerprint is trusted and the presented key has it; the
-- presented key is reported whatever the outcome.
pub verify_host_key_iff :
    (trusted : String) (key : HostKeyInfo)
    → (((verify_host_key trusted key).0 ≡ none) ↔ ((trusted ≢ "") × (key.fingerprint ≡ trusted)))
      × ((verify_host_key trusted key).1 ≡ key)
unfolding verify_host_key
verify_host_key_iff trusted key = ground (arith, eq_iff trusted "", eq_iff key.fingerprint trusted)
