-- ===== src/Examples/Archives.antt =====
-- Witnesses for the retention of archives and for the connections.
use sshbackup.Common.{
  ℕ, ◌+◌, ◌≤◌, ◌≡◌, ◌≢◌, ◌↔◌, refl, arith, String, pos, true, none, some, List, [], ◌∷◌, length,
  ltb, All, if◌then◌else◌,
}
use sshbackup.Domain.{Error, Run, ok, err, has_limit}
use sshbackup.Retention.{Store, Applied, should_delete, cutoff_of, apply}
use sshbackup.Retention.Policy.{OutsideCount, OutsideAge, should_delete_iff}
use sshbackup.Retention.Deletions.{selected, IsAccount, apply-IsAccount, apply_keeps_newest}
use sshbackup.Remote.HostKey.{HostKeyInfo, verify_host_key, verify_host_key_iff}
use sshbackup.Remote.Dialer.{
  Network, dial, retry_delays, dial_bounds, dial_unreachable, dial_no_retry,
}
use sshbackup.Remote.CappedWriter.{new_capped_writer, write_all, write_all-new_capped_writer}
use sshbackup.Common.{false, itoa, trim_space, is_space}
use sshbackup.Common.Action.{◌>>=◌, ◌>>◌, pure, branch, option}
use sshbackup.Backup.World.{ask, mark}
use sshbackup.Backup.ShellQuote.{shell_quote, escape_quotes}
use sshbackup.Retention.Stale.{
  scan, after_lock, scan_unlocked, scan_connected, delete_each, run_on_server, findings_of,
  split_lines,
}
use sshbackup.Retention.StaleCommands.{Swept, scan-Swept, commands}
use sshbackup.Common.{codes}
use sshbackup.Domain.ArchiveName.{sanitize}
use sshbackup.Domain.FileName.{IsAllowed, sanitize-IsAllowed}
use sshbackup.Examples.Samples.{calm, server, start, noon, refusal, job, keep_one, run_of}

-- The second file cannot be removed.
abbrev store : Store
store = record {
  list_archived = λ id. ok (run_of 20 ∷ run_of 16 ∷ run_of 2 ∷ run_of 1 ∷ []);
  now = noon 20;
  remove = λ i path. if ltb i 3 then none else some refusal;
  update = λ i run. none;
  join_path = λ a b. b;
}

should_delete_iff_example :
    (should_delete keep_one 2 (noon 2) (cutoff_of keep_one (noon 20)) ≡ true) ↔ (
      (has_limit keep_one ≡ true)
      × OutsideCount (some (pos 1)) 2
      × OutsideAge (cutoff_of keep_one (noon 20)) (noon 2))
should_delete_iff_example = should_delete_iff keep_one 2 (noon 2) (noon 20)

apply-IsAccount_example :
    (a : Applied) × (apply store job ≡ ok a)
    × IsAccount store job
        (selected keep_one
          (cutoff_of keep_one (noon 20))
          0
          (run_of 20 ∷ run_of 16 ∷ run_of 2 ∷ run_of 1 ∷ []))
        a
apply-IsAccount_example =
    apply-IsAccount store job (run_of 20 ∷ run_of 16 ∷ run_of 2 ∷ run_of 1 ∷ []) refl refl

abbrev applied : Applied
applied = record {
  deleted = 2;
  warnings = "could not delete archive site.tar.gz: refused" ∷ [];
  removals = 1 ∷ 2 ∷ 3 ∷ [];
  cleared = record (run_of 16) { archive_name = "" } ∷ record (run_of 2) { archive_name = "" } ∷ [];
}

applied_lem : apply store job ≡ ok applied
unfolding apply sshbackup.Retention.apply_from sshbackup.Retention.combine should_delete cutoff_of
    sshbackup.Calendar.before sshbackup.Domain.new_run sshbackup.Retention.delete_archive
applied_lem = refl

apply_keeps_newest_example : All (OutsideCount (some (pos 1))) (1 ∷ 2 ∷ 3 ∷ [])
apply_keeps_newest_example =
    apply_keeps_newest store job (run_of 20 ∷ run_of 16 ∷ run_of 2 ∷ run_of 1 ∷ []) refl applied_lem

abbrev host_key : HostKeyInfo
host_key = record { algorithm = "ssh-ed25519"; fingerprint = "SHA256:abc" }

verify_host_key_iff_example :
    (((verify_host_key "SHA256:abc" host_key).0 ≡ none)
      ↔ ((◌≢◌ {A = String} "SHA256:abc" "") × (host_key.fingerprint ≡ "SHA256:abc")))
    × ((verify_host_key "SHA256:abc" host_key).1 ≡ host_key)
verify_host_key_iff_example = verify_host_key_iff "SHA256:abc" host_key

abbrev down : Network
down = record {
  auth_error = none;
  dial = λ i. some refusal;
  handshake = λ i. none;
  open_sftp = λ i. none;
  sleep = λ i. none;
}

abbrev wrong_password : Network
wrong_password = record {
  auth_error = none;
  dial = λ i. none;
  handshake = λ i. some refusal;
  open_sftp = λ i. none;
  sleep = λ i. none;
}

dial_bounds_example :
    ((dial down "SHA256:abc").attempts ≤ 4)
    × ((dial down "SHA256:abc").attempts ≤ length (dial down "SHA256:abc").delays + 1)
dial_bounds_example = dial_bounds down "SHA256:abc"

dial_unreachable_example :
    ((dial down "SHA256:abc").attempts ≡ 4) × ((dial down "SHA256:abc").delays ≡ retry_delays)
dial_unreachable_example =
    dial_unreachable down "SHA256:abc" refl refl (λ i. (refusal, refl)) (λ i. refl)

dial_no_retry_example : (dial wrong_password "SHA256:abc").attempts ≤ 1
dial_no_retry_example = dial_no_retry wrong_password "SHA256:abc" refl refl

abbrev chunks : List (List ℕ)
chunks = (1 ∷ 2 ∷ []) ∷ (3 ∷ 4 ∷ []) ∷ (5 ∷ []) ∷ []

write_all-new_capped_writer_example :
    ((write_all chunks (new_capped_writer 3)).buf ≡ 1 ∷ 2 ∷ 3 ∷ [])
    × ((write_all chunks (new_capped_writer 3)).truncated ≡ true)
write_all-new_capped_writer_example =
    write_all-new_capped_writer 3 chunks (omega arith, (omega arith, (omega arith, tt)))

-- One file is found, and removed.
scan-Swept_example :
    Swept job
      (ok false)
      60
      true
      start
      (scan calm (λ t. ok false) job server 60 true start).1
      (scan calm (λ t. ok false) job server 60 true start).0
scan-Swept_example = scan-Swept calm (λ t. ok false) job server 60 true start

swept :
    commands (scan calm (λ t. ok false) job server 60 true start).1.calls
    ≡ "rm -f '7'" ∷ "find '/tmp/job' -maxdepth 1 -type f -mmin +60 2>/dev/null" ∷ []
unfolding scan after_lock scan_unlocked scan_connected delete_each run_on_server findings_of
    split_lines ask mark ◌>>=◌ ◌>>◌ pure branch option shell_quote escape_quotes itoa trim_space
    is_space
swept = refl

sanitize-IsAllowed_example :
    All IsAllowed (codes (sanitize "a/b: c"))
    × (length (codes (sanitize "a/b: c")) ≡ length (codes "a/b: c"))
    × (All IsAllowed (codes "a/b: c") → sanitize "a/b: c" ≡ "a/b: c")
sanitize-IsAllowed_example = sanitize-IsAllowed "a/b: c"
