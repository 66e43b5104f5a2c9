-- ===== src/Examples/Checks.antt =====
-- A server that presents one key, and the check of a connection to it.
use sshbackup.Common.{◌≡◌, refl, sym, ◌∙◌, ap, String, Option, none, some, arith}
use sshbackup.Domain.{Error, ErrorCode, ok, err}
use sshbackup.Remote.HostKey.{HostKeyInfo}
use sshbackup.Remote.TestConnection.{Handshake, Peer, IsPeer, test_connection, host_key_callback}
use sshbackup.Remote.Verdict.{IsVerdict, test_connection-IsVerdict}

abbrev key : HostKeyInfo
key = record { algorithm = "ssh-ed25519"; fingerprint = "SHA256:abc" }

abbrev shake : Option Error → Handshake
shake none = record { presented = some key; outcome = ok "SSH-2.0-OpenSSH_9.6" }
shake (some e) = record { presented = some key; outcome = err e }

abbrev pub host : Peer
host = record {
  addr = "backup.example:22";
  auth_error = none;
  dial = none;
  handshake = λ f. shake (f key);
  open_session = none;
  run_command = λ c. ok "Linux 6.8";
}

shown_key : (o : Option Error) → (shake o).presented ≡ some key
shown_key none = refl
shown_key (some e) = refl

code_in : Option Error → Option ErrorCode
code_in none = none
code_in (some e) = e.code

asked : (HostKeyInfo → Option Error) → Option HostKeyInfo → Option Error
asked f none = none
asked f (some k) = f k

same_question :
    (f : HostKeyInfo → Option Error) (k : HostKeyInfo)
    → (shake (f key)).presented ≡ some k
    → f key ≡ f k
unfolding asked
same_question f k seen = ap (asked f) (sym (shown_key (f key)) ∙ seen)

shake_accepted :
    (o : Option Error) (v : String)
    → (shake o).outcome ≡ ok v
    → ((shake o).presented ≡ some key) × (o ≡ none)
shake_accepted none v done = (refl, refl)
shake_accepted (some e) v done = ground (arith, done)

shake_refused :
    (o : Option Error) (e : Error)
    → o ≡ some e
    → (x : Error) × ((shake o).outcome ≡ err x) × (x.code ≡ e.code)
unfolding code_in
shake_refused none e stop = ground (arith, stop)
shake_refused (some x) e stop = (x, refl, ap code_in stop)

shake_uncoded :
    (o : Option Error) (x : Error)
    → (shake o).outcome ≡ err x
    → (e : Error) × ((shake o).presented ≡ some key) × (o ≡ some e)
shake_uncoded none x failed = ground (arith, failed)
shake_uncoded (some e) x failed = (e, refl, refl)

pub host-IsPeer : IsPeer host
host-IsPeer = record {
  accepted = λ f v done. let (seen, go) = shake_accepted (f key) v done in (key, seen, go);
  refused = λ f k e seen stop. shake_refused (f key) e (same_question f k seen ∙ stop);
  uncoded = λ f x failed coded.
      let (e, seen, stop) = shake_uncoded (f key) x failed in (key, e, seen, stop);
}

test_connection-IsVerdict_example :
    IsVerdict host "SHA256:abc"
      (host.handshake (host_key_callback "SHA256:abc"))
      (test_connection host "SHA256:abc")
test_connection-IsVerdict_example = test_connection-IsVerdict host "SHA256:abc" host-IsPeer
