-- ===== src/Remote/Dialer.antt =====
-- server/internal/remote/dialer.go: when a connection is tried again. One dial, its handshake and
-- the SFTP session are the environment's answers, by the attempt's number.
use sshbackup.Common.{
  ℕ, suc, ◌+◌, ◌≤◌, ◌≡◌, refl, ap, String, ◌<>◌, Bool, true, false, Option, none, some, List, [],
  ◌∷◌, length, str_eq, if◌then◌else◌, arith,
}
use sshbackup.Domain.{
  Error, ErrorCode, ssh_auth_failed, ssh_host_key_changed, ssh_host_key_unverified,
  ssh_connection_failed, Result, ok, err,
}
use sshbackup.Remote.HostKey.{coded_error}

-- What `Dial` asks of the outside.
pub record Network : Type 0 where
  pub auth_error : Option Error
  pub dial : ℕ → Option Error
  pub handshake : ℕ → Option Error
  pub open_sftp : ℕ → Option Error
  pub sleep : ℕ → Option Error

-- `isRetryable`, on what `CodeOf` gives.
unfoldable pub is_retryable : Option ErrorCode → Bool
is_retryable none = true
is_retryable (some ssh_auth_failed) = false
is_retryable (some ssh_host_key_changed) = false
is_retryable (some ssh_host_key_unverified) = false
is_retryable (some _) = true

abbrev pub is_host_key_code : Option ErrorCode → Bool
is_host_key_code none = false
is_host_key_code (some ssh_host_key_unverified) = true
is_host_key_code (some ssh_host_key_changed) = true
is_host_key_code (some _) = false

-- `dialOnce`: the error, if it fails.
unfoldable pub dial_once : Network → ℕ → Option Error
dial_once net attempt = elim (net.dial attempt) [
  | some e ↦ some (coded_error ssh_connection_failed "could not reach the server")
  | none ↦ elim (net.handshake attempt) [
    | none ↦ none
    | some e ↦
        if is_host_key_code e.code
        then some e
        else some (coded_error ssh_auth_failed "SSH authentication failed")
  ]
]

-- `retryDelays`, in seconds.
abbrev pub retry_delays : List ℕ
retry_delays = 5 ∷ 15 ∷ 30 ∷ []

-- The outcome of `Dial`, with the number of dials made and the delays slept.
pub record Dialled : Type 0 where
  pub outcome : Result (Unit {0})
  pub attempts : ℕ
  pub delays : List ℕ

abbrev pub after_sleep : ℕ → Dialled → Dialled
after_sleep d r = record r { delays = d ∷ r.delays }

abbrev pub after_dial : Dialled → Dialled
after_dial r = record r { attempts = suc r.attempts }

abbrev pub ended : Result (Unit {0}) → Dialled
ended r = record { outcome = r; attempts = 0; delays = [] }

-- The rounds of `Dial` from `attempt` on, with the delays that are left.
unfoldable pub dial_from : Network → ℕ → List ℕ → Dialled
dial_from net attempt [] = after_dial (elim (dial_once net attempt) [
  | none ↦ elim (net.open_sftp attempt) [ none ↦ ended (ok tt) | some e ↦ ended (err e) ]
  | some e ↦
      if is_retryable e.code
      then ended (err (record e { text = "connect after attempts: " <> e.text }))
      else ended (err e)
])
dial_from net attempt (d ∷ ds) = after_dial (elim (dial_once net attempt) [
  | none ↦ elim (net.open_sftp attempt) [ none ↦ ended (ok tt) | some e ↦ ended (err e) ]
  | some e ↦ elim (is_retryable e.code) [
    | false ↦ ended (err e)
    | true ↦ elim (net.sleep attempt) [
      | some x ↦ after_sleep d (ended (err x))
      | none ↦ after_sleep d (dial_from net (suc attempt) ds)
    ]
  ]
])

-- `Dial`.
unfoldable pub dial : Network → String → Dialled
dial net trusted = elim net.auth_error [
  | some e ↦ ended (err e)
  | none ↦
      if str_eq trusted ""
      then ended (
          err (
            coded_error ssh_host_key_unverified
              "no trusted host key fingerprint is stored for this server"))
      else dial_from net 0 retry_delays
]

dial_from_bounds :
    (net : Network) (n : ℕ) (ds : List ℕ)
    → ((dial_from net n ds).attempts ≤ length ds + 1)
      × ((dial_from net n ds).attempts ≤ length (dial_from net n ds).delays + 1)
unfolding dial_from
dial_from_bounds net n [] = ground arith
dial_from_bounds net n (d ∷ ds) = ground (arith, dial_from_bounds net (suc n) ds)

-- `Dial` dials at most four times, with a delay before every dial but the first.
pub dial_bounds :
    (net : Network) (trusted : String)
    → ((dial net trusted).attempts ≤ 4)
      × ((dial net trusted).attempts ≤ length (dial net trusted).delays + 1)
unfolding dial
dial_bounds net trusted = ground (arith, dial_from_bounds net 0 retry_delays)

last_round :
    (net : Network) (n : ℕ) {e : Error}
    → net.dial n ≡ some e
    → ((dial_from net n []).attempts ≡ 1) × ((dial_from net n []).delays ≡ [])
unfolding dial_from dial_once is_retryable
last_round net n h = rw h (refl, refl)

round :
    (net : Network) (n d : ℕ) (ds : List ℕ) {e : Error}
    → net.dial n ≡ some e
    → net.sleep n ≡ none
    → dial_from net n (d ∷ ds) ≡ after_dial (after_sleep d (dial_from net (suc n) ds))
unfolding dial_from dial_once is_retryable
round net n d ds h k = rw (h, k) refl

dial_from_unreachable :
    (net : Network) (n : ℕ) (ds : List ℕ)
    → ((i : ℕ) → (e : Error) × (net.dial i ≡ some e))
    → ((i : ℕ) → net.sleep i ≡ none)
    → ((dial_from net n ds).attempts ≡ suc (length ds)) × ((dial_from net n ds).delays ≡ ds)
dial_from_unreachable net n [] down awake = last_round net n (down n).1
dial_from_unreachable net n (d ∷ ds) down awake =
    let ih = dial_from_unreachable net (suc n) ds down awake in
    rw (round net n d ds (down n).1 (awake n)) (ap suc ih.0, ap (λ (l : List ℕ). d ∷ l) ih.1)

-- Four dials are made where the server cannot be reached and no wait is cut short, with all the
-- delays between them.
pub dial_unreachable :
    (net : Network) (trusted : String)
    → net.auth_error ≡ none
    → str_eq trusted "" ≡ false
    → ((i : ℕ) → (e : Error) × (net.dial i ≡ some e))
    → ((i : ℕ) → net.sleep i ≡ none)
    → ((dial net trusted).attempts ≡ 4) × ((dial net trusted).delays ≡ retry_delays)
unfolding dial dial_from dial_once
dial_unreachable net trusted a t down awake =
    rw (a, t) (dial_from_unreachable net 0 retry_delays down awake)

-- An authentication failure or a host key that is refused is never tried again.
pub dial_no_retry :
    (net : Network) (trusted : String) {e : Error}
    → net.dial 0 ≡ none
    → net.handshake 0 ≡ some e
    → (dial net trusted).attempts ≤ 1
unfolding dial dial_from dial_once is_retryable
dial_no_retry net trusted d h = ground arith
