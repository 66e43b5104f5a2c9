-- ===== src/Remote/Verdict.antt =====
-- What `TestConnection` of server/internal/remote/testconnection.go finds out about the host key.
use sshbackup.Common.{
  ◌≡◌, ◌≢◌, ◌⊎◌, ap, ◌∙◌, inl, inr, refl, sym, String, Bool, true, false, Option, none, some,
  eq_iff, arith,
}
use sshbackup.Domain.{Error, Result, ok, err}
use sshbackup.Domain.Enums.{Result-cases}
use sshbackup.Common.{Option-cases}
use sshbackup.Remote.HostKey.{HostKeyInfo, verify_host_key}
use sshbackup.Remote.Dialer.{is_host_key_code}
use sshbackup.Remote.TestConnection.{
  TestResult, Stage, host_key, auth, command, no_stage, Handshake, Peer, IsPeer, host_key_callback,
  shown, run_diagnostic, check_session, check_handshake, check_dial, check_auth, test_connection,
}

-- A fingerprint is trusted, and the key has it.
pub IsTrusted : String → HostKeyInfo → Type 0
IsTrusted trusted k = (trusted ≢ "") × (k.fingerprint ≡ trusted)

-- The four ways in which a check can come out, by what the key was.
pub data IsVerdict (p : Peer) (trusted : String) (h : Handshake) (r : TestResult) : Type 0 where
  unreached :
      (p.auth_error ≢ none) ⊎ (p.dial ≢ none)
      → r.success ≡ false
      → r.presented_host_key ≡ none
      → IsVerdict p trusted h r
  untrusted :
      (k : HostKeyInfo)
      → h.presented ≡ some k
      → ¬ IsTrusted trusted k
      → r.success ≡ false
      → r.failed_stage ≡ host_key
      → r.presented_host_key ≡ some k
      → IsVerdict p trusted h r
  unfinished :
      h.presented ≡ none
      → r.success ≡ false
      → r.failed_stage ≡ auth
      → r.presented_host_key ≡ some (shown none)
      → IsVerdict p trusted h r
  trusted_key :
      (k : HostKeyInfo)
      → h.presented ≡ some k
      → IsTrusted trusted k
      → r.failed_stage ≢ host_key
      → r.presented_host_key ≡ some k
      → IsVerdict p trusted h r

callback_cases :
    (trusted : String) (k : HostKeyInfo)
    → ((e : Error) × (host_key_callback trusted k ≡ some e)
        × (is_host_key_code e.code ≡ true)
        × (¬ IsTrusted trusted k))
      ⊎ ((host_key_callback trusted k ≡ none) × IsTrusted trusted k)
unfolding verify_host_key IsTrusted
callback_cases trusted k = ground (arith, eq_iff trusted "", eq_iff k.fingerprint trusted)

-- A stage other than the host key's.
past_host_key : Stage → Bool
past_host_key host_key = false
past_host_key _ = true

past_host_key_lem : (s : Stage) → past_host_key s ≡ true → s ≢ host_key
unfolding past_host_key
past_host_key_lem s past e = ground (arith, sym past ∙ ap past_host_key e)

module _ (p : Peer) (k : HostKeyInfo) (version : String) where
  diagnostic_past :
      (o : Result String)
      → ((run_diagnostic p k version o).failed_stage ≢ host_key)
        × ((run_diagnostic p k version o).presented_host_key ≡ some k)
  unfolding run_diagnostic past_host_key
  diagnostic_past (ok out) = (past_host_key_lem no_stage refl, refl)
  diagnostic_past (err e) = (past_host_key_lem command refl, refl)

  session_past :
      (o : Option Error)
      → ((check_session p k version o).failed_stage ≢ host_key)
        × ((check_session p k version o).presented_host_key ≡ some k)
  unfolding check_session past_host_key
  session_past none = diagnostic_past (p.run_command "uname -sr")
  session_past (some e) = (past_host_key_lem command refl, refl)

module _ (p : Peer) (trusted : String) (l : IsPeer p) where
  abbrev hands : Handshake
  hands = p.handshake (host_key_callback trusted)

  -- The callback on the key that was presented.
  asked : Option HostKeyInfo → Option Error
  asked none = none
  asked (some k) = host_key_callback trusted k

  -- An error that is not the callback's has no host key code.
  uncoded_error :
      (k : HostKeyInfo)
      → hands.presented ≡ some k
      → host_key_callback trusted k ≡ none
      → (e : Error) → hands.outcome ≡ err e
      → is_host_key_code e.code ≡ false
  unfolding asked
  uncoded_error k seen go e failed = elim (Option-cases e.code) [
    | inl bare ↦ simp bare
    | inr (c, coded) ↦
        let (j, x, shown_j, stop) =
          l.uncoded (host_key_callback trusted) e failed (λ bare. ground (arith, bare, coded)) in
        ground (arith, sym stop ∙ ap asked (sym shown_j ∙ seen) ∙ go)
  ]

  keyless_error :
      hands.presented ≡ none → (e : Error) → hands.outcome ≡ err e → is_host_key_code e.code ≡ false
  keyless_error unseen e failed = elim (Option-cases e.code) [
    | inl bare ↦ simp bare
    | inr (c, coded) ↦
        let (j, x, shown_j, stop) =
          l.uncoded (host_key_callback trusted) e failed (λ bare. ground (arith, bare, coded)) in
        ground (arith, shown_j, unseen)
  ]

  untrusted_key :
      (k : HostKeyInfo) (e : Error)
      → hands.presented ≡ some k
      → host_key_callback trusted k ≡ some e
      → is_host_key_code e.code ≡ true
      → ¬ IsTrusted trusted k
      → IsVerdict p trusted hands (check_handshake p (shown hands.presented) hands.outcome)
  unfolding check_handshake
  untrusted_key k e seen stop coded bad =
      let (x, failed, same) = l.refused (host_key_callback trusted) k e seen stop in
      let host_key = ap is_host_key_code same ∙ coded in
      untrusted k seen bad (simp (failed, host_key)) (simp (failed, host_key))
        (simp (failed, host_key, seen))

  accepted_key :
      (k : HostKeyInfo)
      → hands.presented ≡ some k
      → host_key_callback trusted k ≡ none
      → IsTrusted trusted k
      → IsVerdict p trusted hands (check_handshake p (shown hands.presented) hands.outcome)
  unfolding check_handshake past_host_key
  accepted_key k seen go good = elim (Result-cases hands.outcome) [
    | inl (v, done) ↦
        let (past, kept) = session_past p k v p.open_session in
        trusted_key k seen good (simp (done, seen) past) (simp (done, seen, kept))
    | inr (e, failed) ↦
        let own = uncoded_error k seen go e failed in
        trusted_key k seen good (simp (failed, own) (past_host_key_lem auth refl))
          (simp (failed, own, seen))
  ]

  no_key :
      hands.presented ≡ none
      → IsVerdict p trusted hands (check_handshake p (shown hands.presented) hands.outcome)
  unfolding check_handshake
  no_key unseen = elim (Result-cases hands.outcome) [
    | inl (v, done) ↦
        let (k, seen, go) = l.accepted (host_key_callback trusted) v done in
        ground (arith, unseen, seen)
    | inr (e, failed) ↦
        let own = keyless_error unseen e failed in
        unfinished unseen (simp (failed, own)) (simp (failed, own)) (simp (failed, own, unseen))
  ]

  handshake-IsVerdict :
      IsVerdict p trusted hands (check_handshake p (shown hands.presented) hands.outcome)
  handshake-IsVerdict = elim (Option-cases hands.presented) [
    | inl unseen ↦ no_key unseen
    | inr (k, seen) ↦ elim (callback_cases trusted k) [
      | inl (e, stop, coded, bad) ↦ untrusted_key k e seen stop coded bad
      | inr (go, good) ↦ accepted_key k seen go good
    ]
  ]

  dial-IsVerdict :
      (d : Option Error) → p.dial ≡ d → IsVerdict p trusted hands (check_dial p hands d)
  unfolding check_dial
  dial-IsVerdict none same = handshake-IsVerdict
  dial-IsVerdict (some e) same =
      unreached (inr (λ none_left. ground (arith, none_left, same))) refl refl

  auth-IsVerdict :
      (a : Option Error) → p.auth_error ≡ a → IsVerdict p trusted hands (check_auth p hands a)
  unfolding check_auth
  auth-IsVerdict none same = dial-IsVerdict p.dial refl
  auth-IsVerdict (some e) same =
      unreached (inl (λ none_left. ground (arith, none_left, same))) refl refl

-- Where the SSH library keeps its promises, a check by TestConnection comes out in one of four ways:
-- nothing was reached, and it has failed and shows no key; a key was presented that is not the
-- trusted one, and it has failed at the host key's stage and shows that key; no key was presented,
-- and it has failed at the authentication's stage and shows an empty key; or the trusted key was
-- presented, and it shows that key and has not failed at the host key's stage.
pub test_connection-IsVerdict :
    (p : Peer) (trusted : String)
    → IsPeer p
    → IsVerdict p trusted (p.handshake (host_key_callback trusted)) (test_connection p trusted)
unfolding test_connection
test_connection-IsVerdict p trusted l = auth-IsVerdict p trusted l p.auth_error refl
