-- ===== src/Ipc/Trust.antt =====
-- When `handleConfirmHostKey` of server/internal/ipc/handlers_servers.go records a fingerprint.
use sshbackup.Common.{
  ◌≡◌, ◌≢◌, refl, sym, ap, ◌∙◌, arith, eq_iff, Option, none, some, String, true, Bool-cases, inl,
  inr, ◌⊎◌,
}
use sshbackup.Remote.HostKey.{HostKeyInfo}
use sshbackup.Remote.TestConnection.{
  TestResult, Peer, IsPeer, host_key_callback, shown, test_connection,
}
use sshbackup.Remote.Verdict.{
  IsVerdict, unreached, untrusted, unfinished, trusted_key, test_connection-IsVerdict,
}
use sshbackup.Common.Action.{Action, Leads, Leads-bind, IsPreorder, ◌>>=◌}
use sshbackup.Domain.{Result, ok, err, Server}
use sshbackup.Domain.Validate.{is_empty}
use sshbackup.Domain.NewJob.{try}
use sshbackup.Ipc.Backend.{
  Credentials, Backend, stored_secret, key_or_password, resolve_credentials, is_password,
}
use sshbackup.Ipc.ServerHandlers.{
  ConfirmHostKeyRequest, presents, record_host_key, handle_confirm_host_key,
}

module _ {W : Type 0} {R : W → W → Type 0} where
  Leads-try :
      {A B : Type 0}
      → IsPreorder R
      → (r : Result A) (f : A → Action W (Result B)) → ((a : A) → Leads R (f a))
      → Leads R (try r f)
  unfolding try
  Leads-try p (ok a) f h = record { at = (h a).at }
  Leads-try p (err e) f h = record { at = p.same }

-- Everything that `handleConfirmHostKey` calls, but the update of the server, relates the states.
pub record IsLookedUp {W : Type 0} (b : Backend W) (R : W → W → Type 0) : Type 0 where
  pub order : IsPreorder R
  pub on_get : (id : String) → Leads R (b.get_server id)
  pub on_load : (reference : String) → Leads R (b.load_secret reference)
  pub on_read : (path : String) → Leads R (b.read_file path)
  pub on_test : (s : Server) (c : Credentials) (f : String) → Leads R (b.test_connection s c f)

module _ {W : Type 0} (b : Backend W) {R : W → W → Type 0} (l : IsLookedUp b R) where
  stored_secret-Leads : (reference : String) → Leads R (stored_secret b reference)
  unfolding stored_secret
  stored_secret-Leads reference = record {
    at = λ w. elim (Bool-cases (is_empty reference)) [
      | inl h ↦ simp h (l.order.same w)
      | inr h ↦ simp h ((l.on_load reference).at w)
    ];
  }

  key_or_password-Leads : (s : Server) (secret : String) → Leads R (key_or_password b s secret)
  unfolding key_or_password
  key_or_password-Leads s secret = record {
    at = λ w. elim (Bool-cases (is_password s.auth_type)) [
      | inl h ↦ simp h (l.order.same w)
      | inr h ↦ simp h ((l.on_read s.private_key_path).at w)
    ];
  }

  resolve_credentials-Leads : (s : Server) → Leads R (resolve_credentials b s)
  unfolding resolve_credentials
  resolve_credentials-Leads s =
      Leads-bind l.order _ _ (stored_secret-Leads s.credential_reference)
        (λ secret. Leads-try l.order secret _ (key_or_password-Leads s))

  -- The server of the request was found, its credentials were resolved, and a connection test of
  -- that server with these credentials and the fingerprint of the request showed a key that has
  -- the fingerprint.
  pub record Shows (r : ConfirmHostKeyRequest) (w : W) : Type 0 where
    pub server : Server
    pub credentials : Credentials
    pub found : (b.get_server r.server_id w).0 ≡ ok server
    pub resolved : (resolve_credentials b server (b.get_server r.server_id w).1).0 ≡ ok credentials
    pub tested :
        presents
          (b.test_connection server credentials r.fingerprint
            (resolve_credentials b server (b.get_server r.server_id w).1).1).0.presented_host_key
          r.fingerprint
        ≡ true

  tested_or_kept :
      (s : Server) (r : ConfirmHostKeyRequest) (c : Credentials) (w v : W)
      → R w v
      → R w
          (record_host_key b s r
            (b.test_connection s c r.fingerprint v).0.presented_host_key
            (b.test_connection s c r.fingerprint v).1).1
        ⊎ (presents (b.test_connection s c r.fingerprint v).0.presented_host_key r.fingerprint
            ≡ true)
  unfolding record_host_key
  tested_or_kept s r c w v h =
      elim (Bool-cases
        (presents (b.test_connection s c r.fingerprint v).0.presented_host_key r.fingerprint)) [
          | inl k ↦ inr k
          | inr k ↦ inl (simp k (l.order.chain w v _ h ((l.on_test s c r.fingerprint).at v)))
        ]

  with_credentials :
      (s : Server) (r : ConfirmHostKeyRequest) (found : Result Credentials) (w v : W)
      → R w v
      → R w
          (try found
            (λ c. do
              result ← b.test_connection s c r.fingerprint
              record_host_key b s r result.presented_host_key)
            v).1
        ⊎ ((c : Credentials) × (found ≡ ok c)
            × (presents (b.test_connection s c r.fingerprint v).0.presented_host_key r.fingerprint
                ≡ true))
  unfolding try ◌>>=◌
  with_credentials s r (ok c) w v h = elim (tested_or_kept s r c w v h) [
    | inl kept ↦ inl kept
    | inr shown_key ↦ inr (c, refl, shown_key)
  ]
  with_credentials s r (err e) w v h = inl h

  with_server :
      (r : ConfirmHostKeyRequest) (found : Result Server) (w : W)
      → (b.get_server r.server_id w).0 ≡ found
      → R w (b.get_server r.server_id w).1
      → R w
          (try found
            (λ s. do
              credentials ← resolve_credentials b s
              try credentials (λ c. do
                result ← b.test_connection s c r.fingerprint
                record_host_key b s r result.presented_host_key))
            (b.get_server r.server_id w).1).1
        ⊎ Shows r w
  unfolding try ◌>>=◌
  with_server r (ok s) w e h =
      let v = (b.get_server r.server_id w).1 in
      elim (with_credentials s r (resolve_credentials b s v).0 w (resolve_credentials b s v).1
        (l.order.chain w v _ h ((resolve_credentials-Leads s).at v))) [
          | inl kept ↦ inl kept
          | inr (c, resolved, shown_key) ↦ inr (record {
            server = s;
            credentials = c;
            found = e;
            resolved = resolved;
            tested = shown_key;
          })
        ]
  with_server r (err x) w e h = inl h

  handle_confirm_host_key-Shows :
      (r : ConfirmHostKeyRequest) (w : W) → R w (handle_confirm_host_key b (ok r) w).1 ⊎ Shows r w
  unfolding handle_confirm_host_key ◌>>=◌ try
  handle_confirm_host_key-Shows r w =
      with_server r (b.get_server r.server_id w).0 w refl ((l.on_get r.server_id).at w)

-- The backend's connection test is `TestConnection` on the peer that answers for a server.
pub record IsTester {W : Type 0} (b : Backend W) : Type 0 where
  pub peer : Server → Credentials → W → Peer
  pub tests :
      (s : Server) (c : Credentials) (f : String) (w : W)
      → (b.test_connection s c f w).0 ≡ test_connection (peer s c w) f
  pub keeps : (s : Server) (c : Credentials) (w : W) → IsPeer (peer s c w)

-- In a handshake with a peer, a key with the fingerprint was presented.
abbrev pub Presented : Peer → String → Type 0
Presented p f =
    (k : HostKeyInfo) × ((p.handshake (host_key_callback f)).presented ≡ some k)
    × (k.fingerprint ≡ f)

shown_fingerprint :
    (o : Option HostKeyInfo) (k : HostKeyInfo) (f : String)
    → o ≡ some k
    → presents o f ≡ true
    → k.fingerprint ≡ f
shown_fingerprint o k f same shows =
    (eq_iff k.fingerprint f).0 (ap (λ x. presents x f) (sym same) ∙ shows)

verdict-Presented :
    (p : Peer) (f : String) (t : TestResult)
    → IsVerdict p f (p.handshake (host_key_callback f)) t
    → f ≢ ""
    → presents t.presented_host_key f ≡ true
    → Presented p f
verdict-Presented p f t (unreached because fails bare) some_text shows =
    absurd (ground (arith, ap (λ x. presents x f) (sym bare) ∙ shows))
verdict-Presented p f t (untrusted k seen bad fails at_key shown_key) some_text shows =
    (k, seen, shown_fingerprint t.presented_host_key k f shown_key shows)
verdict-Presented p f t (unfinished unseen fails at_auth shown_key) some_text shows =
    absurd (some_text (sym (shown_fingerprint t.presented_host_key (shown none) f shown_key shows)))
verdict-Presented p f t (trusted_key k seen good past shown_key) some_text shows =
    (k, seen, shown_fingerprint t.presented_host_key k f shown_key shows)

-- The server of the request was found, its credentials were resolved, and in a handshake with that
-- server a key was presented that has the fingerprint of the request.
pub record Seen {W : Type 0} (b : Backend W) (t : IsTester b) (r : ConfirmHostKeyRequest) (w : W)
    : Type 0 where
  pub server : Server
  pub credentials : Credentials
  pub found : (b.get_server r.server_id w).0 ≡ ok server
  pub resolved : (resolve_credentials b server (b.get_server r.server_id w).1).0 ≡ ok credentials
  pub presented :
      Presented
        (t.peer server credentials (resolve_credentials b server (b.get_server r.server_id w).1).1)
        r.fingerprint

-- For a backend that tests with TestConnection over an SSH library that keeps its promises, a
-- request with a fingerprint, and any relation on states that the lookups and the connection test
-- keep: handleConfirmHostKey keeps it too, or the server of the request was found, its credentials
-- were resolved, and in a handshake with that server, under those credentials, a key was presented
-- that has the fingerprint of the request.
pub handle_confirm_host_key-Seen :
    {W : Type 0} (b : Backend W) {R : W → W → Type 0}
    → IsLookedUp b R
    → (t : IsTester b) (r : ConfirmHostKeyRequest) (w : W) → r.fingerprint ≢ ""
    → R w (handle_confirm_host_key b (ok r) w).1 ⊎ Seen b t r w
handle_confirm_host_key-Seen b l t r w some_text = elim (handle_confirm_host_key-Shows b l r w) [
  | inl kept ↦ inl kept
  | inr s ↦
      let v = (resolve_credentials b s.server (b.get_server r.server_id w).1).1 in
      let p = t.peer s.server s.credentials v in
      inr (record {
        server = s.server;
        credentials = s.credentials;
        found = s.found;
        resolved = s.resolved;
        presented =
            verdict-Presented p r.fingerprint (test_connection p r.fingerprint)
              (test_connection-IsVerdict p r.fingerprint (t.keeps s.server s.credentials v))
              some_text
              (ap (λ (x : TestResult). presents x.presented_host_key r.fingerprint)
                  (sym (t.tests s.server s.credentials r.fingerprint v))
                ∙ s.tested);
      })
]
