-- ===== src/Backup/Verified.antt =====
-- When server/internal/backup/download.go accepts an archive.
use sshbackup.Common.{
  ℕ, suc, ◌≡◌, refl, sym, subst, ◌∙◌, String, true, false, Option, none, some, str_eq, eq_iff,
  arith, Bool-cases, inl, inr, Option-cases,
}
use sshbackup.Common.Action.{Leads, Leads-branch-false, ◌>>=◌, ◌>>◌, gets, pure, modify, option}
use sshbackup.Domain.{Error, Result, ok, err, RunStep, remote_checksum_step, download_step}
use sshbackup.Backup.World.{ask, seconds}
use sshbackup.Backup.Context.{
  Setup, RunContext, Stage, lift, run_remote, run_command, with_step, start_step, on_result,
}
use sshbackup.Backup.Download.{
  checksum_command, checksum_of, remote_checksum, hashed, stream_download, downloaded,
  download_archive, local_checksum, verify_checksums, download_and_verify,
}
use sshbackup.Backup.Respects.{IsPlain}
use sshbackup.Backup.Respects.Recording.{
  base_rules, start_step-Leads, with_step-Leads, finish_recorded-Leads,
}
use sshbackup.Backup.Respects.Transfer.{
  delete_part-Leads, remote_checksum-Leads, download_archive-Leads, local_checksum-Leads,
}

-- The archive's place on the server, whether it was accepted, and its sum are the same.
pub record SameArchive (s t : RunContext) : Type 0 where
  pub path : t.remote_archive_path ≡ s.remote_archive_path
  pub verified : t.archive_verified ≡ s.archive_verified

SameArchive-IsPlain : IsPlain SameArchive
SameArchive-IsPlain = record {
  order = record {
    same = λ s. record { path = refl; verified = refl };
    chain = λ s t u p q. record { path = q.path ∙ p.path; verified = q.verified ∙ p.verified };
  };
  on_ask = λ s c q. record { path = refl; verified = refl };
  on_mark = λ s c q. record { path = refl; verified = refl };
  on_cancel = λ s. record { path = refl; verified = refl };
  on_position = λ s. record { path = refl; verified = refl };
  on_failure = λ s c m h. record { path = refl; verified = refl };
  on_warned = λ s. record { path = refl; verified = refl };
  on_warning = λ s c m h. record { path = refl; verified = refl };
  on_recovery = λ s o. record { path = refl; verified = refl };
  on_part = λ s p. record { path = refl; verified = refl };
  on_size = λ s n. record { path = refl; verified = refl };
}

-- A sum that the server computed over the file at a path.
abbrev pub IsRemoteSum : Setup → String → String → Type 0
IsRemoteSum u path sum =
    (tick : ℕ) × (checksum_of
        (u.env.run_remote tick (checksum_command path) (seconds u.server.command_timeout_seconds))
      ≡ some sum)

-- The sum of the bytes that a download of the file at a path wrote, to its end.
abbrev pub IsLocalSum : Setup → String → String → Type 0
IsLocalSum u path sum =
    (tick : ℕ) × ((u.env.download tick path).1 ≡ none)
    × (u.env.sha256_hex (u.env.download tick path).0 ≡ sum)

module _ (u : Setup) where
  after_start :
      (x : Result RunStep) (refused : Error → Stage (Option String))
      (body : RunStep → Stage (Option String)) (s : RunContext) {sum : String} {P : Type 0}
      → ((e : Error) → (refused e s).0 ≡ some sum → P)
      → ((step : RunStep) → (body step s).0 ≡ some sum → P)
      → (on_result x refused body s).0 ≡ some sum
      → P
  unfolding on_result
  after_start (err e) refused body s f g h = f e h
  after_start (ok step) refused body s f g h = g step h

  remote_checksum-IsRemoteSum :
      (s : RunContext) {sum : String}
      → (remote_checksum u s).0 ≡ some sum
      → IsRemoteSum u s.remote_archive_path sum
  unfolding remote_checksum with_step ◌>>=◌ ◌>>◌ gets run_remote run_command lift ask option pure
  remote_checksum-IsRemoteSum s h =
      let p = ((start_step-Leads SameArchive-IsPlain u remote_checksum_step).at s).path in
      rw⁻¹ p (
        after_start (start_step u remote_checksum_step s).0 _ _
          (start_step u remote_checksum_step s).1 (λ e k. ground arith) (λ step k. (_, k)) h)

  hashed_sum :
      (bytes : String) (x : Option Error) (s : RunContext) {sum : String}
      → (hashed u (bytes, x) s).0 ≡ ok sum
      → (x ≡ none) × (u.env.sha256_hex bytes ≡ sum)
  unfolding hashed ◌>>=◌ lift ask option pure
  hashed_sum bytes (some e) s h = ground arith
  hashed_sum bytes none s h = elim (Option-cases (u.env.sync_file s.world.tick)) [
    | inl k ↦ ground (arith, h, k)
    | inr (e, k) ↦ ground (arith, h, k)
  ]

  stream_download-IsLocalSum :
      (s : RunContext) {sum : String}
      → (stream_download u s).0 ≡ ok sum
      → IsLocalSum u s.remote_archive_path sum
  unfolding stream_download ◌>>=◌ gets lift ask option pure
  stream_download-IsLocalSum s h =
      elim (Option-cases (u.env.create_file s.world.tick s.local_part_path)) [
        | inl k ↦
            let got = u.env.download (suc s.world.tick) s.remote_archive_path in
            let g = hashed_sum got.0 got.1 _ (simp k at h) in (suc s.world.tick, g.0, g.1)
        | inr (e, k) ↦ ground (arith, h, k)
      ]

  downloaded_sum :
      (step : RunStep) (x : Result String) (s : RunContext) {sum : String}
      → (downloaded u step x s).0 ≡ some sum
      → x ≡ ok sum
  unfolding downloaded ◌>>=◌ ◌>>◌ pure
  downloaded_sum step (ok y) s h = ground arith
  downloaded_sum step (err e) s h = ground arith

  download_archive-IsLocalSum :
      (s : RunContext) {sum : String}
      → (download_archive u s).0 ≡ some sum
      → IsLocalSum u s.remote_archive_path sum
  unfolding download_archive with_step ◌>>=◌ ◌>>◌ modify pure
  download_archive-IsLocalSum s h =
      let started = start_step u download_step s in
      let p = ((start_step-Leads SameArchive-IsPlain u download_step).at s).path in
      rw⁻¹ p (
        after_start started.0 _ _ started.1 (λ e k. ground arith)
          (λ step k. stream_download-IsLocalSum _ (downloaded_sum step _ _ k)) h)

  mismatch-Leads :
      (remote local : String)
      → str_eq remote local ≡ false
      → Leads SameArchive (verify_checksums u remote local)
  unfolding verify_checksums
  mismatch-Leads remote local k =
      search
        (
          base_rules, SameArchive-IsPlain, SameArchive-IsPlain.order, with_step-Leads,
          Leads-branch-false, k, delete_part-Leads, finish_recorded-Leads,
        )
        depth 14

  verify_checksums-equal :
      (remote local : String) (s : RunContext)
      → s.archive_verified ≡ false
      → (verify_checksums u remote local s).1.archive_verified ≡ true
      → remote ≡ local
  verify_checksums-equal remote local s fresh h = elim (Bool-cases (str_eq remote local)) [
    | inl k ↦ (eq_iff remote local).0 k
    | inr k ↦ ground (arith, fresh, h, ((mismatch-Leads remote local k).at s).verified)
  ]

  -- An archive is accepted by `downloadAndVerify` only if a sum that the server computed over the
  -- archive's path is the sum of the bytes that a download of that path wrote, to its end.
  pub download_and_verify-verified :
      (s : RunContext)
      → s.archive_verified ≡ false
      → (download_and_verify u s).1.archive_verified ≡ true
      → (sum : String) × IsRemoteSum u s.remote_archive_path sum
        × IsLocalSum u s.remote_archive_path sum
  unfolding download_and_verify ◌>>=◌ ◌>>◌ option pure
  download_and_verify-verified s fresh h =
      let first = (remote_checksum-Leads SameArchive-IsPlain u).at s in
      let s1 = (remote_checksum u s).1 in
      elim (Option-cases (remote_checksum u s).0) [
        | inl k ↦ ground (arith, fresh, h, k, first.verified)
        | inr (remote, k) ↦
            let second = (download_archive-Leads SameArchive-IsPlain u).at s1 in
            let s2 = (download_archive u s1).1 in
            elim (Option-cases (download_archive u s1).0) [
              | inl m ↦ ground (arith, fresh, h, k, m, first.verified, second.verified)
              | inr (local, m) ↦
                  let third = (local_checksum-Leads SameArchive-IsPlain u local).at s2 in
                  let before = third.verified ∙ (second.verified ∙ (first.verified ∙ fresh)) in
                  let equal =
                    verify_checksums-equal remote local (local_checksum u local s2).1 before
                      (simp (k, m) at h) in
                  let sum =
                    subst (λ p. IsLocalSum u p local) first.path
                      (download_archive-IsLocalSum s1 m) in
                  (
                    remote,
                    remote_checksum-IsRemoteSum s k,
                    subst (IsLocalSum u s.remote_archive_path) (sym equal) sum,
                  )
            ]
      ]
