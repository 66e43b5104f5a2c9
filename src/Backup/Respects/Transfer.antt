-- ===== src/Backup/Respects/Transfer.antt =====
-- The archive and the download stages respect what every elementary change respects.
use sshbackup.Common.{String, ℤ, true, Option, none, some}
use sshbackup.Common.Action.{Leads, Leads-modify, modify}
use sshbackup.Domain.{Error, Result, ok, err, RunStep}
use sshbackup.Backup.World.{Reply}
use sshbackup.Backup.Context.{Setup, RunContext}
use sshbackup.Backup.Archive.{remove_partial_remote_archive, archive_failure, run_archive, archive}
use sshbackup.Backup.Download.{
  delete_part, finish_failed, remote_checksum, hashed, stream_download, downloaded,
  download_archive, local_checksum, accept_archive, verify_checksums, download_and_verify,
}
use sshbackup.Backup.Respects.{IsPlain, IsRespected}
use sshbackup.Backup.Respects.Recording.{
  base_rules, run_command-Leads, run_remote-Leads, finish_recorded-Leads, with_step-Leads,
}

module _ {R : RunContext → RunContext → Type 0} (r : IsPlain R) (u : Setup) where
  remove_partial_remote_archive-Leads : Leads R (remove_partial_remote_archive u)
  unfolding remove_partial_remote_archive
  remove_partial_remote_archive-Leads = search (base_rules, r.order, run_command-Leads) depth 9

  archive_failure-Leads : (reply : Reply) → Leads R (archive_failure u reply)
  unfolding archive_failure
  archive_failure-Leads reply = search (base_rules, r.order) depth 9

  pub delete_part-Leads : Leads R (delete_part u)
  unfolding delete_part
  delete_part-Leads = search (base_rules, r.order, tt) depth 9

  finish_failed-Leads : (step : RunStep) → Leads R (finish_failed u step)
  unfolding finish_failed
  finish_failed-Leads step = search (base_rules, r.order, finish_recorded-Leads) depth 9

  pub remote_checksum-Leads : Leads R (remote_checksum u)
  unfolding remote_checksum
  remote_checksum-Leads =
      search
        (
          base_rules, r.order, run_remote-Leads, with_step-Leads, finish_recorded-Leads,
          finish_failed-Leads,
        )
        depth 12

  hashed-Leads : (x : String × Option Error) → Leads R (hashed u x)
  unfolding hashed
  hashed-Leads (bytes, some e) = search (base_rules, r.order)
  hashed-Leads (bytes, none) = search (base_rules, r.order, tt) depth 9

  stream_download-Leads : Leads R (stream_download u)
  unfolding stream_download
  stream_download-Leads = search (base_rules, r.order, tt, hashed-Leads) depth 12

  downloaded-Leads : (step : RunStep) (x : Result String) → Leads R (downloaded u step x)
  unfolding downloaded
  downloaded-Leads step (ok sum) = search (base_rules, r.order, finish_recorded-Leads)
  downloaded-Leads step (err e) =
      search (base_rules, r.order, delete_part-Leads, finish_failed-Leads) depth 9

  part-Leads :
      (path : RunContext → String) → Leads R (modify (λ s. record s { local_part_path = path s }))
  part-Leads path = Leads-modify _ (λ s. r.on_part s (path s))

  pub download_archive-Leads : Leads R (download_archive u)
  unfolding download_archive
  download_archive-Leads =
      search
        (base_rules, r.order, part-Leads, with_step-Leads, stream_download-Leads, downloaded-Leads)
        depth 9

  pub local_checksum-Leads : (sum : String) → Leads R (local_checksum u sum)
  unfolding local_checksum
  local_checksum-Leads sum =
      search (base_rules, r.order, with_step-Leads, finish_recorded-Leads) depth 9

  size-Leads :
      (n : ℤ) → Leads R (modify (λ s. record s { run = record s.run { archive_size = n } }))
  size-Leads n = Leads-modify _ (λ s. r.on_size s n)

module _ {R : RunContext → RunContext → Type 0} (r : IsRespected R) (u : Setup) where
  named-Leads :
      (name path : RunContext → String)
      → Leads R (
          modify (λ s. record s {
            run = record s.run { archive_name = name s };
            remote_archive_path = path s;
          }))
  named-Leads name path = Leads-modify _ (λ s. r.on_archive s (name s) (path s))

  run_archive-Leads : Leads R (run_archive u)
  unfolding run_archive
  run_archive-Leads =
      search
        (
          base_rules, r.plain, r.plain.order, named-Leads, run_command-Leads, archive_failure-Leads,
          remove_partial_remote_archive-Leads,
        )
        depth 9

  pub archive-Leads : Leads R (archive u)
  unfolding archive
  archive-Leads =
      search
        (
          base_rules, r.plain, r.plain.order, run_archive-Leads, with_step-Leads,
          finish_recorded-Leads,
        )
        depth 9

  verified-Leads :
      (sum : String)
      → Leads R (
          modify (λ s. record s { archive_verified = true; run = record s.run { checksum = sum } }))
  verified-Leads sum = Leads-modify _ (λ s. r.on_verified s sum)

  pub accept_archive-Leads :
      (path sum : String) (step : RunStep) → Leads R (accept_archive u path sum step)
  unfolding accept_archive
  accept_archive-Leads path sum step =
      search
        (base_rules, r.plain, r.plain.order, tt, verified-Leads, size-Leads, finish_recorded-Leads)
        depth 12

  verify_checksums-Leads : (x y : String) → Leads R (verify_checksums u x y)
  unfolding verify_checksums
  verify_checksums-Leads x y =
      search
        (
          base_rules, r.plain, r.plain.order, tt, with_step-Leads, accept_archive-Leads,
          delete_part-Leads, finish_failed-Leads, finish_recorded-Leads,
        )
        depth 14

  pub download_and_verify-Leads : Leads R (download_and_verify u)
  unfolding download_and_verify
  download_and_verify-Leads =
      search
        (
          base_rules, r.plain, r.plain.order, remote_checksum-Leads, download_archive-Leads,
          local_checksum-Leads, verify_checksums-Leads,
        )
        depth 12
