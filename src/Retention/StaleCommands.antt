-- ===== src/Retention/StaleCommands.antt =====
-- The commands that `Scan` of server/internal/retention/staleremote.go runs on the server.
use sshbackup.Common.{
  ℕ, String, Bool, true, false, Option, none, List, [], ◌∷◌, ◌≡◌, refl, ap, ◌∙◌, arith, inl, inr,
  Option-cases,
}
use sshbackup.Common.Action.{pure, branch, option, ◌>>=◌, ◌>>◌}
use sshbackup.Domain.{Job, Server, Error, Result, ok, err}
use sshbackup.Backup.World.{Env, World, Call, ran, mark, ask}
use sshbackup.Retention.Stale.{
  Scanned, find_command, remove_command, findings_of, run_on_server, delete_each, scan_connected,
  refuse, scan_unlocked, after_lock, scan,
}

-- The commands of some calls, the last one first.
abbrev pub commands : List Call → List String
commands [] = []
commands (ran command timeout ∷ calls) = command ∷ commands calls
commands (_ ∷ calls) = commands calls

-- Some commands, in their order, on top of those that were run before.
abbrev pub run_after : List String → List String → List String
run_after [] before = before
run_after (path ∷ paths) before = run_after paths (remove_command path ∷ before)

-- A part of a list, from its start.
pub data Prefix : List String → List String → Type 0 where
  none_of : {ys : List String} → Prefix [] ys
  one_more : {y : String} {xs ys : List String} → Prefix xs ys → Prefix (y ∷ xs) (y ∷ ys)

-- What a deletion round comes to: it removed a part of the paths, from the start and in their order,
-- and all of them unless it stopped at an error.
pub record Removed (paths : List String) (before after : World) (stopped : Option Error)
    : Type 0 where
  pub done : List String
  pub in_order : Prefix done paths
  pub only : commands after.calls ≡ run_after done (commands before.calls)
  pub all_done : stopped ≡ none → done ≡ paths

-- What a scan comes to: it ran no command and found nothing; or the job was not locked, and it ran
-- the search and then removed a part of the findings, which is none without `autoDelete`, and all of
-- them with it, unless an error is returned.
pub data Swept (job : Job) (locked : Result Bool) (minutes : ℕ) (auto_delete : Bool)
    (before after : World) (r : Scanned) : Type 0 where
  untouched :
      commands after.calls ≡ commands before.calls
      → r.findings ≡ []
      → Swept job locked minutes auto_delete before after r
  looked :
      (done : List String)
      → locked ≡ ok false
      → Prefix done r.findings
      → commands after.calls ≡ run_after done (find_command job minutes ∷ commands before.calls)
      → (auto_delete ≡ false → done ≡ [])
      → (auto_delete ≡ true → r.error ≡ none → done ≡ r.findings)
      → Swept job locked minutes auto_delete before after r

module _ (env : Env) (is_locked : ℕ → Result Bool) (job : Job) (server : Server) where
  delete_each-Removed :
      (paths : List String) (w : World)
      → Removed paths w
          (delete_each env is_locked job server paths w).1
          (delete_each env is_locked job server paths w).0
  unfolding delete_each run_on_server ask ◌>>=◌ pure option
  delete_each-Removed [] w = record {
    done = [];
    in_order = none_of;
    only = refl;
    all_done = λ h. refl;
  }
  delete_each-Removed (path ∷ paths) w =
      elim (Option-cases (run_on_server env is_locked job server (remove_command path) w).0.error) [
        | inl h ↦
            let rest =
              delete_each-Removed paths
                (run_on_server env is_locked job server (remove_command path) w).1 in
            rw h (record {
              done = path ∷ rest.done;
              in_order = one_more rest.in_order;
              only = rest.only;
              all_done = λ k. ap (λ l. path ∷ l) (rest.all_done k);
            })
        | inr (e, h) ↦ rw h (record {
          done = path ∷ [];
          in_order = one_more none_of;
          only = refl;
          all_done = λ k. ground arith;
        })
      ]

  module _ (minutes : ℕ) where
    scan_connected-Swept :
        (auto_delete : Bool) (before w : World)
        → commands w.calls ≡ commands before.calls
        → Swept job
            (ok false)
            minutes
            auto_delete
            before
            (scan_connected env is_locked job server minutes auto_delete w).1
            (scan_connected env is_locked job server minutes auto_delete w).0
    unfolding scan_connected run_on_server ask mark ◌>>=◌ ◌>>◌ pure branch
    scan_connected-Swept false before w h =
        looked [] refl none_of (ap (λ l. find_command job minutes ∷ l) h) (λ k. refl)
          (λ k m. ground arith)
    scan_connected-Swept true before w h =
        let asked = run_on_server env is_locked job server (find_command job minutes) w in
        let r = delete_each-Removed (findings_of asked.0) asked.1 in
        looked r.done refl r.in_order
          (r.only ∙ ap (λ l. run_after r.done (find_command job minutes ∷ l)) h) (λ k. ground arith)
          (λ k m. r.all_done m)

    scan_unlocked-Swept :
        (auto_delete : Bool) (before w : World)
        → commands w.calls ≡ commands before.calls
        → Swept job
            (ok false)
            minutes
            auto_delete
            before
            (scan_unlocked env is_locked job server minutes auto_delete w).1
            (scan_unlocked env is_locked job server minutes auto_delete w).0
    unfolding scan_unlocked ask ◌>>=◌ option refuse pure
    scan_unlocked-Swept auto_delete before w h = elim (Option-cases (env.connect w.tick)) [
      | inl k ↦ rw k (scan_connected-Swept auto_delete before _ h)
      | inr (e, k) ↦ rw k (untouched h refl)
    ]

    after_lock-Swept :
        (auto_delete : Bool) (locked : Result Bool) (before w : World)
        → commands w.calls ≡ commands before.calls
        → Swept job locked minutes auto_delete before
            (after_lock env is_locked job server minutes auto_delete locked w).1
            (after_lock env is_locked job server minutes auto_delete locked w).0
    unfolding after_lock refuse pure
    after_lock-Swept auto_delete (err e) before w h = untouched h refl
    after_lock-Swept auto_delete (ok true) before w h = untouched h refl
    after_lock-Swept auto_delete (ok false) before w h = scan_unlocked-Swept auto_delete before w h

    -- Whatever the server answers, a scan runs no command at all, or the job is not locked and the
    -- commands are the search and then the removals of a part of the findings, in their order:
    -- none without `autoDelete`, and all with it where no error is returned.
    pub scan-Swept :
        (auto_delete : Bool) (w : World)
        → Swept job
            (is_locked w.tick)
            minutes
            auto_delete
            w
            (scan env is_locked job server minutes auto_delete w).1
            (scan env is_locked job server minutes auto_delete w).0
    unfolding scan ask ◌>>=◌
    scan-Swept auto_delete w = after_lock-Swept auto_delete (is_locked w.tick) w _ refl
