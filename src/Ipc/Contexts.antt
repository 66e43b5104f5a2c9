-- ===== src/Ipc/Contexts.antt =====
-- What becomes of the context of a run that `handleRunsStart` of
-- server/internal/ipc/handlers_runs.go starts.
use sshbackup.Common.{
  Bool, false, ℕ, suc, subst, ◌≡◌, refl, String, true, ◌∷◌, eq_refl, Bool-cases, inl, inr,
}
use sshbackup.Common.Action.{Action, pure, modify, ◌>>=◌, ◌>>◌}
use sshbackup.Domain.{Result, ok, err, Error, Run, manual}
use sshbackup.Domain.NewJob.{try}
use sshbackup.Ipc.Backend.{Backend, refused, resolve_credentials}
use sshbackup.Ipc.ActiveRuns.{Active, register, cancel, call}
use sshbackup.Ipc.RunHandlers.{
  RunPorts, Desk, RunNowResponse, is_running, outside, with_cancel, keep_cancel, handle_runs_start,
  handle_runs_cancel,
}

-- The answer is a running run.
abbrev pub is_started : Result RunNowResponse → Bool
is_started (ok x) = is_running x.status
is_started (err e) = false

-- The context of the number `c`, from the desk before to the one after.
pub data Settled {W : Type 0} (c : ℕ) (a : Active) (reply : Result RunNowResponse) (d : Desk W)
    : Type 0 where
  not_made : (e : Error) → reply ≡ err e → d.next ≡ c → d.active ≡ a → Settled c a reply d
  let_go : d.next ≡ suc c → is_started reply ≡ false → d.active ≡ call c a → Settled c a reply d
  in_hand :
      (x : RunNowResponse)
      → d.next ≡ suc c
      → reply ≡ ok x
      → is_running x.status ≡ true
      → (handle_runs_cancel (ok x.run_id) d).0 ≡ ok tt
      → (handle_runs_cancel (ok x.run_id) d).1.active.called ≡ c ∷ a.called
      → Settled c a reply d

module _ {W : Type 0} where
  keep_cancel-Settled :
      (c : ℕ) (begun : Result Run) (d : Desk W)
      → d.next ≡ suc c
      → Settled c d.active (keep_cancel c begun d).0 (keep_cancel c begun d).1
  unfolding keep_cancel handle_runs_cancel register cancel try pure modify ◌>>=◌ ◌>>◌
  keep_cancel-Settled c (err e) d made = let_go made refl refl
  keep_cancel-Settled c (ok run) d made = elim (Bool-cases (is_running run.status)) [
    | inl on ↦
        in_hand (record { run_id = run.id; status = run.status }) made refl on
          (simp (on, eq_refl run.id)) (simp (on, eq_refl run.id))
    | inr off ↦ let_go made off (simp off)
  ]

  -- The action leaves the context `c` settled, from any desk that has the registry `a`.
  Settles : ℕ → Active → Action (Desk W) (Result RunNowResponse) → Type 0
  Settles c a m = (d : Desk W) → d.active ≡ a → d.next ≡ c → Settled c a (m d).0 (m d).1

  module _ (c : ℕ) (a : Active) where
    try-Settles :
        {A : Type 0} (r : Result A) (f : A → Action (Desk W) (Result RunNowResponse))
        → ((x : A) → Settles c a (f x))
        → Settles c a (try r f)
    unfolding Settles try
    try-Settles (ok x) f h d same numbered = h x d same numbered
    try-Settles (err e) f h d same numbered = not_made e refl numbered same

    outside-Settles :
        {A : Type 0} (m : Action W A) (f : A → Action (Desk W) (Result RunNowResponse))
        → ((x : A) → Settles c a (f x))
        → Settles c a (outside m >>= f)
    unfolding Settles ◌>>=◌
    outside-Settles m f h d same numbered =
        h (m d.world).0 (record d { world = (m d.world).1 }) same numbered

    start-Settles :
        (m : ℕ → Action W (Result Run))
        → Settles c a (with_cancel >>= (λ n. outside (m n) >>= keep_cancel n))
    unfolding Settles ◌>>=◌
    start-Settles m d same numbered =
        let after : Desk W = record d { world = (m d.next d.world).1; next = suc d.next } in
        let begun = (m d.next d.world).0 in
        let (reply, end) = keep_cancel d.next begun after in
        subst (λ x. Settled c x reply end) same
          (subst (λ n. Settled n d.active reply end) numbered
            (keep_cancel-Settled d.next begun after refl))

-- What handleRunsStart does with the context that it makes for a run: where none was made, the
-- answer is an error and the registry is as it was; where the answer is not a running run, the
-- context has been cancelled; and where it is, a runs.cancel of that run succeeds and cancels
-- that context and no other.
pub handle_runs_start-Settled :
    {W : Type 0} (b : Backend W) (r : RunPorts W) (request : Result String) (d : Desk W)
    → Settled d.next d.active
        (handle_runs_start b r request d).0
        (handle_runs_start b r request d).1
unfolding handle_runs_start Settles
handle_runs_start-Settled b r request d =
    let settles = try-Settles d.next d.active (refused request) _ (λ id.
      outside-Settles d.next d.active (b.get_job id) _ (λ found.
        try-Settles d.next d.active found _ (λ job.
          outside-Settles d.next d.active (b.get_server job.server_id) _ (λ known.
            try-Settles d.next d.active known _ (λ server.
              outside-Settles d.next d.active (resolve_credentials b server) _ (λ credentials.
                try-Settles d.next d.active credentials _ (λ k.
                  start-Settles d.next d.active
                    (λ c. r.start c job server k job.local_destination manual)))))))) in
    settles d refl refl
