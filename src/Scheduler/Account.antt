-- ===== src/Scheduler/Account.antt =====
-- The account of a tick of server/internal/scheduler/dispatcher.go: which runs it starts and which
-- baselines it moves.
use sshbackup.Common.{
  ◌+◌, ◌≡◌, refl, sym, ◌∙◌, ap, String, ℤ, pos, Bool, true, false, none, some, List, [], ◌∷◌, ◌++◌,
  ◌&&◌, ltb, ltb_ℤ, length, str_eq, eq_iff, arith, Bool-cases, inl, inr, ◌⊎◌, if◌then◌else◌, All,
  All-append, length-append,
}
use sshbackup.Calendar.{Time}
use sshbackup.Domain.{Job, Server, Settings, Result, ok, err, is_automatic}
use sshbackup.Scheduler.NextRun.{next_run}
use sshbackup.Scheduler.Dispatcher.{
  Dispatcher, set_baseline, reserve, due, consider_job, consider_jobs,
}
use sshbackup.Scheduler.Limits.{IsConsistent, Step-IsConsistent, baseline, reserved}
use sshbackup.Scheduler.Ticks.{
  Considered, seen_first, idle, waiting, started_now, consider_job-Considered,
}

-- Whether the tick looks at a job.
abbrev pub is_live : Job → Bool
is_live job = job.enabled && is_automatic job.schedule.schedule_type

-- The servers in flight after runs of some jobs were started, the last one first.
abbrev pub in_flight : List Job → List String → List String
in_flight [] active = active
in_flight (job ∷ jobs) active = in_flight jobs (job.server_id ∷ active)

-- Whether a job with an identifier is among some jobs.
abbrev pub among : String → List Job → Bool
among id [] = false
among id (job ∷ jobs) = let rest = among id jobs in if str_eq job.id id then true else rest

in_flight-append :
    (xs ys : List Job) (active : List String)
    → in_flight (xs ++ ys) active ≡ in_flight ys (in_flight xs active)
in_flight-append [] ys active = refl
in_flight-append (x ∷ xs) ys active = in_flight-append xs ys (x.server_id ∷ active)

among_left : (id : String) (xs ys : List Job) → among id xs ≡ true → among id (xs ++ ys) ≡ true
among_left id [] ys h = absurd (ground (arith, h))
among_left id (x ∷ xs) ys h = elim (Bool-cases (str_eq x.id id)) [
  | inl k ↦ simp k refl
  | inr k ↦ simp k (among_left id xs ys (simp k at h))
]

among_right : (id : String) (xs ys : List Job) → among id ys ≡ true → among id (xs ++ ys) ≡ true
among_right id [] ys h = h
among_right id (x ∷ xs) ys h = elim (Bool-cases (str_eq x.id id)) [
  | inl k ↦ simp k refl
  | inr k ↦ simp k (among_right id xs ys h)
]

module _ (cron_next : String → Time → Result Time) (now : Time) (limit : ℤ) where
  -- A job that the tick looks at was due: since its baseline, or since the tick.
  pub record WasDue (d : Dispatcher) (job : Job) : Type 0 where
    pub live : is_live job ≡ true
    pub last : Time
    pub occurrence : Time
    pub since : (d.scheduled_up_to job.id ≡ some last) ⊎ (last ≡ now)
    pub passed : due (next_run cron_next job.schedule last) now ≡ some occurrence

  -- A baseline is as it was, or it is now, and then there was none or a run of the job was started.
  abbrev pub Moved : Dispatcher → Dispatcher → List Job → String → Type 0
  Moved d d' started id =
      (d'.scheduled_up_to id ≡ d.scheduled_up_to id)
      ⊎ ((d'.scheduled_up_to id ≡ some now)
          × ((d.scheduled_up_to id ≡ none) ⊎ (among id started ≡ true)))

  -- The account of some runs started: they are in flight on top of those that were, on free servers
  -- (by the consistency), each was due, the limit holds unless none was started, and the baselines
  -- have moved for them alone.
  pub record IsAccount (d d' : Dispatcher) (started : List Job) : Type 0 where
    pub active : d'.active ≡ in_flight started d.active
    pub counted : d'.running_count ≡ d.running_count + length started
    pub bounded : (started ≡ []) ⊎ (ltb_ℤ limit (pos d'.running_count) ≡ false)
    pub were_due : All (WasDue d) started
    pub moved : (id : String) → Moved d d' started id
    pub consistent : IsConsistent d → IsConsistent d'
    pub catching : d'.catching ≡ d.catching

  same-IsAccount : (d : Dispatcher) → IsAccount d d []
  same-IsAccount d = record {
    active = refl;
    counted = omega arith;
    bounded = inl refl;
    were_due = tt;
    moved = λ id. inl refl;
    consistent = λ c. c;
    catching = refl;
  }

  due_before :
      (d e : Dispatcher) (xs : List Job)
      → ((id : String) → Moved d e xs id)
      → (ys : List Job) → All (WasDue e) ys
      → All (WasDue d) ys
  due_before d e xs m [] h = tt
  due_before d e xs m (y ∷ ys) (h, hs) = (
    record {
      live = h.live;
      last = h.last;
      occurrence = h.occurrence;
      since = ground (arith, h.since, m y.id);
      passed = h.passed;
    },
    due_before d e xs m ys hs,
  )

  Moved-chain :
      (d e f : Dispatcher) (xs ys : List Job) (id : String)
      → Moved d e xs id
      → Moved e f ys id
      → Moved d f (xs ++ ys) id
  Moved-chain d e f xs ys id (inl p) (inl q) = inl (q ∙ p)
  Moved-chain d e f xs ys id (inl p) (inr (q, inl fresh)) = inr (q, inl (sym p ∙ fresh))
  Moved-chain d e f xs ys id (inl p) (inr (q, inr run)) = inr (q, inr (among_right id xs ys run))
  Moved-chain d e f xs ys id (inr (p, inl fresh)) (inl q) = inr (q ∙ p, inl fresh)
  Moved-chain d e f xs ys id (inr (p, inr run)) (inl q) = inr (q ∙ p, inr (among_left id xs ys run))
  Moved-chain d e f xs ys id (inr (p, inl fresh)) (inr (q, z)) = inr (q, inl fresh)
  Moved-chain d e f xs ys id (inr (p, inr run)) (inr (q, z)) =
      inr (q, inr (among_left id xs ys run))

  -- The bound of the first account, where the second starts nothing.
  chain-IsAccount :
      (d e f : Dispatcher) (xs ys : List Job)
      → IsAccount d e xs
      → IsAccount e f ys
      → IsAccount d f (xs ++ ys)
  chain-IsAccount d e f xs ys a b = record {
    active = b.active ∙ ap (in_flight ys) a.active ∙ sym (in_flight-append xs ys d.active);
    counted = omega (arith, a.counted, b.counted, length-append xs ys);
    bounded = elim b.bounded [
      | inr limited ↦ inr limited
      | inl empty ↦ elim a.bounded [
        | inl nothing ↦ inl (simp (nothing, empty) refl)
        | inr limited ↦
            let same : f.running_count ≡ e.running_count =
              omega (arith, b.counted, ap length empty) in
            inr (simp same limited)
      ]
    ];
    were_due = All-append (WasDue d) xs ys a.were_due (due_before d e xs a.moved ys b.were_due);
    moved = λ id. Moved-chain d e f xs ys id (a.moved id) (b.moved id);
    consistent = λ c. b.consistent (a.consistent c);
    catching = b.catching ∙ a.catching;
  }

  module _ (servers : String → Result Server) where
    reserved_facts :
        (server : String) (d d' : Dispatcher)
        → reserve server limit d ≡ some d'
        → (d'.active ≡ server ∷ d.active)
          × (d'.running_count ≡ d.running_count + 1)
          × (ltb_ℤ limit (pos d'.running_count) ≡ false)
          × (d'.scheduled_up_to ≡ d.scheduled_up_to)
          × (d'.catching ≡ d.catching)
    unfolding reserve
    reserved_facts server d d' h = elim (Bool-cases (ltb_ℤ (pos d.running_count) limit)) [
      | inr k ↦ absurd (ground (arith, simp k at h))
      | inl k ↦ elim (Bool-cases (ltb 0 (d.running_servers server))) [
        | inl m ↦ absurd (ground (arith, simp (k, m) at h))
        | inr m ↦ ground (arith, k, simp (k, m) at h)
      ]
    ]

    started-IsAccount :
        (job : Job) (d d' : Dispatcher) (last occurrence : Time)
        → is_live job ≡ true
        → d.scheduled_up_to job.id ≡ some last
        → due (next_run cron_next job.schedule last) now ≡ some occurrence
        → reserve job.server_id limit d ≡ some d'
        → IsAccount d (set_baseline job.id now d') (job ∷ [])
    unfolding set_baseline
    started-IsAccount job d d' last occurrence live known k h =
        let (taken, one_more, limited, same, others) = reserved_facts job.server_id d d' h in
        record {
          active = taken;
          counted = omega (arith, one_more);
          bounded = inr limited;
          were_due = (
            record {
              live = live;
              last = last;
              occurrence = occurrence;
              since = inl known;
              passed = k;
            },
            tt,
          );
          moved = λ id. elim (Bool-cases (str_eq job.id id)) [
            | inl m ↦ inr (simp m refl, inr (simp m refl))
            | inr m ↦ inl (simp m (ap (λ f. f id) same))
          ];
          consistent = λ c.
              Step-IsConsistent (baseline job.id now)
                (Step-IsConsistent (reserved job.server_id limit h) c);
          catching = others;
        }

    first-IsAccount :
        (job : Job) (d : Dispatcher)
        → d.scheduled_up_to job.id ≡ none
        → IsAccount d (set_baseline job.id now d) []
    unfolding set_baseline
    first-IsAccount job d fresh = record {
      active = refl;
      counted = omega arith;
      bounded = inl refl;
      were_due = tt;
      moved = λ id. elim (Bool-cases (str_eq job.id id)) [
        | inl m ↦
            inr (simp m refl, inl (ap d.scheduled_up_to (sym ((eq_iff job.id id).0 m)) ∙ fresh))
        | inr m ↦ inl (simp m refl)
      ];
      consistent = λ c. Step-IsConsistent (baseline job.id now) c;
      catching = refl;
    }

    pub considered-IsAccount :
        (job : Job) (d d' : Dispatcher)
        → is_live job ≡ true
        → Considered cron_next servers now limit job d d'
        → (started : List Job) × IsAccount d d' started
    considered-IsAccount job d _ live (seen_first fresh) = ([], first-IsAccount job d fresh)
    considered-IsAccount job d _ live (idle last known k) = ([], same-IsAccount d)
    considered-IsAccount job d _ live (waiting last known k) = ([], same-IsAccount d)
    considered-IsAccount job d _ live (started_now last occurrence d' known k h) =
        (job ∷ [], started-IsAccount job d d' last occurrence live known k h)

    pub jobs-IsAccount :
        (jobs : List Job) (d : Dispatcher)
        → (started : List Job) × IsAccount d
            (consider_jobs cron_next servers now limit jobs d)
            started
    unfolding consider_jobs
    jobs-IsAccount [] d = ([], same-IsAccount d)
    jobs-IsAccount (job ∷ jobs) d = elim (Bool-cases (is_live job)) [
      | inr h ↦ simp h (jobs-IsAccount jobs d)
      | inl h ↦
          let e = consider_job cron_next servers now limit job d in
          let (xs, a) =
            considered-IsAccount job d e h
              (consider_job-Considered cron_next servers now limit job d) in
          let (ys, b) = jobs-IsAccount jobs e in simp h (xs ++ ys, chain-IsAccount d e _ xs ys a b)
    ]

-- A tick that is paused, or whose settings or jobs cannot be loaded, changes nothing. Any other tick
-- from a state where the counters agree with the runs in flight leaves such a state, with the runs of
-- some jobs started: each of them was enabled, automatic and due; they are in flight on top of those
-- that were; the global limit of the settings holds, unless none was started; and a job's baseline is
-- as it was, or is the tick's time, and then it had none or a run of it was started.
pub TickAccount :
    (String → Time → Result Time)
    → Result Settings
    → Result (List Job)
    → Time
    → Dispatcher
    → Dispatcher
    → Type 0
TickAccount cron_next (err e) jobs now d d' = d' ≡ d
TickAccount cron_next (ok settings) (err e) now d d' = d' ≡ d
TickAccount cron_next (ok settings) (ok jobs) now d d' =
    ((settings.schedules_paused ≡ true) × (d' ≡ d))
    ⊎ ((settings.schedules_paused ≡ false)
        × IsConsistent d'
        × ((started : List Job) × IsAccount cron_next now settings.global_concurrency_limit d d'
              started))
