-- ===== src/Scheduler/Limits.antt =====
-- The critical sections of server/internal/scheduler/dispatcher.go as steps, in any interleaving.
use sshbackup.Common.{
  ℕ, suc, ◌+◌, ◌-◌, ◌≤◌, ◌<◌, ◌≡◌, refl, String, ℤ, some, List, [], ◌∷◌, length, str_eq, eq_iff,
  arith, if◌then◌else◌,
}
use sshbackup.Calendar.{Time}
use sshbackup.Scheduler.Dispatcher.{
  Dispatcher, new_dispatcher, set_baseline, reserve, erase, release, begin_catch_up, end_catch_up,
}

abbrev pub count : String → List String → ℕ
count x [] = 0
count x (y ∷ ys) = if str_eq x y then suc (count x ys) else count x ys

-- One critical section, of whichever goroutine.
pub data Step (d : Dispatcher) : Dispatcher → Type 0 where
  baseline : (job : String) (t : Time) → Step d (set_baseline job t d)
  reserved :
      (server : String) (limit : ℤ) {d' : Dispatcher} → reserve server limit d ≡ some d' → Step d d'
  released : (server : String) → 0 < count server d.active → Step d (release server d)
  caught_up : (server : String) → Step d (begin_catch_up server d)
  catch_up_ended : (server : String) → Step d (end_catch_up server d)

pub data Reach (d : Dispatcher) : Dispatcher → Type 0 where
  here : Reach d d
  next : {e f : Dispatcher} → Reach d e → Step e f → Reach d f

-- The counters agree with the runs that took a place, and no server has two of these.
pub record IsConsistent (d : Dispatcher) : Type 0 where
  pub total : d.running_count ≡ length d.active
  pub per_server : (s : String) → d.running_servers s ≡ count s d.active
  pub one_each : (s : String) → count s d.active ≤ 1

count-erase :
    (x y : String) (ys : List String)
    → count y (erase x ys) ≡ (if str_eq x y then count y ys - 1 else count y ys)
count-erase x y [] = ground arith
count-erase x y (z ∷ zs) = ground (arith, eq_iff x y, eq_iff y z, eq_iff x z, count-erase x y zs)

length-erase :
    (x : String) (ys : List String) → 0 < count x ys → length (erase x ys) + 1 ≡ length ys
length-erase x [] h = elim h [ ]
length-erase x (z ∷ zs) h = ground (arith, length-erase x zs)

new_dispatcher-IsConsistent : IsConsistent new_dispatcher
unfolding new_dispatcher
new_dispatcher-IsConsistent = record {
  total = refl;
  per_server = λ s. refl;
  one_each = λ s. omega arith;
}

baseline-IsConsistent :
    {d : Dispatcher} (job : String) (t : Time)
    → IsConsistent d
    → IsConsistent (set_baseline job t d)
unfolding set_baseline
baseline-IsConsistent job t c = record {
  total = c.total;
  per_server = c.per_server;
  one_each = c.one_each;
}

reserve-IsConsistent :
    {d d' : Dispatcher} (server : String) (limit : ℤ)
    → reserve server limit d ≡ some d'
    → IsConsistent d
    → IsConsistent d'
unfolding reserve
reserve-IsConsistent {d} server limit h c = record {
  total = ground (arith, c.total);
  per_server =
      λ s. ground (arith, c.per_server s, c.per_server server, eq_iff server s, eq_iff s server);
  one_each = λ s.
      ground (
        arith,
        c.per_server s,
        c.one_each s,
        c.per_server server,
        eq_iff server s,
        eq_iff s server,
      );
}

release-IsConsistent :
    {d : Dispatcher} (server : String)
    → 0 < count server d.active
    → IsConsistent d
    → IsConsistent (release server d)
unfolding release
release-IsConsistent {d} server h c = record {
  total = omega (arith, c.total, length-erase server d.active h);
  per_server = λ s.
      ground (
        arith,
        c.per_server s,
        c.per_server server,
        count-erase server s d.active,
        eq_iff server s,
      );
  one_each = λ s. ground (arith, c.one_each s, count-erase server s d.active);
}

catch_up-IsConsistent :
    {d : Dispatcher} (server : String) → IsConsistent d → IsConsistent (begin_catch_up server d)
unfolding begin_catch_up
catch_up-IsConsistent server c = record {
  total = c.total;
  per_server = c.per_server;
  one_each = c.one_each;
}

end_catch_up-IsConsistent :
    {d : Dispatcher} (server : String) → IsConsistent d → IsConsistent (end_catch_up server d)
unfolding end_catch_up
end_catch_up-IsConsistent server c = record {
  total = c.total;
  per_server = c.per_server;
  one_each = c.one_each;
}

pub Step-IsConsistent : {d e : Dispatcher} → Step d e → IsConsistent d → IsConsistent e
Step-IsConsistent (baseline job t) c = baseline-IsConsistent job t c
Step-IsConsistent (reserved server limit h) c = reserve-IsConsistent server limit h c
Step-IsConsistent (released server h) c = release-IsConsistent server h c
Step-IsConsistent (caught_up server) c = catch_up-IsConsistent server c
Step-IsConsistent (catch_up_ended server) c = end_catch_up-IsConsistent server c

-- However the critical sections of the ticks and of the runs that they start interleave with the
-- missed-run detection, the two counters agree with the runs in flight that tryStart has started, and
-- no server has two of these. Catch-up runs of the missed-run detection are not among them.
pub Reach-IsConsistent : {d : Dispatcher} → Reach new_dispatcher d → IsConsistent d
Reach-IsConsistent here = new_dispatcher-IsConsistent
Reach-IsConsistent (next r s) = Step-IsConsistent s (Reach-IsConsistent r)
