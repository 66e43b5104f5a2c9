-- ===== src/Ipc/ActiveRuns.antt =====
-- server/internal/ipc/activeruns.go: the cancel functions of the runs in progress, and the order in
-- which `handleRunsStart` and the run's own goroutine use them.
use sshbackup.Common.{
  ℕ, ◌≡◌, refl, sym, ◌∙◌, ap, String, Bool, true, false, Option, none, some, List, [], ◌∷◌, str_eq,
  eq_iff, Bool-cases, if◌then◌else◌, arith, inl, inr,
}

-- The map of cancel functions, which are numbers here, and the numbers that were called.
pub record Active : Type 0 where
  pub cancels : List (String × ℕ)
  pub called : List ℕ

-- `NewActiveRunRegistry`.
abbrev pub new_active : Active
new_active = record { cancels = []; called = [] }

abbrev pub without_run : String → List (String × ℕ) → List (String × ℕ)
without_run id [] = []
without_run id ((k, c) ∷ rest) =
    let kept = without_run id rest in if str_eq k id then kept else (k, c) ∷ kept

abbrev pub cancel_of : String → List (String × ℕ) → Option ℕ
cancel_of id [] = none
cancel_of id ((k, c) ∷ rest) = if str_eq k id then some c else cancel_of id rest

-- `Register`.
unfoldable pub register : String → ℕ → Active → Active
register id c a = record a { cancels = (id, c) ∷ without_run id a.cancels }

-- `Unregister`.
unfoldable pub unregister : String → Active → Active
unregister id a = record a { cancels = without_run id a.cancels }

-- A call of a cancel function.
abbrev pub call : ℕ → Active → Active
call c a = record a { called = c ∷ a.called }

abbrev pub call_found : Option ℕ → Active → Bool × Active
call_found none a = (false, a)
call_found (some c) a = (true, call c a)

-- `Cancel`.
unfoldable pub cancel : String → Active → Bool × Active
cancel id a = call_found (cancel_of id a.cancels) a

abbrev pub call_each : List (String × ℕ) → List ℕ → List ℕ
call_each [] called = called
call_each ((k, c) ∷ rest) called = call_each rest (c ∷ called)

-- `CancelAll`.
unfoldable pub cancel_all : Active → Active
cancel_all a = record a { called = call_each a.cancels a.called }

-- What has become of a run that `handleRunsStart` started with a cancel function. The handler
-- registers it after `Start` has returned, when the run's goroutine may have finished.
pub data Phase : Type 0 where
  unknown : Phase
  started : ℕ → Phase
  registered : ℕ → Phase
  finished_early : ℕ → Phase
  finished : Phase
  registered_late : ℕ → Phase

abbrev pub set_phase : String → Phase → (String → Phase) → String → Phase
set_phase id p phases x = if str_eq id x then p else phases x

-- The steps of the handlers and the goroutines, in any order that their own orders allow.
pub data Reach : (String → Phase) → Active → Type 0 where
  start : Reach (λ x. unknown) new_active
  after_start :
      {m : String → Phase} {a : Active} (id : String) (c : ℕ)
      → Reach m a
      → m id ≡ unknown
      → Reach (set_phase id (started c) m) a
  after_registration :
      {m : String → Phase} {a : Active} (id : String) (c : ℕ)
      → Reach m a
      → m id ≡ started c
      → Reach (set_phase id (registered c) m) (register id c a)
  after_late_registration :
      {m : String → Phase} {a : Active} (id : String) (c : ℕ)
      → Reach m a
      → m id ≡ finished_early c
      → Reach (set_phase id (registered_late c) m) (register id c a)
  after_end :
      {m : String → Phase} {a : Active} (id : String) (c : ℕ)
      → Reach m a
      → m id ≡ registered c
      → Reach (set_phase id finished m) (unregister id a)
  after_early_end :
      {m : String → Phase} {a : Active} (id : String) (c : ℕ)
      → Reach m a
      → m id ≡ started c
      → Reach (set_phase id (finished_early c) m) (unregister id a)
  after_foreign_end :
      {m : String → Phase} {a : Active} (id : String)
      → Reach m a
      → m id ≡ unknown
      → Reach m (unregister id a)
  after_cancel :
      {m : String → Phase} {a : Active} (id : String) → Reach m a → Reach m (cancel id a).1
  after_cancel_all : {m : String → Phase} {a : Active} → Reach m a → Reach m (cancel_all a)

-- The cancel function that the registry should have for a run.
abbrev pub held : Phase → Option ℕ
held (registered c) = some c
held (registered_late c) = some c
held other = none

-- What `Cancel` should answer and whom it should call.
abbrev pub answer : Option ℕ → List ℕ → Bool × List ℕ
answer none called = (false, called)
answer (some c) called = (true, c ∷ called)

cancel_of-without_run :
    (id x : String) (cs : List (String × ℕ))
    → cancel_of x (without_run id cs) ≡ (if str_eq id x then none else cancel_of x cs)
cancel_of-without_run id x [] = ground arith
cancel_of-without_run id x ((k, c) ∷ rest) =
    ground (arith, cancel_of-without_run id x rest, eq_iff k id, eq_iff id x, eq_iff k x)

IsTracked : (String → Phase) → Active → Type 0
IsTracked m a = (x : String) → cancel_of x a.cancels ≡ held (m x)

kept_phase :
    (m : String → Phase) (id : String) (p : Phase) (cs : List (String × ℕ))
    → held p ≡ held (m id)
    → ((x : String) → cancel_of x cs ≡ held (m x))
    → (x : String) → cancel_of x cs ≡ held (set_phase id p m x)
kept_phase m id p cs same h x = elim (Bool-cases (str_eq id x)) [
  | inl on ↦ let e = (eq_iff id x).0 on in simp on (h x ∙ ap (λ y. held (m y)) (sym e) ∙ sym same)
  | inr off ↦ simp off (h x)
]

register-IsTracked :
    (m : String → Phase) (a : Active) (id : String) (c : ℕ) (p : Phase)
    → held p ≡ some c
    → IsTracked m a
    → IsTracked (set_phase id p m) (register id c a)
unfolding IsTracked register
register-IsTracked m a id c p has h x = elim (Bool-cases (str_eq id x)) [
  | inl on ↦ simp on (sym has)
  | inr off ↦ simp (off, cancel_of-without_run id x a.cancels) (h x)
]

unregister-IsTracked :
    (m : String → Phase) (a : Active) (id : String) (p : Phase)
    → held p ≡ none
    → IsTracked m a
    → IsTracked (set_phase id p m) (unregister id a)
unfolding IsTracked unregister
unregister-IsTracked m a id p has h x = elim (Bool-cases (str_eq id x)) [
  | inl on ↦ simp (on, cancel_of-without_run id x a.cancels) (sym has)
  | inr off ↦ simp (off, cancel_of-without_run id x a.cancels) (h x)
]

foreign_end-IsTracked :
    (m : String → Phase) (a : Active) (id : String)
    → m id ≡ unknown
    → IsTracked m a
    → IsTracked m (unregister id a)
unfolding IsTracked unregister
foreign_end-IsTracked m a id new h x = elim (Bool-cases (str_eq id x)) [
  | inl on ↦
      let e = (eq_iff id x).0 on in
      simp (on, cancel_of-without_run id x a.cancels) (sym (ap held new) ∙ ap (λ y. held (m y)) e)
  | inr off ↦ simp (off, cancel_of-without_run id x a.cancels) (h x)
]

cancels-call_found : (o : Option ℕ) (a : Active) → (call_found o a).1.cancels ≡ a.cancels
cancels-call_found none a = refl
cancels-call_found (some c) a = refl

Reach-IsTracked : (m : String → Phase) (a : Active) → Reach m a → IsTracked m a
unfolding IsTracked cancel cancel_all
Reach-IsTracked _ _ start = λ x. refl
Reach-IsTracked _ _ (after_start {m} {a} id c r new) =
    kept_phase m id (started c) a.cancels (sym (ap held new)) (Reach-IsTracked m a r)
Reach-IsTracked _ _ (after_registration {m} {a} id c r k) =
    register-IsTracked m a id c (registered c) refl (Reach-IsTracked m a r)
Reach-IsTracked _ _ (after_late_registration {m} {a} id c r k) =
    register-IsTracked m a id c (registered_late c) refl (Reach-IsTracked m a r)
Reach-IsTracked _ _ (after_end {m} {a} id c r k) =
    unregister-IsTracked m a id finished refl (Reach-IsTracked m a r)
Reach-IsTracked _ _ (after_early_end {m} {a} id c r k) =
    unregister-IsTracked m a id (finished_early c) refl (Reach-IsTracked m a r)
Reach-IsTracked _ _ (after_foreign_end {m} {a} id r new) =
    foreign_end-IsTracked m a id new (Reach-IsTracked m a r)
Reach-IsTracked _ _ (after_cancel {m} {a} id r) =
    λ x. ap (cancel_of x) (cancels-call_found (cancel_of id a.cancels) a) ∙ Reach-IsTracked m a r x
Reach-IsTracked _ _ (after_cancel_all {m} {a} r) = Reach-IsTracked m a r

call_found-answer :
    (o : Option ℕ) (a : Active)
    → ((call_found o a).0, (call_found o a).1.called) ≡ answer o a.called
call_found-answer none a = refl
call_found-answer (some c) a = refl

-- However the handlers and the goroutines of the runs interleave, Cancel answers that a run is active
-- and calls its cancel function, and no other, exactly when the run was registered and has not been
-- unregistered since: when it is in progress, or when it was registered after it had finished.
pub Reach-cancel :
    (m : String → Phase) (a : Active)
    → Reach m a
    → (id : String) → ((cancel id a).0, (cancel id a).1.called) ≡ answer (held (m id)) a.called
unfolding cancel IsTracked
Reach-cancel m a r id =
    call_found-answer (cancel_of id a.cancels) a
    ∙ ap (λ o. answer o a.called) (Reach-IsTracked m a r id)
