-- ===== src/Store/LocksMap.antt =====
-- What the lock repository of server/internal/store/locks.go promises: a map from jobs to locks.
use sshbackup.Common.{
  ◌≡◌, refl, ap, ◌∙◌, String, Bool, true, false, Option, none, some, List, [], ◌∷◌, ◌++◌, any,
  str_eq, eq_iff, if◌then◌else◌, Bool-cases, Option-cases, arith, inl, inr, ◌⊎◌,
}
use sshbackup.Domain.Enums.{Result-cases}
use sshbackup.Domain.{Error, ok}
use sshbackup.Store.Table.{Table, IsTable, find_rows, keep_rows, is_err}
use sshbackup.Store.Locks.{
  JobLock, first_lock, got_lock, listed, acquire_outcome, release_outcome, of_job, same_job,
  acquire, release, get, list, release_each, release_stale_locks,
}

-- The lock of a job among some rows.
abbrev pub lock_of : String → List JobLock → Option JobLock
lock_of x [] = none
lock_of x (l ∷ ls) = if of_job x l then some l else lock_of x ls

lock_of-snoc :
    (x : String) (l : JobLock) (ls : List JobLock)
    → any (same_job l) ls ≡ false
    → lock_of x (ls ++ l ∷ []) ≡ (if str_eq l.job_id x then some l else lock_of x ls)
lock_of-snoc x l [] h = refl
lock_of-snoc x l (k ∷ ls) h = elim (Bool-cases (str_eq l.job_id x)) [
  | inr m ↦ ground (arith, m, lock_of-snoc x l ls)
  | inl m ↦
      let same : l.job_id ≡ x = (eq_iff l.job_id x).0 m in
      ground (arith, m, h, ap (λ (y : String). str_eq k.job_id y) same, lock_of-snoc x l ls)
]

free : (l : JobLock) (ls : List JobLock) → any (same_job l) ls ≡ false → lock_of l.job_id ls ≡ none
free l [] h = refl
free l (k ∷ ls) h = ground (arith, h, free l ls)

lock_of-keep_rows :
    (x y : String) (ls : List JobLock)
    → lock_of x (keep_rows (of_job y) ls) ≡ (if str_eq y x then none else lock_of x ls)
lock_of-keep_rows x y [] = ground arith
lock_of-keep_rows x y (l ∷ ls) = elim (Bool-cases (str_eq l.job_id y)) [
  | inr m ↦ elim (Bool-cases (str_eq y x)) [
    | inr n ↦ ground (arith, m, n, lock_of-keep_rows x y ls)
    | inl n ↦
        let same : y ≡ x = (eq_iff y x).0 n in
        ground (arith, m, n, ap (λ (z : String). str_eq l.job_id z) same, lock_of-keep_rows x y ls)
  ]
  | inl m ↦
      let same : l.job_id ≡ y = (eq_iff l.job_id y).0 m in
      ground (arith, m, ap (λ (z : String). str_eq z x) same, lock_of-keep_rows x y ls)
]

-- A map with a lock added, and with the lock of a job taken out.
abbrev pub with_lock : JobLock → (String → Option JobLock) → String → Option JobLock
with_lock l m x = if str_eq l.job_id x then some l else m x

abbrev pub without_lock : String → (String → Option JobLock) → String → Option JobLock
without_lock y m x = if str_eq y x then none else m x

module _ {Db : Type 0} (t : Table Db JobLock) (h : IsTable t same_job) where
  -- The map that a database stands for.
  abbrev pub locks_in : Db → String → Option JobLock
  locks_in d x = lock_of x (h.rows d)

  find_own : (x : String) (ls : List JobLock) → first_lock (find_rows (of_job x) ls) ≡ lock_of x ls
  find_own x [] = refl
  find_own x (l ∷ ls) = elim (Bool-cases (str_eq l.job_id x)) [
    | inl m ↦ simp m refl
    | inr m ↦ simp m (find_own x ls)
  ]

  -- What `Acquire` does to the map: it adds the lock of a job that had none, or fails and adds none.
  abbrev pub Acquires : JobLock → Db → Option Error × Db → Type 0
  Acquires l d r =
      ((r.0 ≡ none)
        × (locks_in d l.job_id ≡ none)
        × ((x : String) → locks_in r.1 x ≡ with_lock l (locks_in d) x))
      ⊎ ((e : Error) × (r.0 ≡ some e) × ((x : String) → locks_in r.1 x ≡ locks_in d x))

  -- What `Release` does to the map.
  abbrev pub Releases : String → Db → Option Error × Db → Type 0
  Releases y d r =
      ((r.0 ≡ none) × ((x : String) → locks_in r.1 x ≡ without_lock y (locks_in d) x))
      ⊎ ((e : Error) × (r.0 ≡ some e) × ((x : String) → locks_in r.1 x ≡ locks_in d x))

  acquire_refines : (l : JobLock) (d : Db) → Acquires l d (acquire t l d)
  unfolding acquire
  acquire_refines l d = elim (Option-cases (t.insert l d).0) [
    | inl k ↦
        let (added, fresh) = h.on_insert l d k in
        inl (
          ap (acquire_outcome l.job_id) k,
          free l (h.rows d) fresh,
          λ x. ap (lock_of x) added ∙ lock_of-snoc x l (h.rows d) fresh,
        )
    | inr (e, k) ↦
        inr (_, ap (acquire_outcome l.job_id) k, λ x. ap (lock_of x) (h.on_insert_error l d e k))
  ]

  release_refines : (y : String) (d : Db) → Releases y d (release t y d)
  unfolding release
  release_refines y d = elim (Result-cases (t.delete (of_job y) d).0) [
    | inl (n, k) ↦
        let gone = h.on_delete (of_job y) d (ap is_err k) in
        inl (ap (release_outcome y) k, λ x. ap (lock_of x) gone ∙ lock_of-keep_rows x y (h.rows d))
    | inr (e, k) ↦ inr (
      _,
      ap (release_outcome y) k,
      λ x. ap (lock_of x) (h.on_delete_error (of_job y) d (ap is_err k)),
    )
  ]

  get_refines : (x : String) (d : Db) (o : Option JobLock) → get t x d ≡ ok o → o ≡ locks_in d x
  unfolding get
  get_refines x d o k = elim (Result-cases (t.query (of_job x) d)) [
    | inl (ls, q) ↦
        let found : o ≡ first_lock ls = ground (arith, k, ap (got_lock x) q) in
        found ∙ (ap first_lock (h.on_query (of_job x) d ls q) ∙ find_own x (h.rows d))
    | inr (e, q) ↦ absurd (ground (arith, k, ap (got_lock x) q))
  ]

  -- The lock repository is a map from jobs to locks: `Acquire` adds the lock of a job that has none
  -- or reports an error and changes nothing, `Release` takes the job's lock out or reports an error
  -- and changes nothing, and what `Get` finds is what the map has.
  pub locks_refine :
      (l : JobLock) (x : String) (d : Db)
      → Acquires l d (acquire t l d)
        × Releases x d (release t x d)
        × ((o : Option JobLock) → get t x d ≡ ok o → o ≡ locks_in d x)
  locks_refine l x d = (acquire_refines l d, release_refines x d, get_refines x d)

  -- No deletion fails.
  abbrev pub NeverFails : Type 0
  NeverFails = (p : JobLock → Bool) (d : Db) → is_err (t.delete p d).0 ≡ false

  locks_in-release :
      NeverFails
      → (y : String) (d : Db) (x : String)
      → locks_in (release t y d).1 x ≡ without_lock y (locks_in d) x
  unfolding release
  locks_in-release good y d x =
      ap (lock_of x) (h.on_delete (of_job y) d (good (of_job y) d))
      ∙ lock_of-keep_rows x y (h.rows d)

  locks_in-release_each :
      NeverFails
      → (ls : List JobLock) (d : Db) (x : String)
      → locks_in (release_each t ls d) x ≡ (if any (of_job x) ls then none else locks_in d x)
  unfolding release_each
  locks_in-release_each good [] d x = refl
  locks_in-release_each good (l ∷ ls) d x = ground (
    arith,
    locks_in-release_each good ls (release t l.job_id d).1 x,
    locks_in-release good l.job_id d x,
  )

  find_all : (ls : List JobLock) → find_rows (λ l. true) ls ≡ ls
  find_all [] = refl
  find_all (l ∷ ls) = ap (λ ks. l ∷ ks) (find_all ls)

  unlocked :
      (x : String) (ls : List JobLock) → (if any (of_job x) ls then none else lock_of x ls) ≡ none
  unlocked x [] = refl
  unlocked x (l ∷ ls) = ground (arith, unlocked x ls)

  -- Where the locks can be listed and no deletion fails, no job is locked after
  -- `releaseStaleLocks`.
  pub release_stale_locks-unlocked :
      NeverFails
      → (d : Db) (ls : List JobLock) (x : String) → list t d ≡ ok ls
      → locks_in (release_stale_locks t d) x ≡ none
  unfolding release_stale_locks list
  release_stale_locks-unlocked good d ls x k = elim (Result-cases (t.query (λ l. true) d)) [
    | inr (e, q) ↦ absurd (ground (arith, k, ap listed q))
    | inl (ks, q) ↦
        let all_locks = h.on_query (λ l. true) d ks q ∙ find_all (h.rows d) in
        let released = locks_in-release_each good (h.rows d) d x in
        rw (ap listed q) (rw all_locks (released ∙ unlocked x (h.rows d)))
  ]
