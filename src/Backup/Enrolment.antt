-- ===== src/Backup/Enrolment.antt =====
-- What `registerCleanupScripts` of server/internal/backup/scripts.go makes of an empty registry.
use sshbackup.Common.{
  ℕ, zero, suc, ◌+◌, ◌≡◌, refl, sym, subst, ap, ◌∙◌, String, true, some, List, [], ◌∷◌, ◌++◌,
  length, All, All-append, arith, str_eq, if◌then◌else◌, Bool-cases, inl, inr, ◌⊎◌,
}
use sshbackup.Common.Action.{for_each}
use sshbackup.Domain.{Script}
use sshbackup.Backup.Context.{Setup, CleanupEntry, RunContext, find_cleanup_entry}
use sshbackup.Backup.Scripts.{is_guaranteed, register_script, register_cleanup_scripts}
use sshbackup.Backup.Respects.Whole.{entry_of}
use sshbackup.Backup.Registry.{enrolled, waiting, name_at, IsToken}

-- The registry knows a script: one entry, and a token that leads to it.
pub record Ledger (x : String) (s : RunContext) : Type 0 where
  pub tokens : All (IsToken s.entries) s.tokens
  pub one : enrolled x s.entries ≡ 1
  pub place : ℕ
  pub found : find_cleanup_entry x s.tokens ≡ some place

-- How many guaranteed scripts have an identifier.
abbrev pub guaranteed_times : String → List Script → ℕ
guaranteed_times x [] = 0
guaranteed_times x (s ∷ ss) =
    let rest = guaranteed_times x ss in
    if str_eq s.id x then (if is_guaranteed s then suc rest else rest) else rest

name_at-append :
    (i : ℕ) (es fs : List CleanupEntry) {y : String}
    → name_at i es ≡ some y
    → name_at i (es ++ fs) ≡ some y
name_at-append i [] fs h = absurd (ground arith)
name_at-append zero (e ∷ es) fs h = h
name_at-append (suc i) (e ∷ es) fs h = name_at-append i es fs h

name_at-length :
    (es : List CleanupEntry) (e : CleanupEntry)
    → name_at (length es) (es ++ e ∷ []) ≡ some e.script.id
name_at-length [] e = refl
name_at-length (f ∷ es) e = name_at-length es e

All-tokens :
    (es fs : List CleanupEntry) (ts : List (String × ℕ))
    → All (IsToken es) ts
    → All (IsToken (es ++ fs)) ts
All-tokens es fs [] h = tt
All-tokens es fs ((k, i) ∷ ts) h = (name_at-append i es fs h.0, All-tokens es fs ts h.1)

enrolled-snoc :
    (x : String) (es : List CleanupEntry) (e : CleanupEntry)
    → enrolled x (es ++ e ∷ [])
      ≡ (if str_eq e.script.id x then suc (enrolled x es) else enrolled x es)
enrolled-snoc x [] e = ground arith
enrolled-snoc x (f ∷ es) e = ground (arith, enrolled-snoc x es e)

waiting-snoc :
    (x : String) (es : List CleanupEntry) (script : Script)
    → waiting x (es ++ entry_of script ∷ [])
      ≡ (if str_eq script.id x then suc (waiting x es) else waiting x es)
waiting-snoc x [] script = ground arith
waiting-snoc x (f ∷ es) script = ground (arith, waiting-snoc x es script)

find-snoc :
    (x k : String) (i : ℕ) (ts : List (String × ℕ))
    → ((j : ℕ) × (find_cleanup_entry x ts ≡ some j)) ⊎ (str_eq k x ≡ true)
    → (j : ℕ) × (find_cleanup_entry x (ts ++ (k, i) ∷ []) ≡ some j)
find-snoc x k i [] (inl (j, h)) = absurd (ground arith)
find-snoc x k i [] (inr h) = (i, rw h refl)
find-snoc x k i ((m, n) ∷ ts) h = elim (Bool-cases (str_eq m x)) [
  | inl e ↦ (n, rw e refl)
  | inr e ↦
      let rest =
        find-snoc x k i ts (elim h [ inl (j, g) ↦ inl (j, simp e at g) | inr g ↦ inr g ]) in
      (rest.0, rw e rest.1)
]

-- A registry while it is filled: nothing is done, and a script with an entry has a token.
pub record Filling (x : String) (n : ℕ) (s : RunContext) : Type 0 where
  pub tokens : All (IsToken s.entries) s.tokens
  pub entries : enrolled x s.entries ≡ n
  pub open_entries : waiting x s.entries ≡ n
  pub found : (n ≡ 0) ⊎ ((i : ℕ) × (find_cleanup_entry x s.tokens ≡ some i))

register_script-Filling :
    (x : String) (n : ℕ) (script : Script) (s : RunContext)
    → Filling x n s
    → Filling x (guaranteed_times x (script ∷ []) + n) (register_script script s).1
unfolding register_script
register_script-Filling x n script s f = elim (Bool-cases (is_guaranteed script)) [
  | inr g ↦ simp g (record {
    tokens = f.tokens;
    entries = ground (arith, f.entries);
    open_entries = ground (arith, f.open_entries);
    found = elim f.found [ inl z ↦ inl (ground (arith, z)) | inr p ↦ inr p ];
  })
  | inl g ↦
      let e = entry_of script in
      let token = name_at-length s.entries e in
      let find = find-snoc x script.id (length s.entries) s.tokens in
      simp g (record {
        tokens =
            All-append (IsToken (s.entries ++ e ∷ [])) s.tokens ((script.id, length s.entries) ∷ [])
              (All-tokens s.entries (e ∷ []) s.tokens f.tokens) (token, tt);
        entries = ground (arith, f.entries, enrolled-snoc x s.entries e);
        open_entries = ground (arith, f.open_entries, waiting-snoc x s.entries script);
        found = elim (Bool-cases (str_eq script.id x)) [
          | inl m ↦ inr (find (inr m))
          | inr m ↦ elim f.found [ inl z ↦ inl (ground (arith, z, m)) | inr p ↦ inr (find (inl p)) ]
        ];
      })
]

guaranteed_times-cons :
    (x : String) (s : Script) (ss : List Script) (n : ℕ)
    → guaranteed_times x ss + (guaranteed_times x (s ∷ []) + n) ≡ guaranteed_times x (s ∷ ss) + n
guaranteed_times-cons x s ss n = ground arith

fill-Filling :
    (x : String) (scripts : List Script) (n : ℕ) (s : RunContext)
    → Filling x n s
    → Filling x (guaranteed_times x scripts + n) (for_each register_script scripts s).1
unfolding for_each
fill-Filling x [] n s f =
    let zero_more : guaranteed_times x [] + n ≡ n = omega arith in
    subst (λ m. Filling x m s) (sym zero_more) f
fill-Filling x (script ∷ scripts) n s f =
    let rest =
      fill-Filling x scripts (guaranteed_times x (script ∷ []) + n) (register_script script s).1
        (register_script-Filling x n script s f) in
    subst (λ m. Filling x m (for_each register_script scripts (register_script script s).1).1)
      (guaranteed_times-cons x script scripts n) rest

-- Nothing is registered.
pub record IsEmpty (s : RunContext) : Type 0 where
  pub entries : s.entries ≡ []
  pub tokens : s.tokens ≡ []

register_script_calls :
    (script : Script) (s : RunContext) → (register_script script s).1.world ≡ s.world
unfolding register_script
register_script_calls script s = elim (Bool-cases (is_guaranteed script)) [
  | inl g ↦ simp g refl
  | inr g ↦ simp g refl
]

fill_calls :
    (scripts : List Script) (s : RunContext)
    → (for_each register_script scripts s).1.world ≡ s.world
unfolding for_each
fill_calls [] s = refl
fill_calls (script ∷ scripts) s =
    fill_calls scripts (register_script script s).1 ∙ register_script_calls script s

module _ (u : Setup) (x : String) (only : guaranteed_times x u.job.scripts ≡ 1) where
  pub register-Ledger :
      (s : RunContext)
      → IsEmpty s
      → Ledger x (register_cleanup_scripts u s).1
        × (waiting x (register_cleanup_scripts u s).1.entries ≡ 1)
        × ((register_cleanup_scripts u s).1.world ≡ s.world)
  unfolding register_cleanup_scripts
  register-Ledger s e =
      let start : Filling x 0 s = record {
        tokens = subst (λ ts. All (IsToken s.entries) ts) (sym e.tokens) tt;
        entries = ap (enrolled x) e.entries;
        open_entries = ap (waiting x) e.entries;
        found = inl refl;
      } in
      let full = fill-Filling x u.job.scripts 0 s start in
      let count : guaranteed_times x u.job.scripts + 0 ≡ 1 = omega (arith, only) in
      let found =
        elim full.found
          as (λ h.
            (i : ℕ) × (find_cleanup_entry x (for_each register_script u.job.scripts s).1.tokens
              ≡ some i)) [ inl z ↦ absurd (omega (arith, z, count)) | inr p ↦ p ] in
      (
        record {
          tokens = full.tokens;
          one = full.entries ∙ count;
          place = found.0;
          found = found.1;
        },
        full.open_entries ∙ count,
        fill_calls u.job.scripts s,
      )
