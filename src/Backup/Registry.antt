-- ===== src/Backup/Registry.antt =====
-- Counting in the registry of server/internal/backup/cleanup.go and the tokens of scripts.go.
use sshbackup.Common.{
  ℕ, zero, suc, ◌+◌, ◌≤◌, ◌≡◌, refl, ap, String, false, Option, none, some, List, [], ◌∷◌, All,
  arith, str_eq, eq_iff, eq_refl, if◌then◌else◌, Bool-cases, inl, inr,
}
use sshbackup.Domain.{Script}
use sshbackup.Backup.Context.{CleanupEntry, mark_done_at, find_cleanup_entry}
use sshbackup.Backup.Scripts.{pending_from}
use sshbackup.Backup.Cleanup.{tried_after}

-- How many scripts, entries and pending entries have an identifier.
abbrev pub times : String → List Script → ℕ
times x [] = 0
times x (s ∷ ss) = let rest = times x ss in if str_eq s.id x then suc rest else rest

abbrev pub enrolled : String → List CleanupEntry → ℕ
enrolled x [] = 0
enrolled x (e ∷ es) = let rest = enrolled x es in if str_eq e.script.id x then suc rest else rest

abbrev pub waiting : String → List CleanupEntry → ℕ
waiting x [] = 0
waiting x (e ∷ es) =
    let rest = waiting x es in
    if str_eq e.script.id x then (if e.done then rest else suc rest) else rest

-- The identifier of the entry at a place.
abbrev pub name_at : ℕ → List CleanupEntry → Option String
name_at i [] = none
name_at zero (e ∷ es) = some e.script.id
name_at (suc i) (e ∷ es) = name_at i es

-- A token names the entry of its script.
abbrev pub IsToken : List CleanupEntry → String × ℕ → Type 0
IsToken es t = name_at t.1 es ≡ some t.0

pub waiting-enrolled : (x : String) (es : List CleanupEntry) → waiting x es ≤ enrolled x es
waiting-enrolled x [] = omega arith
waiting-enrolled x (e ∷ es) = ground (arith, waiting-enrolled x es)

pub name_at-mark_done_at :
    (j i : ℕ) (es : List CleanupEntry) → name_at j (mark_done_at i es) ≡ name_at j es
name_at-mark_done_at j i [] = refl
name_at-mark_done_at zero zero (e ∷ es) = refl
name_at-mark_done_at (suc j) zero (e ∷ es) = refl
name_at-mark_done_at zero (suc i) (e ∷ es) = refl
name_at-mark_done_at (suc j) (suc i) (e ∷ es) = name_at-mark_done_at j i es

pub enrolled-mark_done_at :
    (x : String) (i : ℕ) (es : List CleanupEntry) → enrolled x (mark_done_at i es) ≡ enrolled x es
enrolled-mark_done_at x i [] = refl
enrolled-mark_done_at x zero (e ∷ es) = refl
enrolled-mark_done_at x (suc i) (e ∷ es) = ground (arith, enrolled-mark_done_at x i es)

-- An entry with another identifier is marked.
pub waiting-mark_done_at :
    (x y : String) (i : ℕ) (es : List CleanupEntry)
    → name_at i es ≡ some y
    → str_eq y x ≡ false
    → waiting x (mark_done_at i es) ≡ waiting x es
waiting-mark_done_at x y i [] h k = refl
waiting-mark_done_at x y zero (e ∷ es) h k =
    let same : e.script.id ≡ y = ground arith in
    ground (arith, ap (λ (n : String). str_eq n x) same)
waiting-mark_done_at x y (suc i) (e ∷ es) h k = ground (arith, waiting-mark_done_at x y i es h k)

named_enrolled :
    (x : String) (i : ℕ) (es : List CleanupEntry) → name_at i es ≡ some x → 1 ≤ enrolled x es
named_enrolled x i [] h = absurd (ground arith)
named_enrolled x zero (e ∷ es) h =
    let same : e.script.id ≡ x = ground arith in
    ground (arith, ap (λ (n : String). str_eq n x) same, eq_refl x)
named_enrolled x (suc i) (e ∷ es) h = ground (arith, named_enrolled x i es h)

-- The only entry with an identifier is marked.
pub waiting-mark_own :
    (x : String) (i : ℕ) (es : List CleanupEntry)
    → name_at i es ≡ some x
    → enrolled x es ≡ 1
    → waiting x (mark_done_at i es) ≡ 0
waiting-mark_own x i [] h k = refl
waiting-mark_own x zero (e ∷ es) h k =
    let same : e.script.id ≡ x = ground arith in
    ground (arith, ap (λ (n : String). str_eq n x) same, eq_refl x, waiting-enrolled x es)
waiting-mark_own x (suc i) (e ∷ es) h k =
    ground (arith, waiting-mark_own x i es h, named_enrolled x i es h)

pub find-IsToken :
    (es : List CleanupEntry) (y : String) (ts : List (String × ℕ)) {i : ℕ}
    → All (IsToken es) ts
    → find_cleanup_entry y ts ≡ some i
    → name_at i es ≡ some y
find-IsToken es y [] a h = absurd (ground arith)
find-IsToken es y ((k, j) ∷ ts) {i} a h = elim (Bool-cases (str_eq k y)) [
  | inl e ↦
      let same : k ≡ y = (eq_iff k y).0 e in
      let place : j ≡ i = ground arith in rw⁻¹ (place, same) a.0
  | inr e ↦ find-IsToken es y ts a.1 (simp e at h)
]

-- What the drain tries is what was waiting.
pub times-tried_after :
    (x : String) (i : ℕ) (es : List CleanupEntry) (tried : List Script)
    → times x (tried_after (pending_from i es) tried) ≡ waiting x es + times x tried
times-tried_after x i [] tried = omega arith
times-tried_after x i (e ∷ es) tried = elim (Bool-cases e.done) [
  | inl h ↦ ground (arith, times-tried_after x (suc i) es tried)
  | inr h ↦ ground (arith, times-tried_after x (suc i) es (e.script ∷ tried))
]
