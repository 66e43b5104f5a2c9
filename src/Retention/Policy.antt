-- ===== src/Retention/Policy.antt =====
-- The rule of `shouldDelete` against what the limits mean.
use sshbackup.Common.{ℕ, ◌≡◌, ℤ, pos, true, false, Option, none, some, arith, ltb_ℤ, ◌↔◌}
use sshbackup.Calendar.{Time, before}
use sshbackup.Domain.{RetentionPolicy, has_limit}
use sshbackup.Retention.{should_delete, cutoff_of}

-- An archive at a place of the newest-first list is outside the limit on the number.
abbrev pub OutsideCount : Option ℤ → ℕ → Type 0
OutsideCount none i = Unit {0}
OutsideCount (some k) i = ltb_ℤ (pos i) k ≡ false

-- An archive is outside the limit on the age.
abbrev pub OutsideAge : Option Time → Time → Type 0
OutsideAge none t = Unit {0}
OutsideAge (some c) t = before t c ≡ true

should_delete_cases :
    (keep age : Option ℤ) (i : ℕ) (t now : Time)
    → (should_delete
          (record { keep_last = keep; max_age_days = age })
          i
          t
          (cutoff_of (record { keep_last = keep; max_age_days = age }) now)
        ≡ true)
      ↔ ((has_limit (record { keep_last = keep; max_age_days = age }) ≡ true)
          × OutsideCount keep i
          × OutsideAge (cutoff_of (record { keep_last = keep; max_age_days = age }) now) t)
unfolding should_delete cutoff_of
should_delete_cases none none i t now = ground arith
should_delete_cases none (some d) i t now = ground arith
should_delete_cases (some k) none i t now = ground arith
should_delete_cases (some k) (some d) i t now = ground arith

-- `shouldDelete` holds exactly when some limit is configured and the archive is outside every
-- limit that is: not among the newest `keep_last`, and started before the cutoff.
pub should_delete_iff :
    (p : RetentionPolicy) (i : ℕ) (t now : Time)
    → (should_delete p i t (cutoff_of p now) ≡ true)
      ↔ ((has_limit p ≡ true) × OutsideCount p.keep_last i × OutsideAge (cutoff_of p now) t)
should_delete_iff p i t now = should_delete_cases p.keep_last p.max_age_days i t now
