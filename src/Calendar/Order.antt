-- ===== src/Calendar/Order.antt =====
-- The order of moments.
use sshbackup.Common.{◌≤◌, ◌<◌, ◌≡◌, true, false, arith, ◌⊎◌, inl, inr}
use sshbackup.Calendar.{Time, before}

pub before_irrefl : (t : Time) → before t t ≡ false
unfolding before
before_irrefl t = ground arith

-- A moment of a later month comes after.
pub before_of_month :
    (a b : Time) → (a.year < b.year) ⊎ ((a.year ≡ b.year) × (a.month < b.month)) → before a b ≡ true
unfolding before
before_of_month a b (inl h) = ground arith
before_of_month a b (inr h) = ground arith

-- A moment that comes after is not of an earlier month.
pub month_of_before :
    (a b : Time) → before a b ≡ true → (a.year < b.year) ⊎ ((a.year ≡ b.year) × (a.month ≤ b.month))
unfolding before
month_of_before a b h = ground arith
