-- ===== src/Rewards/Payout/Delay.antt =====
-- The delay before a payout is tried again.
use superhero_api.Base.{ℕ, ◌-◌, ◌≤◌, arith, min, max}
use superhero_api.Rewards.Payout.{Settings, setting}

abbrev pub base_of : Settings → ℕ
base_of c = max (setting 30 c.retry_base_seconds) 1

abbrev pub cap_of : Settings → ℕ
cap_of c = max (setting 3600 c.retry_max_seconds) (base_of c)

abbrev exponent : ℕ → ℕ
exponent n = min (n - 1) 10

min_mono : (a b c : ℕ) → a ≤ b → min a c ≤ min b c
min_mono a b c h = omega arith
