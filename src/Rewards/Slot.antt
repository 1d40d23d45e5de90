-- ===== src/Rewards/Slot.antt =====
-- src/profile/services/profile-x-posting-reward.service.ts: the daily slot of an address's scan of X.
pub mod Spaced
use superhero_api.Base.{
  ℕ, ◌+◌, ◌-◌, ◌*◌, Bool, true, false, Option, none, some, List, [], ◌∷◌, leb, ◌==◌, if◌then◌else◌,
}

-- A window that is no positive number of hours stands for 24.
abbrev pub window_ms : ℕ → ℕ
window_ms hours = (if hours == 0 then 24 else hours) * 3600 * 1000

-- The condition of the claim, on last_x_api_scan_at.
abbrev pub is_free : ℕ → ℕ → Option ℕ → Bool
is_free hours now none = true
is_free hours now (some last) = leb (last + window_ms hours) now

-- claimDailyScanSlot: the column after it, and whether the claim was granted.
unfoldable pub claim_daily_scan_slot : ℕ → ℕ → Option ℕ → Option ℕ × Bool
claim_daily_scan_slot hours now last =
    if is_free hours now last then (some now, true) else (last, false)

-- What a scan comes to: it ends, also with an error that it has handled, or it throws.
pub data Scan : Type 0 where
  ended threw : Scan

abbrev pub release : Scan → Option ℕ → Option ℕ → Option ℕ
release ended prior last = last
release threw prior last = prior

abbrev pub finish_recheck : Scan → Option ℕ → Option ℕ × Bool → Option ℕ × Bool
finish_recheck scan prior (last, true) = (release scan prior last, true)
finish_recheck scan prior (last, false) = (last, false)

-- The steps of requestManualRecheck on the slot, and whether X was asked.
unfoldable pub request_manual_recheck : ℕ → ℕ → Scan → Option ℕ → Option ℕ × Bool
unfolding claim_daily_scan_slot
request_manual_recheck hours now scan last =
    finish_recheck scan last (claim_daily_scan_slot hours now last)

-- computeNextCheckAllowedAt
unfoldable pub compute_next_check_allowed_at : ℕ → Option ℕ → Option ℕ
compute_next_check_allowed_at hours none = none
compute_next_check_allowed_at hours (some last) = some (last + window_ms hours)
