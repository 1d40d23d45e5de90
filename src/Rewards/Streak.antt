-- ===== src/Rewards/Streak.antt =====
-- src/profile/services/profile-x-posting-reward.service.ts: the streak of days with a post, and the
-- bonus for each full one. A day is its number, from the time of a post in milliseconds.
pub mod Earned
use superhero_api.Base.{
  ℕ, suc, ◌+◌, ◌/◌, Bool, true, false, ◌&&◌, ◌||◌, not, Option, none, some, List, [], ◌∷◌, ◌==◌,
  leb, if◌then◌else◌, dedup, any, map,
}
use superhero_api.Base.Pages.{order_by}

-- The columns of the reward's row that the streak stands in.
pub record Streak : Type 0 where
  pub last_qualifying_post_day : Option ℕ
  pub current_streak_days : ℕ

-- toUtcDay: none for a post without a usable time.
abbrev pub to_utc_day : Option ℕ → Option ℕ
to_utc_day none = none
to_utc_day (some ms) = some (ms / 86_400_000)

abbrev pub days_of : List (Option ℕ) → List ℕ
days_of [] = []
days_of (t ∷ ts) = elim (to_utc_day t) [ none ↦ days_of ts | some d ↦ d ∷ days_of ts ]

-- A length that is no positive number stands for 10.
abbrev pub streak_length : ℕ → ℕ
streak_length n = if n == 0 then 10 else n

abbrev pub count_after : ℕ → Option ℕ → ℕ → Option ℕ
count_after day none streak = some 1
count_after day (some last) streak =
    if leb day last then none else if day == suc last then some (suc streak) else some 1

-- The new count on a day, none if the day is not later than the last.
abbrev pub count_day : ℕ → Streak → Option ℕ
count_day day s = count_after day s.last_qualifying_post_day s.current_streak_days

abbrev pub with_day : ℕ → Streak × List ℕ → Streak × List ℕ
with_day day (s, days) = (s, day ∷ days)

-- The counter starts again after a full streak.
abbrev pub complete : Bool → ℕ → ℕ → (Streak → Streak × List ℕ) → Streak × List ℕ
complete true day streak next =
    with_day day (next (record { last_qualifying_post_day = some day; current_streak_days = 0 }))
complete false day streak next =
    next (record { last_qualifying_post_day = some day; current_streak_days = streak })

abbrev pub reach_day : ℕ → ℕ → Option ℕ → (Streak → Streak × List ℕ) → Streak → Streak × List ℕ
reach_day n day none next s = next s
reach_day n day (some streak) next s = complete (leb n streak) day streak next

-- The loop, with the days on which a streak of length `n` was completed.
abbrev pub advance_days : ℕ → List ℕ → Streak → Streak × List ℕ
advance_days n [] s = (s, [])
advance_days n (day ∷ days) s = reach_day n day (count_day day s) (advance_days n days) s

-- updateStreak
unfoldable pub update_streak : ℕ → List (Option ℕ) → Streak → Streak × List ℕ
update_streak n times s =
    advance_days (streak_length n) (order_by (λ d. d) (dedup (days_of times))) s

pub record BonusRow : Type 0 where
  pub address : ℕ
  pub x_user_id : ℕ
  pub streak_length : ℕ
  pub streak_completed_day : ℕ
  pub amount_aettos : ℕ

abbrev pub bonus_rows : ℕ → ℕ → ℕ → ℕ → List ℕ → List BonusRow
bonus_rows address x_user_id n amount [] = []
bonus_rows address x_user_id n amount (day ∷ days) =
    record {
      address = address;
      x_user_id = x_user_id;
      streak_length = streak_length n;
      streak_completed_day = day;
      amount_aettos = amount;
    }
    ∷ bonus_rows address x_user_id n amount days

-- buildStreakBonusRows: `amount` is none if the setting is invalid or does not convert.
unfoldable pub build_streak_bonus_rows : Bool → ℕ → ℕ → Option ℕ → Option ℕ → List ℕ → List BonusRow
build_streak_bonus_rows true address n (some amount) (some x_user_id) days =
    bonus_rows address x_user_id n amount days
build_streak_bonus_rows true address n (some amount) none days = []
build_streak_bonus_rows true address n none x_user_id days = []
build_streak_bonus_rows false address n amount x_user_id days = []

-- The insert that ignores a row with the identity and day of another.
abbrev pub is_recorded : BonusRow → BonusRow → Bool
is_recorded b r = r.x_user_id == b.x_user_id && r.streak_completed_day == b.streak_completed_day

abbrev pub insert_bonus_rows : List BonusRow → List BonusRow → List BonusRow
insert_bonus_rows [] rows = rows
insert_bonus_rows (b ∷ bs) rows =
    insert_bonus_rows bs (if any (is_recorded b) rows then rows else b ∷ rows)
