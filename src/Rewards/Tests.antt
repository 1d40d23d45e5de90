-- ===== src/Rewards/Tests.antt =====
-- Runs of the rewards.
mod Payout
use superhero_api.Base.{
  ℕ, suc, ◌*◌, Bool, true, false, none, some, List, [], ◌∷◌, ◌≡◌, refl, ◌==◌, ◌≤◌, leb, All, arith,
  Option,
}
use superhero_api.Base.Pages.{order_by}
use superhero_api.Rewards.Streak.{Streak, days_of, streak_length, update_streak}
use superhero_api.Rewards.Streak.Earned.{IsEarned, IsStreak, free_after, update_streak-IsEarned}
use superhero_api.Rewards.Slot.{ended, threw, window_ms, request_manual_recheck}
use superhero_api.Rewards.Slot.Spaced.{Request, kept, IsSpaced, kept-IsSpaced}

abbrev day_ms : ℕ
day_ms = 86_400_000

-- Posts on the days 101, 102 and 104, out of order, after a streak of two days that ended on day 100.
abbrev posts : List (Option ℕ)
posts = some (104 * day_ms) ∷ none ∷ some (102 * day_ms) ∷ some (101 * day_ms) ∷ []

abbrev two_days : Streak
two_days = record { last_qualifying_post_day = some 100; current_streak_days = 2 }

abbrev posted : ℕ → Bool
posted d = leb 99 d

third_day : (update_streak 3 posts two_days).1 ≡ 101 ∷ []
unfolding update_streak order_by
third_day = refl

fresh_count : (update_streak 3 posts two_days).0.current_streak_days ≡ 1
unfolding update_streak order_by
fresh_count = refl

update_streak-IsEarned_example :
    IsEarned posted (streak_length 3) 99 (update_streak 3 posts two_days).1
    × IsStreak posted
        (free_after 99 (update_streak 3 posts two_days).1)
        (update_streak 3 posts two_days).0
update_streak-IsEarned_example =
    update_streak-IsEarned posted 3 99 posts two_days (refl, (refl, (refl, tt))) (refl, omega arith)

-- The first scan throws, so the second is let in at once, and the third is not.
abbrev requests : List Request
requests =
    record { now = 1_000; scan = threw }
    ∷ record { now = 2_000; scan = ended }
    ∷ record { now = 3_000; scan = ended }
    ∷ []

second_kept : kept 24 requests none ≡ 2_000 ∷ []
unfolding request_manual_recheck
second_kept = refl

kept-IsSpaced_example : IsSpaced (window_ms 24) none (kept 24 requests none)
kept-IsSpaced_example = kept-IsSpaced 24 requests none
