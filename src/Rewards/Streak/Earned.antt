-- ===== src/Rewards/Streak/Earned.antt =====
-- Which bonuses a scan records: those of full streaks that share no day.
use superhero_api.Base.{
  ℕ, zero, suc, ◌+◌, ◌≤◌, Bool, true, false, ◌&&◌, Option, none, some, List, [], ◌∷◌, ◌≡◌, refl,
  subst, arith, ◌==◌, leb, leb→le, if◌then◌else◌, includes, dedup, dedup_from, All,
}
use superhero_api.Base.Pages.{order_by}
use superhero_api.Base.Pages.Order.{All-order_by}
use superhero_api.Rewards.Streak.{
  Streak, days_of, streak_length, count_after, count_day, complete, reach_day, advance_days,
  update_streak,
}

-- There is a post on the day and on each of the days before it, `n` days in all.
abbrev pub has_run : (ℕ → Bool) → ℕ → ℕ → Bool
has_run posted day zero = true
has_run posted zero (suc n) = posted zero && n == 0
has_run posted (suc day) (suc n) = posted (suc day) && has_run posted day n

abbrev pub EndsOn : (ℕ → Bool) → ℕ → Option ℕ → ℕ → Type 0
EndsOn posted free none streak = free ≡ 0
EndsOn posted free (some last) streak =
    (has_run posted last streak ≡ true) × (free + streak ≤ suc last)

-- The streak ends on the last day, and its days are not before `free`.
abbrev pub IsStreak : (ℕ → Bool) → ℕ → Streak → Type 0
IsStreak posted free s = EndsOn posted free s.last_qualifying_post_day s.current_streak_days

-- Each completed day ends `n` days with a post; the days of one streak end before those of the next
-- begin, and none is before `free`.
abbrev pub IsEarned : (ℕ → Bool) → ℕ → ℕ → List ℕ → Type 0
IsEarned posted n free [] = Unit {0}
IsEarned posted n free (day ∷ days) =
    (has_run posted day n ≡ true) × (free + n ≤ suc day) × IsEarned posted n (suc day) days

-- The first day that no completed streak has used.
abbrev pub free_after : ℕ → List ℕ → ℕ
free_after free [] = free
free_after free (day ∷ days) = free_after (suc day) days

All-dedup_from : (P : ℕ → Type 0) (seen xs : List ℕ) → All P xs → All P (dedup_from seen xs)
All-dedup_from P seen [] h = tt
All-dedup_from P seen (x ∷ xs) (h, hs) =
    let skipped = All-dedup_from P seen xs hs in
    let kept = All-dedup_from P (x ∷ seen) xs hs in
    elim (includes x seen)
      as (λ b. All P (if b then dedup_from seen xs else x ∷ dedup_from (x ∷ seen) xs)) [
        | true ↦ skipped
        | false ↦ (h, kept)
      ]

module _ (posted : ℕ → Bool) where
  has_run_mono : (day m n : ℕ) → m ≤ n → has_run posted day n ≡ true → has_run posted day m ≡ true
  has_run_mono day zero n le h = refl
  has_run_mono day (suc m) zero le h = absurd (omega arith)
  has_run_mono zero (suc m) (suc n) le h = ground arith
  has_run_mono (suc day) (suc m) (suc n) le h = ground (arith, has_run_mono day m n)

  has_run_one : (day : ℕ) → posted day ≡ true → has_run posted day 1 ≡ true
  has_run_one zero h = ground arith
  has_run_one (suc day) h = ground arith

  has_run_next :
      (last n : ℕ) (day : ℕ)
      → day ≡ suc last
      → posted day ≡ true
      → has_run posted last n ≡ true
      → has_run posted day (suc n) ≡ true
  has_run_next last n zero e p h = absurd (omega arith)
  has_run_next last n (suc day) e p h =
      ground (arith, subst (λ k. has_run posted k n ≡ true) (pred_eq last day e) h)
    where
      pred_eq : (a b : ℕ) → suc b ≡ suc a → a ≡ b
      pred_eq a b e = omega arith

  -- What is counted on a day is a streak that ends there.
  count_after-run :
      (free day : ℕ) (last : Option ℕ) (n streak : ℕ)
      → posted day ≡ true
      → EndsOn posted free last n
      → count_after day last n ≡ some streak
      → (has_run posted day streak ≡ true) × (free + streak ≤ suc day)
  count_after-run free day none n streak p h e = ground (arith, has_run_one day)
  count_after-run free day (some last) n streak p h e =
      ground (arith, has_run_one day, has_run_next last n day)

  module _ (n : ℕ) where
    abbrev Holds : ℕ → Streak × List ℕ → Type 0
    Holds free r = IsEarned posted n free r.1 × IsStreak posted (free_after free r.1) r.0

    complete-Holds :
        (free day streak : ℕ) (full : Bool) (next : Streak → Streak × List ℕ)
        → leb n streak ≡ full
        → has_run posted day streak ≡ true
        → free + streak ≤ suc day
        → ((free : ℕ) (t : Streak) → IsStreak posted free t → Holds free (next t))
        → Holds free (complete full day streak next)
    complete-Holds free day streak false next e run later rest =
        rest free (record { last_qualifying_post_day = some day; current_streak_days = streak })
          (run, later)
    complete-Holds free day streak true next e run later rest =
        let after : Streak = record {
          last_qualifying_post_day = some day;
          current_streak_days = 0;
        } in
        let (earned, left) = rest (suc day) after (refl, omega arith) in
        let enough = leb→le n streak e in
        ((has_run_mono day n streak enough run, omega (arith, enough), earned), left)

    reach_day-Holds :
        (free day : ℕ) (s : Streak) (counted : Option ℕ) (next : Streak → Streak × List ℕ)
        → posted day ≡ true
        → IsStreak posted free s
        → count_day day s ≡ counted
        → ((free : ℕ) (t : Streak) → IsStreak posted free t → Holds free (next t))
        → Holds free (reach_day n day counted next s)
    reach_day-Holds free day s none next p h e rest = rest free s h
    reach_day-Holds free day s (some streak) next p h e rest =
        let (run, later) =
          count_after-run free day s.last_qualifying_post_day s.current_streak_days streak p h e in
        complete-Holds free day streak (leb n streak) next refl run later rest

    advance_days-Holds :
        (free : ℕ) (days : List ℕ) (s : Streak)
        → All (λ d. posted d ≡ true) days
        → IsStreak posted free s
        → Holds free (advance_days n days s)
    advance_days-Holds free [] s p h = (tt, h)
    advance_days-Holds free (day ∷ days) s (p, ps) h =
        reach_day-Holds free day s (count_day day s) (advance_days n days) p h refl
          (λ f t k. advance_days-Holds f days t ps k)

-- Where every post's day counts as posted, and the streak so far has used no day before `free`: the
-- completed days each end a full streak of days with a post, no day is used by two of them or before
-- `free`, and the streak that is left uses none that they used.
pub update_streak-IsEarned :
    (posted : ℕ → Bool) (n free : ℕ) (times : List (Option ℕ)) (s : Streak)
    → All (λ d. posted d ≡ true) (days_of times)
    → IsStreak posted free s
    → IsEarned posted (streak_length n) free (update_streak n times s).1
      × IsStreak posted (free_after free (update_streak n times s).1) (update_streak n times s).0
unfolding update_streak
update_streak-IsEarned posted n free times s p h =
    advance_days-Holds posted (streak_length n) free (order_by (λ d. d) (dedup (days_of times))) s
      (All-order_by (λ (d : ℕ). d) (λ d. posted d ≡ true) (dedup (days_of times))
        (All-dedup_from (λ d. posted d ≡ true) [] (days_of times) p))
      h
