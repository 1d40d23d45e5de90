-- ===== src/Rooms/Tests/Publishing.antt =====
-- Runs of what surrounds the relay: the attempts, the admins, the shards; and of the
-- handler of a changed balance.
use superhero_api.Base.{
  List, ℕ, ◌%◌, ◌%◌, true, false, ◌||◌, ◌&&◌, Option, none, some, [], ◌∷◌, ◌≡◌, refl, arith, ◌==◌,
  if◌then◌else◌, includes, opt_eq, length, All,
}
use superhero_api.Rooms.Drift.{to_add, to_remove, is_within_reorg_hold}
use superhero_api.Rooms.Drift.Corrected.{IsLacking, IsLeftover, to_add-to_remove}
use superhero_api.Rooms.Config.{is_configured_admin}
use superhero_api.Rooms.Store.{Membership, added, Job}
use superhero_api.Rooms.Nip29.{put_user}
use superhero_api.Rooms.Sync.{new_job}
use superhero_api.Rooms.Tests.{settings, lounge, world, world_ids, fresh_row}
use superhero_api.Rooms.Admins.{
  parse_room_admins, parse_from, to_hex_set, diff_room_admins, normalize_opt, admins, config_error,
}
use superhero_api.Rooms.Admins.Parsed.{Parsed, nonempty, parse_room_admins-Parsed}
use superhero_api.Rooms.Admins.Converge.{apply_diff, diff_room_admins-apply_diff}
use superhero_api.Rooms.Shard.Owner.{below}
use superhero_api.Base.Text.{contains, chars}
use superhero_api.Rooms.Publish.{Reply}
use superhero_api.Rooms.Publish.Answered.{Answered}
use superhero_api.Rooms.Eligibility.Recompute.{on_balance_changed}
use superhero_api.Rooms.Eligibility.Recompute.Frame.{IsSound}
use superhero_api.Rooms.Eligibility.Recompute.Handlers.{IsSettled, on_balance_changed-IsSettled}

-- 13 has no normal form, and 107 has that of 7.
abbrev last_digits : ℕ → Option ℕ
last_digits a = if a == 13 then none else some (a % 100)

parse_runs :
    (parse_room_admins last_digits (7 ∷ 0 ∷ 107 ∷ 8 ∷ []) ≡ admins (7 ∷ 8 ∷ []))
    × (parse_room_admins last_digits (7 ∷ 13 ∷ []) ≡ config_error 13)
unfolding parse_room_admins parse_from
parse_runs = (refl, refl)

parse_room_admins-Parsed_example :
    Parsed last_digits
      (7 ∷ 0 ∷ 107 ∷ 8 ∷ [])
      (to_hex_set last_digits (nonempty (7 ∷ 0 ∷ 107 ∷ 8 ∷ [])))
      (parse_room_admins last_digits (7 ∷ 0 ∷ 107 ∷ 8 ∷ []))
parse_room_admins-Parsed_example = parse_room_admins-Parsed last_digits (7 ∷ 0 ∷ 107 ∷ 8 ∷ [])

diff_room_admins-apply_diff_example :
    includes 99 (
      apply_diff
        (diff_room_admins last_digits (7 ∷ []) (8 ∷ 99 ∷ []) (some 99))
        (to_hex_set last_digits (8 ∷ 99 ∷ [])))
    ≡ (includes 99 (to_hex_set last_digits (7 ∷ []))
        || (includes 99 (to_hex_set last_digits (8 ∷ 99 ∷ []))
            && opt_eq (some 99) (normalize_opt last_digits (some 99))))
diff_room_admins-apply_diff_example =
    diff_room_admins-apply_diff last_digits (7 ∷ []) (8 ∷ 99 ∷ []) (some 99) 99

abbrev job : Job
job = new_job (put_user 1 505 none) 1 1 "membership:membership-add"

abbrev group_gone : Reply
group_gone = record { ok = false; reason = some "error: group not found"; timed_out = false }

finds_reason : contains "error: group not found" "group not found" ≡ true
unfolding contains chars
finds_reason = refl

world-IsSound : IsSound world
world-IsSound = record { ids = world_ids; below = ground arith }

-- Member 6 holds none of the token.
on_balance_changed-IsSettled_example :
    All (IsSettled 6 world (on_balance_changed 11 6 world)) (lounge ∷ [])
on_balance_changed-IsSettled_example =
    on_balance_changed-IsSettled 11 6 world world-IsSound (tt, tt) refl

-- 505 is on the relay though its row is not eligible, and 506 is not though its row is.
abbrev drifted : List Membership
drifted = record (fresh_row 1 5) { eligible = false; relay_state = added } ∷ fresh_row 2 6 ∷ []

drift_runs :
    (to_add (505 ∷ 900 ∷ []) drifted ≡ fresh_row 2 6 ∷ [])
    × (length (to_remove settings (some 40) (505 ∷ 900 ∷ []) drifted) ≡ 1)
unfolding to_add to_remove is_configured_admin is_within_reorg_hold
drift_runs = (refl, refl)

to_add-to_remove_example :
    All (IsLacking (505 ∷ 900 ∷ [])) (to_add (505 ∷ 900 ∷ []) drifted)
    × All
        (IsLeftover settings (some 40) (505 ∷ 900 ∷ []))
        (to_remove settings (some 40) (505 ∷ 900 ∷ []) drifted)
to_add-to_remove_example = to_add-to_remove settings (some 40) (505 ∷ 900 ∷ []) drifted
