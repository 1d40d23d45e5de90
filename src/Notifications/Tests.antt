-- ===== src/Notifications/Tests.antt =====
-- Runs of the challenges.
use superhero_api.Base.{ℕ, Bool, true, none, List, [], ◌∷◌, ◌≡◌, ◌≤◌, refl, arith, All}
use superhero_api.Base.Count.{count}
use superhero_api.Notifications.Message.{codes, feed_session, kind_of, build_message_apart}
use superhero_api.Notifications.Challenge.{
  DeviceChallenge, Settings, Claim, is_ok, consume, check_claim, commit_claim, issue,
  verify_with_message, prune_address,
}
use superhero_api.Notifications.Challenge.Verified.{verify_with_message_lem}
use superhero_api.Notifications.Challenge.System.{
  System, Reach, here, next, issues, checks, commits, claims_nonce,
}
use superhero_api.Notifications.Challenge.Once.{empty_system, accepted_once}

abbrev settings : Settings
settings = record { challenge_max_pending_per_address = 2; challenge_ttl_ms = 1000 }

abbrev fresh : DeviceChallenge
fresh = record { nonce = 7; address = 3; expires_at = 1500; consumed_at = none }

abbrev claim : Claim
claim = record { nonce = 7; address = 3; message = codes "hello"; signature = 5 }

abbrev trusting : ℕ → List ℕ → ℕ → Bool
trusting address message signature = true

verify_with_message_lem_example :
    (is_ok (verify_with_message trusting 900 claim (fresh ∷ [])).0 ≡ true)
    × ((verify_with_message trusting 900 claim (fresh ∷ [])).1 ≡ consume 900 fresh ∷ [])
verify_with_message_lem_example =
    verify_with_message_lem trusting 900 claim (fresh ∷ []) (ground arith)

-- An issue, two checks of one nonce, and then two updates, of which the second one is refused.
abbrev after_issue : System
after_issue = record empty_system { rows = (issue settings 500 7 3 []).1; drawn = 7 ∷ [] }

abbrev after_check : System
after_check = record after_issue { waiting = claim ∷ claim ∷ [] }

abbrev after_first : System
after_first = record after_check {
  rows = (commit_claim 901 claim after_check.rows).1;
  waiting = claim ∷ [];
  accepted = claim ∷ [];
}

abbrev after_second : System
after_second = record after_first {
  rows = (commit_claim 902 claim after_first.rows).1;
  waiting = [];
}

races : Reach settings trusting empty_system after_second
unfolding issue check_claim commit_claim prune_address
races =
    next
      (next
        (next
          (next (next here (issues empty_system 500 7 3 refl)) (checks after_issue 900 claim refl))
          (checks (record after_issue { waiting = claim ∷ [] }) 900 claim refl))
        (commits after_check 901 claim [] (claim ∷ []) refl))
      (commits after_first 902 claim [] [] refl)

accepted_once_example :
    (count (claims_nonce 7) (claim ∷ []) ≤ 1)
    × All (λ (w : Claim). trusting w.address w.message w.signature ≡ true) (claim ∷ [])
accepted_once_example = accepted_once settings trusting after_second 7 races

build_message_apart_example : kind_of feed_session ≡ 3
build_message_apart_example =
    build_message_apart (λ t. t) feed_session feed_session (codes "ak_1") (codes "n1")
      (codes "ak_1") (codes "n1") refl
