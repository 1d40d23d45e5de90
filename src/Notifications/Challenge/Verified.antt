-- ===== src/Notifications/Challenge/Verified.antt =====
-- What one verification answers, and what it leaves in the table.
use superhero_api.Base.{
  ℕ, ◌≤◌, Bool, true, false, not, ◌&&◌, List, [], ◌∷◌, ◌≡◌, refl, sym, arith, ◌==◌, ltb,
  if◌then◌else◌, is_some, find, update, any,
}
use superhero_api.Base.Count.{count}
use superhero_api.Notifications.Challenge.{
  DeviceChallenge, Claim, Result, ok, err, is_ok, has_nonce, is_open, consume, check_found,
  check_claim, commit_claim, commit_checked, verify_with_message,
}

-- A row that the claim may use up: its own challenge, open and not over.
abbrev pub is_usable : ℕ → Claim → DeviceChallenge → Bool
is_usable now c row =
    row.nonce == c.nonce
    && row.address == c.address
    && not (is_some row.consumed_at)
    && not (ltb row.expires_at now)

module _ (now : ℕ) (c : Claim) where
  no-usable :
      (rows : List DeviceChallenge)
      → count (has_nonce c.nonce) rows ≡ 0
      → any (is_usable now c) rows ≡ false
  no-usable [] h = refl
  no-usable (r ∷ rows) h = ground (arith, no-usable rows)

  no-open :
      (rows : List DeviceChallenge)
      → count (has_nonce c.nonce) rows ≡ 0
      → count (is_open c.nonce) rows ≡ 0
  no-open [] h = refl
  no-open (r ∷ rows) h = ground (arith, no-open rows)

  check_found-ok :
      (signed : Bool) (rows : List DeviceChallenge)
      → count (has_nonce c.nonce) rows ≤ 1
      → is_ok (check_found signed now c (find (has_nonce c.nonce) rows))
        ≡ (any (is_usable now c) rows && signed)
  check_found-ok signed [] h = refl
  check_found-ok signed (r ∷ rows) h = ground (arith, check_found-ok signed rows, no-usable rows)

  usable-open :
      (rows : List DeviceChallenge)
      → count (has_nonce c.nonce) rows ≤ 1
      → any (is_usable now c) rows ≡ true
      → count (is_open c.nonce) rows ≡ 1
  usable-open [] h e = cc
  usable-open (r ∷ rows) h e = ground (arith, usable-open rows, no-open rows, no-usable rows)

commit_checked_lem :
    (now : ℕ) (c : Claim) (rows : List DeviceChallenge) (r : Result (Unit {0})) (b : Bool)
    → is_ok r ≡ b
    → (b ≡ true → count (is_open c.nonce) rows ≡ 1)
    → (is_ok (commit_checked r now c rows).0 ≡ b)
      × ((commit_checked r now c rows).1
          ≡ (if b then update (is_open c.nonce) (consume now) rows else rows))
unfolding commit_claim
commit_checked_lem now c rows (err x) b e one = (e, ground arith)
commit_checked_lem now c rows (ok u) b e one = (ground (arith, one (sym e)), ground arith)

-- Where nonces are unique, a verification succeeds exactly for an open challenge of the nonce and the
-- address that is not over, with a valid signature. It then consumes the open challenge of the nonce,
-- and else leaves the table as it was.
pub verify_with_message_lem :
    (verify : ℕ → List ℕ → ℕ → Bool) (now : ℕ) (c : Claim) (rows : List DeviceChallenge)
    → count (has_nonce c.nonce) rows ≤ 1
    → let accepted = any (is_usable now c) rows && verify c.address c.message c.signature in
      (is_ok (verify_with_message verify now c rows).0 ≡ accepted)
      × ((verify_with_message verify now c rows).1
          ≡ (if accepted then update (is_open c.nonce) (consume now) rows else rows))
unfolding verify_with_message check_claim
verify_with_message_lem verify now c rows h =
    commit_checked_lem now c rows (check_claim verify now c rows)
      (any (is_usable now c) rows && verify c.address c.message c.signature)
      (check_found-ok now c (verify c.address c.message c.signature) rows h)
      (λ e. usable-open now c rows h (ground arith))
