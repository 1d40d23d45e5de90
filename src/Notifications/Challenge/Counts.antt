-- ===== src/Notifications/Challenge/Counts.antt =====
-- How many rows pass a test after an operation on the challenges.
use superhero_api.Base.{
  ==_iff, ℕ, ◌+◌, ◌≤◌, Bool, true, false, not, ◌&&◌, none, List, [], ◌∷◌, ◌≡◌, refl, ap, arith,
  ◌==◌, ltb, if◌then◌else◌, includes, update,
}
use superhero_api.Base.Count.{count, count-append, count-select, count_mono}
use superhero_api.Notifications.Challenge.{
  DeviceChallenge, Settings, has_nonce, is_open, is_prunable, consume, prune_address, issue,
  cleanup_expired,
}

module _ (p : DeviceChallenge → Bool) where
  count-prune_address :
      (address now : ℕ) (rows : List DeviceChallenge)
      → count p (prune_address address now rows) ≤ count p rows
  unfolding prune_address
  count-prune_address address now rows = omega (
    arith,
    count-select p (λ c. not (is_prunable address now c)) rows,
    count_mono (λ c. not (is_prunable address now c) && p c) p (λ c h. ground arith) rows,
  )

  pub count-cleanup_expired :
      (locked : Bool) (now : ℕ) (rows : List DeviceChallenge)
      → count p (cleanup_expired locked now rows) ≤ count p rows
  unfolding cleanup_expired
  count-cleanup_expired false now rows = omega arith
  count-cleanup_expired true now rows = omega (
    arith,
    count-select p (λ c. not (ltb c.expires_at now)) rows,
    count_mono (λ c. not (ltb c.expires_at now) && p c) p (λ c h. ground arith) rows,
  )

  -- A test that the new row fails counts no more rows after an issue.
  pub count-issue :
      (c : Settings) (now nonce address : ℕ) (rows : List DeviceChallenge)
      → ((row : DeviceChallenge) → row.nonce ≡ nonce → p row ≡ false)
      → count p (issue c now nonce address rows).1 ≤ count p rows
  unfolding issue
  count-issue c now nonce address rows h = ground (
    arith,
    count-prune_address address now rows,
    count-append p (prune_address address now rows) (new_row ∷ []),
    h new_row refl,
  )
    where
      new_row : DeviceChallenge
      new_row = record {
        nonce = nonce;
        address = address;
        expires_at = now + c.challenge_ttl_ms;
        consumed_at = none;
      }

-- The update leaves no open row of its nonce, and those of other nonces as they were.
pub count-commit :
    (now m n : ℕ) (rows : List DeviceChallenge)
    → count (is_open n) (update (is_open m) (consume now) rows)
      ≡ (if m == n then 0 else count (is_open n) rows)
count-commit now m n [] = ground arith
count-commit now m n (r ∷ rows) = ground (arith, count-commit now m n rows)

pub count-commit_nonce :
    (now m n : ℕ) (rows : List DeviceChallenge)
    → count (has_nonce n) (update (is_open m) (consume now) rows) ≡ count (has_nonce n) rows
count-commit_nonce now m n [] = refl
count-commit_nonce now m n (r ∷ rows) = ground (arith, count-commit_nonce now m n rows)

pub count-open_eq :
    (m n : ℕ) (rows : List DeviceChallenge)
    → (m == n) ≡ true
    → count (is_open m) rows ≡ count (is_open n) rows
count-open_eq m n rows e = ap (λ k. count (is_open k) rows) ((==_iff m n).0 e)

pub includes_same : (m n : ℕ) (xs : List ℕ) → (m == n) ≡ true → includes m xs ≡ includes n xs
includes_same m n xs e = ap (λ k. includes k xs) ((==_iff m n).0 e)
