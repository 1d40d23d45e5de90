-- ===== src/Rewards/Payout/Entry.antt =====
-- src/profile/services/profile-x-posting-reward.service.ts: the entry of a post
-- into the ledger.
use superhero_api.Base.{
  ℕ, Bool, ◌&&◌, ◌||◌, Option, none, some, List, ◌∷◌, ◌==◌, if◌then◌else◌, opt_eq, any,
}
use superhero_api.Rewards.Payout.{LedgerRow, pending}

-- ledgerPerPost: insert or ignore, with the two unique keys: the user with the tweet, and the user with
-- the day. `amount` is the tier's, if there is one and it converts.
abbrev pub clashes : ℕ → ℕ → ℕ → LedgerRow → Bool
clashes x_user_id tweet_id day r =
    r.x_user_id == x_user_id && (r.tweet_id == tweet_id || opt_eq r.tweet_utc_day (some day))

abbrev pub new_row : ℕ → ℕ → ℕ → ℕ → ℕ → ℕ → LedgerRow
new_row id address x_user_id tweet_id day amount = record {
  id = id;
  address = address;
  x_user_id = x_user_id;
  tweet_id = tweet_id;
  tweet_utc_day = some day;
  amount_aettos = some amount;
  tx_hash = none;
  status = pending;
  error = none;
  retry_count = 0;
  next_retry_at = none;
}

abbrev pub insert_or_ignore : ℕ → ℕ → ℕ → ℕ → ℕ → ℕ → List LedgerRow → List LedgerRow
insert_or_ignore id address x_user_id tweet_id day amount rows =
    if any (clashes x_user_id tweet_id day) rows
    then rows
    else new_row id address x_user_id tweet_id day amount ∷ rows

unfoldable pub ledger_per_post :
    ℕ → ℕ → Option ℕ → ℕ → Option ℕ → Option ℕ → List LedgerRow → List LedgerRow
ledger_per_post id address (some x_user_id) tweet_id (some day) (some amount) rows =
    insert_or_ignore id address x_user_id tweet_id day amount rows
ledger_per_post id address none tweet_id day amount rows = rows
ledger_per_post id address (some x) tweet_id none amount rows = rows
ledger_per_post id address (some x) tweet_id (some day) none rows = rows
