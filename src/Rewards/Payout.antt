-- ===== src/Rewards/Payout.antt =====
-- src/profile/services/profile-x-posting-reward.service.ts: the ledger of rewards for posts, and how its
-- rows are paid. What the SDK, the middleware and the database answer in an attempt is a parameter,
-- with one thing that the code cannot see: whether the transfer reached the chain. An amount is none
-- if it is no text of digits. The days of tweets are numbered; texts are numbers, as elsewhere.
pub mod Drain
pub mod Recovery
pub mod Entry
pub mod Counts
pub mod System
pub mod Sound
pub mod Once
pub mod Runs
pub mod Delay
use superhero_api.Base.{
  ℕ, zero, suc, ◌+◌, ◌-◌, ◌*◌, ◌^◌, Bool, true, false, not, ◌&&◌, ◌||◌, Option, none, some, List,
  [], ◌∷◌, ◌==◌, leb, if◌then◌else◌, opt_eq, is_some, select, any, update, take, length, min, max,
  ltb,
}

pub data Status : Type 0 where
  pending paid failed skipped : Status

-- A hash of the chain, the mark of a payout in progress, or that of one whose hash was not given.
pub data TxHash : Type 0 where
  in_progress broadcasted : TxHash
  real : ℕ → TxHash

pub data PayError : Type 0 where
  invalid_amount payout_confirmation_pending payout_send_failed : PayError

-- The columns that record how the tweet earned the amount are left out.
pub record LedgerRow : Type 0 where
  pub id : ℕ
  pub address : ℕ
  pub x_user_id : ℕ
  pub tweet_id : ℕ
  pub tweet_utc_day : Option ℕ
  pub amount_aettos : Option ℕ
  pub tx_hash : Option TxHash
  pub status : Status
  pub error : Option PayError
  pub retry_count : ℕ
  pub next_retry_at : Option ℕ

pub record Settings : Type 0 where
  pub retry_base_seconds : ℕ
  pub retry_max_seconds : ℕ
  pub ledger_batch_size : ℕ
  pub max_ledger_drain_runs : ℕ
  pub per_post_enabled : Bool
  pub has_private_key : Bool

-- A rejected spend: the hash in a timeout's message, and that of the signed transaction, if the error
-- carries one; `landed` says whether the transfer is on its way nevertheless.
pub record SpendError : Type 0 where
  pub timed_out : Bool
  pub message_hash : Option ℕ
  pub raw_hash : Option ℕ
  pub landed : Bool

pub data Outcome : Type 0 where
  sent : Option ℕ → Outcome
  rejected : SpendError → Outcome

-- The answers of one attempt: `on_chain` is false as well if the lookup fails, `paid_saved` and
-- `outcome_saved` say whether the first and the second write after the spend go through.
pub record Answer : Type 0 where
  pub now : ℕ
  pub outcome : Outcome
  pub on_chain : ℕ → Bool
  pub paid_saved : Bool
  pub outcome_saved : Bool

abbrev pub is_pending_confirmation : Option PayError → Bool
is_pending_confirmation (some payout_confirmation_pending) = true
is_pending_confirmation (some payout_send_failed) = false
is_pending_confirmation (some invalid_amount) = false
is_pending_confirmation none = false

-- A setting that is 0 stands for its default.
abbrev pub setting : ℕ → ℕ → ℕ
setting d n = if n == 0 then d else n

-- getRetryDelaySeconds
unfoldable pub get_retry_delay_seconds : Settings → ℕ → ℕ
get_retry_delay_seconds c retry_count =
    let base = max (setting 30 c.retry_base_seconds) 1 in
    min (base * 2 ^ min (retry_count - 1) 10) (max (setting 3600 c.retry_max_seconds) base)

abbrev pub first_hash : SpendError → Option ℕ
first_hash e = if e.timed_out && is_some e.message_hash then e.message_hash else e.raw_hash

abbrev pub trust : Bool → (ℕ → Bool) → Option ℕ → Option ℕ
trust timed_out on_chain none = none
trust timed_out on_chain (some h) =
    if timed_out then some h else if on_chain h then some h else none

-- resolveBroadcastedTxHash
abbrev pub resolve_broadcasted_tx_hash : (ℕ → Bool) → SpendError → Option ℕ
resolve_broadcasted_tx_hash on_chain e = trust e.timed_out on_chain (first_hash e)

abbrev pub is_unpaid : Status → Bool
is_unpaid pending = true
is_unpaid failed = true
is_unpaid paid = false
is_unpaid skipped = false

abbrev pub has_id : ℕ → LedgerRow → Bool
has_id id r = r.id == id

-- The condition of the claim.
abbrev pub is_claimable : ℕ → LedgerRow → Bool
is_claimable id r = r.id == id && (not (is_some r.tx_hash) && is_unpaid r.status)

abbrev pub mark_claimed : LedgerRow → LedgerRow
mark_claimed r = record r { tx_hash = some in_progress; error = none; next_retry_at = none }

abbrev pub real_hash : Option ℕ → Option TxHash
real_hash none = none
real_hash (some h) = some (real h)

abbrev pub mark_paid : Option ℕ → LedgerRow → LedgerRow
mark_paid h r = record r {
  tx_hash = real_hash h;
  status = paid;
  error = none;
  next_retry_at = none;
}

abbrev pub mark_unconfirmed : TxHash → LedgerRow → LedgerRow
mark_unconfirmed h r = record r {
  tx_hash = some h;
  error = some payout_confirmation_pending;
  next_retry_at = none;
}

abbrev pub mark_failed : Settings → ℕ → ℕ → LedgerRow → LedgerRow
mark_failed c now retry_count r = record r {
  tx_hash = none;
  status = failed;
  error = some payout_send_failed;
  retry_count = retry_count;
  next_retry_at = some (now + get_retry_delay_seconds c retry_count * 1000);
}

abbrev pub mark_skipped : LedgerRow → LedgerRow
mark_skipped r = record r { status = skipped; error = some invalid_amount; next_retry_at = none }

-- A write after the spend, and whether it went through: if not, the error leaves the attempt.
abbrev pub write : Bool → ℕ → (LedgerRow → LedgerRow) → List LedgerRow → List LedgerRow × Bool
write saved id f rows = if saved then (update (has_id id) f rows, true) else (rows, false)

abbrev pub placeholder : Option ℕ → TxHash
placeholder none = broadcasted
placeholder (some h) = real h

abbrev pub settle_rejected :
    Settings → Answer → LedgerRow → Option ℕ → List LedgerRow → List LedgerRow × Bool
settle_rejected c a row (some h) rows =
    write a.outcome_saved row.id (mark_unconfirmed (real h)) rows
settle_rejected c a row none rows =
    write a.outcome_saved row.id (mark_failed c a.now (row.retry_count + 1)) rows

-- What follows the spend.
abbrev pub settle : Settings → Answer → LedgerRow → Outcome → List LedgerRow → List LedgerRow × Bool
settle c a row (sent h) rows =
    if a.paid_saved
    then write true row.id (mark_paid h) rows
    else write a.outcome_saved row.id (mark_unconfirmed (placeholder h)) rows
settle c a row (rejected e) rows =
    settle_rejected c a row (resolve_broadcasted_tx_hash a.on_chain e) rows

-- The table, and the ids of the rows whose transfers reached the chain, the newest first.
pub record Ledger : Type 0 where
  pub rows : List LedgerRow
  pub transfers : List ℕ

abbrev pub has_landed : Outcome → Bool
has_landed (sent h) = true
has_landed (rejected e) = e.landed

abbrev pub transfer : ℕ → Outcome → List ℕ → List ℕ
transfer id o transfers = if has_landed o then id ∷ transfers else transfers

abbrev pub has_amount : Option ℕ → Bool
has_amount none = false
has_amount (some n) = not (n == 0)

abbrev pub claim : ℕ → List LedgerRow → List LedgerRow
claim id rows = update (is_claimable id) mark_claimed rows

-- The row has been claimed.
abbrev pub spend_and_settle : Settings → Answer → LedgerRow → Ledger → Ledger × Option Bool
spend_and_settle c a row s =
    let (rows, done) = settle c a row a.outcome s.rows in
    (
      record { rows = rows; transfers = transfer row.id a.outcome s.transfers },
      if done then some true else none,
    )

-- payLedgerRow, on a row that was read before: whether it advanced, none for an error.
unfoldable pub pay_ledger_row : Settings → Answer → LedgerRow → Ledger → Ledger × Option Bool
unfolding get_retry_delay_seconds
pay_ledger_row c a row s =
    if not (has_amount row.amount_aettos)
    then (record s { rows = update (has_id row.id) mark_skipped s.rows }, some true)
    else if any (is_claimable row.id) s.rows
    then spend_and_settle c a row (record s { rows = claim row.id s.rows })
    else (s, some false)
