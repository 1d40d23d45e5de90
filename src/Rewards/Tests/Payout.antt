-- ===== src/Rewards/Tests/Payout.antt =====
-- Runs of the payouts of one row.
use superhero_api.Base.{suc, true, false, none, some, [], ◌∷◌, ◌≡◌, ◌≤◌, refl}
use superhero_api.Base.Count.{count}
use superhero_api.Rewards.Payout.{
  Settings, Answer, LedgerRow, SpendError, sent, rejected, get_retry_delay_seconds, in_progress,
}
use superhero_api.Rewards.Payout.Drain.{pay_pending_ledger}
use superhero_api.Rewards.Payout.Entry.{new_row}
use superhero_api.Rewards.Payout.System.{System, Reach, here, next, enters, claims, spends, settles}
use superhero_api.Rewards.Payout.Sound.{empty_system}
use superhero_api.Rewards.Payout.Once.{is_paid_on, paid_once_a_day}
use superhero_api.Rewards.Payout.Runs.{Runs, ledger_of, pay_pending_ledger-Runs}

abbrev settings : Settings
settings = record {
  retry_base_seconds = 30;
  retry_max_seconds = 3600;
  ledger_batch_size = 2;
  max_ledger_drain_runs = 3;
  per_post_enabled = true;
  has_private_key = true;
}

-- The entry of a post of user 9 on day 100, for address 5.
abbrev row : LedgerRow
row = new_row 1 5 9 77 100 1_000

-- A transfer that is under way, of which the error says nothing that the chain confirms.
abbrev lost_reply : SpendError
lost_reply = record { timed_out = false; message_hash = none; raw_hash = some 44; landed = true }

abbrev unseen : Answer
unseen = record {
  now = 50;
  outcome = rejected lost_reply;
  on_chain = λ h. false;
  paid_saved = true;
  outcome_saved = true;
}

abbrev accepted : Answer
accepted = record unseen { outcome = sent (some 45) }

-- The first attempt slips, and the second is paid as well.
abbrev twice : (s : System) × Reach settings empty_system s
twice = (
  _,
  next
      (next
        (next
          (next
            (next (next (next here (enters empty_system 5 9 77 100 1_000)) (claims _ row refl))
              (spends _ row (rejected lost_reply) [] [] refl))
            (settles _ unseen (record { row = row; outcome = rejected lost_reply }) [] [] refl))
          (claims _ row refl))
        (spends _ row (sent (some 45)) [] [] refl))
      (settles _ accepted (record { row = row; outcome = sent (some 45) }) [] [] refl),
)

twice_transfers : (twice.0.transfers ≡ 1 ∷ 1 ∷ []) × (twice.0.slipped ≡ 1 ∷ [])
twice_transfers = (refl, refl)

paid_once_a_day_example :
    count (is_paid_on 9 100 twice.0.rows) twice.0.transfers
    ≤ suc (count (is_paid_on 9 100 twice.0.rows) twice.0.slipped)
paid_once_a_day_example = paid_once_a_day settings twice.0 9 100 twice.1

-- Another attempt has claimed the row 3; the drain pays the row 1 and leaves that one.
abbrev busy : System
busy = record empty_system {
  rows = row ∷ record (new_row 3 5 9 78 101 1_000) { tx_hash = some in_progress } ∷ [];
  next_id = 4;
  waiting = new_row 3 5 9 78 101 1_000 ∷ [];
}

one_paid :
    (pay_pending_ledger settings 5 (λ n. 60) (λ n r. accepted) (ledger_of busy)).0.transfers
    ≡ 1 ∷ []
unfolding pay_pending_ledger get_retry_delay_seconds
one_paid = refl

pay_pending_ledger-Runs_example :
    Runs settings busy
      (pay_pending_ledger settings 5 (λ n. 60) (λ n r. accepted) (ledger_of busy)).0
pay_pending_ledger-Runs_example =
    pay_pending_ledger-Runs settings 5 (λ n. 60) (λ n r. accepted) busy
