-- ===== src/Rewards/Payout/Recovery.antt =====
-- src/profile/services/profile-x-posting-reward.service.ts: the recovery of payouts
-- whose confirmation was not written.
use superhero_api.Base.{
  ℕ, Bool, true, false, ◌&&◌, Option, none, some, List, [], ◌∷◌, ◌==◌, if◌then◌else◌, select,
  update, take,
}
use superhero_api.Rewards.Payout.{
  Settings, LedgerRow, paid, TxHash, in_progress, broadcasted, real, is_unpaid,
  is_pending_confirmation,
}

-- The rows that a recovery asks the chain about.
abbrev pub is_unconfirmed : ℕ → LedgerRow → Bool
is_unconfirmed address r =
    r.address == address && (is_unpaid r.status && is_pending_confirmation r.error)

abbrev pub is_confirmed : (ℕ → Bool) → Option TxHash → Bool
is_confirmed on_chain (some (real h)) = on_chain h
is_confirmed on_chain _ = false

abbrev pub mark_reconciled : LedgerRow → LedgerRow
mark_reconciled r = record r { status = paid; error = none }

abbrev pub hash_eq : Option TxHash → Option TxHash → Bool
hash_eq (some (real g)) (some (real h)) = g == h
hash_eq (some in_progress) (some in_progress) = true
hash_eq (some broadcasted) (some broadcasted) = true
hash_eq none none = true
hash_eq _ _ = false

-- One row of reconcileConfirmationPending: the update is by id and hash.
abbrev pub reconcile_row : (ℕ → Bool) → LedgerRow → List LedgerRow → List LedgerRow
reconcile_row on_chain row rows =
    if is_confirmed on_chain row.tx_hash
    then update (λ r. r.id == row.id && hash_eq r.tx_hash row.tx_hash) mark_reconciled rows
    else rows

abbrev pub reconcile_rows : (ℕ → Bool) → List LedgerRow → List LedgerRow → List LedgerRow
reconcile_rows on_chain [] rows = rows
reconcile_rows on_chain (row ∷ todo) rows =
    reconcile_rows on_chain todo (reconcile_row on_chain row rows)

unfoldable pub reconcile_confirmation_pending :
    Settings → (ℕ → Bool) → ℕ → List LedgerRow → List LedgerRow
reconcile_confirmation_pending c on_chain address rows =
    reconcile_rows on_chain (take c.ledger_batch_size (select (is_unconfirmed address) rows)) rows
