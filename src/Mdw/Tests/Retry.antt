-- ===== src/Mdw/Tests/Retry.antt =====
-- Runs of the retries: the version of two plugins has risen from 2 to 3.
use superhero_api.Base.{ℕ, true, false, none, [], ◌∷◌, ◌≡◌, refl, any, All}
use superhero_api.Mdw.Plugins.{Tx, Plugin, PluginSyncState, FailedTransaction, Hub, returned, threw}
use superhero_api.Mdw.Plugins.Retry.{
  retry_failed_transactions, check_and_retry_version_mismatches, retry_failed_transaction,
}
use superhero_api.Mdw.Plugins.Retry.Current.{
  is_behind, is_kept, quiet, check_and_retry_version_mismatches-All,
}

abbrev tx : ℕ → Tx
tx hash = record { hash = hash; block_height = 7; content = 0 }

-- It reports a transaction that fails again, and does not throw.
abbrev picky : Plugin
picky = record {
  name = 1;
  filters = [];
  process_batch = λ txs d. returned (record { tx = tx 12; error = 90 } ∷ []);
}

abbrev broken : Plugin
broken = record { name = 2; filters = []; process_batch = λ txs d. threw 91 }

abbrev row : ℕ → PluginSyncState
row name = record {
  plugin_name = name;
  version = 3;
  last_synced_height = 5;
  backward_synced_height = none;
  live_synced_height = none;
}

abbrev parked : ℕ → ℕ → ℕ → ℕ → FailedTransaction
parked name hash error version = record {
  plugin_name = name;
  tx_hash = hash;
  error_message = error;
  version = version;
}

abbrev hub : Hub
hub = record {
  states = row 1 ∷ row 2 ∷ [];
  cache = [];
  failed = parked 1 12 90 2 ∷ parked 2 11 80 2 ∷ parked 2 13 80 2 ∷ [];
  calls = [];
}

-- The transaction 13 is not stored.
retried_rows :
    (check_and_retry_version_mismatches (picky ∷ broken ∷ []) (tx 11 ∷ tx 12 ∷ []) hub).failed
    ≡ parked 2 11 91 3 ∷ parked 2 13 80 2 ∷ []
unfolding check_and_retry_version_mismatches retry_failed_transactions
retried_rows = refl

single_retry : (retry_failed_transaction (picky ∷ broken ∷ []) (tx 11 ∷ []) 2 11 hub).1 ≡ false
unfolding retry_failed_transaction
single_retry = refl

check_and_retry_version_mismatches-All_example :
    let s' =
      check_and_retry_version_mismatches (picky ∷ broken ∷ []) (tx 11 ∷ tx 12 ∷ []) (quiet hub) in
    All
      (λ (p : Plugin). any (is_behind hub.states (tx 11 ∷ tx 12 ∷ []) p.name) s'.failed ≡ false)
      (picky ∷ broken ∷ [])
    × All (λ f. is_kept s' f ≡ true) hub.failed
check_and_retry_version_mismatches-All_example =
    check_and_retry_version_mismatches-All (picky ∷ broken ∷ []) (tx 11 ∷ tx 12 ∷ []) hub
