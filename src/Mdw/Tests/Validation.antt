-- ===== src/Mdw/Tests/Validation.antt =====
-- Runs of the plugins and of the validation: blocks 7 and 8 have changed.
use superhero_api.Base.{ℕ, true, false, none, some, List, [], ◌∷◌, ◌≡◌, refl, ◌==◌, select, All}
use superhero_api.Mdw.Plugins.{
  Tx, Plugin, PluginSyncState, Hub, returned, threw, live, process_batch, handle_reorg,
}
use superhero_api.Mdw.Plugins.Batch.{IsSafe, process_batch-IsSafe}
use superhero_api.Mdw.Validation.{
  Store, start_height, validate_block_transactions, validate_and_refresh_blocks,
}
use superhero_api.Mdw.Validation.Removed.{stays}
use superhero_api.Mdw.Validation.Refreshed.{IsReported, validate_and_refresh_blocks-IsReported}

abbrev tx : ℕ → ℕ → Tx
tx hash height = record { hash = hash; block_height = height; content = 0 }

-- One plugin reports the transaction 12 as failed; the other throws.
abbrev picky : Plugin
picky = record {
  name = 1;
  filters = none ∷ some (λ t. true) ∷ [];
  process_batch = λ txs d. returned (record { tx = tx 12 7; error = 90 } ∷ []);
}

abbrev broken : Plugin
broken = record {
  name = 2;
  filters = some (λ t. t.block_height == 7) ∷ [];
  process_batch = λ txs d. threw 91;
}

abbrev row : ℕ → PluginSyncState
row name = record {
  plugin_name = name;
  version = 3;
  last_synced_height = 5;
  backward_synced_height = none;
  live_synced_height = none;
}

abbrev hub : Hub
hub = record { states = row 1 ∷ row 2 ∷ []; cache = []; failed = []; calls = [] }

abbrev stored : List Tx
stored = tx 10 4 ∷ tx 11 7 ∷ tx 12 7 ∷ tx 13 8 ∷ []

-- Block 7 lost the transaction 11, and block 8 has none.
abbrev fetched : ℕ → List ℕ
fetched h = elim (h == 7) [ true ↦ 12 ∷ [] | false ↦ [] ]

abbrev store : Store
store = record { txs = stored; hub = hub }

refreshed_txs :
    (validate_and_refresh_blocks (picky ∷ broken ∷ []) 3 9 fetched store).txs
    ≡ tx 10 4 ∷ tx 12 7 ∷ []
unfolding validate_and_refresh_blocks validate_block_transactions process_batch handle_reorg
refreshed_txs = refl

validate_and_refresh_blocks-IsReported_example :
    ((validate_and_refresh_blocks (picky ∷ broken ∷ []) 3 9 fetched store).txs
      ≡ select (stays (start_height 3 9) 9 fetched) stored)
    × All
        (IsReported
          (picky ∷ broken ∷ [])
          (stays (start_height 3 9) 9 fetched)
          (validate_and_refresh_blocks (picky ∷ broken ∷ []) 3 9 fetched store).hub)
        stored
validate_and_refresh_blocks-IsReported_example =
    validate_and_refresh_blocks-IsReported (picky ∷ broken ∷ []) 3 9 fetched store

process_batch-IsSafe_example :
    All
      (IsSafe stored live (process_batch (picky ∷ broken ∷ []) stored live hub))
      (picky ∷ broken ∷ [])
process_batch-IsSafe_example =
    process_batch-IsSafe (picky ∷ broken ∷ []) stored live hub (refl, (refl, tt))
