-- ===== src/Rooms/Tests/Balances.antt =====
-- Runs of the balance table.
use superhero_api.Base.{true, false, none, some, [], ◌∷◌, ◌≡◌, refl, ◌==◌, ◌||◌, All}
use superhero_api.Base.Pages.{order_by}
use superhero_api.Rooms.Balances.{balance_at, apply_delta, is_community_token, emit_balance_changed}
use superhero_api.Rooms.Balances.Transfers.{
  Tx, transfer, other, Synced, process_transaction, apply_transfer,
}
use superhero_api.Rooms.Balances.Transfers.Settled.{
  ledger_after, announced, process_transaction-Settles,
}
use superhero_api.Rooms.Balances.Transfers.Once.{IsMarked, process_transaction_once}
use superhero_api.Rooms.Balances.Sweep.{run_once}
use superhero_api.Rooms.Balances.Sweep.Healed.{balance_at-run_once}
use superhero_api.Rooms.Tests.{settings, world}

-- Holder 5 sends 30 to holder 6, an event of another kind follows, and 6 sends more than it has.
abbrev payment : Tx
payment = record {
  hash = 70;
  contract_id = 11;
  block_height = some 3;
  log = true;
  decoded = some (
      record { name = transfer; from = 5; to = 6; value = some 30 }
      ∷ record { name = other; from = 5; to = 6; value = some 9 }
      ∷ record { name = transfer; from = 6; to = 8; value = some 50 }
      ∷ []);
  applied = false;
}

abbrev before : Synced
before = record {
  world = record world {
    balances =
        record {
          token_address = 11;
          holder_address = 5;
          balance = 100;
          updated_height = 1;
          last_reconciled_at = none;
        }
        ∷ [];
  };
  allowlist = record { addresses = 11 ∷ []; loaded_at = 0; reloading = false };
  stored = payment ∷ [];
}

payment_received : balance_at 11 8 (process_transaction 60 9 true payment before).0.world ≡ 50
unfolding process_transaction is_community_token apply_transfer apply_delta emit_balance_changed
payment_received = refl

process_transaction-Settles_example :
    (balance_at 11 5 (process_transaction 60 9 true payment before).0.world
      ≡ ledger_after payment before 11 5)
    × ((balance_at 11 5 (process_transaction 60 9 true payment before).0.world
            == balance_at 11 5 before.world
          || announced 11 5 (process_transaction 60 9 true payment before).0.world)
        ≡ true)
process_transaction-Settles_example = process_transaction-Settles 60 9 true payment before 11 5

process_transaction_once_example :
    ((process_transaction 60 10 true
        (process_transaction 60 9 true payment before).1
        before).0.world
      ≡ before.world)
    × All (IsMarked true 70) (process_transaction 60 9 true payment before).0.stored
process_transaction_once_example =
    process_transaction_once 60 9 true payment before 60 10 true before refl

-- The contract knows of 40 for the holder.
balance_at-run_once_example :
    balance_at 11 5 (run_once settings 90 (some 7) (λ t h. some (some 40)) before.world).1 ≡ 40
unfolding order_by
balance_at-run_once_example =
    balance_at-run_once settings 90 (some 7) (λ t h. some (some 40)) before.world 11 5
