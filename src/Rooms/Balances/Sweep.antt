-- ===== src/Rooms/Balances/Sweep.antt =====
-- src/token-gated-rooms/services/balance-reconciliation.service.ts: the sweep that compares the
-- balance table with the chain. The contract's answer is a parameter: `none` after a failed read, 0
-- for a holder that the contract does not list. The schedule of the sweep and its counter are left
-- out, and so are database errors.
pub mod Healed
use superhero_api.Base.{
  ℕ, suc, Bool, true, false, Option, none, some, List, [], ◌∷◌, ◌==◌, if◌then◌else◌, or_else, take,
}
use superhero_api.Base.Pages.{each, order_by}
use superhero_api.Rooms.Store.{TokenBalance, World}
use superhero_api.Rooms.Config.{Config}
use superhero_api.Rooms.Balances.{set_authoritative_balance, emit_balance_changed, write_balance}

-- `ORDER BY last_reconciled_at ASC NULLS FIRST`
abbrev pub reconciled_key : TokenBalance → ℕ
reconciled_key b = elim b.last_reconciled_at [ none ↦ 0 | some t ↦ suc t ]

abbrev pub batch_of : Config → World → List TokenBalance
batch_of c w = take c.reconcile_batch_size (order_by reconciled_key w.balances)

-- `decoded` of a read that succeeded: no entry is 0.
abbrev pub read_authoritative_balance : Option (Option ℕ) → Option ℕ
read_authoritative_balance none = none
read_authoritative_balance (some decoded) = some (or_else decoded 0)

abbrev pub with_reconciled : ℕ → TokenBalance → TokenBalance
with_reconciled now b = record b { last_reconciled_at = some now }

abbrev pub correct : ℕ → ℕ → ℕ × World → World × Option ℕ → ℕ × World
correct token holder (corrected, _) (w, none) = (corrected, w)
correct token holder (corrected, _) (w, some _) =
    (suc corrected, emit_balance_changed token holder w)

abbrev pub correct_to : ℕ → ℕ → TokenBalance → Option ℕ → ℕ × World → ℕ × World
correct_to now tip row none (corrected, w) =
    (corrected, write_balance row.token_address row.holder_address (with_reconciled now) w)
correct_to now tip row (some value) (corrected, w) =
    correct row.token_address row.holder_address (corrected, w)
      (set_authoritative_balance row.token_address row.holder_address value
        (if tip == 0 then row.updated_height else tip) now w)

-- The loop's body, for a row as the batch's query read it.
unfoldable pub correct_row :
    ℕ → ℕ → (ℕ → ℕ → Option (Option ℕ)) → ℕ × World → TokenBalance → ℕ × World
correct_row now tip chain s row =
    correct_to now tip row (read_authoritative_balance (chain row.token_address row.holder_address))
      s

-- runOnce: how many rows were corrected, and the world. `tip` is the height that the node gave.
unfoldable pub run_once : Config → ℕ → Option ℕ → (ℕ → ℕ → Option (Option ℕ)) → World → ℕ × World
unfolding correct_row
run_once c now tip chain w = each (correct_row now (or_else tip 0) chain) (0, w) (batch_of c w)
