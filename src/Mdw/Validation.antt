-- ===== src/Mdw/Validation.antt =====
-- src/mdw-sync/services/block-validation.service.ts: the last blocks are fetched again, and stored
-- transactions that they no longer have are removed. What was fetched is a parameter: `fetched` has
-- the hashes by height, and the table is what it was after they were stored. The timer, and the guard
-- against a second run, are left out.
pub mod Removed
pub mod Told
pub mod Refreshed
use superhero_api.Base.{
  ℕ, zero, suc, ◌+◌, ◌-◌, Bool, not, ◌&&◌, List, [], ◌∷◌, map, ◌==◌, select, includes, max,
}
use superhero_api.Mdw.Plugins.{Tx, Plugin, Hub, backward, process_batch, handle_reorg}

pub record Store : Type 0 where
  pub txs : List Tx
  pub hub : Hub

abbrev pub hashes : List Tx → List ℕ
hashes txs = map (λ (tx : Tx). tx.hash) txs

abbrev pub at_height : ℕ → Tx → Bool
at_height height tx = tx.block_height == height

abbrev pub is_gone : ℕ → List ℕ → Tx → Bool
is_gone height refetched tx = at_height height tx && not (includes tx.hash refetched)

abbrev pub is_kept : ℕ → List ℕ → Tx → Bool
is_kept height refetched tx = at_height height tx && includes tx.hash refetched

-- A block without transactions: the rows that are found are deleted by their height.
abbrev pub empty_block : List Plugin → ℕ → List Tx → Store → Store
empty_block plugins height [] s = s
empty_block plugins height (tx ∷ txs) s = record {
  txs = select (λ t. not (at_height height t)) s.txs;
  hub = handle_reorg plugins (hashes (tx ∷ txs)) s.hub;
}

-- Otherwise, those with other hashes are deleted by height and hash.
abbrev pub remove_gone : List Plugin → ℕ → List ℕ → Store → Store
remove_gone plugins height [] s = s
remove_gone plugins height (h ∷ hs) s = record {
  txs = select (λ t. not (at_height height t && includes t.hash (h ∷ hs))) s.txs;
  hub = handle_reorg plugins (h ∷ hs) s.hub;
}

abbrev pub process_kept : List Plugin → ℕ → List ℕ → Store → Store
process_kept plugins height refetched s = record s {
  hub = process_batch plugins (select (is_kept height refetched) s.txs) backward s.hub;
}

-- validateBlockTransactions
unfoldable pub validate_block_transactions : List Plugin → ℕ → List ℕ → Store → Store
unfolding handle_reorg process_batch
validate_block_transactions plugins height [] s =
    empty_block plugins height (select (at_height height) s.txs) s
validate_block_transactions plugins height (r ∷ rs) s =
    process_kept plugins height (r ∷ rs)
      (remove_gone plugins height (hashes (select (is_gone height (r ∷ rs)) s.txs)) s)

-- The loop, with the number of heights that are left.
abbrev pub validate_from : List Plugin → (ℕ → List ℕ) → ℕ → ℕ → Store → Store
validate_from plugins fetched zero height s = s
validate_from plugins fetched (suc n) height s =
    validate_from plugins fetched n (height + 1)
      (validate_block_transactions plugins height (fetched height) s)

abbrev pub start_height : ℕ → ℕ → ℕ
start_height depth tip = max 1 (tip - depth)

-- validateAndRefreshBlocks
unfoldable pub validate_and_refresh_blocks : List Plugin → ℕ → ℕ → (ℕ → List ℕ) → Store → Store
unfolding validate_block_transactions
validate_and_refresh_blocks plugins depth tip fetched s =
    validate_from plugins fetched (tip + 1 - start_height depth tip) (start_height depth tip) s
