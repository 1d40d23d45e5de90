-- ===== src/Mdw/Plugins/Retry.antt =====
-- src/mdw-sync/services/plugin-failed-transaction.service.ts: failed transactions of older versions of
-- a plugin are handed to it again. The stored transactions are an argument; errors of the database,
-- which end a retry, are left out.
pub mod Cleared
pub mod Kept
pub mod Current
use superhero_api.Base.{
  ℕ, zero, suc, Bool, true, false, not, ◌&&◌, Option, none, some, List, [], ◌∷◌, map, ◌==◌, ltb,
  includes, dedup, take, drop, length, select, find, any, update,
}
use superhero_api.Mdw.Plugins.{
  Tx, Plugin, PluginSyncState, Hub, FailedTransaction, BatchResult, threw, returned, backward,
  batch, has_key, refail, for_plugins,
}

abbrev pub hashes : List Tx → List ℕ
hashes txs = map (λ (t : Tx). t.hash) txs

abbrev pub is_of_batch : ℕ → List Tx → FailedTransaction → Bool
is_of_batch name txs f = f.plugin_name == name && includes f.tx_hash (hashes txs)

-- What a plugin's answer does to the rows of a batch.
abbrev pub settle_retry :
    ℕ → ℕ → List Tx → BatchResult → List FailedTransaction → List FailedTransaction
settle_retry name version txs (returned fs) failed =
    select (λ f. not (is_of_batch name txs f)) failed
settle_retry name version txs (threw error) failed =
    update (is_of_batch name txs) (refail error version) failed

abbrev pub retry_batch : ℕ → Plugin → ℕ → List Tx → Hub → Hub
retry_batch name p version txs s = record s {
  calls = batch p.name txs backward ∷ s.calls;
  failed = settle_retry name version txs (p.process_batch txs backward) s.failed;
}

-- The batches of 100, one after another, `n` of them at most.
abbrev pub retry_batches : ℕ → Plugin → ℕ → ℕ → List Tx → Hub → Hub
retry_batches name p version zero txs s = s
retry_batches name p version (suc n) [] s = s
retry_batches name p version (suc n) (t ∷ ts) s =
    retry_batches name p version n (drop 100 (t ∷ ts))
      (retry_batch name p version (take 100 (t ∷ ts)) s)

abbrev pub retry_with : ℕ → ℕ → List Tx → Option Plugin → Hub → Hub
retry_with name version txs none s = s
retry_with name version txs (some p) s = retry_batches name p version (length txs) txs s

abbrev pub is_of_version : ℕ → ℕ → FailedTransaction → Bool
is_of_version name version f = f.plugin_name == name && f.version == version

abbrev pub tx_hashes : List FailedTransaction → List ℕ
tx_hashes fs = map (λ (f : FailedTransaction). f.tx_hash) fs

abbrev pub retry_found : List Plugin → List Tx → ℕ → ℕ → List FailedTransaction → Hub → Hub
retry_found plugins txs name version [] s = s
retry_found plugins txs name version (f ∷ fs) s =
    retry_with name version (select (λ t. includes t.hash (tx_hashes (f ∷ fs))) txs)
      (find (λ p. p.name == name) plugins) s

-- retryFailedTransactions
unfoldable pub retry_failed_transactions : List Plugin → List Tx → ℕ → ℕ → ℕ → Hub → Hub
retry_failed_transactions plugins txs name old_version new_version s =
    retry_found plugins txs name new_version (select (is_of_version name old_version) s.failed) s

abbrev pub retry_versions : List Plugin → List Tx → ℕ → ℕ → List ℕ → Hub → Hub
retry_versions plugins txs name current [] s = s
retry_versions plugins txs name current (old ∷ olds) s =
    retry_versions plugins txs name current olds
      (retry_failed_transactions plugins txs name old current s)

-- The versions of the groups.
abbrev pub old_versions : ℕ → ℕ → List FailedTransaction → List ℕ
old_versions name current failed = dedup (
    map (λ (f : FailedTransaction). f.version)
      (select (λ f. f.plugin_name == name && ltb f.version current) failed))

abbrev pub retry_from : List Plugin → List Tx → ℕ → Option PluginSyncState → Hub → Hub
retry_from plugins txs name none s = s
retry_from plugins txs name (some st) s =
    retry_versions plugins txs name st.version (old_versions name st.version s.failed) s

abbrev pub retry_plugin : List Plugin → List Tx → Plugin → Hub → Hub
retry_plugin plugins txs p s =
    retry_from plugins txs p.name (find (λ r. r.plugin_name == p.name) s.states) s

-- checkAndRetryVersionMismatches
unfoldable pub check_and_retry_version_mismatches : List Plugin → List Tx → Hub → Hub
check_and_retry_version_mismatches plugins txs s = for_plugins (retry_plugin plugins txs) plugins s

-- What a single retry comes to: the new state and whether it went through.
abbrev pub settle_single : ℕ → ℕ → BatchResult → Hub → Hub × Bool
settle_single name hash (threw error) s = (s, false)
settle_single name hash (returned fs) s =
    (record s { failed = select (λ f. not (has_key name hash f)) s.failed }, true)

abbrev pub retry_single : ℕ → ℕ → Option Tx → Option Plugin → Hub → Hub × Bool
retry_single name hash none p s = (s, false)
retry_single name hash (some t) none s = (s, false)
retry_single name hash (some t) (some p) s =
    settle_single name hash (p.process_batch (t ∷ []) backward)
      (record s { calls = batch p.name (t ∷ []) backward ∷ s.calls })

-- retryFailedTransaction
unfoldable pub retry_failed_transaction : List Plugin → List Tx → ℕ → ℕ → Hub → Hub × Bool
retry_failed_transaction plugins txs name hash s = elim (any (has_key name hash) s.failed) [
  | true ↦
      retry_single name hash (find (λ t. t.hash == hash) txs) (find (λ p. p.name == name) plugins) s
  | false ↦ (s, false)
]
