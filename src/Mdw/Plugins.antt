-- ===== src/Mdw/Plugins.antt =====
-- src/mdw-sync/services/plugin-batch-processor.service.ts: transactions and reorganisations are handed
-- to each plugin. A plugin is given by its name, its filters and its answers to batches; what else it
-- does with a call, also whether it throws at a reorganisation, is not modelled: the calls are recorded,
-- the newest first. The plugins, which the source runs side by side, run one after another. An error is
-- its message; the stack trace and the answer of the database are left out.
pub mod Parked
pub mod Steps
pub mod Batch
pub mod Retry
use superhero_api.Base.{
  ℕ, Bool, true, false, ◌&&◌, Option, none, some, List, [], ◌∷◌, map, ◌==◌, if◌then◌else◌, select,
  find, any, update, lookup, max,
}

-- The columns that only the plugins read are one number.
pub record Tx : Type 0 where
  pub hash : ℕ
  pub block_height : ℕ
  pub content : ℕ

pub data Direction : Type 0 where
  backward live reorg : Direction

-- A transaction that a plugin could not process, and its error.
pub record Failure : Type 0 where
  pub tx : Tx
  pub error : ℕ

-- What a batch comes to: an error that was thrown, or the failures.
pub data BatchResult : Type 0 where
  threw : ℕ → BatchResult
  returned : List Failure → BatchResult

pub record Plugin : Type 0 where
  pub name : ℕ
  pub filters : List (Option (Tx → Bool))
  pub process_batch : List Tx → Direction → BatchResult

-- The height that a plugin starts from is left out: this service does not read it.
pub record PluginSyncState : Type 0 where
  pub plugin_name : ℕ
  pub version : ℕ
  pub last_synced_height : ℕ
  pub backward_synced_height : Option ℕ
  pub live_synced_height : Option ℕ

pub record FailedTransaction : Type 0 where
  pub plugin_name : ℕ
  pub tx_hash : ℕ
  pub error_message : ℕ
  pub version : ℕ

pub data Call : Type 0 where
  batch : ℕ → List Tx → Direction → Call
  removed : ℕ → List ℕ → Call

-- Two tables, the cache of the first, and the calls.
pub record Hub : Type 0 where
  pub states : List PluginSyncState
  pub cache : List (ℕ × Option PluginSyncState)
  pub failed : List FailedTransaction
  pub calls : List Call

abbrev pub has_key : ℕ → ℕ → FailedTransaction → Bool
has_key name hash f = f.plugin_name == name && f.tx_hash == hash

abbrev pub refail : ℕ → ℕ → FailedTransaction → FailedTransaction
refail error version f = record f { error_message = error; version = version }

-- recordFailure: an upsert by plugin and transaction.
abbrev pub record_failure : ℕ → ℕ → ℕ → ℕ → List FailedTransaction → List FailedTransaction
record_failure name hash error version failed =
    if any (has_key name hash) failed
    then update (has_key name hash) (refail error version) failed
    else record { plugin_name = name; tx_hash = hash; error_message = error; version = version }
      ∷ failed

abbrev pub park : ℕ → ℕ → List Failure → List FailedTransaction → List FailedTransaction
park name version [] failed = failed
park name version (f ∷ fs) failed =
    park name version fs (record_failure name f.tx.hash f.error version failed)

abbrev pub park_all : ℕ → ℕ → ℕ → List Tx → List FailedTransaction → List FailedTransaction
park_all name version error [] failed = failed
park_all name version error (tx ∷ txs) failed =
    park_all name version error txs (record_failure name tx.hash error version failed)

-- getCachedSyncState: the cache keeps what it finds, also that there is no row.
abbrev pub cached_state : ℕ → Option (Option PluginSyncState) → Hub → Hub × Option PluginSyncState
cached_state name (some st) s = (s, st)
cached_state name none s =
    let st = find (λ r. r.plugin_name == name) s.states in
    (record s { cache = (name, st) ∷ s.cache }, st)

abbrev pub get_cached_sync_state : ℕ → Hub → Hub × Option PluginSyncState
get_cached_sync_state name s = cached_state name (lookup name s.cache) s

abbrev pub accepts : Tx → Option (Tx → Bool) → Bool
accepts tx none = false
accepts tx (some predicate) = predicate tx

abbrev pub filter_transactions_for_plugin : Plugin → List Tx → List Tx
filter_transactions_for_plugin p txs = select (λ tx. any (accepts tx) p.filters) txs

abbrev pub max_height : List Tx → ℕ
max_height [] = 0
max_height (tx ∷ txs) = max tx.block_height (max_height txs)

abbrev pub advance : Direction → ℕ → PluginSyncState → PluginSyncState
advance backward h r = record r { last_synced_height = h; backward_synced_height = some h }
advance live h r = record r { last_synced_height = h; live_synced_height = some h }
advance reorg h r = record r { last_synced_height = h }

abbrev pub settle_batch : Plugin → ℕ → Direction → List Tx → BatchResult → Hub → Hub
settle_batch p version direction txs (threw error) s = record s {
  failed = park_all p.name version error txs s.failed;
}
settle_batch p version direction txs (returned failures) s = record s {
  failed = park p.name version failures s.failed;
  states = update (λ r. r.plugin_name == p.name) (advance direction (max_height txs)) s.states;
}

abbrev pub run_batch : Plugin → ℕ → Direction → List Tx → Hub → Hub
run_batch p version direction [] s = s
run_batch p version direction (tx ∷ txs) s =
    settle_batch p version direction (tx ∷ txs) (p.process_batch (tx ∷ txs) direction)
      (record s { calls = batch p.name (tx ∷ txs) direction ∷ s.calls })

abbrev pub with_state : Plugin → Direction → List Tx → Hub × Option PluginSyncState → Hub
with_state p direction txs (s, none) = s
with_state p direction txs (s, some st) =
    run_batch p st.version direction (filter_transactions_for_plugin p txs) s

abbrev pub process_batch_for_plugin : Direction → List Tx → Plugin → Hub → Hub
process_batch_for_plugin direction txs p s =
    with_state p direction txs (get_cached_sync_state p.name s)

abbrev pub for_plugins : (Plugin → Hub → Hub) → List Plugin → Hub → Hub
for_plugins step [] s = s
for_plugins step (p ∷ ps) s = for_plugins step ps (step p s)

-- processBatch
unfoldable pub process_batch : List Plugin → List Tx → Direction → Hub → Hub
process_batch plugins [] direction s = s
process_batch plugins (tx ∷ txs) direction s =
    for_plugins (process_batch_for_plugin direction (tx ∷ txs)) plugins s

abbrev pub notify_plugin_reorg : List ℕ → Plugin → Hub → Hub
notify_plugin_reorg hashes p s = record s { calls = removed p.name hashes ∷ s.calls }

-- handleReorg
unfoldable pub handle_reorg : List Plugin → List ℕ → Hub → Hub
handle_reorg plugins [] s = s
handle_reorg plugins (h ∷ hs) s = for_plugins (notify_plugin_reorg (h ∷ hs)) plugins s
