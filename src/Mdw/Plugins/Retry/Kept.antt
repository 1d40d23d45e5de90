-- ===== src/Mdw/Plugins/Retry/Kept.antt =====
-- No failed transaction goes unseen: one that is gone was handed to its plugin.
use superhero_api.Base.{
  ℕ, zero, suc, Bool, true, false, ◌&&◌, ◌||◌, Option, none, some, List, [], ◌∷◌, ◌==◌, ==_iff, ◌≡◌,
  refl, ap, arith, includes, take, drop, length, select, find, any, find_satisfies,
}
use superhero_api.Mdw.Plugins.{
  Tx, Plugin, PluginSyncState, Hub, FailedTransaction, BatchResult, threw, returned, backward, Call,
  batch, removed, for_plugins,
}
use superhero_api.Mdw.Plugins.Parked.{is_parked}
use superhero_api.Mdw.Plugins.Retry.{
  hashes, settle_retry, retry_batch, retry_batches, retry_with, is_of_version, tx_hashes,
  retry_found, retry_failed_transactions, retry_versions, old_versions, retry_from, retry_plugin,
}

-- The call hands the transaction to the plugin.
abbrev pub gives : ℕ → ℕ → Call → Bool
gives n h (batch name txs d) = name == n && includes h (hashes txs)
gives n h (removed name hs) = false

abbrev pub was_given : ℕ → ℕ → List Call → Bool
was_given n h calls = any (gives n h) calls

module _ (n h : ℕ) where
  -- The failed transaction is there, or the plugin was given it.
  abbrev IsKept : Hub → Type 0
  IsKept s = (is_parked n h s.failed || was_given n h s.calls) ≡ true

  parked-settle_retry :
      (name version : ℕ) (txs : List Tx) (r : BatchResult) (failed : List FailedTransaction)
      → is_parked n h failed ≡ true
      → (is_parked n h (settle_retry name version txs r failed)
          || name == n && includes h (hashes txs))
        ≡ true
  parked-settle_retry name version txs (threw e) [] k = absurd (ground arith)
  parked-settle_retry name version txs (threw e) (f ∷ fs) k =
      ground (arith, parked-settle_retry name version txs (threw e) fs)
  parked-settle_retry name version txs (returned x) [] k = absurd (ground arith)
  parked-settle_retry name version txs (returned x) (f ∷ fs) k =
      ground (arith, parked-settle_retry name version txs (returned x) fs, includes_hash f)
    where
      includes_hash :
          (f : FailedTransaction)
          → (f.tx_hash == h) ≡ true
          → includes f.tx_hash (hashes txs) ≡ includes h (hashes txs)
      includes_hash f e = ap (λ z. includes z (hashes txs)) ((==_iff f.tx_hash h).0 e)

  batch-IsKept :
      (name : ℕ) (p : Plugin) (version : ℕ) (txs : List Tx) (s : Hub)
      → p.name ≡ name
      → IsKept s
      → IsKept (retry_batch name p version txs s)
  batch-IsKept name p version txs s e k =
      ground (arith, parked-settle_retry name version txs (p.process_batch txs backward) s.failed)

  batches-IsKept :
      (name : ℕ) (p : Plugin) (version fuel : ℕ) (txs : List Tx) (s : Hub)
      → p.name ≡ name
      → IsKept s
      → IsKept (retry_batches name p version fuel txs s)
  batches-IsKept name p version zero txs s e k = k
  batches-IsKept name p version (suc fuel) [] s e k = k
  batches-IsKept name p version (suc fuel) (t ∷ ts) s e k =
      batches-IsKept name p version fuel (drop 100 (t ∷ ts)) _ e
        (batch-IsKept name p version (take 100 (t ∷ ts)) s e k)

  found-IsKept :
      (plugins : List Plugin) (name version : ℕ) (txs : List Tx) (s : Hub) (o : Option Plugin)
      → find (λ (q : Plugin). q.name == name) plugins ≡ o
      → IsKept s
      → IsKept (retry_with name version txs o s)
  found-IsKept plugins name version txs s none e k = k
  found-IsKept plugins name version txs s (some p) e k =
      batches-IsKept name p version (length txs) txs s
        ((==_iff p.name name).0 (find_satisfies (λ (q : Plugin). q.name == name) plugins p e)) k

module _ (n h : ℕ) (plugins : List Plugin) (txs : List Tx) where
  rows-IsKept :
      (name version : ℕ) (fs : List FailedTransaction) (s : Hub)
      → IsKept n h s
      → IsKept n h (retry_found plugins txs name version fs s)
  rows-IsKept name version [] s k = k
  rows-IsKept name version (f ∷ fs) s k =
      found-IsKept n h plugins name version (select (λ t. includes t.hash (tx_hashes (f ∷ fs))) txs)
        s (find (λ q. q.name == name) plugins) refl k

  versions-IsKept :
      (name current : ℕ) (olds : List ℕ) (s : Hub)
      → IsKept n h s
      → IsKept n h (retry_versions plugins txs name current olds s)
  unfolding retry_failed_transactions
  versions-IsKept name current [] s k = k
  versions-IsKept name current (old ∷ olds) s k =
      versions-IsKept name current olds _
        (rows-IsKept name current (select (is_of_version name old) s.failed) s k)

  from-IsKept :
      (name : ℕ) (o : Option PluginSyncState) (s : Hub)
      → IsKept n h s
      → IsKept n h (retry_from plugins txs name o s)
  from-IsKept name none s k = k
  from-IsKept name (some st) s k =
      versions-IsKept name st.version (old_versions name st.version s.failed) s k

  pub retry_plugins-IsKept :
      (ps : List Plugin) (s : Hub)
      → IsKept n h s
      → IsKept n h (for_plugins (retry_plugin plugins txs) ps s)
  retry_plugins-IsKept [] s k = k
  retry_plugins-IsKept (p ∷ ps) s k =
      retry_plugins-IsKept ps (retry_plugin plugins txs p s)
        (from-IsKept p.name (find (λ r. r.plugin_name == p.name) s.states) s k)
