-- ===== src/Mdw/Validation/Told.antt =====
-- The plugins are told of every transaction that a validation removes.
use superhero_api.Base.{
  ℕ, zero, suc, ◌+◌, Bool, true, false, ◌&&◌, Option, none, some, List, [], ◌∷◌, ◌==◌, ◌≡◌, refl,
  ap, ◌∙◌, arith, select, includes, any, find, lookup,
}
use superhero_api.Mdw.Plugins.{
  Tx, Plugin, Hub, Call, batch, removed, Direction, backward, BatchResult, threw, returned,
  PluginSyncState, settle_batch, run_batch, with_state, cached_state,
  filter_transactions_for_plugin, process_batch_for_plugin, for_plugins, process_batch,
  notify_plugin_reorg, handle_reorg,
}
use superhero_api.Mdw.Validation.{
  Store, hashes, at_height, is_kept, empty_block, remove_gone, process_kept,
  validate_block_transactions, validate_from,
}
use superhero_api.Mdw.Validation.Removed.{gone}

abbrev pub is_told : ℕ → ℕ → Call → Bool
is_told name hash (batch n txs d) = false
is_told name hash (removed n hs) = n == name && includes hash hs

abbrev pub told : ℕ → ℕ → Hub → Bool
told name hash s = any (is_told name hash) s.calls

module _ (name hash : ℕ) where
  settle_batch-calls :
      (p : Plugin) (version : ℕ) (d : Direction) (txs : List Tx) (r : BatchResult) (s : Hub)
      → (settle_batch p version d txs r s).calls ≡ s.calls
  settle_batch-calls p version d txs (threw e) s = refl
  settle_batch-calls p version d txs (returned fs) s = refl

  run_batch-told :
      (p : Plugin) (version : ℕ) (d : Direction) (txs : List Tx) (s : Hub)
      → told name hash s ≡ true
      → told name hash (run_batch p version d txs s) ≡ true
  run_batch-told p version d [] s h = h
  run_batch-told p version d (tx ∷ txs) s h =
      ap (any (is_told name hash)) (
        settle_batch-calls p version d (tx ∷ txs) (p.process_batch (tx ∷ txs) d)
          (record s { calls = batch p.name (tx ∷ txs) d ∷ s.calls }))
      ∙ h

  with_state-told :
      (p : Plugin) (d : Direction) (txs : List Tx) (s : Hub) (o : Option PluginSyncState)
      → told name hash s ≡ true
      → told name hash (with_state p d txs (s, o)) ≡ true
  with_state-told p d txs s none h = h
  with_state-told p d txs s (some st) h =
      run_batch-told p st.version d (filter_transactions_for_plugin p txs) s h

  batch-told :
      (d : Direction) (txs : List Tx) (p : Plugin) (s : Hub) (o : Option (Option PluginSyncState))
      → told name hash s ≡ true
      → told name hash (with_state p d txs (cached_state p.name o s)) ≡ true
  batch-told d txs p s none h =
      with_state-told p d txs
        (record s { cache = (p.name, find (λ r. r.plugin_name == p.name) s.states) ∷ s.cache })
        (find (λ r. r.plugin_name == p.name) s.states) h
  batch-told d txs p s (some st) h = with_state-told p d txs s st h

  pub for_plugins-told :
      (step : Plugin → Hub → Hub)
      → ((p : Plugin) (s : Hub) → told name hash s ≡ true → told name hash (step p s) ≡ true)
      → (ps : List Plugin) (s : Hub) → told name hash s ≡ true
      → told name hash (for_plugins step ps s) ≡ true
  for_plugins-told step keep [] s h = h
  for_plugins-told step keep (p ∷ ps) s h = for_plugins-told step keep ps (step p s) (keep p s h)

  pub process_batch-told :
      (ps : List Plugin) (txs : List Tx) (d : Direction) (s : Hub)
      → told name hash s ≡ true
      → told name hash (process_batch ps txs d s) ≡ true
  unfolding process_batch
  process_batch-told ps [] d s h = h
  process_batch-told ps (tx ∷ txs) d s h =
      for_plugins-told (process_batch_for_plugin d (tx ∷ txs))
        (λ p t k. batch-told d (tx ∷ txs) p t (lookup p.name t.cache) k) ps s h

  pub notify-told :
      (hs : List ℕ) (p : Plugin) (s : Hub)
      → told name hash s ≡ true
      → told name hash (notify_plugin_reorg hs p s) ≡ true
  notify-told hs p s h = ground arith

  handle_reorg-told_still :
      (ps : List Plugin) (hs : List ℕ) (s : Hub)
      → told name hash s ≡ true
      → told name hash (handle_reorg ps hs s) ≡ true
  unfolding handle_reorg
  handle_reorg-told_still ps [] s h = h
  handle_reorg-told_still ps (x ∷ hs) s h =
      for_plugins-told (notify_plugin_reorg (x ∷ hs)) (notify-told (x ∷ hs)) ps s h

  block-told :
      (ps : List Plugin) (height : ℕ) (refetched : List ℕ) (s : Store)
      → told name hash s.hub ≡ true
      → told name hash (validate_block_transactions ps height refetched s).hub ≡ true
  unfolding validate_block_transactions
  block-told ps height [] s h = empty_told (select (at_height height) s.txs)
    where
      empty_told : (found : List Tx) → told name hash (empty_block ps height found s).hub ≡ true
      empty_told [] = h
      empty_told (t ∷ ts) = handle_reorg-told_still ps (hashes (t ∷ ts)) s.hub h
  block-told ps height (r ∷ rs) s h = gone_told (gone height (r ∷ rs) s.txs)
    where
      gone_told :
          (hs : List ℕ)
          → told name hash (process_kept ps height (r ∷ rs) (remove_gone ps height hs s)).hub ≡ true
      gone_told [] = process_batch-told ps (select (is_kept height (r ∷ rs)) s.txs) backward s.hub h
      gone_told (x ∷ hs) =
          process_batch-told ps
            (select (is_kept height (r ∷ rs)) (remove_gone ps height (x ∷ hs) s).txs) backward
            (handle_reorg ps (x ∷ hs) s.hub) (handle_reorg-told_still ps (x ∷ hs) s.hub h)

  pub from-told :
      (ps : List Plugin) (fetched : ℕ → List ℕ) (n height : ℕ) (s : Store)
      → told name hash s.hub ≡ true
      → told name hash (validate_from ps fetched n height s).hub ≡ true
  from-told ps fetched zero height s h = h
  from-told ps fetched (suc n) height s h =
      from-told ps fetched n (height + 1) (validate_block_transactions ps height (fetched height) s)
        (block-told ps height (fetched height) s h)
