-- ===== src/Mdw/Plugins/Batch.antt =====
-- A batch for all plugins: none of what a plugin could not process is lost.
use superhero_api.Base.{
  ℕ, true, Option, none, some, List, [], ◌∷◌, ◌≡◌, refl, ◌∙◌, arith, is_some, find, lookup, All,
}
use superhero_api.Base.Every.{All-map}
use superhero_api.Mdw.Plugins.{
  Tx, Plugin, Hub, Failure, FailedTransaction, Direction, BatchResult, threw, returned, batch,
  PluginSyncState, run_batch, with_state, cached_state, filter_transactions_for_plugin,
  process_batch_for_plugin, for_plugins, process_batch,
}
use superhero_api.Mdw.Plugins.Parked.{is_parked, IsParked, settle_batch-IsParked}
use superhero_api.Mdw.Plugins.Steps.{
  names, row_known, is_known, outcome, plugin-known, for_plugins-keeps,
}

All-parked {ℓ} :
    {A : Type ℓ} (hash : A → ℕ) (name : ℕ) (failed failed' : List FailedTransaction)
    → ((h : ℕ) → is_parked name h failed ≡ true → is_parked name h failed' ≡ true)
    → (xs : List A) → All (λ x. is_parked name (hash x) failed ≡ true) xs
    → All (λ x. is_parked name (hash x) failed' ≡ true) xs
All-parked hash name failed failed' keep [] h = tt
All-parked hash name failed failed' keep (x ∷ xs) (h, hs) =
    (keep (hash x) h, All-parked hash name failed failed' keep xs hs)

IsParked-keeps :
    (name : ℕ) (txs : List Tx) (r : BatchResult) (failed failed' : List FailedTransaction)
    → ((h : ℕ) → is_parked name h failed ≡ true → is_parked name h failed' ≡ true)
    → IsParked name txs r failed
    → IsParked name txs r failed'
IsParked-keeps name txs (threw e) failed failed' keep h =
    All-parked (λ (t : Tx). t.hash) name failed failed' keep txs h
IsParked-keeps name txs (returned fs) failed failed' keep h =
    All-parked (λ (f : Failure). f.tx.hash) name failed failed' keep fs h

run_batch-IsParked :
    (p : Plugin) (version : ℕ) (d : Direction) (txs : List Tx) (s : Hub)
    → IsParked p.name txs (outcome p d txs) (run_batch p version d txs s).failed
run_batch-IsParked p version d [] s = tt
run_batch-IsParked p version d (t ∷ ts) s =
    settle_batch-IsParked p version d (t ∷ ts) (p.process_batch (t ∷ ts) d)
      (record s { calls = batch p.name (t ∷ ts) d ∷ s.calls })

-- What of a batch a plugin failed on is parked.
abbrev pub IsSafe : List Tx → Direction → Hub → Plugin → Type 0
IsSafe txs d s p =
    IsParked p.name (filter_transactions_for_plugin p txs)
      (outcome p d (filter_transactions_for_plugin p txs)) s.failed

with_state-IsSafe :
    (p : Plugin) (d : Direction) (txs : List Tx) (s : Hub) (o : Option PluginSyncState)
    → is_some o ≡ true
    → IsSafe txs d (with_state p d txs (s, o)) p
with_state-IsSafe p d txs s none e = absurd (ground arith)
with_state-IsSafe p d txs s (some st) e =
    run_batch-IsParked p st.version d (filter_transactions_for_plugin p txs) s

plugin-IsSafe :
    (p : Plugin) (d : Direction) (txs : List Tx) (s : Hub) (o : Option (Option PluginSyncState))
    → row_known o (is_some (find (names p.name) s.states)) ≡ true
    → IsSafe txs d (with_state p d txs (cached_state p.name o s)) p
plugin-IsSafe p d txs s none e =
    with_state-IsSafe p d txs
      (record s { cache = (p.name, find (names p.name) s.states) ∷ s.cache })
      (find (names p.name) s.states) e
plugin-IsSafe p d txs s (some o) e = with_state-IsSafe p d txs s o e

for_plugins-IsSafe :
    (d : Direction) (txs : List Tx) (ps : List Plugin) (s : Hub)
    → All (λ (p : Plugin). is_known p.name s ≡ true) ps
    → All (IsSafe txs d (for_plugins (process_batch_for_plugin d txs) ps s)) ps
for_plugins-IsSafe d txs [] s k = tt
for_plugins-IsSafe d txs (p ∷ ps) s (k, ks) =
    let next = process_batch_for_plugin d txs p s in
    (
      IsParked-keeps p.name (filter_transactions_for_plugin p txs)
          (outcome p d (filter_transactions_for_plugin p txs)) next.failed
          (for_plugins (process_batch_for_plugin d txs) ps next).failed
          (λ h e. for_plugins-keeps p.name h d txs ps next e)
          (plugin-IsSafe p d txs s (lookup p.name s.cache) k),
      for_plugins-IsSafe d txs ps next (
          All-map (λ q. is_known q.name s ≡ true) (λ q. is_known q.name next ≡ true)
            (λ q e. plugin-known q.name d txs p s (lookup p.name s.cache) refl ∙ e) ps ks),
    )

none-IsSafe : (d : Direction) (s : Hub) (ps : List Plugin) → All (IsSafe [] d s) ps
none-IsSafe d s [] = tt
none-IsSafe d s (p ∷ ps) = (tt, none-IsSafe d s ps)

-- Where each plugin's row is in the cache or, if the cache has no entry, in the table, a batch that is
-- handed to all plugins leaves, for each of them, a failed transaction of each transaction that it
-- reports as failed, and if it throws, of each one that it was given: those that its filters accept.
pub process_batch-IsSafe :
    (ps : List Plugin) (txs : List Tx) (d : Direction) (s : Hub)
    → All (λ (p : Plugin). is_known p.name s ≡ true) ps
    → All (IsSafe txs d (process_batch ps txs d s)) ps
unfolding process_batch
process_batch-IsSafe ps [] d s k = none-IsSafe d s ps
process_batch-IsSafe ps (t ∷ ts) d s k = for_plugins-IsSafe d (t ∷ ts) ps s k
