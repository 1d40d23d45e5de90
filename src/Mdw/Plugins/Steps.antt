-- ===== src/Mdw/Plugins/Steps.antt =====
-- What one plugin's batch leaves of the rows and of the failed transactions of others.
use superhero_api.Base.{
  ℕ, Bool, true, Option, none, some, List, [], ◌∷◌, ◌==◌, ==_iff, ◌≡◌, refl, sym, ap, subst, ◌∙◌,
  arith, is_some, find, update, lookup, Bool-cases, inl, inr, if-then, if-else,
}
use superhero_api.Mdw.Plugins.{
  Tx, Plugin, Hub, Direction, backward, live, reorg, BatchResult, threw, returned, batch,
  PluginSyncState, advance, max_height, settle_batch, run_batch, with_state, cached_state,
  filter_transactions_for_plugin, process_batch_for_plugin, for_plugins,
}
use superhero_api.Mdw.Plugins.Parked.{is_parked, park-keeps, park_all-keeps}

abbrev pub names : ℕ → PluginSyncState → Bool
names n r = r.plugin_name == n

abbrev pub row_known : Option (Option PluginSyncState) → Bool → Bool
row_known none b = b
row_known (some o) b = is_some o

-- The plugin has a row, by the cache or else by the table.
abbrev pub is_known : ℕ → Hub → Bool
is_known n s = row_known (lookup n s.cache) (is_some (find (names n) s.states))

-- The batch that a plugin gets, and what comes of it.
abbrev pub outcome : Plugin → Direction → List Tx → BatchResult
outcome p d [] = returned []
outcome p d (t ∷ ts) = p.process_batch (t ∷ ts) d

find-advance :
    (n name h : ℕ) (d : Direction) (rs : List PluginSyncState)
    → is_some (find (names n) (update (λ r. r.plugin_name == name) (advance d h) rs))
      ≡ is_some (find (names n) rs)
find-advance n name h d [] = refl
find-advance n name h backward (r ∷ rs) = ground (arith, find-advance n name h backward rs)
find-advance n name h live (r ∷ rs) = ground (arith, find-advance n name h live rs)
find-advance n name h reorg (r ∷ rs) = ground (arith, find-advance n name h reorg rs)

module _ (n : ℕ) where
  settle_batch-known :
      (p : Plugin) (version : ℕ) (d : Direction) (txs : List Tx) (r : BatchResult) (s : Hub)
      → is_known n (settle_batch p version d txs r s) ≡ is_known n s
  settle_batch-known p version d txs (threw e) s = refl
  settle_batch-known p version d txs (returned fs) s =
      ap (row_known (lookup n s.cache)) (find-advance n p.name (max_height txs) d s.states)

  run_batch-known :
      (p : Plugin) (version : ℕ) (d : Direction) (txs : List Tx) (s : Hub)
      → is_known n (run_batch p version d txs s) ≡ is_known n s
  run_batch-known p version d [] s = refl
  run_batch-known p version d (t ∷ ts) s =
      settle_batch-known p version d (t ∷ ts) (p.process_batch (t ∷ ts) d)
        (record s { calls = batch p.name (t ∷ ts) d ∷ s.calls })

  with_state-known :
      (p : Plugin) (d : Direction) (txs : List Tx) (s : Hub) (o : Option PluginSyncState)
      → is_known n (with_state p d txs (s, o)) ≡ is_known n s
  with_state-known p d txs s none = refl
  with_state-known p d txs s (some st) =
      run_batch-known p st.version d (filter_transactions_for_plugin p txs) s

  remembered_known :
      (name : ℕ) (s : Hub)
      → lookup name s.cache ≡ none
      → is_known n (record s { cache = (name, find (names name) s.states) ∷ s.cache })
        ≡ is_known n s
  remembered_known name s e = elim (Bool-cases (name == n)) [
    | inl same ↦
        let b = is_some (find (names name) s.states) in
        subst
          (λ z.
            is_known z (record s { cache = (name, find (names name) s.states) ∷ s.cache })
            ≡ is_known z s)
          ((==_iff name n).0 same)
          (ap (λ o. row_known o b)
              (if-then (some (find (names name) s.states)) (lookup name s.cache) (ground arith))
            ∙ sym (ap (λ o. row_known o b) e))
    | inr apart ↦
        ap (λ o. row_known o (is_some (find (names n) s.states)))
          (if-else (some (find (names name) s.states)) (lookup n s.cache) apart)
  ]

  pub plugin-known :
      (d : Direction) (txs : List Tx) (p : Plugin) (s : Hub) (o : Option (Option PluginSyncState))
      → lookup p.name s.cache ≡ o
      → is_known n (with_state p d txs (cached_state p.name o s)) ≡ is_known n s
  plugin-known d txs p s none e =
      with_state-known p d txs
        (record s { cache = (p.name, find (names p.name) s.states) ∷ s.cache })
        (find (names p.name) s.states)
      ∙ remembered_known p.name s e
  plugin-known d txs p s (some o) e = with_state-known p d txs s o

module _ (n h : ℕ) where
  settle_batch-keeps :
      (p : Plugin) (version : ℕ) (d : Direction) (txs : List Tx) (r : BatchResult) (s : Hub)
      → is_parked n h s.failed ≡ true
      → is_parked n h (settle_batch p version d txs r s).failed ≡ true
  settle_batch-keeps p version d txs (threw e) s k =
      park_all-keeps n h p.name version e txs s.failed k
  settle_batch-keeps p version d txs (returned fs) s k = park-keeps n h p.name version fs s.failed k

  run_batch-keeps :
      (p : Plugin) (version : ℕ) (d : Direction) (txs : List Tx) (s : Hub)
      → is_parked n h s.failed ≡ true
      → is_parked n h (run_batch p version d txs s).failed ≡ true
  run_batch-keeps p version d [] s k = k
  run_batch-keeps p version d (t ∷ ts) s k =
      settle_batch-keeps p version d (t ∷ ts) (p.process_batch (t ∷ ts) d)
        (record s { calls = batch p.name (t ∷ ts) d ∷ s.calls }) k

  with_state-keeps :
      (p : Plugin) (d : Direction) (txs : List Tx) (s : Hub) (o : Option PluginSyncState)
      → is_parked n h s.failed ≡ true
      → is_parked n h (with_state p d txs (s, o)).failed ≡ true
  with_state-keeps p d txs s none k = k
  with_state-keeps p d txs s (some st) k =
      run_batch-keeps p st.version d (filter_transactions_for_plugin p txs) s k

  plugin-keeps :
      (d : Direction) (txs : List Tx) (p : Plugin) (s : Hub) (o : Option (Option PluginSyncState))
      → is_parked n h s.failed ≡ true
      → is_parked n h (with_state p d txs (cached_state p.name o s)).failed ≡ true
  plugin-keeps d txs p s none k =
      with_state-keeps p d txs
        (record s { cache = (p.name, find (names p.name) s.states) ∷ s.cache })
        (find (names p.name) s.states) k
  plugin-keeps d txs p s (some o) k = with_state-keeps p d txs s o k

  pub for_plugins-keeps :
      (d : Direction) (txs : List Tx) (ps : List Plugin) (s : Hub)
      → is_parked n h s.failed ≡ true
      → is_parked n h (for_plugins (process_batch_for_plugin d txs) ps s).failed ≡ true
  for_plugins-keeps d txs [] s k = k
  for_plugins-keeps d txs (p ∷ ps) s k =
      for_plugins-keeps d txs ps (process_batch_for_plugin d txs p s)
        (plugin-keeps d txs p s (lookup p.name s.cache) k)
