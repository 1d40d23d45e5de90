-- ===== src/Mdw/Plugins/Retry/Current.antt =====
-- After the versions of all plugins have been compared.
use superhero_api.Base.{
  ℕ, zero, suc, Bool, true, false, ◌&&◌, ◌||◌, Option, none, some, List, [], ◌∷◌, map, ◌==◌, ==_iff,
  ltb, ◌≡◌, refl, sym, subst, ap, ◌∙◌, arith, is_some, includes, includes-dedup, select, find, any,
  All, Bool-cases, inl, inr,
}
use superhero_api.Base.Every.{All-map}
use superhero_api.Mdw.Plugins.{Tx, Plugin, PluginSyncState, Hub, FailedTransaction, for_plugins}
use superhero_api.Mdw.Plugins.Steps.{names}
use superhero_api.Mdw.Plugins.Retry.{
  hashes, retry_batches, retry_with, is_of_version, tx_hashes, retry_found,
  retry_failed_transactions, retry_versions, old_versions, retry_from, retry_plugin,
  check_and_retry_version_mismatches,
}
use superhero_api.Mdw.Plugins.Parked.{is_parked}
use superhero_api.Mdw.Plugins.Retry.Kept.{was_given, retry_plugins-IsKept}
use superhero_api.Mdw.Plugins.Retry.Cleared.{
  HasNone, retry_failed_transactions-HasNone, retry_failed_transactions-clears,
}

abbrev pub is_older : Option PluginSyncState → ℕ → Bool
is_older none w = false
is_older (some st) w = ltb w st.version

-- A failed transaction of the plugin that is stored, of a version before that of the plugin's row.
abbrev pub is_behind : List PluginSyncState → List Tx → ℕ → FailedTransaction → Bool
is_behind states txs n f =
    f.plugin_name == n
    && (is_older (find (names n) states) f.version && includes f.tx_hash (hashes txs))

states-batches :
    (name : ℕ) (p : Plugin) (version fuel : ℕ) (txs : List Tx) (s : Hub)
    → (retry_batches name p version fuel txs s).states ≡ s.states
states-batches name p version zero txs s = refl
states-batches name p version (suc fuel) [] s = refl
states-batches name p version (suc fuel) (t ∷ ts) s = states-batches name p version fuel _ _

states-with :
    (name version : ℕ) (txs : List Tx) (p : Option Plugin) (s : Hub)
    → (retry_with name version txs p s).states ≡ s.states
states-with name version txs none s = refl
states-with name version txs (some p) s = states-batches name p version _ txs s

module _ (plugins : List Plugin) (txs : List Tx) where
  states-found :
      (name version : ℕ) (fs : List FailedTransaction) (s : Hub)
      → (retry_found plugins txs name version fs s).states ≡ s.states
  states-found name version [] s = refl
  states-found name version (f ∷ fs) s =
      states-with name version (select (λ t. includes t.hash (tx_hashes (f ∷ fs))) txs)
        (find (λ p. p.name == name) plugins) s

  states-versions :
      (name current : ℕ) (olds : List ℕ) (s : Hub)
      → (retry_versions plugins txs name current olds s).states ≡ s.states
  unfolding retry_failed_transactions
  states-versions name current [] s = refl
  states-versions name current (old ∷ olds) s =
      states-versions name current olds _
      ∙ states-found name current (select (is_of_version name old) s.failed) s

  states-from :
      (name : ℕ) (o : Option PluginSyncState) (s : Hub)
      → (retry_from plugins txs name o s).states ≡ s.states
  states-from name none s = refl
  states-from name (some st) s =
      states-versions name st.version (old_versions name st.version s.failed) s

  -- The failed transactions of a version that are stored.
  abbrev IsClear : ℕ → ℕ → List FailedTransaction → Type 0
  IsClear n w failed = HasNone n w (λ h. includes h (hashes txs)) failed

  versions-keep :
      (n w name current : ℕ) (olds : List ℕ) (s : Hub)
      → (name == n && current == w) ≡ false
      → IsClear n w s.failed
      → IsClear n w (retry_versions plugins txs name current olds s).failed
  versions-keep n w name current [] s k h = h
  versions-keep n w name current (old ∷ olds) s k h = versions-keep n w name current olds _ k (
      retry_failed_transactions-HasNone n w (λ a. includes a (hashes txs)) plugins txs name old
        current s k h)

  versions-IsClear :
      (n w current : ℕ) (olds : List ℕ) (s : Hub)
      → (current == w) ≡ false
      → is_some (find (λ (p : Plugin). p.name == n) plugins) ≡ true
      → includes w olds ≡ true
      → IsClear n w (retry_versions plugins txs n current olds s).failed
  versions-IsClear n w current [] s k e i = absurd (ground arith)
  versions-IsClear n w current (old ∷ olds) s k e i = elim (Bool-cases (old == w)) [
    | inl same ↦
        versions-keep n w n current olds (retry_failed_transactions plugins txs n old current s)
          (ground arith)
          (subst (λ z. IsClear n w (retry_failed_transactions plugins txs n z current s).failed)
            (sym ((==_iff old w).0 same))
            (retry_failed_transactions-clears n w plugins txs current s k e))
    | inr apart ↦
        versions-IsClear n w current olds (retry_failed_transactions plugins txs n old current s) k
          e (ground arith)
  ]

  -- A version that is in none of the groups has no rows.
  no_rows :
      (n w current : ℕ) (q : ℕ → Bool) (failed : List FailedTransaction)
      → ltb w current ≡ true
      → includes w (
          map
            (λ (f : FailedTransaction). f.version)
            (select
              (λ (f : FailedTransaction). f.plugin_name == n && ltb f.version current)
              failed))
        ≡ false
      → HasNone n w q failed
  no_rows n w current q [] l i = refl
  no_rows n w current q (f ∷ fs) l i =
      ground (arith, no_rows n w current q fs l, (==_iff f.version w).0)

  from-IsClear :
      (n w : ℕ) (o : Option PluginSyncState) (s : Hub)
      → is_older o w ≡ true
      → is_some (find (λ (p : Plugin). p.name == n) plugins) ≡ true
      → IsClear n w (retry_from plugins txs n o s).failed
  from-IsClear n w none s l e = absurd (ground arith)
  from-IsClear n w (some st) s l e =
      elim (Bool-cases (includes w (old_versions n st.version s.failed))) [
        | inl among ↦
            versions-IsClear n w st.version (old_versions n st.version s.failed) s (ground arith) e
              among
        | inr missing ↦
            versions-keep n w n st.version (old_versions n st.version s.failed) s (ground arith) (
              no_rows n w st.version (λ h. includes h (hashes txs)) s.failed l
                (sym (includes-dedup w _) ∙ missing))
      ]

  from-keeps :
      (n w name : ℕ) (o : Option PluginSyncState) (s : Hub)
      → ((name == n) ≡ true → is_older o w ≡ true)
      → IsClear n w s.failed
      → IsClear n w (retry_from plugins txs name o s).failed
  from-keeps n w name none s k h = h
  from-keeps n w name (some st) s k h =
      versions-keep n w name st.version (old_versions name st.version s.failed) s
        (ground (arith, k)) h

  all-keep :
      (n w : ℕ) (ps : List Plugin) (states : List PluginSyncState) (s : Hub)
      → s.states ≡ states
      → is_older (find (names n) states) w ≡ true
      → IsClear n w s.failed
      → IsClear n w (for_plugins (retry_plugin plugins txs) ps s).failed
  all-keep n w [] states s e l h = h
  all-keep n w (p ∷ ps) states s e l h =
      all-keep n w ps states (retry_plugin plugins txs p s)
        (states-from p.name (find (names p.name) s.states) s ∙ e) l
        (from-keeps n w p.name (find (names p.name) s.states) s
          (λ same.
            ap (λ z. is_older (find (names p.name) z) w) e
            ∙ ap (λ z. is_older (find (names z) states) w) ((==_iff p.name n).0 same)
            ∙ l)
          h)

  all-IsClear :
      (n w : ℕ) (ps : List Plugin) (states : List PluginSyncState) (s : Hub)
      → s.states ≡ states
      → is_older (find (names n) states) w ≡ true
      → is_some (find (λ (p : Plugin). p.name == n) plugins) ≡ true
      → any (λ (p : Plugin). p.name == n) ps ≡ true
      → IsClear n w (for_plugins (retry_plugin plugins txs) ps s).failed
  all-IsClear n w [] states s e l r a = absurd (ground arith)
  all-IsClear n w (p ∷ ps) states s e l r a =
      let s' = retry_plugin plugins txs p s in
      let e' = states-from p.name (find (names p.name) s.states) s ∙ e in
      elim (Bool-cases (p.name == n)) [
        | inl same ↦ all-keep n w ps states s' e' l (
            subst (λ z. IsClear n w (retry_from plugins txs z (find (names z) s.states) s).failed)
              (sym ((==_iff p.name n).0 same))
              (from-IsClear n w (find (names n) s.states) s
                (ap (λ z. is_older (find (names n) z) w) e ∙ l) r))
        | inr apart ↦ all-IsClear n w ps states s' e' l r (ground arith)
      ]

-- The rows of every version before a plugin's.
behind_none :
    (txs : List Tx) (n : ℕ) (states : List PluginSyncState) (failed : List FailedTransaction)
    → ((w : ℕ)
        → is_older (find (names n) states) w ≡ true
        → HasNone n w (λ h. includes h (hashes txs)) failed)
    → any (is_behind states txs n) failed ≡ false
behind_none txs n states [] k = refl
behind_none txs n states (f ∷ fs) k =
    ground (arith, k f.version, behind_none txs n states fs (λ w e. ground (arith, k w e)))

find_some {ℓ} :
    {A : Type ℓ} (p : A → Bool) (xs : List A) → any p xs ≡ true → is_some (find p xs) ≡ true
find_some p [] e = absurd (ground arith)
find_some p (x ∷ xs) e = ground (arith, find_some p xs)

abbrev is_named : List Plugin → Plugin → Bool
is_named ps q = any (λ (p : Plugin). p.name == q.name) ps

all_named : (ps : List Plugin) → All (λ q. is_named ps q ≡ true) ps
all_named [] = tt
all_named (p ∷ ps) = (
  ground arith,
  All-map (λ q. is_named ps q ≡ true) (λ q. is_named (p ∷ ps) q ≡ true) (λ q e. ground arith) ps
      (all_named ps),
)

all_parked :
    (failed : List FailedTransaction)
    → All (λ (f : FailedTransaction). is_parked f.plugin_name f.tx_hash failed ≡ true) failed
all_parked [] = tt
all_parked (f ∷ fs) = (
  ground arith,
  All-map (λ (g : FailedTransaction). is_parked g.plugin_name g.tx_hash fs ≡ true)
      (λ (g : FailedTransaction). is_parked g.plugin_name g.tx_hash (f ∷ fs) ≡ true)
      (λ g e. ground arith) fs (all_parked fs),
)

-- The calls are noted from here on.
abbrev pub quiet : Hub → Hub
quiet s = record s { calls = [] }

-- The failed transaction is still there, or the plugin was given it.
abbrev pub is_kept : Hub → FailedTransaction → Bool
is_kept s f =
    is_parked f.plugin_name f.tx_hash s.failed || was_given f.plugin_name f.tx_hash s.calls

-- After the comparison of the versions, no stored transaction is left as failed at a version of its
-- plugin that is older than that of the plugin's row, for any registered plugin; and each failed
-- transaction of before is still there, or was handed to its plugin meanwhile.
pub check_and_retry_version_mismatches-All :
    (plugins : List Plugin) (txs : List Tx) (s : Hub)
    → let s' = check_and_retry_version_mismatches plugins txs (quiet s) in
      All (λ (p : Plugin). any (is_behind s.states txs p.name) s'.failed ≡ false) plugins
      × All (λ f. is_kept s' f ≡ true) s.failed
unfolding check_and_retry_version_mismatches
check_and_retry_version_mismatches-All plugins txs s =
    let s' = for_plugins (retry_plugin plugins txs) plugins (quiet s) in
    (
      All-map (λ q. is_named plugins q ≡ true) _
          (λ q e. behind_none txs q.name s.states s'.failed (λ w l.
            all-IsClear plugins txs q.name w plugins s.states (quiet s) refl l
              (find_some (λ (p : Plugin). p.name == q.name) plugins e) e))
          plugins (all_named plugins),
      All-map (λ (f : FailedTransaction). is_parked f.plugin_name f.tx_hash s.failed ≡ true) _
          (λ f k.
            retry_plugins-IsKept f.plugin_name f.tx_hash plugins txs plugins (quiet s)
              (ground arith))
          s.failed (all_parked s.failed),
    )
