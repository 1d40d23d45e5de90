-- ===== src/Mdw/Plugins/Retry/Cleared.antt =====
-- What a retry of one version's failed transactions leaves.
use superhero_api.Base.{
  ℕ, zero, suc, ◌≤◌, Bool, true, false, not, ◌&&◌, ◌||◌, Option, none, some, List, [], ◌∷◌, ◌==◌,
  ◌≡◌, refl, ap, arith, is_some, ==_iff, includes, take, drop, length, select, find, any,
  Bool-cases, inl, inr,
}
use superhero_api.Base.Count.{length-take-drop}
use superhero_api.Mdw.Plugins.{
  Tx, Plugin, Hub, FailedTransaction, BatchResult, threw, returned, backward,
}
use superhero_api.Mdw.Plugins.Retry.{
  hashes, settle_retry, retry_batch, retry_batches, retry_with, is_of_version, tx_hashes,
  retry_found, retry_failed_transactions,
}

-- A failed transaction of a plugin and a version, among those that `q` selects by their hash.
abbrev pub is_old : ℕ → ℕ → (ℕ → Bool) → FailedTransaction → Bool
is_old n w q f = f.plugin_name == n && (f.version == w && q f.tx_hash)

abbrev pub HasNone : ℕ → ℕ → (ℕ → Bool) → List FailedTransaction → Type 0
HasNone n w q failed = any (is_old n w q) failed ≡ false

module _ (n w : ℕ) where
  HasNone-cover :
      (q r o : ℕ → Bool)
      → ((h : ℕ) → o h ≡ true → (q h || r h) ≡ true)
      → (failed : List FailedTransaction) → HasNone n w q failed
      → HasNone n w r failed
      → HasNone n w o failed
  HasNone-cover q r o k [] a b = refl
  HasNone-cover q r o k (f ∷ fs) a b = ground (arith, k f.tx_hash, HasNone-cover q r o k fs)

  -- No batch adds to them, unless it sets their version.
  settle_retry-HasNone :
      (q : ℕ → Bool) (name version : ℕ) (txs : List Tx) (r : BatchResult)
      (failed : List FailedTransaction)
      → (name == n && version == w) ≡ false
      → HasNone n w q failed
      → HasNone n w q (settle_retry name version txs r failed)
  settle_retry-HasNone q name version txs (threw e) [] k h = refl
  settle_retry-HasNone q name version txs (threw e) (f ∷ fs) k h =
      ground (arith, settle_retry-HasNone q name version txs (threw e) fs k)
  settle_retry-HasNone q name version txs (returned x) [] k h = refl
  settle_retry-HasNone q name version txs (returned x) (f ∷ fs) k h =
      ground (arith, settle_retry-HasNone q name version txs (returned x) fs k)

  pub retry_batches-HasNone :
      (q : ℕ → Bool) (name : ℕ) (p : Plugin) (version fuel : ℕ) (txs : List Tx) (s : Hub)
      → (name == n && version == w) ≡ false
      → HasNone n w q s.failed
      → HasNone n w q (retry_batches name p version fuel txs s).failed
  retry_batches-HasNone q name p version zero txs s k h = h
  retry_batches-HasNone q name p version (suc fuel) [] s k h = h
  retry_batches-HasNone q name p version (suc fuel) (t ∷ ts) s k h =
      retry_batches-HasNone q name p version fuel (drop 100 (t ∷ ts))
        (retry_batch name p version (take 100 (t ∷ ts)) s) k
        (settle_retry-HasNone q name version (take 100 (t ∷ ts))
          (p.process_batch (take 100 (t ∷ ts)) backward) s.failed k h)

  settle_retry-clears :
      (version : ℕ) (txs : List Tx) (r : BatchResult) (failed : List FailedTransaction)
      → (version == w) ≡ false
      → HasNone n w (λ h. includes h (hashes txs)) (settle_retry n version txs r failed)
  settle_retry-clears version txs (threw e) [] k = refl
  settle_retry-clears version txs (threw e) (f ∷ fs) k =
      ground (arith, settle_retry-clears version txs (threw e) fs k)
  settle_retry-clears version txs (returned x) [] k = refl
  settle_retry-clears version txs (returned x) (f ∷ fs) k =
      ground (arith, settle_retry-clears version txs (returned x) fs k)

includes-take-drop :
    (h n : ℕ) (txs : List Tx)
    → includes h (hashes txs)
      ≡ (includes h (hashes (take n txs)) || includes h (hashes (drop n txs)))
includes-take-drop h zero txs = refl
includes-take-drop h (suc n) [] = refl
includes-take-drop h (suc n) (t ∷ ts) = ground (arith, includes-take-drop h n ts)

drop_fuel :
    (t : Tx) (ts : List Tx) (fuel : ℕ)
    → length (t ∷ ts) ≤ suc fuel
    → length (drop 100 (t ∷ ts)) ≤ fuel
drop_fuel t ts fuel h = omega (arith, length-take-drop 99 ts)

any_none : (n w : ℕ) (failed : List FailedTransaction) → HasNone n w (λ h. false) failed
any_none n w [] = refl
any_none n w (f ∷ fs) = ground (arith, any_none n w fs)

retry_batches-clears :
    (n w : ℕ) (p : Plugin) (version fuel : ℕ) (txs : List Tx) (s : Hub)
    → (version == w) ≡ false
    → length txs ≤ fuel
    → HasNone n w (λ h. includes h (hashes txs)) (retry_batches n p version fuel txs s).failed
retry_batches-clears n w p version zero [] s k enough = any_none n w s.failed
retry_batches-clears n w p version zero (t ∷ ts) s k enough = absurd (omega arith)
retry_batches-clears n w p version (suc fuel) [] s k enough = any_none n w s.failed
retry_batches-clears n w p version (suc fuel) (t ∷ ts) s k enough =
    let front = take 100 (t ∷ ts) in
    let back = drop 100 (t ∷ ts) in
    let s' = retry_batch n p version front s in
    HasNone-cover n w (λ h. includes h (hashes front)) (λ h. includes h (hashes back))
      (λ h. includes h (hashes (t ∷ ts))) (λ h e. ground (arith, includes-take-drop h 100 (t ∷ ts)))
      (retry_batches n p version fuel back s').failed
      (retry_batches-HasNone n w (λ h. includes h (hashes front)) n p version fuel back s'
        (ground arith)
        (settle_retry-clears n w version front (p.process_batch front backward) s.failed k))
      (retry_batches-clears n w p version fuel back s' k (drop_fuel t ts fuel enough))

-- The rows of a version, without their hashes, are none.
rows_known :
    (n w : ℕ) (failed : List FailedTransaction) (q : ℕ → Bool)
    → ((h : ℕ) → includes h (tx_hashes (select (is_of_version n w) failed)) ≡ true → q h ≡ false)
    → HasNone n w q failed
rows_known n w [] q k = refl
rows_known n w (f ∷ fs) q k =
    ground (arith, k f.tx_hash, rows_known n w fs q (λ h e. k h (ground arith)))

hashes-select :
    (h : ℕ) (q : ℕ → Bool) (txs : List Tx)
    → includes h (hashes (select (λ t. q t.hash) txs)) ≡ (includes h (hashes txs) && q h)
hashes-select h q [] = refl
hashes-select h q (t ∷ ts) = elim (Bool-cases (t.hash == h)) [
  | inl same ↦ ground (arith, hashes-select h q ts, ap q ((==_iff t.hash h).0 same))
  | inr apart ↦ ground (arith, hashes-select h q ts)
]

retry_with-clears :
    (n w version : ℕ) (txs : List Tx) (p : Option Plugin) (s : Hub)
    → (version == w) ≡ false
    → is_some p ≡ true
    → HasNone n w (λ h. includes h (hashes txs)) (retry_with n version txs p s).failed
retry_with-clears n w version txs none s k e = absurd (ground arith)
retry_with-clears n w version txs (some p) s k e =
    retry_batches-clears n w p version (length txs) txs s k (omega arith)

retry_with-HasNone :
    (n w : ℕ) (q : ℕ → Bool) (name version : ℕ) (txs : List Tx) (p : Option Plugin) (s : Hub)
    → (name == n && version == w) ≡ false
    → HasNone n w q s.failed
    → HasNone n w q (retry_with name version txs p s).failed
retry_with-HasNone n w q name version txs none s k h = h
retry_with-HasNone n w q name version txs (some p) s k h =
    retry_batches-HasNone n w q name p version (length txs) txs s k h

retry_found-HasNone :
    (n w : ℕ) (q : ℕ → Bool) (plugins : List Plugin) (txs : List Tx) (name version : ℕ)
    (fs : List FailedTransaction) (s : Hub)
    → (name == n && version == w) ≡ false
    → HasNone n w q s.failed
    → HasNone n w q (retry_found plugins txs name version fs s).failed
retry_found-HasNone n w q plugins txs name version [] s k h = h
retry_found-HasNone n w q plugins txs name version (f ∷ fs) s k h =
    retry_with-HasNone n w q name version (select (λ t. includes t.hash (tx_hashes (f ∷ fs))) txs)
      (find (λ p. p.name == name) plugins) s k h

-- A retry of other plugins, or to another version, adds none.
pub retry_failed_transactions-HasNone :
    (n w : ℕ) (q : ℕ → Bool) (plugins : List Plugin) (txs : List Tx) (name old version : ℕ)
    (s : Hub)
    → (name == n && version == w) ≡ false
    → HasNone n w q s.failed
    → HasNone n w q (retry_failed_transactions plugins txs name old version s).failed
unfolding retry_failed_transactions
retry_failed_transactions-HasNone n w q plugins txs name old version s k h =
    retry_found-HasNone n w q plugins txs name version (select (is_of_version name old) s.failed) s
      k h

retry_found-clears :
    (n w : ℕ) (plugins : List Plugin) (txs : List Tx) (version : ℕ) (fs : List FailedTransaction)
    (s : Hub)
    → (version == w) ≡ false
    → is_some (find (λ (p : Plugin). p.name == n) plugins) ≡ true
    → HasNone n w (λ h. not (includes h (tx_hashes fs))) s.failed
    → HasNone n w (λ h. includes h (hashes txs)) (retry_found plugins txs n version fs s).failed
retry_found-clears n w plugins txs version [] s k e none_else =
    HasNone-cover n w (λ h. true) (λ h. true) (λ h. includes h (hashes txs)) (λ h e. refl) s.failed
      none_else none_else
retry_found-clears n w plugins txs version (f ∷ fs) s k e none_else =
    let found = find (λ (p : Plugin). p.name == n) plugins in
    let known = select (λ (t : Tx). includes t.hash (tx_hashes (f ∷ fs))) txs in
    HasNone-cover n w (λ h. not (includes h (tx_hashes (f ∷ fs)))) (λ h. includes h (hashes known))
      (λ h. includes h (hashes txs))
      (λ h i. ground (arith, hashes-select h (λ a. includes a (tx_hashes (f ∷ fs))) txs))
      (retry_with n version known found s).failed
      (retry_with-HasNone n w (λ h. not (includes h (tx_hashes (f ∷ fs)))) n version known found s
        (ground arith) none_else)
      (retry_with-clears n w version known found s k e)

-- A retry to a later version of a registered plugin leaves no failed transaction of the version
-- before, of those that are stored.
pub retry_failed_transactions-clears :
    (n w : ℕ) (plugins : List Plugin) (txs : List Tx) (version : ℕ) (s : Hub)
    → (version == w) ≡ false
    → is_some (find (λ (p : Plugin). p.name == n) plugins) ≡ true
    → HasNone n w
        (λ h. includes h (hashes txs))
        (retry_failed_transactions plugins txs n w version s).failed
unfolding retry_failed_transactions
retry_failed_transactions-clears n w plugins txs version s k e =
    let rows = select (is_of_version n w) s.failed in
    retry_found-clears n w plugins txs version rows s k e
      (rows_known n w s.failed (λ h. not (includes h (tx_hashes rows))) (λ h i. ground arith))
