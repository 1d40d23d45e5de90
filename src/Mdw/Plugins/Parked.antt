-- ===== src/Mdw/Plugins/Parked.antt =====
-- What a plugin could not process is kept for another try.
use superhero_api.Base.{ℕ, Bool, true, List, [], ◌∷◌, ◌≡◌, refl, arith, any, update, All}
use superhero_api.Mdw.Plugins.{
  Tx, Plugin, Hub, Failure, FailedTransaction, Direction, BatchResult, threw, returned, has_key,
  refail, record_failure, park, park_all, settle_batch,
}

abbrev pub is_parked : ℕ → ℕ → List FailedTransaction → Bool
is_parked name hash failed = any (has_key name hash) failed

any-refail :
    (name hash n h error version : ℕ) (failed : List FailedTransaction)
    → any (has_key name hash) (update (has_key n h) (refail error version) failed)
      ≡ any (has_key name hash) failed
any-refail name hash n h error version [] = refl
any-refail name hash n h error version (f ∷ fs) =
    ground (arith, any-refail name hash n h error version fs)

record_failure-parks :
    (name hash error version : ℕ) (failed : List FailedTransaction)
    → is_parked name hash (record_failure name hash error version failed) ≡ true
record_failure-parks name hash error version failed =
    ground (arith, any-refail name hash name hash error version failed)

module _ (n h : ℕ) where
  record_failure-keeps :
      (name hash error version : ℕ) (failed : List FailedTransaction)
      → is_parked n h failed ≡ true
      → is_parked n h (record_failure name hash error version failed) ≡ true
  record_failure-keeps name hash error version failed e =
      ground (arith, any-refail n h name hash error version failed)

  pub park-keeps :
      (name version : ℕ) (fs : List Failure) (failed : List FailedTransaction)
      → is_parked n h failed ≡ true
      → is_parked n h (park name version fs failed) ≡ true
  park-keeps name version [] failed e = e
  park-keeps name version (f ∷ fs) failed e =
      park-keeps name version fs (record_failure name f.tx.hash f.error version failed)
        (record_failure-keeps name f.tx.hash f.error version failed e)

  pub park_all-keeps :
      (name version error : ℕ) (txs : List Tx) (failed : List FailedTransaction)
      → is_parked n h failed ≡ true
      → is_parked n h (park_all name version error txs failed) ≡ true
  park_all-keeps name version error [] failed e = e
  park_all-keeps name version error (t ∷ ts) failed e =
      park_all-keeps name version error ts (record_failure name t.hash error version failed)
        (record_failure-keeps name t.hash error version failed e)

park-parks :
    (name version : ℕ) (fs : List Failure) (failed : List FailedTransaction)
    → All (λ (f : Failure). is_parked name f.tx.hash (park name version fs failed) ≡ true) fs
park-parks name version [] failed = tt
park-parks name version (f ∷ fs) failed = (
  park-keeps name f.tx.hash name version fs (record_failure name f.tx.hash f.error version failed)
      (record_failure-parks name f.tx.hash f.error version failed),
  park-parks name version fs (record_failure name f.tx.hash f.error version failed),
)

park_all-parks :
    (name version error : ℕ) (txs : List Tx) (failed : List FailedTransaction)
    → All (λ (t : Tx). is_parked name t.hash (park_all name version error txs failed) ≡ true) txs
park_all-parks name version error [] failed = tt
park_all-parks name version error (t ∷ ts) failed = (
  park_all-keeps name t.hash name version error ts (record_failure name t.hash error version failed)
      (record_failure-parks name t.hash error version failed),
  park_all-parks name version error ts (record_failure name t.hash error version failed),
)

-- The parts of a batch's result that failed are parked: all of it if it threw.
abbrev pub IsParked : ℕ → List Tx → BatchResult → List FailedTransaction → Type 0
IsParked name txs (threw error) failed = All (λ (t : Tx). is_parked name t.hash failed ≡ true) txs
IsParked name txs (returned fs) failed =
    All (λ (f : Failure). is_parked name f.tx.hash failed ≡ true) fs

pub settle_batch-IsParked :
    (p : Plugin) (version : ℕ) (d : Direction) (txs : List Tx) (r : BatchResult) (s : Hub)
    → IsParked p.name txs r (settle_batch p version d txs r s).failed
settle_batch-IsParked p version d txs (threw error) s =
    park_all-parks p.name version error txs s.failed
settle_batch-IsParked p version d txs (returned fs) s = park-parks p.name version fs s.failed
