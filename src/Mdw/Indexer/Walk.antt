-- ===== src/Mdw/Indexer/Walk.antt =====
-- The whole walk: it leaves no gap, and it comes to its end.
use superhero_api.Base.{
  ℕ, zero, suc, ◌≤◌, ◌<◌, Bool, true, false, ◌&&◌, Option, some, ◌≡◌, ◌≢◌, refl, sym, subst, arith,
  leb,
}
use superhero_api.Base.Int.{ℤ, pos, negsuc}
use superhero_api.Mdw.Indexer.{
  Settings, World, Range, SyncState, Outcome, complete, failed, more, is_positive, sync_round,
  continue_with, sync,
}
use superhero_api.Mdw.Indexer.Ranges.{is_synced}
use superhero_api.Mdw.Indexer.Progress.{
  is_above, IsDown, HasEnded, height_of, sync_round-HasEnded, sync_round-fine,
}

module _ (c : Settings) (some_worker : 0 < c.parallel_workers)
    (some_block : 0 < c.bulk_mode_batch_blocks) (some_fill : 0 < c.backfill_batch_blocks) (top : ℕ)
    (status : ℕ → Option ℕ) (resolves : ℕ → Range → Bool) where
  continue-HasEnded :
      (next : World → World × Outcome) (height : ℕ) (r : World × Outcome)
      → HasEnded top height r
      → ((b : ℤ) (w : World) → IsDown top b w → (b' : ℤ) × IsDown top b' (next w).0)
      → (b : ℤ) × IsDown top b (continue_with next r).0
  continue-HasEnded next height (w, complete) (b, d, e) go = (b, d)
  continue-HasEnded next height (w, failed) (b, d, e) go = (b, d)
  continue-HasEnded next height (w, more) (b, d, e) go = go b w d

  sync-IsDown :
      (fuel : ℕ) (b : ℤ) (w : World)
      → IsDown top b w
      → (b' : ℤ) × IsDown top b' (sync c status resolves fuel w).0
  unfolding sync
  sync-IsDown zero b w d = (b, d)
  sync-IsDown (suc fuel) b w d =
      continue-HasEnded (sync c status resolves fuel) (height_of b)
        (sync_round c (status fuel) (resolves fuel) w)
        (sync_round-HasEnded c some_worker some_block some_fill top (resolves fuel) (status fuel) b
          w d)
        (λ b' w' d'. sync-IsDown fuel b' w' d')

  continue-complete :
      (next : World → World × Outcome) (height : ℕ) (r : World × Outcome)
      → HasEnded top height r
      → r.1 ≢ failed
      → ((b : ℤ) (w : World)
          → IsDown top b w
          → height_of b < height
          → ((next w).1 ≡ complete)
            × (b' : ℤ) × IsDown top b' (next w).0
            × (is_positive b' ≡ false))
      → ((continue_with next r).1 ≡ complete)
        × (b' : ℤ) × IsDown top b' (continue_with next r).0
        × (is_positive b' ≡ false)
  continue-complete next height (w, complete) (b, d, e) fine go = (refl, b, d, e)
  continue-complete next height (w, failed) (b, d, e) fine go = absurd (fine refl)
  continue-complete next height (w, more) (b, d, (m, same, less)) fine go =
      go b w d (ground (arith, same))

  module _ (tips : ℕ → ℕ) (answers : (k : ℕ) → status k ≡ some (tips k))
      (all : (k : ℕ) (r : Range) → resolves k r ≡ true) where
    round-fine :
        (fuel : ℕ) (b : ℤ) (w : World)
        → IsDown top b w
        → (sync_round c (status fuel) (resolves fuel) w).1 ≢ failed
    round-fine fuel b w d =
        subst (λ o. (sync_round c o (resolves fuel) w).1 ≢ failed) (sym (answers fuel))
          (sync_round-fine c some_worker some_block some_fill top (resolves fuel) (tips fuel) b w d
            (all fuel))

    sync-complete :
        (fuel : ℕ) (b : ℤ) (w : World)
        → IsDown top b w
        → height_of b < fuel
        → ((sync c status resolves fuel w).1 ≡ complete)
          × (b' : ℤ) × IsDown top b' (sync c status resolves fuel w).0
          × (is_positive b' ≡ false)
    unfolding sync
    sync-complete zero b w d enough = absurd (omega arith)
    sync-complete (suc fuel) b w d enough =
        continue-complete (sync c status resolves fuel) (height_of b)
          (sync_round c (status fuel) (resolves fuel) w)
          (sync_round-HasEnded c some_worker some_block some_fill top (resolves fuel) (status fuel)
            b w d)
          (round-fine fuel b w d) (λ b' w' d' less. sync-complete fuel b' w' d' (omega arith))

above_low :
    (b : ℤ) (h n : ℕ) → is_positive b ≡ false → 0 < h → h ≤ n → (is_above b h && leb h n) ≡ true
above_low (pos b) h n low lo hi = ground arith
above_low (negsuc b) h n low lo hi = ground arith

-- A marker that stands at its top leaves nothing above it to be synced.
start-IsDown :
    (n : ℕ) (st : SyncState) (w : World)
    → w.state ≡ some st
    → st.backward_synced_height ≡ some (pos n)
    → IsDown n (pos n) w
start-IsDown n st w state marker = record {
  st = st;
  has_state = state;
  marker = marker;
  no_gap = λ h e. ground arith;
}

-- From a marker n, with workers and batches that are not zero, whatever the middleware answers and
-- whichever ranges fail, in every round: the walk ends with a marker such that every height above it,
-- up to n, lies in a range whose sync has resolved. What a sync that resolves stores is not said.
pub sync_no_gap :
    (c : Settings) (status : ℕ → Option ℕ) (resolves : ℕ → Range → Bool) (fuel n : ℕ)
    (st : SyncState) (w : World)
    → 0 < c.parallel_workers
    → 0 < c.bulk_mode_batch_blocks
    → 0 < c.backfill_batch_blocks
    → w.state ≡ some st
    → st.backward_synced_height ≡ some (pos n)
    → (b : ℤ) × IsDown n b (sync c status resolves fuel w).0
sync_no_gap c status resolves fuel n st w workers block fill state marker =
    sync-IsDown c workers block fill n status resolves fuel (pos n) w
      (start-IsDown n st w state marker)

-- If moreover the middleware always answers and every range can be synced, n + 1 rounds complete the
-- walk, and every height from 1 to n has been synced.
pub sync_completes :
    (c : Settings) (tips : ℕ → ℕ) (n : ℕ) (st : SyncState) (w : World)
    → 0 < c.parallel_workers
    → 0 < c.bulk_mode_batch_blocks
    → 0 < c.backfill_batch_blocks
    → w.state ≡ some st
    → st.backward_synced_height ≡ some (pos n)
    → let r = sync c (λ k. some (tips k)) (λ k r. true) (suc n) w in
      (r.1 ≡ complete) × ((h : ℕ) → 0 < h → h ≤ n → is_synced h r.0 ≡ true)
sync_completes c tips n st w workers block fill state marker =
    let (done, b, d, low) =
      sync-complete c workers block fill n (λ k. some (tips k)) (λ k r. true) tips (λ k. refl)
        (λ k r. refl) (suc n) (pos n) w (start-IsDown n st w state marker) (omega arith) in
    (done, λ h lo hi. d.no_gap h (above_low b h n low lo hi))
