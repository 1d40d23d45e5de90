-- ===== src/Mdw/Tests.antt =====
-- Runs of the walk.
mod Validation
mod Retry
use superhero_api.Base.{ℕ, Bool, true, false, some, [], ◌≡◌, ◌≤◌, ◌<◌, refl, arith, ◌==◌, not}
use superhero_api.Base.Int.{ℤ, pos}
use superhero_api.Mdw.Indexer.{
  Settings, SyncState, World, Range, complete, sync, sync_round, sync_blocks_parallel_backward,
}
use superhero_api.Mdw.Indexer.Ranges.{is_synced}
use superhero_api.Mdw.Indexer.Progress.{IsDown}
use superhero_api.Mdw.Indexer.Walk.{sync_no_gap, sync_completes}

abbrev settings : Settings
settings = record {
  bulk_mode_threshold = 20;
  bulk_mode_batch_blocks = 8;
  backfill_batch_blocks = 5;
  parallel_workers = 2;
}

abbrev at : ℕ → SyncState
at n = record {
  last_synced_height = pos 0;
  tip_height = n;
  is_bulk_mode = false;
  backward_synced_height = some (pos n);
  live_synced_height = pos 0;
}

abbrev fresh : ℕ → World
fresh n = record { state = some (at n); synced = []; emitted = [] }

-- The sync of the range that begins at 11 throws.
abbrev flaky : ℕ → Range → Bool
flaky k r = not (r.start == 11)

sync_no_gap_example : (b : ℤ) × IsDown 30 b (sync settings (λ k. some 30) flaky 9 (fresh 30)).0
sync_no_gap_example =
    sync_no_gap settings (λ k. some 30) flaky 9 30 (at 30) (fresh 30) (ground arith) (ground arith)
      (ground arith) refl refl

sync_completes_example :
    ((sync settings (λ k. some 10) (λ k r. true) 11 (fresh 10)).1 ≡ complete)
    × ((h : ℕ)
        → 0 < h
        → h ≤ 10
        → is_synced h (sync settings (λ k. some 10) (λ k r. true) 11 (fresh 10)).0 ≡ true)
sync_completes_example =
    sync_completes settings (λ k. 10) 10 (at 10) (fresh 10) (ground arith) (ground arith)
      (ground arith) refl refl

-- Where the walk comes to 0 from 1, the block at 0 is never asked for.
genesis_missed : is_synced 0 (sync settings (λ k. some 10) (λ k r. true) 11 (fresh 10)).0 ≡ false
unfolding sync sync_round sync_blocks_parallel_backward
genesis_missed = refl

genesis_synced : is_synced 0 (sync settings (λ k. some 9) (λ k r. true) 10 (fresh 9)).0 ≡ true
unfolding sync sync_round sync_blocks_parallel_backward
genesis_synced = refl
