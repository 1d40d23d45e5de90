-- ===== src/Mdw/Indexer.antt =====
-- src/mdw-sync/services/indexer.service.ts: the walk from the tip back to the start of the chain.
-- The middleware's answers are parameters, and so is whether the sync of a range resolves:
-- `status` and `resolves` may differ from round to round, which `fuel` numbers. A height may become -1.
-- The interval that starts the walk again, and the guard against a second walk, are left out.
pub mod Ranges
pub mod Progress
pub mod Walk
use superhero_api.Base.{
  ℕ, zero, suc, ◌+◌, ◌-◌, Bool, true, false, not, ◌&&◌, ◌||◌, Option, none, some, List, [], ◌∷◌,
  ◌++◌, ◌==◌, ltb, leb, if◌then◌else◌, or_else, max, take, drop, length, any,
}
use superhero_api.Base.Int.{ℤ, pos, negsuc}

pub record Settings : Type 0 where
  pub bulk_mode_threshold : ℕ
  pub bulk_mode_batch_blocks : ℕ
  pub backfill_batch_blocks : ℕ
  pub parallel_workers : ℕ

-- The row of the table of sync states.
pub record SyncState : Type 0 where
  pub last_synced_height : ℤ
  pub tip_height : ℕ
  pub is_bulk_mode : Bool
  pub backward_synced_height : Option ℤ
  pub live_synced_height : ℤ

pub data SyncEvent : Type 0 where
  bulk_complete bulk_mode_changed : SyncEvent

pub record Range : Type 0 where
  pub start : ℕ
  pub end : ℕ

-- The sync state, the ranges whose sync has resolved, and the events, newest first.
pub record World : Type 0 where
  pub state : Option SyncState
  pub synced : List Range
  pub emitted : List SyncEvent

abbrev pub bool_eq : Bool → Bool → Bool
bool_eq true true = true
bool_eq false false = true
bool_eq _ _ = false

-- initializeSyncState, with the middleware's tip for a new row.
abbrev pub initial_state : ℕ → Option SyncState → SyncState
initial_state tip none = record {
  last_synced_height = pos 0;
  tip_height = tip;
  is_bulk_mode = false;
  backward_synced_height = some (pos tip);
  live_synced_height = pos 0;
}
initial_state tip (some st) = elim st.backward_synced_height [
  | some b ↦ st
  | none ↦ record st {
    backward_synced_height =
        some (if st.tip_height == 0 then st.last_synced_height else pos st.tip_height);
    live_synced_height = st.last_synced_height;
  }
]

-- A call of BlockSyncService.syncBlockRange, which resolves or throws. It resolves as well if the
-- middleware gives an empty page or a next address that is refused: what it has stored is not said.
abbrev pub sync_range : (Range → Bool) → Range → World → World × Bool
sync_range resolves r w =
    if resolves r then (record w { synced = r ∷ w.synced }, true) else (w, false)

-- The loop that splits a range, from its end down.
abbrev pub split_ranges : ℕ → ℕ → ℕ → ℕ → List Range
split_ranges zero batch start i = []
split_ranges (suc fuel) batch start i =
    let rest = split_ranges fuel batch start (i - batch) in
    let piece : Range = record { start = max start (suc i - batch); end = i } in
    if ltb i start then [] else if ltb i (start + batch) then piece ∷ [] else piece ∷ rest

-- Promise.all over a batch: every range is started, and one that fails makes the whole fail.
abbrev pub both_ok : Bool → World × Bool → World × Bool
both_ok ok (w, rest_ok) = (w, ok && rest_ok)

abbrev pub sync_all : (Range → Bool) → List Range → World → World × Bool
sync_all resolves [] w = (w, true)
sync_all resolves (r ∷ rs) w =
    let (w', ok) = sync_range resolves r w in both_ok ok (sync_all resolves rs w')

abbrev pub unless_failed : World × Bool → (World → World × Bool) → World × Bool
unless_failed (w, false) next = (w, false)
unless_failed (w, true) next = next w

abbrev pub sync_batches : ℕ → ℕ → (Range → Bool) → List Range → World → World × Bool
sync_batches zero workers resolves rs w = (w, true)
sync_batches (suc fuel) workers resolves [] w = (w, true)
sync_batches (suc fuel) workers resolves (r ∷ rs) w =
    unless_failed (sync_all resolves (take workers (r ∷ rs)) w)
      (sync_batches fuel workers resolves (drop workers (r ∷ rs)))

-- syncBlocksParallelBackward
unfoldable pub sync_blocks_parallel_backward :
    Settings → (Range → Bool) → ℕ → ℕ → World → World × Bool
sync_blocks_parallel_backward c resolves start end w =
    let ranges = split_ranges (suc end) c.bulk_mode_batch_blocks start end in
    sync_batches (length ranges) c.parallel_workers resolves ranges w

-- How a round of the walk ends.
pub data Outcome : Type 0 where
  complete failed more : Outcome

abbrev pub with_state : SyncState → World → World
with_state st w = record w { state = some st }

abbrev pub mode_events : Bool → Bool → List SyncEvent → List SyncEvent
mode_events was bulk events =
    if bool_eq was bulk
    then events
    else if was && not bulk
    then bulk_mode_changed ∷ bulk_complete ∷ events
    else bulk_mode_changed ∷ events

abbrev pub below : ℕ → ℤ
below start = if start == 0 then negsuc 0 else pos (start - 1)

abbrev pub is_positive : ℤ → Bool
is_positive (pos n) = ltb 0 n
is_positive (negsuc n) = false

abbrev pub advance : ℕ → SyncState → World × Bool → World × Outcome
advance start st (w, false) = (w, failed)
advance start st (w, true) = (
  with_state
      (record st { backward_synced_height = some (below start); last_synced_height = below start })
      w,
  if is_positive (below start) then more else complete,
)

abbrev pub descend : Settings → (Range → Bool) → Bool → ℕ → ℕ → World → World × Bool
descend c resolves true start end w = sync_blocks_parallel_backward c resolves start end w
descend c resolves false start end w = sync_range resolves (record { start = start; end = end }) w

-- The part of sync below its test for completion, from a height above 0.
abbrev pub sync_down : Settings → (Range → Bool) → SyncState → ℕ → World → World × Outcome
sync_down c resolves st end w =
    let bulk = ltb c.bulk_mode_threshold end in
    let st' = record st { is_bulk_mode = bulk } in
    let batch = if bulk then c.bulk_mode_batch_blocks else c.backfill_batch_blocks in
    let start = suc end - batch in
    advance start st' (
      descend c resolves bulk start end
        (record (with_state st' w) { emitted = mode_events st.is_bulk_mode bulk w.emitted }))

abbrev pub sync_from : Settings → (Range → Bool) → SyncState → ℤ → World → World × Outcome
sync_from c resolves st (negsuc n) w = (with_state st w, complete)
sync_from c resolves st (pos zero) w = (with_state st w, complete)
sync_from c resolves st (pos (suc n)) w = sync_down c resolves st (suc n) w

abbrev pub sync_known :
    Settings → Option ℕ → (Range → Bool) → Option SyncState → World → World × Outcome
sync_known c status resolves none w = (w, complete)
sync_known c none resolves (some st) w = (w, failed)
sync_known c (some tip) resolves (some st) w =
    sync_from c resolves (record st { tip_height = tip })
      (or_else st.backward_synced_height (pos tip)) w

-- One round of sync; `status` is the middleware's tip, if it answers.
unfoldable pub sync_round : Settings → Option ℕ → (Range → Bool) → World → World × Outcome
unfolding sync_blocks_parallel_backward
sync_round c status resolves w = sync_known c status resolves w.state w

abbrev pub continue_with : (World → World × Outcome) → World × Outcome → World × Outcome
continue_with next (w, complete) = (w, complete)
continue_with next (w, failed) = (w, failed)
continue_with next (w, more) = next w

-- sync: rounds until one is the last. Where the fuel is used up it says that there is more.
unfoldable pub sync : Settings → (ℕ → Option ℕ) → (ℕ → Range → Bool) → ℕ → World → World × Outcome
unfolding sync_round
sync c status resolves zero w = (w, more)
sync c status resolves (suc fuel) w =
    continue_with (sync c status resolves fuel) (sync_round c (status fuel) (resolves fuel) w)
