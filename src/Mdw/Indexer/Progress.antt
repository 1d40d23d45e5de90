-- ===== src/Mdw/Indexer/Progress.antt =====
-- How far the walk has come, and that it leaves no gap.
use superhero_api.Base.{
  ℕ, zero, suc, ◌-◌, ◌≤◌, ◌<◌, Bool, true, false, ◌&&◌, Option, none, some, ◌≡◌, ◌≢◌, refl, sym,
  subst, arith, ltb, leb, if◌then◌else◌, or_else, Bool-cases, inl, inr,
}
use superhero_api.Base.Int.{ℤ, pos, negsuc}
use superhero_api.Mdw.Indexer.{
  Settings, World, Range, SyncState, Outcome, complete, failed, more, below, is_positive, advance,
  sync_down, sync_from, sync_known, sync_round, with_state, mode_events,
}
use superhero_api.Mdw.Indexer.Ranges.{
  is_synced, descend-keeps, descend-resolves, descend-state, descend-ok,
}

abbrev pub is_above : ℤ → ℕ → Bool
is_above (pos b) h = ltb b h
is_above (negsuc b) h = true

-- The marker of a walk from `top`: every height above it, up to the top, is synced.
pub record IsDown (top : ℕ) (b : ℤ) (w : World) : Type 0 where
  pub st : SyncState
  pub has_state : w.state ≡ some st
  pub marker : st.backward_synced_height ≡ some b
  pub no_gap : (h : ℕ) → (is_above b h && leb h top) ≡ true → is_synced h w ≡ true

-- Where a round that began at a height leaves the marker.
abbrev pub Ends : ℕ → ℤ → Outcome → Type 0
Ends height b complete = is_positive b ≡ false
Ends height b failed = Unit {0}
Ends height b more = (m : ℕ) × (b ≡ pos m) × (m < height)

abbrev pub height_of : ℤ → ℕ
height_of (pos n) = n
height_of (negsuc n) = 0

abbrev pub HasEnded : ℕ → ℕ → World × Outcome → Type 0
HasEnded top height r = (b : ℤ) × IsDown top b r.0 × Ends height b r.1

above-below : (start h : ℕ) → is_above (below start) h ≡ leb start h
above-below start h = ground arith

if-Ends :
    (height : ℕ) (b : ℤ)
    → (is_positive b ≡ true → (m : ℕ) × (b ≡ pos m) × (m < height))
    → Ends height b (if is_positive b then more else complete)
if-Ends height b f = elim (Bool-cases (is_positive b)) [
  | inl e ↦ subst (λ t. Ends height b (if t then more else complete)) (sym e) (f e)
  | inr e ↦ subst (λ t. Ends height b (if t then more else complete)) (sym e) e
]

below-Ends :
    (start height : ℕ)
    → start ≤ height
    → 0 < height
    → Ends height (below start) (if is_positive (below start) then more else complete)
below-Ends start height le some_left =
    if-Ends height (below start) (λ e. (start - 1, ground arith, omega arith))

advance-fine :
    (start : ℕ) (st : SyncState) (m : World × Bool) → m.1 ≡ true → (advance start st m).1 ≢ failed
advance-fine start st (w, false) e h = cc
advance-fine start st (w, true) e h = ground arith

module _ (top start end : ℕ) (st : SyncState) (old : World)
    (marker : st.backward_synced_height ≡ some (pos end)) (le : start ≤ end) (some_left : 0 < end)
    (no_gap : (h : ℕ) → (is_above (pos end) h && leb h top) ≡ true → is_synced h old ≡ true) where
  -- The end of a round that has tried to store the heights from `start` to `end`.
  advance-HasEnded :
      (m : World × Bool)
      → m.0.state ≡ some st
      → ((h : ℕ) → is_synced h old ≡ true → is_synced h m.0 ≡ true)
      → ((h : ℕ) → m.1 ≡ true → start ≤ h → h ≤ end → is_synced h m.0 ≡ true)
      → HasEnded top end (advance start st m)
  advance-HasEnded (w, false) state keeps resolves = (
    pos end,
    record { st = st; has_state = state; marker = marker; no_gap = λ h e. keeps h (no_gap h e) },
    tt,
  )
  advance-HasEnded (w, true) state keeps resolves = (
    below start,
    record {
      st = record st {
        backward_synced_height = some (below start);
        last_synced_height = below start;
      };
      has_state = refl;
      marker = refl;
      no_gap = λ h e. elim (Bool-cases (leb h end)) [
        | inl low ↦ resolves h refl (ground (arith, above-below start h)) (ground arith)
        | inr high ↦ keeps h (no_gap h (ground arith))
      ];
    },
    below-Ends start end le some_left,
  )

module _ (c : Settings) (some_worker : 0 < c.parallel_workers)
    (some_block : 0 < c.bulk_mode_batch_blocks) (some_fill : 0 < c.backfill_batch_blocks) (top : ℕ)
    (resolves : Range → Bool) where
  sync_down-HasEnded :
      (st : SyncState) (n : ℕ) (w : World)
      → st.backward_synced_height ≡ some (pos (suc n))
      → ((h : ℕ) → (is_above (pos (suc n)) h && leb h top) ≡ true → is_synced h w ≡ true)
      → HasEnded top (suc n) (sync_down c resolves st (suc n) w)
  sync_down-HasEnded st n w marker no_gap =
      advance-HasEnded top _ (suc n) st' started marker (ground arith) (omega arith) no_gap _
        (descend-state c resolves some_worker bulk _ (suc n) started)
        (λ h e. descend-keeps c resolves some_worker bulk _ (suc n) h started e)
        (λ h ok lo hi.
          descend-resolves c resolves some_worker bulk _ (suc n) h started some_block ok lo hi)
    where
      bulk : Bool
      bulk = ltb c.bulk_mode_threshold (suc n)

      st' : SyncState
      st' = record st { is_bulk_mode = bulk }

      started : World
      started = record (with_state st' w) { emitted = mode_events st.is_bulk_mode bulk w.emitted }

  sync_from-HasEnded :
      (st : SyncState) (b : ℤ) (w : World)
      → st.backward_synced_height ≡ some b
      → ((h : ℕ) → (is_above b h && leb h top) ≡ true → is_synced h w ≡ true)
      → HasEnded top (height_of b) (sync_from c resolves st b w)
  sync_from-HasEnded st (negsuc n) w marker no_gap =
      (negsuc n, record { st = st; has_state = refl; marker = marker; no_gap = no_gap }, refl)
  sync_from-HasEnded st (pos zero) w marker no_gap =
      (pos zero, record { st = st; has_state = refl; marker = marker; no_gap = no_gap }, refl)
  sync_from-HasEnded st (pos (suc n)) w marker no_gap = sync_down-HasEnded st n w marker no_gap

  -- A round keeps the heights above its marker synced.
  pub sync_round-HasEnded :
      (status : Option ℕ) (b : ℤ) (w : World)
      → IsDown top b w
      → HasEnded top (height_of b) (sync_round c status resolves w)
  unfolding sync_round
  sync_round-HasEnded none b w d =
      subst (λ o. HasEnded top (height_of b) (sync_known c none resolves o w)) (sym d.has_state)
        (b, d, tt)
  sync_round-HasEnded (some tip) b w d =
      subst (λ o. HasEnded top (height_of b) (sync_known c (some tip) resolves o w))
        (sym d.has_state)
        (subst
          (λ o.
            HasEnded top (height_of b)
              (sync_from c resolves (record d.st { tip_height = tip }) (or_else o (pos tip)) w))
          (sym d.marker)
          (sync_from-HasEnded (record d.st { tip_height = tip }) b w d.marker d.no_gap))

  sync_from-fine :
      (st : SyncState) (b : ℤ) (w : World)
      → ((r : Range) → resolves r ≡ true)
      → (sync_from c resolves st b w).1 ≢ failed
  sync_from-fine st (negsuc n) w all h = cc
  sync_from-fine st (pos zero) w all h = cc
  sync_from-fine st (pos (suc n)) w all h =
      advance-fine _ (record st { is_bulk_mode = ltb c.bulk_mode_threshold (suc n) }) _
        (descend-ok c resolves some_worker _ _ (suc n) _ all) h

  pub sync_round-fine :
      (tip : ℕ) (b : ℤ) (w : World)
      → IsDown top b w
      → ((r : Range) → resolves r ≡ true)
      → (sync_round c (some tip) resolves w).1 ≢ failed
  unfolding sync_round
  sync_round-fine tip b w d all =
      subst (λ o. (sync_known c (some tip) resolves o w).1 ≢ failed) (sym d.has_state)
        (sync_from-fine (record d.st { tip_height = tip })
          (or_else d.st.backward_synced_height (pos tip)) w all)
