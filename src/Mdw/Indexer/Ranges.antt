-- ===== src/Mdw/Indexer/Ranges.antt =====
-- The ranges that a round of the walk syncs.
use superhero_api.Base.{
  ℕ, zero, suc, ◌-◌, ◌≤◌, ◌<◌, Bool, true, false, ◌&&◌, ◌||◌, List, [], ◌∷◌, ◌≡◌, refl, ◌∙◌, arith,
  leb, take, drop, length, any, Bool-cases, inl, inr,
}
use superhero_api.Base.Count.{length-take-drop}
use superhero_api.Mdw.Indexer.{
  Settings, World, Range, sync_range, split_ranges, sync_all, unless_failed, sync_batches,
  sync_blocks_parallel_backward, descend,
}

abbrev pub in_range : ℕ → Range → Bool
in_range h r = leb r.start h && leb h r.end

-- Whether a height lies in a range whose sync has resolved.
abbrev pub is_synced : ℕ → World → Bool
is_synced h w = any (in_range h) w.synced

split_ranges-covers :
    (fuel batch start i h : ℕ)
    → 0 < batch
    → i < fuel
    → start ≤ h
    → h ≤ i
    → any (in_range h) (split_ranges fuel batch start i) ≡ true
split_ranges-covers zero batch start i h b f lo hi = absurd (omega arith)
split_ranges-covers (suc fuel) batch start i h b f lo hi =
    ground (arith, split_ranges-covers fuel batch start (i - batch) h b)

any-take-drop :
    (p : Range → Bool) (n : ℕ) (rs : List Range)
    → (any p (take n rs) || any p (drop n rs)) ≡ any p rs
any-take-drop p zero rs = refl
any-take-drop p (suc n) [] = refl
any-take-drop p (suc n) (r ∷ rs) = ground (arith, any-take-drop p n rs)

length-take_pos : (n : ℕ) (r : Range) (rs : List Range) → 0 < n → 0 < length (take n (r ∷ rs))
length-take_pos zero r rs h = absurd (omega arith)
length-take_pos (suc n) r rs h = omega arith

module _ (resolves : Range → Bool) (p : Range → Bool) where
  -- A batch keeps what is synced, and syncs all of its ranges if it succeeds.
  sync_all-keeps :
      (rs : List Range) (w : World)
      → any p w.synced ≡ true
      → any p (sync_all resolves rs w).0.synced ≡ true
  sync_all-keeps [] w h = h
  sync_all-keeps (r ∷ rs) w h = ground (arith, sync_all-keeps rs (sync_range resolves r w).0)

  sync_all-resolves :
      (rs : List Range) (w : World)
      → (sync_all resolves rs w).1 ≡ true
      → any p rs ≡ true
      → any p (sync_all resolves rs w).0.synced ≡ true
  sync_all-resolves [] w ok h = cc
  sync_all-resolves (r ∷ rs) w ok h = ground (
    arith,
    sync_all-resolves rs (sync_range resolves r w).0,
    sync_all-keeps rs (sync_range resolves r w).0,
  )

  sync_all-state : (rs : List Range) (w : World) → (sync_all resolves rs w).0.state ≡ w.state
  sync_all-state [] w = refl
  sync_all-state (r ∷ rs) w = ground (arith, sync_all-state rs (sync_range resolves r w).0)

  sync_all-ok :
      ((r : Range) → resolves r ≡ true)
      → (rs : List Range) (w : World) → (sync_all resolves rs w).1 ≡ true
  sync_all-ok all [] w = refl
  sync_all-ok all (r ∷ rs) w = ground (arith, all r, sync_all-ok all rs (sync_range resolves r w).0)

  unless_failed-synced :
      (m : World × Bool) (next : World → World × Bool) (P : World × Bool → Type 0)
      → (m.1 ≡ false → P (m.0, false))
      → (m.1 ≡ true → P (next m.0))
      → P (unless_failed m next)
  unless_failed-synced (w, false) next P stop go = stop refl
  unless_failed-synced (w, true) next P stop go = go refl

  module _ (workers : ℕ) (some_worker : 0 < workers) where
    sync_batches-keeps :
        (fuel : ℕ) (rs : List Range) (w : World)
        → any p w.synced ≡ true
        → any p (sync_batches fuel workers resolves rs w).0.synced ≡ true
    sync_batches-keeps zero rs w h = h
    sync_batches-keeps (suc fuel) [] w h = h
    sync_batches-keeps (suc fuel) (r ∷ rs) w h =
        unless_failed-synced (sync_all resolves (take workers (r ∷ rs)) w) _
          (λ m. any p m.0.synced ≡ true) (λ e. sync_all-keeps (take workers (r ∷ rs)) w h)
          λ e.
            sync_batches-keeps fuel (drop workers (r ∷ rs)) _
              (sync_all-keeps (take workers (r ∷ rs)) w h)

    sync_batches-resolves :
        (fuel : ℕ) (rs : List Range) (w : World)
        → length rs ≤ fuel
        → (sync_batches fuel workers resolves rs w).1 ≡ true
        → any p rs ≡ true
        → any p (sync_batches fuel workers resolves rs w).0.synced ≡ true
    sync_batches-resolves fuel [] w f ok h = cc
    sync_batches-resolves zero (r ∷ rs) w f ok h = absurd (omega arith)
    sync_batches-resolves (suc fuel) (r ∷ rs) w f ok h =
        unless_failed-synced (sync_all resolves (take workers (r ∷ rs)) w) _
          (λ m. m.1 ≡ true → any p m.0.synced ≡ true) (λ e bad. cc)
          (λ e done. elim (Bool-cases (any p (drop workers (r ∷ rs)))) [
            | inl late ↦
                sync_batches-resolves fuel (drop workers (r ∷ rs)) _
                  (omega (
                    arith,
                    length-take-drop workers (r ∷ rs),
                    length-take_pos workers r rs some_worker,
                  ))
                  done late
            | inr soon ↦ sync_batches-keeps fuel (drop workers (r ∷ rs)) _ (
                sync_all-resolves (take workers (r ∷ rs)) w e
                  (ground (arith, any-take-drop p workers (r ∷ rs))))
          ])
          ok

    sync_batches-state :
        (fuel : ℕ) (rs : List Range) (w : World)
        → (sync_batches fuel workers resolves rs w).0.state ≡ w.state
    sync_batches-state zero rs w = refl
    sync_batches-state (suc fuel) [] w = refl
    sync_batches-state (suc fuel) (r ∷ rs) w =
        unless_failed-synced (sync_all resolves (take workers (r ∷ rs)) w) _
          (λ m. m.0.state ≡ w.state) (λ e. sync_all-state (take workers (r ∷ rs)) w)
          λ e.
            sync_batches-state fuel (drop workers (r ∷ rs)) _
            ∙ sync_all-state (take workers (r ∷ rs)) w

    sync_batches-ok :
        ((r : Range) → resolves r ≡ true)
        → (fuel : ℕ) (rs : List Range) (w : World)
        → (sync_batches fuel workers resolves rs w).1 ≡ true
    sync_batches-ok all zero rs w = refl
    sync_batches-ok all (suc fuel) [] w = refl
    sync_batches-ok all (suc fuel) (r ∷ rs) w =
        unless_failed-synced (sync_all resolves (take workers (r ∷ rs)) w) _ (λ m. m.1 ≡ true)
          (λ e. cc (sync_all-ok all (take workers (r ∷ rs)) w))
          λ e. sync_batches-ok all fuel (drop workers (r ∷ rs)) _

module _ (c : Settings) (resolves : Range → Bool) (some_worker : 0 < c.parallel_workers) where
  pub descend-keeps :
      (bulk : Bool) (start end h : ℕ) (w : World)
      → is_synced h w ≡ true
      → is_synced h (descend c resolves bulk start end w).0 ≡ true
  unfolding sync_blocks_parallel_backward
  descend-keeps true start end h w e =
      sync_batches-keeps resolves (in_range h) c.parallel_workers some_worker _ _ w e
  descend-keeps false start end h w e = ground arith

  -- A success has synced every height of the range.
  pub descend-resolves :
      (bulk : Bool) (start end h : ℕ) (w : World)
      → 0 < c.bulk_mode_batch_blocks
      → (descend c resolves bulk start end w).1 ≡ true
      → start ≤ h
      → h ≤ end
      → is_synced h (descend c resolves bulk start end w).0 ≡ true
  unfolding sync_blocks_parallel_backward
  descend-resolves true start end h w b ok lo hi =
      sync_batches-resolves resolves (in_range h) c.parallel_workers some_worker _ _ w (omega arith)
        ok
        (split_ranges-covers (suc end) c.bulk_mode_batch_blocks start end h b (omega arith) lo hi)
  descend-resolves false start end h w b ok lo hi = ground arith

  pub descend-state :
      (bulk : Bool) (start end : ℕ) (w : World)
      → (descend c resolves bulk start end w).0.state ≡ w.state
  unfolding sync_blocks_parallel_backward
  descend-state true start end w =
      sync_batches-state resolves (λ r. true) c.parallel_workers some_worker _ _ w
  descend-state false start end w = ground arith

  pub descend-ok :
      (bulk : Bool) (start end : ℕ) (w : World)
      → ((r : Range) → resolves r ≡ true)
      → (descend c resolves bulk start end w).1 ≡ true
  unfolding sync_blocks_parallel_backward
  descend-ok true start end w all =
      sync_batches-ok resolves (λ r. true) c.parallel_workers some_worker all _ _ w
  descend-ok false start end w all = ground (arith, all (record { start = start; end = end }))
