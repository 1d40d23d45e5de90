-- ===== src/Rooms/Balances/Transfers/Noted.antt =====
-- The holders that a transaction collects as changed.
use superhero_api.Base.{
  ℕ, true, false, ◌||◌, Option, none, some, List, [], ◌∷◌, ◌≡◌, arith, ◌==◌, or_else, is_some,
  includes, includes-append, includes_eq, find,
}
use superhero_api.Base.Pages.{each}
use superhero_api.Rooms.Store.{TokenBalance, World}
use superhero_api.Rooms.Eligibility.{is_holder, balance_of}
use superhero_api.Rooms.Balances.{
  Delta, credit, debit, next_balance, balance_at, apply_to, apply_delta,
}
use superhero_api.Rooms.Balances.Upsert.{balance_at-apply_delta}
use superhero_api.Rooms.Balances.Transfers.{
  DecodedEvent, Applied, add_holder, apply_leg, apply_amount, apply_transfer,
}

-- An upsert that reports no change leaves the holder's balance.
apply_to-none :
    (token holder : ℕ) (d : Delta) (height : ℕ) (e : Option TokenBalance) (w : World)
    → is_some (apply_to token holder d height e w).1 ≡ false
    → next_balance (or_else (balance_of e) 0) d ≡ or_else (balance_of e) 0
apply_to-none token holder d height (some b) w h = ground arith
apply_to-none token holder d height none w h = cc

apply_delta-none :
    (token holder : ℕ) (d : Delta) (height : ℕ) (w : World)
    → is_some (apply_delta token holder d height w).1 ≡ false
    → next_balance (balance_at token holder w) d ≡ balance_at token holder w
unfolding apply_delta
apply_delta-none token holder d height w h =
    apply_to-none token holder d height (find (is_holder token holder) w.balances) w h

includes-add_holder :
    (a holder : ℕ) (xs : List ℕ)
    → includes a (add_holder holder xs) ≡ (includes a xs || holder == a)
includes-add_holder a holder xs =
    ground (arith, includes-append a xs (holder ∷ []), includes_eq a holder xs)

module _ (token height holder' start : ℕ) where
  -- The holder has what it started with, or is among those that changed.
  abbrev pub IsNoted : Applied → Type 0
  IsNoted s = (balance_at token holder' s.world == start || includes holder' s.changed) ≡ true

  apply_leg-IsNoted :
      (holder : ℕ) (d : Delta) (s : Applied)
      → IsNoted s
      → IsNoted (apply_leg token holder d height s)
  unfolding apply_leg
  apply_leg-IsNoted holder d s h = ground (
    arith,
    balance_at-apply_delta token holder d height token holder' s.world,
    apply_delta-none token holder d height s.world,
    includes-add_holder holder' holder s.changed,
  )

  apply_amount-IsNoted :
      (from to : ℕ) (value : Option ℕ) (s : Applied)
      → IsNoted s
      → IsNoted (apply_amount token height from to value s)
  apply_amount-IsNoted from to none s h = h
  apply_amount-IsNoted from to (some v) s h = ground (
    arith,
    apply_leg-IsNoted from (debit v) s h,
    apply_leg-IsNoted to (credit v) (apply_leg token from (debit v) height s),
  )

  pub each-IsNoted :
      (es : List DecodedEvent) (s : Applied)
      → IsNoted s
      → IsNoted (each (apply_transfer token height) s es)
  unfolding apply_transfer
  each-IsNoted [] s h = h
  each-IsNoted (e ∷ es) s h =
      each-IsNoted es (apply_transfer token height s e)
        (apply_amount-IsNoted e.from e.to e.value s h)
