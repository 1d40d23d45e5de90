-- ===== src/Rooms/Balances/Transfers/Legs.antt =====
-- The balances after the transfers of a transaction.
use superhero_api.Base.{
  ℕ, ◌+◌, ◌-◌, Bool, true, false, not, ◌&&◌, Option, none, some, List, [], ◌∷◌, ◌≡◌, ap, ◌∙◌, arith,
  ◌==◌, if◌then◌else◌, or_else,
}
use superhero_api.Base.Pages.{each}
use superhero_api.Rooms.Balances.{Delta, credit, debit, next_balance, balance_at}
use superhero_api.Rooms.Balances.Keyed.{same_key}
use superhero_api.Rooms.Balances.Upsert.{balance_at-apply_delta}
use superhero_api.Rooms.Balances.Transfers.{
  DecodedEvent, Applied, apply_leg, apply_amount, apply_transfer,
}

-- What a transfer takes from a holder and gives to it.
abbrev pub amount_if : Bool → Option ℕ → ℕ
amount_if false v = 0
amount_if true v = or_else v 0

abbrev pub sent : ℕ → DecodedEvent → ℕ
sent holder e = amount_if (not (holder == 0) && e.from == holder) e.value

abbrev pub received : ℕ → DecodedEvent → ℕ
received holder e = amount_if (not (holder == 0) && e.to == holder) e.value

-- A ledger's entry for a holder, after a transfer: it pays what it has, at most.
abbrev pub settle_transfer : ℕ → ℕ → DecodedEvent → ℕ
settle_transfer holder balance e = balance - sent holder e + received holder e

if_through :
    (b : Bool) (f : ℕ → ℕ) (x y z : ℕ)
    → x ≡ (if b then y else z)
    → (if b then f x else x) ≡ (if b then f y else z)
if_through true f x y z e = ap f e
if_through false f x y z e = e

module _ (token : ℕ) (height : ℕ) (token' holder' : ℕ) where
  balance_at-apply_leg :
      (holder : ℕ) (d : Delta) (s : Applied)
      → balance_at token' holder' (apply_leg token holder d height s).world ≡ (
          if not (holder == 0) && same_key token holder token' holder'
          then next_balance (balance_at token' holder' s.world) d
          else balance_at token' holder' s.world)
  unfolding apply_leg
  balance_at-apply_leg holder d s =
      ground (arith, balance_at-apply_delta token holder d height token' holder' s.world)

  balance_at-apply_amount :
      (from to : ℕ) (value : Option ℕ) (s : Applied)
      → balance_at token' holder' (apply_amount token height from to value s).world ≡ (
          if token == token'
          then balance_at token' holder' s.world
            - amount_if (not (holder' == 0) && from == holder') value
            + amount_if (not (holder' == 0) && to == holder') value
          else balance_at token' holder' s.world)
  unfolding next_balance
  balance_at-apply_amount from to none s = ground arith
  balance_at-apply_amount from to (some v) s = ground (
    arith,
    balance_at-apply_leg from (debit v) s,
    balance_at-apply_leg to (credit v) (apply_leg token from (debit v) height s),
  )

  balance_at-apply_transfer :
      (e : DecodedEvent) (s : Applied)
      → balance_at token' holder' (apply_transfer token height s e).world ≡ (
          if token == token'
          then settle_transfer holder' (balance_at token' holder' s.world) e
          else balance_at token' holder' s.world)
  unfolding apply_transfer
  balance_at-apply_transfer e s = balance_at-apply_amount e.from e.to e.value s

  pub balance_at-each :
      (es : List DecodedEvent) (s : Applied)
      → balance_at token' holder' (each (apply_transfer token height) s es).world ≡ (
          if token == token'
          then each (settle_transfer holder') (balance_at token' holder' s.world) es
          else balance_at token' holder' s.world)
  balance_at-each [] s = ground arith
  balance_at-each (e ∷ es) s =
      balance_at-each es (apply_transfer token height s e)
      ∙ if_through (token == token') (λ n. each (settle_transfer holder') n es) _ _ _
          (balance_at-apply_transfer e s)
