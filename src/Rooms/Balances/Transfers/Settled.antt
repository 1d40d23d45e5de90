-- ===== src/Rooms/Balances/Transfers/Settled.antt =====
-- The balances after a transaction, and who is told of them.
use superhero_api.Base.{
  ℕ, Bool, true, false, not, ◌&&◌, ◌||◌, List, [], ◌∷◌, ◌≡◌, refl, ap, ◌∙◌, arith, ◌==◌,
  if◌then◌else◌, or_else, includes, any, find,
}
use superhero_api.Base.Pages.{each}
use superhero_api.Rooms.Store.{World, Event, balance_changed}
use superhero_api.Rooms.Eligibility.{is_holder, balance_of}
use superhero_api.Rooms.Balances.{is_community_token, balance_at, emit_balance_changed}
use superhero_api.Rooms.Balances.Transfers.{
  DecodedEvent, Tx, Synced, Applied, apply_transfer, announce_all, extract_transfers,
  apply_transfers, process_allowed, process_transaction, mark_applied,
}
use superhero_api.Rooms.Balances.Transfers.Legs.{settle_transfer, balance_at-each}
use superhero_api.Rooms.Balances.Transfers.Noted.{IsNoted, each-IsNoted}

-- Whether a change of the holder's balance has been emitted.
abbrev pub is_change_of : ℕ → ℕ → Event → Bool
is_change_of token holder (balance_changed t h) = t == token && h == holder
is_change_of token holder _ = false

abbrev pub announced : ℕ → ℕ → World → Bool
announced token holder w = any (is_change_of token holder) w.emitted

balances-announce_all :
    (token : ℕ) (holders : List ℕ) (w : World)
    → (announce_all token w holders).balances ≡ w.balances
unfolding emit_balance_changed
balances-announce_all token [] w = refl
balances-announce_all token (h ∷ hs) w =
    balances-announce_all token hs (emit_balance_changed token h w)

announced-announce_all :
    (token holder : ℕ) (holders : List ℕ) (w : World)
    → announced token holder (announce_all token w holders)
      ≡ (announced token holder w || includes holder holders)
unfolding emit_balance_changed
announced-announce_all token holder [] w = ground arith
announced-announce_all token holder (h ∷ hs) w =
    ground (arith, announced-announce_all token holder hs (emit_balance_changed token h w))

-- The transaction is of an indexed token, and has not been applied.
abbrev pub counts : Tx → Synced → Bool
counts tx s =
    not (tx.contract_id == 0) && includes tx.contract_id s.allowlist.addresses && not tx.applied

abbrev pub ledger_after : Tx → Synced → ℕ → ℕ → ℕ
ledger_after tx s token holder =
    if counts tx s && tx.contract_id == token
    then each (settle_transfer holder) (balance_at token holder s.world) (extract_transfers tx)
    else balance_at token holder s.world

-- Once the changed holders are announced, the holder of a changed balance is.
IsNoted-told :
    (token height holder start : ℕ) (a : Applied)
    → IsNoted token height holder start a
    → (balance_at token holder (announce_all token a.world a.changed) == start
        || announced token holder (announce_all token a.world a.changed))
      ≡ true
IsNoted-told token height holder start a h = ground (
  arith,
  ap (λ rows. or_else (balance_of (find (is_holder token holder) rows)) 0)
      (balances-announce_all token a.changed a.world),
  announced-announce_all token holder a.changed a.world,
)

module _ (saves : Bool) (tx : Tx) (s : Synced) (token holder : ℕ) where
  abbrev applied_to : List DecodedEvent → Applied
  applied_to es =
      each (apply_transfer tx.contract_id (or_else tx.block_height 0))
        (record { world = s.world; changed = [] }) es

  abbrev HasSettled : List DecodedEvent → World → Type 0
  HasSettled es w = balance_at token holder w ≡ (
      if tx.contract_id == token
      then each (settle_transfer holder) (balance_at token holder s.world) es
      else balance_at token holder s.world)

  apply_transfers-HasSettled :
      (es : List DecodedEvent) → HasSettled es (apply_transfers saves tx es s).0.world
  unfolding mark_applied
  apply_transfers-HasSettled [] = ground arith
  apply_transfers-HasSettled (e ∷ es) =
      ap (λ rows. or_else (balance_of (find (is_holder token holder) rows)) 0)
        (balances-announce_all tx.contract_id (applied_to (e ∷ es)).changed
          (applied_to (e ∷ es)).world)
      ∙ balance_at-each tx.contract_id (or_else tx.block_height 0) token holder (e ∷ es)
          (record { world = s.world; changed = [] })

  abbrev HasTold : World → Type 0
  HasTold w =
      (balance_at tx.contract_id holder w == balance_at tx.contract_id holder s.world
        || announced tx.contract_id holder w)
      ≡ true

  apply_transfers-HasTold :
      (es : List DecodedEvent) → HasTold (apply_transfers saves tx es s).0.world
  unfolding mark_applied
  apply_transfers-HasTold [] = ground arith
  apply_transfers-HasTold (e ∷ es) =
      IsNoted-told tx.contract_id (or_else tx.block_height 0) holder
        (balance_at tx.contract_id holder s.world) (applied_to (e ∷ es))
        (each-IsNoted tx.contract_id (or_else tx.block_height 0) holder
          (balance_at tx.contract_id holder s.world) (e ∷ es)
          (record { world = s.world; changed = [] }) (ground arith))

  process_allowed-HasSettled :
      (allowed : Bool)
      → balance_at token holder (process_allowed saves tx s allowed).0.world ≡ (
          if allowed && not tx.applied && tx.contract_id == token
          then each
              (settle_transfer holder)
              (balance_at token holder s.world)
              (extract_transfers tx)
          else balance_at token holder s.world)
  process_allowed-HasSettled allowed =
      ground (arith, apply_transfers-HasSettled (extract_transfers tx))

  process_allowed-HasTold : (allowed : Bool) → HasTold (process_allowed saves tx s allowed).0.world
  process_allowed-HasTold allowed = ground (arith, apply_transfers-HasTold (extract_transfers tx))

-- The table follows the ledger that the transfers describe: each transfer of an indexed token that
-- has not been applied takes from its sender, down to zero, and gives to its receiver, in order, and
-- every other balance stays. A holder whose balance differs afterwards has been announced.
pub process_transaction-Settles :
    (ttl now : ℕ) (saves : Bool) (tx : Tx) (s : Synced) (token holder : ℕ)
    → let w = (process_transaction ttl now saves tx s).0.world in
      (balance_at token holder w ≡ ledger_after tx s token holder)
      × ((balance_at tx.contract_id holder w == balance_at tx.contract_id holder s.world
            || announced tx.contract_id holder w)
          ≡ true)
unfolding process_transaction is_community_token
process_transaction-Settles ttl now saves tx s token holder = (
  ground (
    arith,
    process_allowed-HasSettled saves tx (asked s) token holder
        (includes tx.contract_id s.allowlist.addresses),
  ),
  ground (
    arith,
    process_allowed-HasTold saves tx (asked s) token holder
        (includes tx.contract_id s.allowlist.addresses),
  ),
)
  where
    asked : Synced → Synced
    asked s = record s { allowlist = (is_community_token ttl now tx.contract_id s.allowlist).0 }
