-- ===== src/Rooms/Balances/Transfers.antt =====
-- src/token-gated-rooms/plugins/aex9-transfer-sync.service.ts: the `Transfer` events of a transaction
-- move balances, once. The decoder of a contract's events (the SDK with the token's interface) is a
-- parameter, and so is whether the marker could be stored.
pub mod Noted
pub mod Legs
pub mod Settled
pub mod Once
use superhero_api.Base.{
  ℕ, Bool, true, false, not, ◌&&◌, ◌||◌, Option, none, some, List, [], ◌∷◌, ◌++◌, ◌==◌, ltb,
  if◌then◌else◌, or_else, is_some, includes, find, update, select,
}
use superhero_api.Base.Pages.{each}
use superhero_api.Rooms.Store.{World}
use superhero_api.Rooms.Balances.{
  Allowlist, is_community_token, Delta, credit, debit, apply_delta, emit_balance_changed,
}

pub data EventName : Type 0 where
  transfer other : EventName

abbrev pub is_transfer : EventName → Bool
is_transfer transfer = true
is_transfer other = false

-- A decoded event: `value` is the amount, or `none` where it is not finite or negative.
pub record DecodedEvent : Type 0 where
  pub name : EventName
  pub from : ℕ
  pub to : ℕ
  pub value : Option ℕ

-- A transaction: `log` tells whether the node reported a log, `decoded` is the array under
-- tx.logs[name].data, and `applied` is the marker under tx.data[name].
pub record Tx : Type 0 where
  pub hash : ℕ
  pub contract_id : ℕ
  pub block_height : Option ℕ
  pub log : Bool
  pub decoded : Option (List DecodedEvent)
  pub applied : Bool

abbrev pub transfers_only : List DecodedEvent → List DecodedEvent
transfers_only = select (λ e. is_transfer e.name)

abbrev pub unless_empty : List DecodedEvent → Option (List DecodedEvent)
unless_empty [] = none
unless_empty (e ∷ es) = some (e ∷ es)

abbrev pub keep_transfers : Option (List DecodedEvent) → Option (List DecodedEvent)
keep_transfers none = none
keep_transfers (some events) = unless_empty (transfers_only events)

-- decodeLogs; `decode` gives `none` where it throws.
unfoldable pub decode_logs : (Tx → Option (List DecodedEvent)) → Tx → Option (List DecodedEvent)
decode_logs decode tx =
    if not tx.log || tx.contract_id == 0 then none else keep_transfers (decode tx)

unfoldable pub extract_transfers : Tx → List DecodedEvent
extract_transfers tx = transfers_only (or_else tx.decoded [])

-- The transactions as they are stored, beside the world and the allowlist.
pub record Synced : Type 0 where
  pub world : World
  pub allowlist : Allowlist
  pub stored : List Tx

abbrev pub mark : Tx → Tx
mark tx = record tx { applied = true }

-- markApplied: the object in memory is marked in any case.
unfoldable pub mark_applied : Bool → Tx → Synced → Synced × Tx
mark_applied saves tx s = (
  if saves then record s { stored = update (λ (t : Tx). t.hash == tx.hash) mark s.stored } else s,
  mark tx,
)

-- The world and `changedHolders`, in the order of their first change.
pub record Applied : Type 0 where
  pub world : World
  pub changed : List ℕ

abbrev pub add_holder : ℕ → List ℕ → List ℕ
add_holder holder xs = if includes holder xs then xs else xs ++ holder ∷ []

abbrev pub note_change : ℕ → List ℕ → World × Option ℕ → Applied
note_change holder changed (w, next) = record {
  world = w;
  changed = if is_some next then add_holder holder changed else changed;
}

-- One side of a transfer; an empty address has none.
unfoldable pub apply_leg : ℕ → ℕ → Delta → ℕ → Applied → Applied
apply_leg token holder delta height s =
    if holder == 0
    then s
    else note_change holder s.changed (apply_delta token holder delta height s.world)

abbrev pub apply_amount : ℕ → ℕ → ℕ → ℕ → Option ℕ → Applied → Applied
apply_amount token height from to none s = s
apply_amount token height from to (some v) s =
    if v == 0
    then s
    else apply_leg token to (credit v) height (apply_leg token from (debit v) height s)

-- The body of the loop over the transfers.
unfoldable pub apply_transfer : ℕ → ℕ → Applied → DecodedEvent → Applied
unfolding apply_leg
apply_transfer token height s e = apply_amount token height e.from e.to e.value s

abbrev pub announce_all : ℕ → World → List ℕ → World
announce_all token = each (λ w holder. emit_balance_changed token holder w)

abbrev pub finish : ℕ → Applied → Synced × Tx → Synced × Tx
finish token a (s, tx) = (record s { world = announce_all token a.world a.changed }, tx)

abbrev pub apply_transfers : Bool → Tx → List DecodedEvent → Synced → Synced × Tx
apply_transfers saves tx [] s = mark_applied saves tx s
apply_transfers saves tx (e ∷ es) s =
    finish tx.contract_id
      (each (apply_transfer tx.contract_id (or_else tx.block_height 0))
        (record { world = s.world; changed = [] }) (e ∷ es))
      (mark_applied saves tx s)

abbrev pub process_allowed : Bool → Tx → Synced → Bool → Synced × Tx
process_allowed saves tx s allowed =
    if not allowed
    then (s, tx)
    else if tx.applied
    then (s, tx)
    else apply_transfers saves tx (extract_transfers tx) s

-- processTransaction: the state, and the transaction's object.
unfoldable pub process_transaction : ℕ → ℕ → Bool → Tx → Synced → Synced × Tx
unfolding extract_transfers mark_applied
process_transaction ttl now saves tx s =
    if tx.contract_id == 0
    then (s, tx)
    else let (a, allowed) = is_community_token ttl now tx.contract_id s.allowlist in
      process_allowed saves tx (record s { allowlist = a }) allowed
