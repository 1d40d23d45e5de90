-- ===== src/Rooms/Balances/Transfers/Once.antt =====
-- A transaction that has been applied is not applied again.
use superhero_api.Base.{
  ℕ, Bool, true, false, not, ◌&&◌, List, [], ◌∷◌, ◌≡◌, refl, sym, subst, arith, ◌==◌, All, update,
}
use superhero_api.Rooms.Balances.{is_community_token}
use superhero_api.Rooms.Balances.Transfers.{
  DecodedEvent, Tx, Synced, mark, mark_applied, apply_transfers, process_transaction,
  extract_transfers,
}
use superhero_api.Rooms.Balances.Transfers.Settled.{counts}

-- The row is another transaction's, or carries the marker, if the marker was stored.
abbrev pub IsMarked : Bool → ℕ → Tx → Type 0
IsMarked saves hash t = (saves && t.hash == hash && not t.applied) ≡ false

All-mark :
    (hash : ℕ) (rows : List Tx) → All (IsMarked true hash) (update (λ t. t.hash == hash) mark rows)
All-mark hash [] = tt
All-mark hash (t ∷ rows) = (ground arith, All-mark hash rows)

All-unsaved : (hash : ℕ) (rows : List Tx) → All (IsMarked false hash) rows
All-unsaved hash [] = tt
All-unsaved hash (t ∷ rows) = (refl, All-unsaved hash rows)

module _ (tx : Tx) where
  apply_transfers-All :
      (saves : Bool) (es : List DecodedEvent) (s : Synced)
      → All (IsMarked saves tx.hash) (apply_transfers saves tx es s).0.stored
  unfolding mark_applied
  apply_transfers-All true [] s = All-mark tx.hash s.stored
  apply_transfers-All false [] s = All-unsaved tx.hash s.stored
  apply_transfers-All true (e ∷ es) s = All-mark tx.hash s.stored
  apply_transfers-All false (e ∷ es) s = All-unsaved tx.hash s.stored

  apply_transfers-marks :
      (saves : Bool) (es : List DecodedEvent) (s : Synced)
      → (apply_transfers saves tx es s).1 ≡ mark tx
  unfolding mark_applied
  apply_transfers-marks saves [] s = refl
  apply_transfers-marks saves (e ∷ es) s = refl

-- A transaction with the marker changes nothing.
process_transaction-applied :
    (ttl now : ℕ) (saves : Bool) (tx : Tx) (s : Synced)
    → tx.applied ≡ true
    → (process_transaction ttl now saves tx s).0.world ≡ s.world
unfolding process_transaction
process_transaction-applied ttl now saves tx s h = ground arith

module _ (ttl now : ℕ) (saves : Bool) (tx : Tx) (s : Synced) (h : counts tx s ≡ true) where
  asked : Synced
  asked = record s { allowlist = (is_community_token ttl now tx.contract_id s.allowlist).0 }

  process_transaction-counts :
      process_transaction ttl now saves tx s ≡ apply_transfers saves tx (extract_transfers tx) asked
  unfolding process_transaction is_community_token asked
  process_transaction-counts = ground arith

  process_transaction-case :
      (Q : Synced × Tx → Type 0)
      → ((s' : Synced) → Q (apply_transfers saves tx (extract_transfers tx) s'))
      → Q (process_transaction ttl now saves tx s)
  process_transaction-case Q q = subst Q (sym process_transaction-counts) (q asked)

-- Once a transaction of an indexed token has been processed, its object carries the marker, with
-- which a second run, at any time and in any later state, changes no balance and emits nothing; where
-- the marker could be stored, every stored row of the transaction carries it too.
pub process_transaction_once :
    (ttl now : ℕ) (saves : Bool) (tx : Tx) (s : Synced) (ttl' now' : ℕ) (saves' : Bool)
    (later : Synced)
    → counts tx s ≡ true
    → ((process_transaction ttl' now' saves'
          (process_transaction ttl now saves tx s).1
          later).0.world
        ≡ later.world)
      × All (IsMarked saves tx.hash) (process_transaction ttl now saves tx s).0.stored
process_transaction_once ttl now saves tx s ttl' now' saves' later h =
    process_transaction-case ttl now saves tx s h
      (λ r.
        ((process_transaction ttl' now' saves' r.1 later).0.world ≡ later.world)
        × All (IsMarked saves tx.hash) r.0.stored)
      λ s'. (
        process_transaction-applied ttl' now' saves'
            (apply_transfers saves tx (extract_transfers tx) s').1 later
            (ground (arith, apply_transfers-marks tx saves (extract_transfers tx) s')),
        apply_transfers-All tx saves (extract_transfers tx) s',
      )
