-- ===== src/Rooms/Drift.antt =====
-- src/token-gated-rooms/services/reconciliation.service.ts: the difference between the members that the
-- relay has and those that the ledger wants, in reconcileRoom, and the publishes that correct it.
-- `relay` is the relay's member list, in the order in which the set is walked.
pub mod Corrected
use superhero_api.Base.{
  ℕ, Bool, true, false, not, ◌&&◌, Option, none, some, List, [], ◌∷◌, ◌==◌, leb, if◌then◌else◌,
  includes, lookup, select, update,
}
use superhero_api.Base.Pages.{each}
use superhero_api.Rooms.Store.{admin, is_admin, Membership, World}
use superhero_api.Rooms.Config.{Config, is_configured_admin}
use superhero_api.Rooms.Nip29.{put_user, remove_user}
use superhero_api.Rooms.Eligibility.{is_set}
use superhero_api.Rooms.Sync.{enqueue, text_of}

unfoldable pub is_within_reorg_hold : Option ℕ → Option ℕ → Bool
is_within_reorg_hold none current = false
is_within_reorg_hold (some height) none = true
is_within_reorg_hold (some height) (some current) = not (leb height current)

-- Eligible and linked, and not on the relay.
abbrev pub is_missing_member : List ℕ → Membership → Bool
is_missing_member relay row =
    row.eligible && is_set row.member_pubkey && not (includes (text_of row.member_pubkey) relay)

unfoldable pub to_add : List ℕ → List Membership → List Membership
to_add relay rows = select (is_missing_member relay) rows

-- `byPubkey`: a later row of a pubkey hides an earlier one.
abbrev pub index_row : List (ℕ × Membership) → Membership → List (ℕ × Membership)
index_row m row = if is_set row.member_pubkey then (text_of row.member_pubkey, row) ∷ m else m

abbrev pub by_pubkey : List Membership → List (ℕ × Membership)
by_pubkey = each index_row []

abbrev pub is_removable : Option ℕ → Membership → Bool
is_removable current row =
    not (is_admin row.role)
    && not row.eligible
    && not (is_within_reorg_hold row.held_until_height current)

-- The row of one pubkey on the relay, put in front of the rest if it is to be removed.
abbrev pub add_removal : Option ℕ → Option Membership → List Membership → List Membership
add_removal current none rest = rest
add_removal current (some row) rest = if is_removable current row then row ∷ rest else rest

abbrev pub removals : Config → Option ℕ → List (ℕ × Membership) → List ℕ → List Membership
removals c current index [] = []
removals c current index (pubkey ∷ relay) =
    let rest = removals c current index relay in
    if is_configured_admin c (some pubkey)
    then rest
    else add_removal current (lookup pubkey index) rest

unfoldable pub to_remove : Config → Option ℕ → List ℕ → List Membership → List Membership
to_remove c current relay rows = removals c current (by_pubkey rows) relay

abbrev pub enqueue_add : ℕ → ℕ → World → Membership → World
enqueue_add group sale w row =
    enqueue
      (put_user group (text_of row.member_pubkey) (if is_admin row.role then some admin else none))
      group sale "reconcile:reconcile-readd" w

abbrev pub enqueue_remove : ℕ → ℕ → World → Membership → World
enqueue_remove group sale w row =
    enqueue (remove_user group (text_of row.member_pubkey)) group sale
      "reconcile:reconcile-reremove" w

-- The corrective publishes of one room.
unfoldable pub publish_drift : Config → List ℕ → ℕ → ℕ → World → World
publish_drift c relay group sale w =
    let rows = select (λ m. m.sale_address == sale) w.memberships in
    each (enqueue_remove group sale) (each (enqueue_add group sale) w (to_add relay rows))
      (to_remove c w.tip_height relay rows)

unfoldable pub mark_reconciled : ℕ → ℕ → World → World
mark_reconciled now sale w = record w {
  memberships =
      update (λ m. m.sale_address == sale) (λ m. record m { last_reconciled_at = some now })
        w.memberships;
}
